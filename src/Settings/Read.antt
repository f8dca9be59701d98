-- ===== src/Settings/Read.antt =====
-- The configuration that the reader makes of a written document.
use propmonitor.Base.{
  ℕ, ◌<◌, ◌^◌, Text, text_eq, Bool, true, false, ◌≡◌, refl, Option, none, some, if◌then◌else◌, ok,
  lt→ltb, arith,
}
use mathlib.Core.Option
use propmonitor.Base.Decimal.{show, parse_uint-show}
use propmonitor.Float.{Float}
use propmonitor.Mode
use propmonitor.Mode.{Mode, usb, lsb, am, nfm, wfm, cw, beacon}
use propmonitor.Config.{BeaconConfig, MicrowavepropConfig, UpdateConfig}
use propmonitor.Config.Load.{
  parse_bool, read_bool, read_u32, read_u64, read_f64, read_text, optional, top_optional,
  scalar_or_empty, read_http, read_microwaveprop, read_update, read_gain, read_beacon, from_map,
}
use propmonitor.Yaml.{empty}
use propmonitor.Yaml.Document.{add_items}
use propmonitor.Settings.{BeaconUpdate, MicrowavepropUpdate, redacted, bool_text}
use propmonitor.Settings.Written.{doc_items}

pub parse-as_str : (m : Mode) → Mode.parse (Mode.as_str m) ≡ ok m
unfolding Mode.parse Mode.as_str
parse-as_str usb = refl
parse-as_str lsb = refl
parse-as_str am = refl
parse-as_str nfm = refl
parse-as_str wfm = refl
parse-as_str cw = refl
parse-as_str beacon = refl

read_bool-text : (label : Text) (b : Bool) → read_bool label (bool_text b) ≡ ok b
unfolding read_bool parse_bool
read_bool-text label true = refl
read_bool-text label false = refl

read_u32-show : (label : Text) (n : ℕ) → n < 2 ^ 32 → read_u32 label (show n) ≡ ok n
unfolding read_u32
read_u32-show label n h = rw (parse_uint-show (2 ^ 64) n (omega arith), lt→ltb n (2 ^ 32) h)

read_u64-show : (label : Text) (n : ℕ) → n < 2 ^ 64 → read_u64 label (show n) ≡ ok n
unfolding read_u64
read_u64-show label n h = rw (parse_uint-show (2 ^ 64) n h)

module _ (fl : Float) where
  open fl use {F, display, parse}

  -- The number parses as itself.
  abbrev pub Reads : F → Type 0
  Reads x = parse (display x) ≡ some x

  abbrev pub ReadsGain : Option F → Type 0
  ReadsGain none = Unit
  ReadsGain (some g) = Reads g

  abbrev pub ReadsBeacon : Option (BeaconUpdate F) → Type 0
  ReadsBeacon none = Unit
  ReadsBeacon (some b) = Reads b.offset_hz × Reads b.bandwidth_hz

  abbrev pub beacon_of : Option (BeaconUpdate F) → Option (BeaconConfig F)
  beacon_of = Option.map (λ b. record { offset_hz = b.offset_hz; bandwidth_hz = b.bandwidth_hz })

  abbrev pub microwaveprop_of : Option MicrowavepropUpdate → Text → ℕ → Option MicrowavepropConfig
  microwaveprop_of none kept version = none
  microwaveprop_of (some m) kept version = some (record {
    enabled = m.enabled;
    monitor_token = if text_eq m.monitor_token redacted then kept else m.monitor_token;
    beacon_id = m.beacon_id;
    gridsquare = m.gridsquare;
    config_version = version;
  })

  pub from_map-items :
      (frequency : F) (mode : Mode) (driver : Text) (rate : F) (gain : Option F) (ppm : F)
      (period : ℕ) (beacon : Option (BeaconUpdate F)) (bind : Text)
      (microwaveprop : Option MicrowavepropUpdate) (kept : Text) (version : ℕ)
      (update : UpdateConfig)
      → Reads frequency
      → Reads rate
      → ReadsGain gain
      → Reads ppm
      → period < 2 ^ 32
      → ReadsBeacon beacon
      → version < 2 ^ 64
      → update.check_interval < 2 ^ 32
      → from_map fl (
          add_items empty (
            doc_items fl frequency
              (Mode.as_str mode)
              driver
              rate
              gain
              ppm
              period
              beacon
              bind
              microwaveprop
              kept
              version
              update))
        ≡ ok (record {
          frequency = frequency;
          mode = mode;
          sample_rate = rate;
          gain = gain;
          driver = driver;
          ppm = ppm;
          period_seconds = period;
          beacon = beacon_of beacon;
          http = record { bind = bind };
          microwaveprop = microwaveprop_of microwaveprop kept version;
          update = update;
        })
  unfolding from_map optional top_optional scalar_or_empty read_http read_microwaveprop read_update
      read_gain read_beacon read_text read_f64
  from_map-items f m d r none p n none bind none kept v u hf hr hg hp hn hb hv hu = simp (
    parse-as_str,
    read_bool-text,
    hf,
    hr,
    hp,
    read_u32-show _ n hn,
    read_u32-show _ u.check_interval hu,
  )
  from_map-items f m d r none p n none bind (some w) kept v u hf hr hg hp hn hb hv hu = simp (
    parse-as_str,
    read_bool-text,
    hf,
    hr,
    hp,
    read_u32-show _ n hn,
    read_u32-show _ u.check_interval hu,
    read_u64-show _ v hv,
  )
  from_map-items f m d r none p n (some b) bind none kept v u hf hr hg hp hn hb hv hu = simp (
    parse-as_str,
    read_bool-text,
    hf,
    hr,
    hp,
    read_u32-show _ n hn,
    read_u32-show _ u.check_interval hu,
    hb.0,
    hb.1,
  )
  from_map-items f m d r none p n (some b) bind (some w) kept v u hf hr hg hp hn hb hv hu = simp (
    parse-as_str,
    read_bool-text,
    hf,
    hr,
    hp,
    read_u32-show _ n hn,
    read_u32-show _ u.check_interval hu,
    hb.0,
    hb.1,
    read_u64-show _ v hv,
  )
  from_map-items f m d r (some g) p n none bind none kept v u hf hr hg hp hn hb hv hu = simp (
    parse-as_str,
    read_bool-text,
    hf,
    hr,
    hp,
    read_u32-show _ n hn,
    read_u32-show _ u.check_interval hu,
    hg,
  )
  from_map-items f m d r (some g) p n none bind (some w) kept v u hf hr hg hp hn hb hv hu = simp (
    parse-as_str,
    read_bool-text,
    hf,
    hr,
    hp,
    read_u32-show _ n hn,
    read_u32-show _ u.check_interval hu,
    hg,
    read_u64-show _ v hv,
  )
  from_map-items f m d r (some g) p n (some b) bind none kept v u hf hr hg hp hn hb hv hu = simp (
    parse-as_str,
    read_bool-text,
    hf,
    hr,
    hp,
    read_u32-show _ n hn,
    read_u32-show _ u.check_interval hu,
    hg,
    hb.0,
    hb.1,
  )
  from_map-items f m d r (some g) p n (some b) bind (some w) kept v u hf hr hg hp hn hb hv hu =
      simp (
        parse-as_str,
        read_bool-text,
        hf,
        hr,
        hp,
        read_u32-show _ n hn,
        read_u32-show _ u.check_interval hu,
        hg,
        hb.0,
        hb.1,
        read_u64-show _ v hv,
      )
