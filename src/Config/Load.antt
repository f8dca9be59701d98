-- ===== src/Config/Load.antt =====
-- `Config::from_yaml_str` of src/config.rs, with a function for each block of the document.
use propmonitor.Base.{
  ℕ, ◌^◌, Text, codes, text_eq, Bool, true, false, ltb, if◌then◌else◌, Option, none, some, Result,
  ok, err, ◌>>=◌, ◌>>◌, ok_or, [],
}
use propmonitor.Base.Decimal.{parse_uint}
use propmonitor.Error.{
  Error, not_a_scalar, not_a_mapping, not_a_number, not_an_integer, too_large, not_a_flag,
  not_a_version,
}
use propmonitor.Float.{Float}
use propmonitor.Yaml.{Map, get, as_scalar, as_map, require_scalar, parse}
use propmonitor.Mode
use propmonitor.Config.{
  BeaconConfig, HttpConfig, MicrowavepropConfig, UpdateConfig, Config, default_check_interval,
  default_update, validate,
}

-- `str::parse::<bool>`
unfoldable pub parse_bool : Text → Option Bool
parse_bool s =
    if text_eq s (codes "true")
    then some true
    else if text_eq s (codes "false")
    then some false
    else none

-- `yaml::parse_usize` (a `usize` of 64 bits) and the conversion to `u32`
unfoldable pub read_u32 : Text → Text → Result Error ℕ
read_u32 label s = do
  n ← ok_or (parse_uint (2 ^ 64) s) (not_an_integer label s)
  if ltb n (2 ^ 32) then ok n else err (too_large label)

unfoldable pub read_bool : Text → Text → Result Error Bool
read_bool label s = ok_or (parse_bool s) (not_a_flag label)

unfoldable pub read_u64 : Text → Text → Result Error ℕ
read_u64 label s = ok_or (parse_uint (2 ^ 64) s) (not_a_version label)

unfoldable pub read_text : Text → Text → Result Error Text
read_text label s = ok s

-- A key that may be absent: `read` on its scalar, or the default. `label` is the key as the
-- messages show it.
unfoldable pub optional :
    {A : Type 0} → Map → Text → Text → (Text → Text → Result Error A) → A → Result Error A
optional m key label read default = elim (get key m) [
  | none ↦ ok default
  | some v ↦ do s ← ok_or (as_scalar v) (not_a_scalar label); read label s
]

-- A key of the top level, whose label is its name.
unfoldable pub top_optional :
    {A : Type 0} → Map → Text → (Text → Text → Result Error A) → A → Result Error A
top_optional m key read default = optional m key key read default

-- `m.get(key).and_then(as_scalar).unwrap_or("")`
unfoldable pub scalar_or_empty : Map → Text → Text
scalar_or_empty m key = elim (get key m) [
  | none ↦ []
  | some v ↦ elim (as_scalar v) [ none ↦ [] | some s ↦ s ]
]

unfoldable pub read_http : Map → Result Error HttpConfig
read_http top = elim (get (codes "http") top) [
  | none ↦ ok (record { bind = codes "0.0.0.0:5760" })
  | some v ↦ do
    m ← ok_or (as_map v) (not_a_mapping (codes "http"))
    bind ← optional m (codes "bind") (codes "http.bind") read_text (codes "0.0.0.0:5760")
    ok (record { bind = bind })
]

unfoldable pub read_microwaveprop : Map → Result Error (Option MicrowavepropConfig)
read_microwaveprop top = elim (get (codes "microwaveprop") top) [
  | none ↦ ok none
  | some v ↦ do
    m ← ok_or (as_map v) (not_a_mapping (codes "microwaveprop"))
    enabled ← optional m (codes "enabled") (codes "microwaveprop.enabled") read_bool true
    version ← optional m (codes "config_version") (codes "microwaveprop.config_version") read_u64 0
    ok (
        some (record {
          enabled = enabled;
          monitor_token = scalar_or_empty m (codes "monitor_token");
          beacon_id = scalar_or_empty m (codes "beacon_id");
          gridsquare = scalar_or_empty m (codes "gridsquare");
          config_version = version;
        }))
]

unfoldable pub read_update : Map → Result Error UpdateConfig
read_update top = elim (get (codes "update") top) [
  | none ↦ ok default_update
  | some v ↦ do
    m ← ok_or (as_map v) (not_a_mapping (codes "update"))
    interval ←
        optional m (codes "check_interval") (codes "update.check_interval") read_u32
          default_check_interval
    enabled ← optional m (codes "enabled") (codes "update.enabled") read_bool true
    auto ← optional m (codes "auto") (codes "update.auto") read_bool true
    ok (record { enabled = enabled; auto = auto; check_interval = interval })
]

module _ (fl : Float) where
  open fl use {F, of_ℕ}

  -- `yaml::parse_f64`
  unfoldable pub read_f64 : Text → Text → Result Error F
  read_f64 label s = ok_or (Float.parse fl s) (not_a_number label s)

  unfoldable pub read_gain : Map → Result Error (Option F)
  read_gain top = elim (get (codes "gain") top) [
    | none ↦ ok none
    | some v ↦ do
      s ← ok_or (as_scalar v) (not_a_scalar (codes "gain"))
      g ← read_f64 (codes "gain") s
      ok (some g)
  ]

  unfoldable pub read_beacon : Map → Result Error (Option (BeaconConfig F))
  read_beacon top = elim (get (codes "beacon") top) [
    | none ↦ ok none
    | some v ↦ do
      m ← ok_or (as_map v) (not_a_mapping (codes "beacon"))
      offset ← optional m (codes "offset_hz") (codes "beacon.offset_hz") read_f64 (of_ℕ 0)
      width ← optional m (codes "bandwidth_hz") (codes "beacon.bandwidth_hz") read_f64 (of_ℕ 50)
      ok (some (record { offset_hz = offset; bandwidth_hz = width }))
  ]

  -- The part of `from_yaml_str` after `yaml::parse` and before `validate`.
  unfoldable pub from_map : Map → Result Error (Config F)
  from_map top = do
    frequency_text ← require_scalar top (codes "frequency")
    frequency ← read_f64 (codes "frequency") frequency_text
    mode_text ← require_scalar top (codes "mode")
    mode ← Mode.parse mode_text
    sample_rate ← top_optional top (codes "sample_rate") read_f64 (of_ℕ 250000)
    gain ← read_gain top
    driver ← top_optional top (codes "driver") read_text (codes "rtlsdr")
    ppm ← top_optional top (codes "ppm") read_f64 (of_ℕ 0)
    period ← top_optional top (codes "period_seconds") read_u32 60
    beacon ← read_beacon top
    http ← read_http top
    microwaveprop ← read_microwaveprop top
    update ← read_update top
    ok (record {
      frequency = frequency;
      mode = mode;
      sample_rate = sample_rate;
      gain = gain;
      driver = driver;
      ppm = ppm;
      period_seconds = period;
      beacon = beacon;
      http = http;
      microwaveprop = microwaveprop;
      update = update;
    })

  unfoldable pub from_yaml_str : Text → Result Error (Config F)
  from_yaml_str text = do top ← parse text; cfg ← from_map top; validate fl cfg; ok cfg
