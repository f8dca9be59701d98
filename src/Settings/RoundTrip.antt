-- ===== src/Settings/RoundTrip.antt =====
-- Saving an update as in src/server.rs, and loading the document as in src/config.rs.
use propmonitor.Base.{ℕ, ◌<◌, ◌^◌, true, ◌≡◌, ap, ◌∙◌, Option, none, some, ok, ◌>>=◌}
use propmonitor.Float.{Float, FloatLaws}
use propmonitor.Mode
use propmonitor.Mode.{Mode}
use propmonitor.Config.{Config, validate}
use propmonitor.Config.Load.{from_map, from_yaml_str}
use propmonitor.Yaml.{parse, empty}
use propmonitor.Yaml.Document.{add_items}
use propmonitor.Yaml.RoundTrip.{parse-document}
use propmonitor.Yaml.Scan.{is_one_line}
use propmonitor.Settings.{
  ConfigUpdate, BeaconUpdate, unwrap_or, token_of, version_of, resolve_update,
  build_yaml_from_update,
}
use propmonitor.Settings.Written.{doc_items, update_items, bind_of, build_yaml-document}
use propmonitor.Settings.Clean.{BareGain, BareBeacon, OneLine, are_items-doc_items, bare-as_str}
use propmonitor.Settings.Read.{ReadsGain, ReadsBeacon, beacon_of, microwaveprop_of, from_map-items}

module _ (fl : Float) where
  open fl use {F, display, is_finite, of_ℕ}

  -- What an update makes of the running configuration, at mode `m`.
  unfoldable pub merge : Mode → ConfigUpdate F → Config F → Option ℕ → Config F
  merge m body current version = record {
    frequency = body.frequency;
    mode = m;
    sample_rate = body.sample_rate;
    gain = body.gain;
    driver = body.driver;
    ppm = unwrap_or body.ppm (of_ℕ 0);
    period_seconds = unwrap_or body.period_seconds current.period_seconds;
    beacon = beacon_of fl body.beacon;
    http = record { bind = bind_of body.http };
    microwaveprop =
        microwaveprop_of fl body.microwaveprop (token_of current.microwaveprop)
          (unwrap_or version (version_of current.microwaveprop));
    update = resolve_update body.update current.update;
  }

  abbrev pub FiniteGain : Option F → Type 0
  FiniteGain none = Unit
  FiniteGain (some g) = is_finite g ≡ true

  abbrev pub FiniteBeacon : Option (BeaconUpdate F) → Type 0
  FiniteBeacon none = Unit
  FiniteBeacon (some b) = (is_finite b.offset_hz ≡ true) × (is_finite b.bandwidth_hz ≡ true)

  -- Finite numbers, integers of their widths, and texts without a newline.
  pub record IsWritable (body : ConfigUpdate F) (current : Config F) (version : Option ℕ)
      : Type 0 where
    pub frequency : is_finite body.frequency ≡ true
    pub sample_rate : is_finite body.sample_rate ≡ true
    pub gain : FiniteGain body.gain
    pub ppm : is_finite (unwrap_or body.ppm (of_ℕ 0)) ≡ true
    pub beacon : FiniteBeacon body.beacon
    pub driver : is_one_line body.driver ≡ true
    pub bind : is_one_line (bind_of body.http) ≡ true
    pub texts : OneLine fl body.microwaveprop (token_of current.microwaveprop)
    pub period : unwrap_or body.period_seconds current.period_seconds < 2 ^ 32
    pub version_fits : unwrap_or version (version_of current.microwaveprop) < 2 ^ 64
    pub interval : (resolve_update body.update current.update).check_interval < 2 ^ 32

  module _ (laws : FloatLaws fl) where
    reads-gain : (g : Option F) → FiniteGain g → ReadsGain fl g
    reads-gain none h = tt
    reads-gain (some g) h = laws.parse_display g h

    bare-gain : (g : Option F) → FiniteGain g → BareGain fl g
    bare-gain none h = tt
    bare-gain (some g) h = laws.bare_display g h

    reads-beacon : (b : Option (BeaconUpdate F)) → FiniteBeacon b → ReadsBeacon fl b
    reads-beacon none h = tt
    reads-beacon (some b) h = (laws.parse_display _ h.0, laws.parse_display _ h.1)

    bare-beacon : (b : Option (BeaconUpdate F)) → FiniteBeacon b → BareBeacon fl b
    bare-beacon none h = tt
    bare-beacon (some b) h = (laws.bare_display _ h.0, laws.bare_display _ h.1)

    parse-build_yaml :
        (m : Mode) (body : ConfigUpdate F) (current : Config F) (version : Option ℕ)
        → body.mode ≡ Mode.as_str m
        → IsWritable body current version
        → parse (build_yaml_from_update fl body current version)
          ≡ ok (add_items empty (update_items fl body current version))
    parse-build_yaml m body current version e w =
        ap parse (build_yaml-document fl body current version)
        ∙ parse-document (update_items fl body current version) (
            unfold update_items in
            are_items-doc_items fl body.frequency body.mode body.driver body.sample_rate body.gain _
              _ body.beacon _ body.microwaveprop _ _ _ (laws.bare_display _ w.frequency)
              (rw e (bare-as_str m)) w.driver (laws.bare_display _ w.sample_rate)
              (bare-gain body.gain w.gain) (laws.bare_display _ w.ppm)
              (bare-beacon body.beacon w.beacon) w.bind w.texts)

    from_map-update :
        (m : Mode) (body : ConfigUpdate F) (current : Config F) (version : Option ℕ)
        → body.mode ≡ Mode.as_str m
        → IsWritable body current version
        → from_map fl (add_items empty (update_items fl body current version))
          ≡ ok (merge m body current version)
    unfolding update_items merge
    from_map-update m body current version e w =
        ap
          (λ t. from_map fl (
            add_items empty (
              doc_items fl body.frequency t body.driver body.sample_rate body.gain
                (unwrap_or body.ppm (of_ℕ 0)) (unwrap_or body.period_seconds current.period_seconds)
                body.beacon (bind_of body.http) body.microwaveprop (token_of current.microwaveprop)
                (unwrap_or version (version_of current.microwaveprop))
                (resolve_update body.update current.update))))
          e
        ∙ from_map-items fl body.frequency m body.driver body.sample_rate body.gain _ _ body.beacon
            _ body.microwaveprop _ _ _ (laws.parse_display _ w.frequency)
            (laws.parse_display _ w.sample_rate) (reads-gain body.gain w.gain)
            (laws.parse_display _ w.ppm) w.period (reads-beacon body.beacon w.beacon) w.version_fits
            w.interval

    -- The document of an update whose mode is one of the seven, whose numbers are finite, and whose
    -- texts have no newline, loads as the update merged into the running configuration, if that is
    -- valid, and fails with the error of its validation if not.
    pub from_yaml_str-build_yaml :
        (m : Mode) (body : ConfigUpdate F) (current : Config F) (version : Option ℕ)
        → body.mode ≡ Mode.as_str m
        → IsWritable body current version
        → from_yaml_str fl (build_yaml_from_update fl body current version)
          ≡ (validate fl (merge m body current version) >>= λ _. ok (merge m body current version))
    unfolding from_yaml_str
    from_yaml_str-build_yaml m body current version e w =
        simp
          (parse-build_yaml m body current version e w, from_map-update m body current version e w)
