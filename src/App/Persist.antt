-- ===== src/App/Persist.antt =====
-- `persist_config_version` of src/server.rs.
use propmonitor.Base.{
  ℕ, ◌<◌, ◌^◌, Text, text_eq, true, false, ◌≡◌, ◌≢◌, refl, sym, subst, ap, ◌∙◌, ◌==◌, ==→eq,
  ==_refl, ne→==, if◌then◌else◌, Option, none, some, ok, err, Bool-cases, inl, inr,
}
use mathlib.Core.Option
use propmonitor.Error.{write_failed}
use propmonitor.Float.{Float, FloatLaws}
use propmonitor.Config.{BeaconConfig, MicrowavepropConfig, Config, validate, validate_gridsquare}
use propmonitor.Config.Load.{from_yaml_str}
use propmonitor.Config.Facts.{validate_of_loads}
use propmonitor.Settings.{
  redacted, cfg_to_update, build_yaml_from_update, to_microwaveprop_update, to_beacon_update,
  token_of, version_of,
}
use propmonitor.Settings.Clean.{OneLine}
use propmonitor.Settings.Read.{beacon_of, microwaveprop_of}
use propmonitor.Settings.RoundTrip.{merge, IsWritable, from_yaml_str-build_yaml}
use propmonitor.App.{
  App, Outcome, set_version, write_config_file, persist_in, persist_found, persist_config_version,
}
use propmonitor.App.Apply.{IsConsistent}

module _ (fl : Float) where
  open fl use {F}

  token_kept : (t : Text) → (if text_eq t redacted then t else t) ≡ t
  token_kept t = elim (Bool-cases (text_eq t redacted)) [ inl e ↦ rw e | inr e ↦ rw e ]

  beacon_kept : (b : Option (BeaconConfig F)) → beacon_of fl (Option.map to_beacon_update b) ≡ b
  beacon_kept none = refl
  beacon_kept (some b) = refl

  microwaveprop_kept :
      (o : Option MicrowavepropConfig)
      → microwaveprop_of fl (Option.map to_microwaveprop_update o) (token_of o) (version_of o) ≡ o
  microwaveprop_kept none = refl
  microwaveprop_kept (some m) =
      λ i. some (record m { monitor_token = token_kept m.monitor_token i })

  -- Merging a configuration into itself changes nothing.
  pub merge-cfg_to_update :
      (cfg : Config F)
      → merge fl cfg.mode (cfg_to_update cfg) cfg (some (version_of cfg.microwaveprop)) ≡ cfg
  unfolding merge cfg_to_update
  merge-cfg_to_update cfg = λ i. record cfg {
    beacon = beacon_kept cfg.beacon i;
    microwaveprop = microwaveprop_kept cfg.microwaveprop i;
  }

  validate-set_version :
      (cfg : Config F) (mw : MicrowavepropConfig) (version : ℕ)
      → cfg.microwaveprop ≡ some mw
      → validate fl (set_version cfg mw version) ≡ validate fl cfg
  unfolding validate validate_gridsquare
  validate-set_version cfg mw version e = simp e

  set_version_same :
      (cfg : Config F) (mw : MicrowavepropConfig) (version : ℕ)
      → cfg.microwaveprop ≡ some mw
      → mw.config_version ≡ version
      → set_version cfg mw version ≡ cfg
  set_version_same cfg mw version e v = λ i. record cfg {
    microwaveprop = (ap (λ n. some (record mw { config_version = n })) (sym v) ∙ sym e) i;
  }

  -- A configuration that can be written: what `IsWritable` asks of it as its own update.
  abbrev pub IsStorable : Config F → Type 0
  IsStorable cfg = IsWritable fl (cfg_to_update cfg) cfg none

  IsStorable-set_version :
      (cfg : Config F) (mw : MicrowavepropConfig) (version : ℕ)
      → cfg.microwaveprop ≡ some mw
      → version < 2 ^ 64
      → IsStorable cfg
      → IsWritable fl
          (cfg_to_update (set_version cfg mw version))
          (set_version cfg mw version)
          (some version)
  unfolding cfg_to_update
  IsStorable-set_version cfg mw version e fits w = record {
    frequency = w.frequency;
    sample_rate = w.sample_rate;
    gain = w.gain;
    ppm = w.ppm;
    beacon = w.beacon;
    driver = w.driver;
    bind = w.bind;
    texts = subst (λ o. OneLine fl (Option.map to_microwaveprop_update o) (token_of o)) e w.texts;
    period = w.period;
    version_fits = fits;
    interval = w.interval;
  }

  loads-set_version :
      (laws : FloatLaws fl) (cfg : Config F) (mw : MicrowavepropConfig) (version : ℕ)
      → cfg.microwaveprop ≡ some mw
      → version < 2 ^ 64
      → IsStorable cfg
      → validate fl cfg ≡ ok tt
      → from_yaml_str fl (
          build_yaml_from_update fl
            (cfg_to_update (set_version cfg mw version))
            (set_version cfg mw version)
            (some version))
        ≡ ok (set_version cfg mw version)
  loads-set_version laws cfg mw version e fits w valid =
      from_yaml_str-build_yaml fl laws cfg.mode (cfg_to_update (set_version cfg mw version))
        (set_version cfg mw version) (some version) (unfold cfg_to_update in refl)
        (IsStorable-set_version cfg mw version e fits w)
      ∙ simp (
        merge-cfg_to_update (set_version cfg mw version),
        validate-set_version cfg mw version e,
        valid,
      )

  -- The version is recorded: in memory, where nothing else changes, and in the file.
  pub record Recorded (app app' : App F) (mw : MicrowavepropConfig) (version : ℕ) : Type 0 where
    pub config : app'.config ≡ set_version app.config mw version
    pub consistent : IsConsistent fl app'
    pub worker : app'.worker ≡ app.worker
    pub sent : app'.sent ≡ app.sent
    pub edits : app'.edits ≡ app.edits

  persist_config_version-some :
      (out : Outcome) (app : App F) (mw : MicrowavepropConfig) (version : ℕ)
      → app.config.microwaveprop ≡ some mw
      → persist_config_version fl out app version ≡ persist_in fl out app mw version
  unfolding persist_config_version persist_found
  persist_config_version-some out app mw version e = ap (λ o. persist_found fl out app o version) e

  persist_in-Recorded :
      (laws : FloatLaws fl) (out : Outcome) (app : App F) (mw : MicrowavepropConfig) (version : ℕ)
      → out.write_ok ≡ true
      → app.config.microwaveprop ≡ some mw
      → version < 2 ^ 64
      → IsStorable app.config
      → IsConsistent fl app
      → let (app', result) = persist_in fl out app mw version in
        (result ≡ ok tt) × Recorded app app' mw version
  unfolding persist_in write_config_file
  persist_in-Recorded laws out app mw version written e fits w c =
      elim (Bool-cases (mw.config_version == version)) [
        | inl same ↦ rw same (
            let v =
              set_version_same app.config mw version e (==→eq mw.config_version version same) in
            (
              refl,
              record { config = sym v; consistent = c; worker = refl; sent = refl; edits = refl },
            ))
        | inr newer ↦
            rw (newer, written)
              (
                refl,
                record {
                  config = refl;
                  consistent = record {
                    loads =
                        loads-set_version laws app.config mw version e fits w
                          (validate_of_loads fl app.disk c.loads);
                    listening = c.listening;
                  };
                  worker = refl;
                  sent = refl;
                  edits = refl;
                },
              )
      ]

  -- If the file can be written, the numbers of the configuration are finite and its texts have no
  -- newline, then recording a version succeeds, changes nothing of the configuration but the
  -- version, does not restart the worker, and leaves the file loading as the configuration in memory.
  pub persist_config_version-Recorded :
      (laws : FloatLaws fl) (out : Outcome) (app : App F) (mw : MicrowavepropConfig) (version : ℕ)
      → out.write_ok ≡ true
      → app.config.microwaveprop ≡ some mw
      → version < 2 ^ 64
      → IsStorable app.config
      → IsConsistent fl app
      → let (app', result) = persist_config_version fl out app version in
        (result ≡ ok tt) × Recorded app app' mw version
  persist_config_version-Recorded laws out app mw version written e fits w c =
      subst (λ r. (r.1 ≡ ok tt) × Recorded app r.0 mw version)
        (sym (persist_config_version-some out app mw version e))
        (persist_in-Recorded laws out app mw version written e fits w c)

  persist_in-lost :
      (out later : Outcome) (app : App F) (mw : MicrowavepropConfig) (version : ℕ)
      → out.write_ok ≡ false
      → mw.config_version ≢ version
      → let (app', result) = persist_in fl out app mw version in
        (result ≡ err write_failed)
        × (app'.config ≡ set_version app.config mw version)
        × (persist_config_version fl later app' version ≡ (app', ok tt))
        × (app'.disk ≡ app.disk)
  unfolding persist_config_version persist_found persist_in write_config_file
  persist_in-lost out later app mw version failed newer =
      rw (ne→== mw.config_version version newer, failed) (refl, refl, rw (==_refl version), refl)

  -- Where the file cannot be written, a newer version is recorded in memory all the same, and a
  -- second call at that version reports success and writes nothing, whether it could or not.
  pub persist_config_version-lost :
      (out later : Outcome) (app : App F) (mw : MicrowavepropConfig) (version : ℕ)
      → out.write_ok ≡ false
      → app.config.microwaveprop ≡ some mw
      → mw.config_version ≢ version
      → let (app', result) = persist_config_version fl out app version in
        (result ≡ err write_failed)
        × (app'.config ≡ set_version app.config mw version)
        × (persist_config_version fl later app' version ≡ (app', ok tt))
        × (app'.disk ≡ app.disk)
  persist_config_version-lost out later app mw version failed e newer =
      subst
        (λ r.
          (r.1 ≡ err write_failed)
          × (r.0.config ≡ set_version app.config mw version)
          × (persist_config_version fl later r.0 version ≡ (r.0, ok tt))
          × (r.0.disk ≡ app.disk))
        (sym (persist_config_version-some out app mw version e))
        (persist_in-lost out later app mw version failed newer)
