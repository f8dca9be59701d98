-- ===== src/Sync/Outcome.antt =====
-- The branches of `apply_push` of src/sync.rs.
use propmonitor.Base.{
  ℕ, Text, text_eq, ◌≤◌, ◌<◌, not, ◌&&◌, true, false, sym, arith, leb, leb→le, ◌≡◌, refl, ap, ◌∙◌,
  Option, none, some, Result, ok, err, ◌>>=◌, map_err, Bool-cases, inl, inr, ==→eq, ◌==◌,
}
use mathlib.Core.Option
use propmonitor.Error.{Error}
use propmonitor.Float.{Float}
use propmonitor.Config.{MicrowavepropConfig, Config}
use propmonitor.Config.Load.{from_yaml_str}
use propmonitor.Settings.{version_of, build_yaml_from_update}
use propmonitor.App.{
  App, Outcome, ApplyError, write_config_file, set_version, activate, apply_loaded, apply_config,
  persist_in, persist_found, persist_config_version,
}
use propmonitor.App.Apply.{Applied, Outcomes, apply_config-Outcomes}
use propmonitor.Sync.{
  SyncConfig, from_config, to_config_update, applied_version, PushDecision, stale, version_only,
  apply, decide_push, same_config,
}
use propmonitor.Sync.Push.{reason, push_as, apply_push_read}

module _ (fl : Float) where
  open fl use {F}

  -- Why a push is decided as it is.
  abbrev pub Decides : ℕ → Config F → SyncConfig F → PushDecision → Type 0
  Decides version current pushed stale = version ≤ applied_version current
  Decides version current pushed version_only =
      (applied_version current < version) × (same_config fl pushed (from_config current) ≡ true)
  Decides version current pushed apply =
      (applied_version current < version) × (same_config fl pushed (from_config current) ≡ false)

  -- A configuration at another version.
  abbrev pub at_version : ℕ → Config F → Config F
  at_version version cfg = record cfg {
    microwaveprop =
        Option.map (λ (mw : MicrowavepropConfig). record mw { config_version = version })
          cfg.microwaveprop;
  }

  -- What a push does on each answer: with the configuration that was read, and the state when it is
  -- applied.
  abbrev pub Pushed :
      Config F → App F → ℕ → SyncConfig F → App F × Result Error PushDecision → Type 0
  Pushed current app version pushed (app', ok stale) =
      Decides version current pushed stale × (app' ≡ app)
  Pushed current app version pushed (app', ok version_only) =
      Decides version current pushed version_only
      × (app'.config ≡ at_version version app.config)
      × (applied_version app'.config ≡ version)
      × (app'.worker ≡ app.worker)
      × (app'.sent ≡ app.sent)
      × (app'.listening ≡ app.listening)
      × (app'.edits ≡ app.edits)
  Pushed current app version pushed (app', ok apply) =
      Decides version current pushed apply
      × ((cfg : Config F) × (from_yaml_str fl (
              build_yaml_from_update fl (to_config_update pushed current) app.config (some version))
            ≡ ok cfg)
          × Applied fl app app' cfg)
  Pushed current app version pushed (app', err e) =
      (applied_version current < version)
      × (app'.disk ≡ app.disk)
      × (app'.worker ≡ app.worker)
      × (app'.sent ≡ app.sent)
      × (app'.listening ≡ app.listening)
      × (app'.edits ≡ app.edits)

  decide_push-Decides :
      (version : ℕ) (current : Config F) (pushed : SyncConfig F)
      → Decides version current pushed
          (decide_push fl version (applied_version current) pushed (from_config current))
  unfolding decide_push
  decide_push-Decides version current pushed =
      elim (Bool-cases (leb version (applied_version current))) [
        | inl old ↦ rw old (leb→le version (applied_version current) old)
        | inr new ↦
            let newer : applied_version current < version = ground arith in
            elim (Bool-cases (same_config fl pushed (from_config current))) [
              | inl same ↦ rw (new, same) (newer, same)
              | inr other ↦ rw (new, other) (newer, other)
            ]
      ]

  set_version-at_version :
      (cfg : Config F) (mw : MicrowavepropConfig) (version : ℕ)
      → cfg.microwaveprop ≡ some mw
      → set_version cfg mw version ≡ at_version version cfg
  set_version-at_version cfg mw version e = λ i. record cfg {
    microwaveprop =
        Option.map (λ (m : MicrowavepropConfig). record m { config_version = version }) (sym e i);
  }

  same_version :
      (cfg : Config F) (mw : MicrowavepropConfig) (version : ℕ)
      → cfg.microwaveprop ≡ some mw
      → mw.config_version ≡ version
      → cfg ≡ set_version cfg mw version
  same_version cfg mw version e v =
      let block = e ∙ (λ i. some (record mw { config_version = v i })) in
      λ i. record cfg { microwaveprop = block i }

  persist_in-Pushed :
      (out : Outcome) (current : Config F) (app : App F) (mw : MicrowavepropConfig) (version : ℕ)
      (pushed : SyncConfig F)
      → app.config.microwaveprop ≡ some mw
      → Decides version current pushed version_only
      → let (app', result) = persist_in fl out app mw version in
        Pushed current app version pushed (app', result >>= λ _. ok version_only)
  unfolding persist_in write_config_file applied_version
  persist_in-Pushed out current app mw version pushed e d =
      let block = set_version-at_version app.config mw version e in
      elim (Bool-cases (mw.config_version == version)) [
        | inl same ↦
            let v = ==→eq mw.config_version version same in
            rw same (
              d,
              same_version app.config mw version e v ∙ block,
              ap version_of e ∙ v,
              refl,
              refl,
              refl,
              refl,
            )
        | inr newer ↦ elim (Bool-cases out.write_ok) [
          | inl written ↦ rw (newer, written) (d, block, refl, refl, refl, refl, refl)
          | inr failed ↦ rw (newer, failed) (d.0, refl, refl, refl, refl, refl)
        ]
      ]

  persist_found-Pushed :
      (out : Outcome) (current : Config F) (app : App F) (o : Option MicrowavepropConfig)
      (version : ℕ) (pushed : SyncConfig F)
      → app.config.microwaveprop ≡ o
      → Decides version current pushed version_only
      → let (app', result) = persist_found fl out app o version in
        Pushed current app version pushed (app', result >>= λ _. ok version_only)
  unfolding persist_found
  persist_found-Pushed out current app none version pushed e d = (d.0, refl, refl, refl, refl, refl)
  persist_found-Pushed out current app (some mw) version pushed e d =
      persist_in-Pushed out current app mw version pushed e d

  -- A configuration that is applied is the one that the document loads as.
  abbrev Loaded : Result Error (Config F) → App F × Result ApplyError (Config F) → Type 0
  Loaded r (app', err e) = Unit
  Loaded r (app', ok cfg) = r ≡ ok cfg

  apply_loaded-Loaded :
      (out : Outcome) (app : App F) (yaml : Text) (r : Result Error (Config F))
      → Loaded r (apply_loaded fl out app yaml r)
  unfolding apply_loaded activate write_config_file
  apply_loaded-Loaded out app yaml (err e) = tt
  apply_loaded-Loaded out app yaml (ok cfg) =
      elim (Bool-cases (not (text_eq cfg.http.bind app.config.http.bind) && not out.bind_ok)) [
        | inl refused ↦ rw refused tt
        | inr bound ↦ elim (Bool-cases out.write_ok) [
          | inl written ↦ rw (bound, written) refl
          | inr failed ↦ rw (bound, failed) tt
        ]
      ]

  applied-Pushed :
      (current : Config F) (app : App F) (version : ℕ) (pushed : SyncConfig F)
      (r : App F × Result ApplyError (Config F))
      → Decides version current pushed apply
      → Loaded
          (from_yaml_str fl
            (build_yaml_from_update fl (to_config_update pushed current) app.config (some version)))
          r
      → Outcomes fl app r
      → Pushed current app version pushed (r.0, map_err reason r.1 >>= λ _. ok apply)
  applied-Pushed current app version pushed (app', ok cfg) d l h = (d, (cfg, l, h))
  applied-Pushed current app version pushed (app', err e) d l h =
      rw h (d.0, refl, refl, refl, refl, refl)

  push_as-Pushed :
      (out : Outcome) (current : Config F) (app : App F) (version : ℕ) (pushed : SyncConfig F)
      (d : PushDecision)
      → Decides version current pushed d
      → Pushed current app version pushed (push_as fl out current app version pushed d)
  unfolding push_as persist_config_version apply_config
  push_as-Pushed out current app version pushed stale d = (d, refl)
  push_as-Pushed out current app version pushed version_only d =
      persist_found-Pushed out current app app.config.microwaveprop version pushed refl d
  push_as-Pushed out current app version pushed apply d =
      let body = to_config_update pushed current in
      applied-Pushed current app version pushed (apply_config fl out app body (some version)) d
        (apply_loaded-Loaded out app _ _) (apply_config-Outcomes fl out app body (some version))

  -- A push is judged against the configuration that was read first; between that and its application
  -- another change may have come. If the version is not newer, nothing changes. If it is and the
  -- content is the same, only the version in memory changes: the worker is not restarted, nothing is
  -- sent to the browsers and the listener is not moved. If the content differs, the document of the
  -- pushed settings at the pushed version is loaded, and what it loads as is applied: it is in the
  -- file and in memory, the worker runs it and the browsers were sent its view. Only a newer push can
  -- fail, and then the file, the worker, the browsers and the listener are as they were. No push
  -- counts as a local edit.
  pub apply_push_read-Pushed :
      (out : Outcome) (current : Config F) (app : App F) (version : ℕ) (pushed : SyncConfig F)
      → Pushed current app version pushed (apply_push_read fl out current app version pushed)
  unfolding apply_push_read
  apply_push_read-Pushed out current app version pushed =
      push_as-Pushed out current app version pushed _ (decide_push-Decides version current pushed)
