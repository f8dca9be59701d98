-- ===== src/Sync/Again.antt =====
-- A push of src/sync.rs that is delivered twice.
use propmonitor.Base.{
  ℕ, ◌≤◌, Text, text_eq, Bool, not, ◌&&◌, le→leb, ◌≡◌, refl, sym, subst, ◌∙◌, some, Result, ok, err,
  ◌>>=◌, >>=-eq-ok, map_err, Bool-cases, inl, inr, arith,
}
use propmonitor.Error.{Error}
use propmonitor.Float.{Float, FloatLaws}
use propmonitor.Mode
use propmonitor.Mode.{Mode}
use propmonitor.Config.{Config, validate}
use propmonitor.Config.Load.{from_yaml_str}
use propmonitor.Settings.{build_yaml_from_update}
use propmonitor.Settings.RoundTrip.{IsWritable, from_yaml_str-build_yaml}
use propmonitor.App.{
  App, Outcome, persist_config_version, ApplyError, write_config_file, restart_worker, activate,
  apply_loaded, apply_config,
}
use propmonitor.Sync.{
  SyncConfig, to_config_update, applied_version, PushDecision, stale, version_only, apply,
  decide_push,
}
use propmonitor.Sync.Merge.{pushed_config, pushed_config-Carried}
use propmonitor.Sync.Push.{reason, push_as, apply_push_read, apply_push}
use propmonitor.Sync.Outcome.{Pushed, apply_push_read-Pushed}

module _ (fl : Float) where
  open fl use {F}

  abbrev Versioned : ℕ → App F × Result ApplyError (Config F) → Type 0
  Versioned version (app', err e) = Unit
  Versioned version (app', ok cfg) = version ≤ applied_version app'.config

  activate-Versioned :
      (out : Outcome) (app : App F) (yaml : Text) (cfg : Config F) (rebind : Bool) (version : ℕ)
      → version ≤ applied_version cfg
      → Versioned version (activate fl out app yaml cfg rebind)
  unfolding activate write_config_file restart_worker
  activate-Versioned out app yaml cfg rebind version h = elim (Bool-cases out.write_ok) [
    | inr failed ↦ rw failed tt
    | inl written ↦ rw written h
  ]

  apply_loaded-Versioned :
      (out : Outcome) (app : App F) (yaml : Text) (r : Result Error (Config F)) (version : ℕ)
      → ((cfg : Config F) → r ≡ ok cfg → version ≤ applied_version cfg)
      → Versioned version (apply_loaded fl out app yaml r)
  unfolding apply_loaded
  apply_loaded-Versioned out app yaml (err e) version h = tt
  apply_loaded-Versioned out app yaml (ok cfg) version h =
      let rebind = not (text_eq cfg.http.bind app.config.http.bind) in
      elim (Bool-cases (rebind && not out.bind_ok)) [
        | inl refused ↦ rw refused tt
        | inr bound ↦ rw bound (activate-Versioned out app yaml cfg rebind version (h cfg refl))
      ]

  module _ (laws : FloatLaws fl) where
    pushed-version :
        (m : Mode) (pushed : SyncConfig F) (current cfg : Config F) (version : ℕ)
        → pushed.mode ≡ Mode.as_str m
        → IsWritable fl (to_config_update pushed current) current (some version)
        → from_yaml_str fl
            (build_yaml_from_update fl (to_config_update pushed current) current (some version))
          ≡ ok cfg
        → version ≤ applied_version cfg
    unfolding to_config_update
    pushed-version m pushed current cfg version e w loads =
        let merged = pushed_config fl m pushed current version in
        let body = to_config_update pushed current in
        let saved = from_yaml_str-build_yaml fl laws m body current (some version) e w in
        let (_, valid, same) =
          >>=-eq-ok (validate fl merged) (λ _. ok merged) (sym saved ∙ loads) in
        let is_merged : merged ≡ cfg = cc same in
        let carried = pushed_config-Carried fl m pushed current version e in
        subst (λ c. version ≤ applied_version c) is_merged (omega (arith, carried.1))

    apply-Versioned :
        (out : Outcome) (app : App F) (m : Mode) (pushed : SyncConfig F) (version : ℕ)
        → pushed.mode ≡ Mode.as_str m
        → IsWritable fl (to_config_update pushed app.config) app.config (some version)
        → Versioned version
            (apply_config fl out app (to_config_update pushed app.config) (some version))
    unfolding apply_config
    apply-Versioned out app m pushed version e w =
        apply_loaded-Versioned out app _ _ version
          (λ cfg loads. pushed-version m pushed app.config cfg version e w loads)

    Seen : ℕ → App F × Result Error PushDecision → Type 0
    Seen version (app', err e) = Unit
    Seen version (app', ok d) = version ≤ applied_version app'.config

    reply-Seen :
        (version : ℕ) (r : App F × Result ApplyError (Config F))
        → Versioned version r
        → Seen version (r.0, map_err reason r.1 >>= λ _. ok apply)
    unfolding Seen
    reply-Seen version (app', ok cfg) h = h
    reply-Seen version (app', err e) h = tt

    recorded-Seen :
        (app : App F) (version : ℕ) (pushed : SyncConfig F) (r : App F × Result Error (Unit {0}))
        → Pushed fl app.config app version pushed (r.0, r.1 >>= λ _. ok version_only)
        → Seen version (r.0, r.1 >>= λ _. ok version_only)
    unfolding Seen
    recorded-Seen app version pushed (app', ok _) h = omega (arith, h.2)
    recorded-Seen app version pushed (app', err e) h = tt

    push_as-Seen :
        (out : Outcome) (app : App F) (m : Mode) (pushed : SyncConfig F) (version : ℕ)
        (d : PushDecision)
        → pushed.mode ≡ Mode.as_str m
        → IsWritable fl (to_config_update pushed app.config) app.config (some version)
        → Pushed fl app.config app version pushed (push_as fl out app.config app version pushed d)
        → Seen version (push_as fl out app.config app version pushed d)
    unfolding Seen push_as
    push_as-Seen out app m pushed version stale e w h = h.0
    push_as-Seen out app m pushed version version_only e w h =
        recorded-Seen app version pushed (persist_config_version fl out app version) h
    push_as-Seen out app m pushed version apply e w h =
        reply-Seen version
          (apply_config fl out app (to_config_update pushed app.config) (some version))
          (apply-Versioned out app m pushed version e w)

    apply_push-old :
        (out : Outcome) (app : App F) (pushed : SyncConfig F) (version : ℕ)
        → version ≤ applied_version app.config
        → apply_push fl out app version pushed ≡ (app, ok stale)
    unfolding apply_push apply_push_read decide_push push_as
    apply_push-old out app pushed version old =
        rw (le→leb version (applied_version app.config) old) refl

    -- A push that succeeded, whether it was applied, only recorded or ignored, is stale when it is
    -- delivered again, and then changes nothing, if its mode is one of the seven, its numbers are
    -- finite and its texts have no newline.
    pub apply_push-again :
        (out later : Outcome) (app app' : App F) (m : Mode) (pushed : SyncConfig F) (version : ℕ)
        (d : PushDecision)
        → pushed.mode ≡ Mode.as_str m
        → IsWritable fl (to_config_update pushed app.config) app.config (some version)
        → apply_push fl out app version pushed ≡ (app', ok d)
        → apply_push fl later app' version pushed ≡ (app', ok stale)
    unfolding apply_push apply_push_read Seen
    apply_push-again out later app app' m pushed version d e w h =
        apply_push-old later app' pushed version (
          subst (Seen version) h (
            push_as-Seen out app m pushed version _ e w
              (apply_push_read-Pushed fl out app.config app version pushed)))
