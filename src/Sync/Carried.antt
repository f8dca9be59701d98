-- ===== src/Sync/Carried.antt =====
-- A push of src/sync.rs that is applied, from the settings that are pushed to those that run.
use propmonitor.Base.{
  ℕ, ◌<◌, Text, text_eq, text_eq_refl, true, false, if◌then◌else◌, gt→leb, ◌≡◌, refl, sym, subst,
  ap, ◌∙◌, some, Result, ok, err, ◌>>=◌, map_err,
}
use propmonitor.Float.{Float, FloatLaws}
use propmonitor.Mode
use propmonitor.Mode.{Mode}
use propmonitor.Config.{Config, validate}
use propmonitor.Config.Load.{from_yaml_str}
use propmonitor.Settings.{build_yaml_from_update, token_of}
use propmonitor.Settings.RoundTrip.{IsWritable, merge, from_yaml_str-build_yaml}
use propmonitor.App.{
  App, Outcome, ApplyError, write_config_file, activate, apply_loaded, apply_config,
}
use propmonitor.App.Apply.{Applied, Outcomes, apply_config-Outcomes}
use propmonitor.Sync.{
  SyncConfig, from_config, to_config_update, applied_version, apply, decide_push, same_config,
}
use propmonitor.Sync.Merge.{pushed_config, pushed_config-Carried}
use propmonitor.Sync.Push.{reason, push_as, apply_push_read, apply_push}

module _ (fl : Float) where
  open fl use {F}

  -- The node runs the pushed settings at the pushed version, and everything else is as it was.
  pub record Carries (app app' : App F) (pushed : SyncConfig F) (version : ℕ) : Type 0 where
    pub settings : from_config app'.config ≡ pushed
    pub version_applied : applied_version app'.config ≡ version
    pub http : app'.config.http ≡ app.config.http
    pub token : token_of app'.config.microwaveprop ≡ token_of app.config.microwaveprop
    pub update : app'.config.update ≡ app.config.update
    pub loads : from_yaml_str fl app'.disk ≡ ok app'.config
    pub worker : app'.worker ≡ some app'.config
    pub listening : app'.listening ≡ app.listening
    pub edits : app'.edits ≡ app.edits

  same_bind :
      (app : App F) (cfg : Config F)
      → cfg.http.bind ≡ app.config.http.bind
      → text_eq cfg.http.bind app.config.http.bind ≡ true
  same_bind app cfg bind =
      ap (λ t. text_eq t app.config.http.bind) bind ∙ text_eq_refl app.config.http.bind

  -- A document that loads with the address of the running server is applied if the file can be
  -- written.
  apply_loaded-ok :
      (out : Outcome) (app : App F) (yaml : Text) (cfg : Config F)
      → cfg.http.bind ≡ app.config.http.bind
      → out.write_ok ≡ true
      → (apply_loaded fl out app yaml (ok cfg)).1 ≡ ok cfg
  unfolding apply_loaded activate write_config_file
  apply_loaded-ok out app yaml cfg bind written = rw (same_bind app cfg bind, written) refl

  applied-Carries :
      (app app' : App F) (m : Mode) (pushed : SyncConfig F) (version : ℕ)
      → pushed.mode ≡ Mode.as_str m
      → Applied fl app app' (pushed_config fl m pushed app.config version)
      → Carries app app' pushed version
  applied-Carries app app' m pushed version e h =
      let cfg = pushed_config fl m pushed app.config version in
      let (settings, at, http, token, update) =
        pushed_config-Carried fl m pushed app.config version e in
      record {
        settings = ap from_config h.config ∙ settings;
        version_applied = ap applied_version h.config ∙ at;
        http = ap (λ (c : Config F). c.http) h.config ∙ http;
        token = ap (λ (c : Config F). token_of c.microwaveprop) h.config ∙ token;
        update = ap (λ (c : Config F). c.update) h.config ∙ update;
        loads = h.loads ∙ ap ok (sym h.config);
        worker = h.worker ∙ ap some (sym h.config);
        listening =
            h.listening
            ∙ ap (λ b. if b then app.listening else cfg.http.bind)
                (same_bind app cfg (ap (λ h. h.bind) http));
        edits = h.edits;
      }

  answered :
      (app : App F) (cfg : Config F) (r : App F × Result ApplyError (Config F))
      → r.1 ≡ ok cfg
      → Outcomes fl app r
      → Applied fl app r.0 cfg
  answered app cfg (app', ok c) e h = subst (Applied fl app app') (cc e) h
  answered app cfg (app', err x) e h = absurd (cc e)

  module _ (laws : FloatLaws fl) where
    apply_config-merged :
        (out : Outcome) (app : App F) (m : Mode) (version : ℕ) (pushed : SyncConfig F)
        → pushed.mode ≡ Mode.as_str m
        → IsWritable fl (to_config_update pushed app.config) app.config (some version)
        → validate fl (pushed_config fl m pushed app.config version) ≡ ok tt
        → out.write_ok ≡ true
        → (apply_config fl out app (to_config_update pushed app.config) (some version)).1
          ≡ ok (pushed_config fl m pushed app.config version)
    unfolding apply_config to_config_update merge
    apply_config-merged out app m version pushed e w valid written =
        let body = to_config_update pushed app.config in
        let merged = pushed_config fl m pushed app.config version in
        let yaml = build_yaml_from_update fl body app.config (some version) in
        let loads =
          from_yaml_str-build_yaml fl laws m body app.config (some version) e w
          ∙ ap (λ r. r >>= λ _. ok merged) valid in
        ap (λ l. (apply_loaded fl out app yaml l).1) loads
        ∙ apply_loaded-ok out app yaml merged refl written

    -- A push that is newer than the running version, differs from the running settings and is valid
    -- is applied whenever the file can be written, if its mode is one of the seven, its numbers are
    -- finite and its texts have no newline. The node then runs exactly the pushed settings at the
    -- pushed version, the file loads as what is in memory and what the worker runs, and what the
    -- website does not carry is as it was: the address and the listener of the node's own server, its
    -- token, its update settings and the count of local edits.
    pub apply_push-Carries :
        (out : Outcome) (app : App F) (m : Mode) (version : ℕ) (pushed : SyncConfig F)
        → pushed.mode ≡ Mode.as_str m
        → IsWritable fl (to_config_update pushed app.config) app.config (some version)
        → applied_version app.config < version
        → same_config fl pushed (from_config app.config) ≡ false
        → validate fl (pushed_config fl m pushed app.config version) ≡ ok tt
        → out.write_ok ≡ true
        → ((apply_push fl out app version pushed).1 ≡ ok apply)
          × Carries app (apply_push fl out app version pushed).0 pushed version
    unfolding apply_push apply_push_read decide_push push_as
    apply_push-Carries out app m version pushed e w newer other valid written =
        let body = to_config_update pushed app.config in
        let merged = pushed_config fl m pushed app.config version in
        let r = apply_config fl out app body (some version) in
        let good = apply_config-merged out app m version pushed e w valid written in
        let done =
          answered app merged r good (apply_config-Outcomes fl out app body (some version)) in
        rw (gt→leb version (applied_version app.config) newer, other)
          (
            ap (λ x. map_err reason x >>= λ _. ok apply) good,
            applied-Carries app r.0 m pushed version e done,
          )
