-- ===== src/App/Apply.antt =====
-- The outcomes of `apply_config` and `put_config` of src/server.rs.
use propmonitor.Base.{
  ℕ, ◌+◌, Text, text_eq, text_eq→eq, not, ◌&&◌, ◌≡◌, refl, sym, ap, ◌∙◌, if◌then◌else◌, Option,
  none, some, [], ◌∷◌, ◌++◌, Result, ok, err, Bool-cases, inl, inr,
}
use propmonitor.Error.{Error}
use propmonitor.Float.{Float}
use propmonitor.Config.{Config}
use propmonitor.Config.Load.{from_yaml_str}
use propmonitor.Settings.{ConfigUpdate}
use propmonitor.View.{ConfigView, cfg_to_view}
use propmonitor.App.{
  App, Outcome, ApplyError, write_config_file, restart_worker, activate, apply_loaded, apply_config,
  answer, put_config,
}

settled :
    (new old current : Text) → current ≡ old → (if text_eq new old then current else new) ≡ new
settled new old current e = elim (Bool-cases (text_eq new old)) [
  | inl same ↦ rw same (e ∙ sym (text_eq→eq new old same))
  | inr moved ↦ rw moved
]

module _ (fl : Float) where
  open fl use {F}

  -- The state after a successful change to `cfg`.
  pub record Applied (app app' : App F) (cfg : Config F) : Type 0 where
    pub loads : from_yaml_str fl app'.disk ≡ ok cfg
    pub config : app'.config ≡ cfg
    pub worker : app'.worker ≡ some cfg
    pub sent : app'.sent ≡ app.sent ++ (cfg_to_view cfg ∷ [])
    pub listening :
        app'.listening
        ≡ (if text_eq cfg.http.bind app.config.http.bind then app.listening else cfg.http.bind)
    pub edits : app'.edits ≡ app.edits

  abbrev pub Outcomes : App F → App F × Result ApplyError (Config F) → Type 0
  Outcomes app (app', err e) = app' ≡ app
  Outcomes app (app', ok cfg) = Applied app app' cfg

  activate-Outcomes :
      (out : Outcome) (app : App F) (yaml : Text) (cfg : Config F)
      → from_yaml_str fl yaml ≡ ok cfg
      → Outcomes app
          (activate fl out app yaml cfg (not (text_eq cfg.http.bind app.config.http.bind)))
  unfolding activate write_config_file restart_worker
  activate-Outcomes out app yaml cfg h = elim (Bool-cases out.write_ok) [
    | inr failed ↦ rw failed refl
    | inl written ↦ elim (Bool-cases (text_eq cfg.http.bind app.config.http.bind)) [
      | inl same ↦
          rw (written, same)
            (record {
              loads = h;
              config = refl;
              worker = refl;
              sent = refl;
              listening = rw same;
              edits = refl;
            })
      | inr moved ↦
          rw (written, moved)
            (record {
              loads = h;
              config = refl;
              worker = refl;
              sent = refl;
              listening = rw moved;
              edits = refl;
            })
    ]
  ]

  apply_loaded-Outcomes :
      (out : Outcome) (app : App F) (yaml : Text) (r : Result Error (Config F))
      → from_yaml_str fl yaml ≡ r
      → Outcomes app (apply_loaded fl out app yaml r)
  unfolding apply_loaded
  apply_loaded-Outcomes out app yaml (err e) h = refl
  apply_loaded-Outcomes out app yaml (ok cfg) h =
      elim (Bool-cases (not (text_eq cfg.http.bind app.config.http.bind) && not out.bind_ok)) [
        | inl refused ↦ rw refused refl
        | inr bound ↦ rw bound (activate-Outcomes out app yaml cfg h)
      ]

  -- A change of the configuration that fails leaves the whole state as it was: the file, the
  -- configuration in memory, the listener, the worker, and what the browsers were sent. After one
  -- that succeeds, the file loads as the new configuration, which is the one in memory and the one
  -- that the worker runs, the browsers were sent its view, the server listens on its address if that
  -- is new and goes on listening where it did if not, and no local edit is counted.
  pub apply_config-Outcomes :
      (out : Outcome) (app : App F) (body : ConfigUpdate F) (version : Option ℕ)
      → Outcomes app (apply_config fl out app body version)
  unfolding apply_config
  apply_config-Outcomes out app body version = apply_loaded-Outcomes out app _ _ refl

  -- The file, the memory and the listener agree: the file loads as the configuration in memory, and
  -- the server listens on its address.
  pub record IsConsistent (app : App F) : Type 0 where
    pub loads : from_yaml_str fl app.disk ≡ ok app.config
    pub listening : app.listening ≡ app.config.http.bind

  Outcomes-IsConsistent :
      {app : App F} (r : App F × Result ApplyError (Config F))
      → IsConsistent app
      → Outcomes app r
      → IsConsistent r.0
  Outcomes-IsConsistent (app', err e) c h = rw h c
  Outcomes-IsConsistent {app} (app', ok cfg) c h = record {
    loads = rw h.config h.loads;
    listening = rw h.config (h.listening ∙ settled cfg.http.bind _ _ c.listening);
  }

  -- A change keeps the file, the memory and the listener in agreement, on every branch.
  pub apply_config-IsConsistent :
      (out : Outcome) {app : App F} (body : ConfigUpdate F) (version : Option ℕ)
      → IsConsistent app
      → IsConsistent (apply_config fl out app body version).0
  apply_config-IsConsistent out {app} body version c =
      Outcomes-IsConsistent (apply_config fl out app body version) c
        (apply_config-Outcomes out app body version)

  abbrev pub Answered : App F → App F × Result ℕ (ConfigView F) → Type 0
  Answered app (app', err code) = app' ≡ app
  Answered app (app', ok view) =
      (cfg : Config F) × (from_yaml_str fl app'.disk ≡ ok cfg)
      × (app'.config ≡ cfg)
      × (app'.worker ≡ some cfg)
      × (view ≡ cfg_to_view cfg)
      × (app'.edits ≡ app.edits + 1)

  answer-Answered :
      (app : App F) (r : App F × Result ApplyError (Config F))
      → Outcomes app r
      → Answered app (answer fl r)
  unfolding answer
  answer-Answered app (app', err e) h = h
  answer-Answered app (app', ok cfg) h =
      (cfg, h.loads, h.config, h.worker, refl, ap (λ n. n + 1) h.edits)

  -- `PUT /api/config` answers with an error and leaves the state as it was, or answers with the view
  -- of a configuration that the file loads as, that is in memory and that the worker runs, and
  -- counts one local edit.
  pub put_config-Answered :
      (out : Outcome) (app : App F) (body : ConfigUpdate F)
      → Answered app (put_config fl out app body)
  unfolding put_config
  put_config-Answered out app body =
      answer-Answered app (apply_config fl out app body none)
        (apply_config-Outcomes out app body none)
