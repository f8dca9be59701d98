-- ===== src/App.antt =====
-- src/server.rs: the state that a configuration change touches, and the operations that change it.
mod Tests
pub mod Apply
pub mod Persist
mod Crash
use propmonitor.Base.{
  ℕ, ◌+◌, Text, text_eq, Bool, true, false, not, ◌&&◌, ◌==◌, if◌then◌else◌, Option, none, some,
  List, [], ◌∷◌, ◌++◌, Result, ok, err,
}
use propmonitor.Error.{Error, bind_failed, write_failed, no_microwaveprop_block}
use propmonitor.Float.{Float}
use propmonitor.Config.{MicrowavepropConfig, Config}
use propmonitor.Config.Load.{from_yaml_str}
use propmonitor.Settings.{ConfigUpdate, build_yaml_from_update, cfg_to_update}
use propmonitor.View.{ConfigView, cfg_to_view}

-- What the system answers to the calls of one operation: whether the new address could be parsed
-- and bound, and whether `write_atomic` replaced the file.
pub record Outcome : Type 0 where
  pub bind_ok : Bool
  pub write_ok : Bool

pub data ApplyError : Type 0 where
  invalid internal : Error → ApplyError

-- `ApplyError::status`
unfoldable pub status : ApplyError → ℕ
status (invalid e) = 400
status (internal e) = 500

-- `AppState`, with the file at `config_path`. `listening` is the address that the HTTP server was
-- started on, `worker` the configuration that the running worker and bridge were started with,
-- `sent` the configurations broadcast so far, `edits` the value of `sync_notify`.
pub record App (F : Type 0) : Type 0 where
  pub config : Config F
  pub disk : Text
  pub listening : Text
  pub worker : Option (Config F)
  pub sent : List (ConfigView F)
  pub edits : ℕ

abbrev pub set_version : {F : Type 0} → Config F → MicrowavepropConfig → ℕ → Config F
set_version cfg mw version = record cfg {
  microwaveprop = some (record mw { config_version = version });
}

module _ (fl : Float) where
  open fl use {F}

  -- The file is replaced as a whole, or left as it was.
  unfoldable pub write_config_file : Outcome → App F → Text → App F × Result Error (Unit {0})
  write_config_file out app yaml =
      if out.write_ok then (record app { disk = yaml }, ok tt) else (app, err write_failed)

  -- The old worker is stopped and joined before the new one starts.
  unfoldable pub restart_worker : App F → Config F → App F
  restart_worker app cfg = record app { worker = some cfg }

  -- From the moment that the new listener, if there is one, is bound.
  unfoldable pub activate :
      Outcome → App F → Text → Config F → Bool → App F × Result ApplyError (Config F)
  activate out app yaml new_cfg rebind =
      let (written, result) = write_config_file out app yaml in
      elim result [
        | err e ↦ (written, err (internal e))
        | ok _ ↦
            let moved =
              if rebind then record written { listening = new_cfg.http.bind } else written in
            let swapped = record moved { config = new_cfg } in
            let told = record swapped { sent = swapped.sent ++ (cfg_to_view new_cfg ∷ []) } in
            (restart_worker told new_cfg, ok new_cfg)
      ]

  -- From the moment that the new document is loaded.
  unfoldable pub apply_loaded :
      Outcome → App F → Text → Result Error (Config F) → App F × Result ApplyError (Config F)
  apply_loaded out app yaml (err e) = (app, err (invalid e))
  apply_loaded out app yaml (ok new_cfg) =
      let rebind = not (text_eq new_cfg.http.bind app.config.http.bind) in
      if rebind && not out.bind_ok
      then (app, err (internal (bind_failed new_cfg.http.bind)))
      else activate out app yaml new_cfg rebind

  unfoldable pub apply_config :
      Outcome → App F → ConfigUpdate F → Option ℕ → App F × Result ApplyError (Config F)
  apply_config out app body config_version =
      let yaml = build_yaml_from_update fl body app.config config_version in
      apply_loaded out app yaml (from_yaml_str fl yaml)

  -- From the moment that the `microwaveprop` block is found.
  unfoldable pub persist_in :
      Outcome → App F → MicrowavepropConfig → ℕ → App F × Result Error (Unit {0})
  persist_in out app mw version =
      if mw.config_version == version
      then (app, ok tt)
      else let active = set_version app.config mw version in
        let yaml = build_yaml_from_update fl (cfg_to_update active) active (some version) in
        write_config_file out (record app { config = active }) yaml

  unfoldable pub persist_found :
      Outcome → App F → Option MicrowavepropConfig → ℕ → App F × Result Error (Unit {0})
  persist_found out app none version = (app, err no_microwaveprop_block)
  persist_found out app (some mw) version = persist_in out app mw version

  unfoldable pub persist_config_version : Outcome → App F → ℕ → App F × Result Error (Unit {0})
  persist_config_version out app version = persist_found out app app.config.microwaveprop version

  -- The answer to `PUT /api/config`: the new configuration as a view, or a status.
  unfoldable pub answer : App F × Result ApplyError (Config F) → App F × Result ℕ (ConfigView F)
  answer (app', ok cfg) = (record app' { edits = app'.edits + 1 }, ok (cfg_to_view cfg))
  answer (app', err e) = (app', err (status e))

  unfoldable pub put_config : Outcome → App F → ConfigUpdate F → App F × Result ℕ (ConfigView F)
  put_config out app body = answer (apply_config out app body none)
