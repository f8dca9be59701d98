-- ===== src/Sync/Push.antt =====
-- `apply_push` and `handle_server_frame` of src/sync.rs.
use propmonitor.Base.{ℕ, Bool, true, false, Option, none, some, Result, ok, err, ◌>>=◌, map_err}
use propmonitor.Error.{Error}
use propmonitor.Float.{Float}
use propmonitor.Config.{Config}
use propmonitor.App.{
  App, Outcome, ApplyError, invalid, internal, apply_config, persist_config_version,
}
use propmonitor.Sync.{
  SyncConfig, from_config, to_config_update, applied_version, PushDecision, stale, version_only,
  apply, decide_push, ServerFrame, hello_ack, config_push, config_accepted, error,
}
use propmonitor.Sync.Report.{ReportState, acked}

-- The text of an `ApplyError` is that of the error in it.
abbrev pub reason : ApplyError → Error
reason (invalid e) = e
reason (internal e) = e

-- The body of a `config_applied` frame.
pub record AppliedBody : Type 0 where
  pub version : ℕ
  pub ok_flag : Bool
  pub error_text : Option Error

module _ (fl : Float) where
  open fl use {F}

  -- With the configuration `current` that was read first. What follows takes the lock of the writers
  -- anew, so that another change may come between.
  unfoldable pub push_as :
      Outcome
      → Config F
      → App F
      → ℕ
      → SyncConfig F
      → PushDecision
      → App F × Result Error PushDecision
  push_as out current app version pushed stale = (app, ok stale)
  push_as out current app version pushed version_only =
      let (app', result) = persist_config_version fl out app version in
      (app', result >>= λ _. ok version_only)
  push_as out current app version pushed apply =
      let (app', result) =
        apply_config fl out app (to_config_update pushed current) (some version) in
      (app', map_err reason result >>= λ _. ok apply)

  unfoldable pub apply_push_read :
      Outcome → Config F → App F → ℕ → SyncConfig F → App F × Result Error PushDecision
  apply_push_read out current app version pushed =
      push_as out current app version pushed
        (decide_push fl version (applied_version current) pushed (from_config current))

  -- When no change comes between.
  unfoldable pub apply_push : Outcome → App F → ℕ → SyncConfig F → App F × Result Error PushDecision
  apply_push out app version pushed = apply_push_read out app.config app version pushed

  -- The reply to a push.
  unfoldable pub push_reply : ℕ → Result Error PushDecision → Option AppliedBody
  push_reply version (ok stale) = none
  push_reply version (ok version_only) =
      some (record { version = version; ok_flag = true; error_text = none })
  push_reply version (ok apply) =
      some (record { version = version; ok_flag = true; error_text = none })
  push_reply version (err e) =
      some (record { version = version; ok_flag = false; error_text = some e })

  unfoldable pub handle_server_frame :
      Outcome → App F → ServerFrame F → ReportState → App F × ReportState × Option AppliedBody
  handle_server_frame out app (hello_ack version) report = (app, report, none)
  handle_server_frame out app (config_push version config) report =
      let (app', result) = apply_push out app version config in
      (app', report, push_reply version result)
  handle_server_frame out app (config_accepted version) report =
      let (app', result) = persist_config_version fl out app version in (app', acked report, none)
  handle_server_frame out app (error code message) report = (app, report, none)
