-- ===== src/Sync/Poll.antt =====
-- The polling fallback of src/sync.rs. What the website answers and what the system answers to the
-- changes that follow are the input, and the requests are listed.
pub mod Kept
mod Tests
use propmonitor.Base.{
  ℕ, ◌==◌, ltb, leb, ◌&&◌, Text, Bool, true, false, if◌then◌else◌, Option, none, some, List, [],
  ◌∷◌, ◌++◌, Result, ok, err, ◌>>=◌, ◌≡◌, refl, sym, ap, ◌∙◌, append-nil, append_assoc, Bool-cases,
  inl, inr, ◌⊎◌,
}
use propmonitor.Error.{Error}
use propmonitor.Float.{Float}
use propmonitor.Store.{StoredMeasurement, MeasurementStore}
use propmonitor.Uploader.{UploaderStatus}
use propmonitor.App.{App, Outcome, persist_config_version}
use propmonitor.Sync.{SyncConfig, applied_version, ReportBody, report_body}
use propmonitor.Sync.Report.{ReportState, acked}
use propmonitor.Sync.Push.{apply_push}
use propmonitor.Sync.Session.{StatusBody, status_body}

-- The answer to a request: none, or a status with a body that is read or is not.
pub data Reply (A : Type 0) : Type 0 where
  no_reply : Text → Reply A
  replied : ℕ → Result Text A → Reply A

pub data PollError : Type 0 where
  unanswered : Text → PollError
  bad_status : ℕ → PollError
  bad_body : Text → PollError
  not_applied : Error → PollError

-- The requests of a round.
pub data Request (F : Type 0) : Type 0 where
  post_config : ReportBody F → Request F
  get_config : ℕ → Request F
  put_status : StatusBody F → Request F

-- The answers of a round, each with what the system answers to the change that follows.
pub record Round (F : Type 0) : Type 0 where
  pub report_reply : Reply ℕ
  pub record_outcome : Outcome
  pub config_reply : Reply (ℕ × SyncConfig F)
  pub push_outcome : Outcome
  pub status_reply : Reply (Unit {0})
  pub local_ip : Option Text
  pub uploader : UploaderStatus
  pub store : MeasurementStore (StoredMeasurement F)

-- The state, and the requests so far.
pub record Polling (F : Type 0) : Type 0 where
  pub app : App F
  pub report : ReportState
  pub requests : List (Request F)

module _ {A : Type 0} where
  abbrev pub read_body : Result Text A → Result PollError A
  read_body (ok a) = ok a
  read_body (err e) = err (bad_body e)

  -- The body of an answer that is a success.
  unfoldable pub accept : Reply A → Result PollError A
  accept (no_reply e) = err (unanswered e)
  accept (replied status body) =
      if leb 200 status && ltb status 300 then read_body body else err (bad_status status)

module _ (fl : Float) where
  open fl use {F}

  abbrev pub ask : Polling F → Request F → Polling F
  ask p r = record p { requests = p.requests ++ r ∷ [] }

  -- `record_version`, whose error is only printed.
  unfoldable pub record_version : Outcome → App F → ℕ → App F
  record_version out app version = (persist_config_version fl out app version).0

  -- `post_report` and what follows it.
  unfoldable pub reported : Round F → Polling F → Result PollError ℕ → Polling F
  reported r p (err e) = p
  reported r p (ok version) = record p {
    app = record_version r.record_outcome p.app version;
    report = acked p.report;
  }

  unfoldable pub poll_report : Round F → Polling F → Polling F
  poll_report r p =
      if p.report.pending
      then reported r (ask p (post_config (report_body p.app.config))) (accept r.report_reply)
      else p

  -- `pull_config`
  unfoldable pub pulled :
      Outcome → App F → Result PollError (ℕ × SyncConfig F) → App F × Result PollError (Unit {0})
  pulled out app (err e) = (app, err e)
  pulled out app (ok (version, config)) =
      let (app', result) = apply_push fl out app version config in (app', done result)
    where
      done : {A : Type 0} → Result Error A → Result PollError (Unit {0})
      done (ok a) = ok tt
      done (err e) = err (not_applied e)

  unfoldable pub pull_reply :
      Outcome → App F → Reply (ℕ × SyncConfig F) → App F × Result PollError (Unit {0})
  pull_reply out app (no_reply e) = pulled out app (accept (no_reply e))
  pull_reply out app (replied status body) =
      if status == 304 then (app, ok tt) else pulled out app (accept (replied status body))

  unfoldable pub poll_config : Round F → Polling F → Polling F
  poll_config r p =
      let asked = ask p (get_config (applied_version p.app.config)) in
      record asked { app = (pull_reply r.push_outcome p.app r.config_reply).0 }

  -- `post_status`, whose answer is only printed.
  unfoldable pub poll_status : Round F → Polling F → Polling F
  poll_status r p =
      ask p (put_status (status_body r.local_ip p.app.config.http.bind r.uploader r.store))

  unfoldable pub poll_cycle : Round F → Polling F → Polling F
  poll_cycle r p = poll_status r (poll_config r (poll_report r p))
