-- ===== src/Sync/Session.antt =====
-- `run_session` of src/sync.rs as turns, with the frames that it sends.
pub mod Reports
use propmonitor.Base.{
  ℕ, ◌^◌, ◌==◌, Text, codes, text_eq, is_empty, List, [], ◌∷◌, ◌++◌, Bool, true, false, not,
  if◌then◌else◌, Option, none, some,
}
use propmonitor.Base.Decimal.{parse_uint}
use propmonitor.Float.{Float}
use propmonitor.Yaml.{trim}
use propmonitor.Config.{MicrowavepropConfig, Config}
use propmonitor.Store.{StoredMeasurement, MeasurementStore, last}
use propmonitor.Uploader.{UploaderStatus}
use propmonitor.App.{App, Outcome}
use propmonitor.Sync.{
  SyncConfig, from_config, applied_version, ServerFrame, ReportBody, report_body,
}
use propmonitor.Sync.Report.{ReportState, mark_edit, begin_session, owes_report, report_sent}
use propmonitor.Sync.Push.{AppliedBody, handle_server_frame}

-- What follows the last colon of a text, if it has one.
unfoldable pub after_colon : Text → Option Text
after_colon [] = none
after_colon (c ∷ s) = elim (after_colon s) [
  | some rest ↦ some rest
  | none ↦ if c == b':' then some s else none
]

unfoldable pub port_from_bind : Text → Option ℕ
port_from_bind bind = elim (after_colon (trim bind)) [
  | none ↦ none
  | some port ↦ parse_uint (2 ^ 16) port
]

abbrev or_zero : Option ℕ → ℕ
or_zero none = 0
or_zero (some n) = n

pub record HelloBody (F : Type 0) : Type 0 where
  pub client_version : Text
  pub applied_config_version : ℕ
  pub local_ip : Option Text
  pub local_port : ℕ
  pub config : SyncConfig F

pub record UploaderView : Type 0 where
  pub enabled : Bool
  pub last_status : Option Text
  pub queued : ℕ

pub record StatusBody (F : Type 0) : Type 0 where
  pub local_ip : Option Text
  pub local_port : ℕ
  pub uploader : UploaderView
  pub last_measurement : Option (StoredMeasurement F)

-- The frames of the node.
pub data NodeFrame (F : Type 0) : Type 0 where
  hello : HelloBody F → NodeFrame F
  config_report : ReportBody F → NodeFrame F
  config_applied : AppliedBody → NodeFrame F
  status : StatusBody F → NodeFrame F
  ping : NodeFrame F

-- `none` for a text that is no frame.
pub data Message (F : Type 0) : Type 0 where
  text : Option (ServerFrame F) → Message F
  close other broken ended : Message F

-- What wakes the session's loop, `shut_down` for a watch channel that is closed, and `elsewhere` for what other tasks do to the state meanwhile.
pub data SessionEvent (F : Type 0) : Type 0 where
  incoming : Outcome → Message F → SessionEvent F
  status_tick :
      Option Text → UploaderStatus → MeasurementStore (StoredMeasurement F) → SessionEvent F
  ping_tick : SessionEvent F
  edited shut_down : SessionEvent F
  elsewhere : App F → SessionEvent F

-- The state, and the frames that were sent in the session.
pub record Session (F : Type 0) : Type 0 where
  pub app : App F
  pub report : ReportState
  pub sent : List (NodeFrame F)

pub data Next (A : Type 0) : Type 0 where
  goes_on ends : A → Next A

abbrev pub current_token : Option MicrowavepropConfig → Option Text
current_token none = none
current_token (some m) = if is_empty m.monitor_token then none else some m.monitor_token

abbrev pub has_token : Text → Option Text → Bool
has_token token none = false
has_token token (some t) = text_eq t token

module _ {F : Type 0} where
  unfoldable pub hello_frame : Config F → Option Text → ℕ → NodeFrame F
  hello_frame cfg local_ip local_port = hello (record {
    client_version = codes "0.2.0";
    applied_config_version = applied_version cfg;
    local_ip = local_ip;
    local_port = local_port;
    config = from_config cfg;
  })

  unfoldable pub status_body :
      Option Text → Text → UploaderStatus → MeasurementStore (StoredMeasurement F) → StatusBody F
  status_body local_ip bind uploader store = record {
    local_ip = local_ip;
    local_port = or_zero (port_from_bind bind);
    uploader = record {
      enabled = uploader.enabled;
      last_status = uploader.last_status;
      queued = uploader.queued;
    };
    last_measurement = last store;
  }

  unfoldable pub send_frame : Bool → Session F → NodeFrame F → Next (Session F)
  send_frame send_ok s f =
      if send_ok then goes_on (record s { sent = s.sent ++ f ∷ [] }) else ends s

  -- The start of the session, up to its loop.
  unfoldable pub open_session : Bool → App F → ReportState → Option Text → Next (Session F)
  open_session send_ok app report local_ip =
      send_frame send_ok (record { app = app; report = begin_session report; sent = [] })
        (hello_frame app.config local_ip (or_zero (port_from_bind app.config.http.bind)))

  -- The head of the loop.
  unfoldable pub flush_report : Bool → Session F → Next (Session F)
  flush_report send_ok s =
      if not (owes_report s.report)
      then goes_on s
      else if send_ok
      then goes_on (record s {
        report = report_sent s.report;
        sent = s.sent ++ config_report (report_body s.app.config) ∷ [];
      })
      else ends s

module _ (fl : Float) where
  open fl use {F}

  unfoldable pub reply : Bool → Session F → Option AppliedBody → Next (Session F)
  reply send_ok s none = goes_on s
  reply send_ok s (some body) = send_frame send_ok s (config_applied body)

  unfoldable pub on_message : Bool → Session F → Outcome → Message F → Next (Session F)
  on_message send_ok s out (text (some frame)) =
      let (app', report', answer) = handle_server_frame fl out s.app frame s.report in
      reply send_ok (record s { app = app'; report = report' }) answer
  on_message send_ok s out (text none) = goes_on s
  on_message send_ok s out close = ends s
  on_message send_ok s out other = goes_on s
  on_message send_ok s out broken = ends s
  on_message send_ok s out ended = ends s

  unfoldable pub on_event : Text → Bool → Session F → SessionEvent F → Next (Session F)
  on_event token send_ok s (incoming out message) = on_message send_ok s out message
  on_event token send_ok s (status_tick local_ip uploader store) =
      send_frame send_ok s (status (status_body local_ip s.app.config.http.bind uploader store))
  on_event token send_ok s ping_tick = send_frame send_ok s ping
  on_event token send_ok s edited =
      let marked = record s { report = mark_edit s.report } in
      if has_token token (current_token s.app.config.microwaveprop)
      then goes_on marked
      else ends marked
  on_event token send_ok s shut_down = ends s
  on_event token send_ok s (elsewhere app') = goes_on (record s { app = app' })

  unfoldable pub then_event : Text → Bool → Next (Session F) → SessionEvent F → Next (Session F)
  then_event token send_ok (goes_on s) ev = on_event token send_ok s ev
  then_event token send_ok (ends s) ev = ends s

  -- One turn of the loop; the flags say whether its two sends succeed.
  unfoldable pub session_turn : Text → Session F → Bool × Bool × SessionEvent F → Next (Session F)
  session_turn token s (flush_ok, send_ok, ev) =
      then_event token send_ok (flush_report flush_ok s) ev

  unfoldable pub session_loop :
      Text → Next (Session F) → List (Bool × Bool × SessionEvent F) → Next (Session F)
  session_loop token n [] = n
  session_loop token (ends s) (e ∷ es) = ends s
  session_loop token (goes_on s) (e ∷ es) = session_loop token (session_turn token s e) es
