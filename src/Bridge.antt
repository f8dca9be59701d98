-- ===== src/Bridge.antt =====
-- src/server.rs: the bridge thread, which turns the worker's events into frames for the browsers and
-- into state.
mod Tests
pub mod Run
pub mod Snapshot
pub mod Socket
use propmonitor.Base.{
  ℕ, Text, List, [], ◌∷◌, ◌++◌, Bool, true, false, if◌then◌else◌, Option, none, some,
}
use propmonitor.Store.{StoredMeasurement, MeasurementStore, push}
use propmonitor.Worker
use propmonitor.Worker.{Measurement, DeviceInfo, WorkerEvent}
use propmonitor.Events
use propmonitor.Events.{WsEvent}

pub record BridgeStep (F S : Type 0) : Type 0 where
  pub ws_event : WsEvent F S
  pub update_device_info : Bool
  pub update_last_raw_dbfs : Option F
  pub push_measurement : Option (StoredMeasurement F)

abbrev pub to_stored : {F : Type 0} → Text → Measurement F → StoredMeasurement F
to_stored now m = record {
  measured_at = now;
  noise_floor_dbfs = m.noise_dbfs;
  signal_peak_dbfs = m.signal_peak_dbfs;
  signal_avg_dbfs = m.signal_avg_dbfs;
  snr_peak_db = m.snr_peak_db;
  snr_avg_db = m.snr_avg_db;
  signal_active_fraction = m.signal_active_fraction;
}

abbrev pub unwrap_or : Option Text → Text → Text
unwrap_or none now = now
unwrap_or (some t) now = t

-- The thread's own variable, the parts of `AppState` that it writes, and the frames that it sent.
pub record Bridge (F S : Type 0) : Type 0 where
  pub period_start : Option Text
  pub device_info : Option (WsEvent F S)
  pub last_raw_dbfs : Option F
  pub store : MeasurementStore (StoredMeasurement F)
  pub sent : List (WsEvent F S)

abbrev pushed :
    {F : Type 0}
    → MeasurementStore (StoredMeasurement F)
    → Option (StoredMeasurement F)
    → MeasurementStore (StoredMeasurement F)
pushed s none = s
pushed s (some m) = push s m

abbrev replaced : {F : Type 0} → Option F → Option F → Option F
replaced old none = old
replaced old (some dbfs) = some dbfs

module _ {F S : Type 0} where
  -- A step that only sends a frame.
  abbrev send_only : WsEvent F S → BridgeStep F S
  send_only ws = record {
    ws_event = ws;
    update_device_info = false;
    update_last_raw_dbfs = none;
    push_measurement = none;
  }

  unfoldable pub convert_worker_event : WorkerEvent F S → Text → BridgeStep F S
  convert_worker_event (Worker.device_info d) now = record (send_only (Events.device_info d)) {
    update_device_info = true;
  }
  convert_worker_event (Worker.raw_level dbfs) now = record (send_only (Events.raw_level dbfs)) {
    update_last_raw_dbfs = some dbfs;
  }
  convert_worker_event (Worker.waterfall_row bins f0_hz bin_hz) now =
      send_only (Events.waterfall f0_hz bin_hz bins)
  convert_worker_event Worker.period_started now = send_only (Events.period_started now)
  convert_worker_event (Worker.period_measurement m) now =
      record (send_only (Events.measurement (to_stored now m))) {
        push_measurement = some (to_stored now m);
      }
  convert_worker_event (Worker.error message) now = send_only (Events.error message)

  -- The stamp of an event, and the start of the integration window after it.
  unfoldable pub stamp_event : WorkerEvent F S → Text → Option Text → Option Text × Text
  stamp_event Worker.period_started now period_start = (some now, now)
  stamp_event (Worker.period_measurement m) now period_start =
      (period_start, unwrap_or period_start now)
  stamp_event (Worker.waterfall_row bins f0_hz bin_hz) now period_start = (period_start, now)
  stamp_event (Worker.raw_level dbfs) now period_start = (period_start, now)
  stamp_event (Worker.device_info d) now period_start = (period_start, now)
  stamp_event (Worker.error message) now period_start = (period_start, now)

  -- The state that a turn writes, and the send on the broadcast channel that follows.
  abbrev pub update_state : Bridge F S → Option Text → BridgeStep F S → Bridge F S
  update_state b period_start s = record b {
    period_start = period_start;
    device_info = if s.update_device_info then some s.ws_event else b.device_info;
    last_raw_dbfs = replaced b.last_raw_dbfs s.update_last_raw_dbfs;
    store = pushed b.store s.push_measurement;
  }

  abbrev pub send_frame : Bridge F S → WsEvent F S → Bridge F S
  send_frame b ev = record b { sent = b.sent ++ ev ∷ [] }

  -- The step of an event received at the time `now`, and the start of the window after it.
  unfoldable pub step_of : Bridge F S → Text × WorkerEvent F S → Option Text × BridgeStep F S
  step_of b (now, ev) =
      let (period_start, stamp) = stamp_event ev now b.period_start in
      (period_start, convert_worker_event ev stamp)

  -- One turn of `bridge_loop`: the state is written, and then the frame is sent.
  unfoldable pub bridge_turn : Bridge F S → Text × WorkerEvent F S → Bridge F S
  unfolding step_of
  bridge_turn b e =
      let (period_start, s) = step_of b e in send_frame (update_state b period_start s) s.ws_event

  unfoldable pub bridge_loop : Bridge F S → List (Text × WorkerEvent F S) → Bridge F S
  bridge_loop b [] = b
  bridge_loop b (e ∷ es) = bridge_loop (bridge_turn b e) es
