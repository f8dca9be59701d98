-- ===== src/Bridge/Socket/Tests.antt =====
-- A browser that connects to src/server.rs while the receiver measures.
use propmonitor.Base.{
  ℕ, codes, List, [], ◌∷◌, ◌++◌, Text, Bool, true, false, length, Option, none, some, ltb, ◌≡◌,
  refl,
}
use propmonitor.Worker
use propmonitor.Worker.{Measurement, WorkerEvent}
use propmonitor.Uploader.{UploaderStatus}
use propmonitor.Timefmt.{pos}
use propmonitor.Events
use propmonitor.Events.{WsEvent}
use propmonitor.Store.{last}
use propmonitor.Bridge.{convert_worker_event, stamp_event, step_of, to_stored}
use propmonitor.Bridge.Snapshot.{page, snapshot_events}
use propmonitor.Bridge.Socket.{
  received, lagged, closed, Turn, recv, tick, send_all, serve, handle_ws, forward_upload_events,
}
use propmonitor.Bridge.Socket.Sends.{texts_of}
use propmonitor.Bridge.Socket.Late.{start, handle_ws-page}
use propmonitor.Bridge.Socket.Hub.{
  Hub, Action, receive, send, other, handle, upload, receive_event, send_unsent, handle_next, act,
  run,
}
use propmonitor.Samples.{node}

abbrev reading : Measurement ℕ
reading = record {
  noise_dbfs = 1;
  signal_peak_dbfs = 2;
  signal_avg_dbfs = 3;
  snr_peak_db = 4;
  snr_avg_db = 5;
  signal_active_fraction = 6;
}

-- The types of the frames.
abbrev type_of : WsEvent ℕ ℕ → Option Text
type_of (Events.raw_level l) = some (codes "raw_level")
type_of (Events.measurement m) = some (codes "measurement")
type_of (Events.period_started t) = some (codes "period_started")
type_of (Events.config c) = some (codes "config")
type_of (Events.heartbeat t) = some (codes "heartbeat")
type_of _ = none

abbrev takes_all : List Text → Text → Bool
takes_all sent s = true

abbrev takes_two : List Text → Text → Bool
takes_two sent s = ltb (length sent) 2

abbrev uploader : UploaderStatus
uploader = record { enabled = true; last_post_at = none; last_status = none; queued = 0 }

abbrev bridge_event : Text → WorkerEvent ℕ ℕ → List (Action ℕ ℕ)
bridge_event now ev = receive (now, ev) ∷ send ∷ []

-- The browser subscribes after the state of a turn is written and before its frame is sent, and the
-- bridge goes on between its reads.
abbrev actions : List (Action ℕ ℕ)
actions =
    bridge_event (codes "a") (Worker.raw_level 7)
    ++ (receive (codes "b", Worker.period_started) ∷ handle ∷ send ∷ handle ∷ [])
    ++ bridge_event (codes "c") (Worker.raw_level 8)
    ++ (handle ∷ other (upload (codes "c") (codes "ok") 0) ∷ [])
    ++ bridge_event (codes "d") (Worker.period_measurement reading)
    ++ (handle ∷ [])
    ++ bridge_event (codes "e") (Worker.raw_level 9)

abbrev turns : List (Turn ℕ ℕ)
turns =
    tick (pos 0)
    ∷ recv (received (Events.period_started (codes "b")))
    ∷ recv (received (Events.raw_level 8))
    ∷ recv (received (Events.upload (codes "c") (codes "ok") 0))
    ∷ recv (received (Events.measurement (to_stored (codes "b") reading)))
    ∷ recv (received (Events.raw_level 9))
    ∷ []

handle_ws-page_example :
    let h : Hub ℕ ℕ = run start actions in
    (fs : List (WsEvent ℕ ℕ)) × (handle_ws type_of takes_all
        (snapshot_events h.seen uploader node)
        turns
      ≡ (texts_of type_of fs, true))
    × (page fs ≡ (h.bridge.device_info, h.bridge.last_raw_dbfs, last h.bridge.store))
handle_ws-page_example =
    handle_ws-page type_of takes_all actions uploader node turns (λ sent s. refl) refl
      (unfold run act receive_event send_unsent handle_next in refl)
      (unfold run act receive_event send_unsent handle_next in refl)
      (unfold run act receive_event send_unsent handle_next step_of convert_worker_event
          stamp_event in
        refl)

-- A peer that is gone after two texts ends the handler, and so does a closed channel.
peer_gone :
    handle_ws type_of takes_two (Events.raw_level 1 ∷ []) turns
    ≡ (codes "raw_level" ∷ codes "heartbeat" ∷ [], false)
unfolding handle_ws send_all serve
peer_gone = refl

channel_closed :
    handle_ws type_of takes_all
      (Events.raw_level 1 ∷ [])
      (recv lagged ∷ tick (pos 5) ∷ recv closed ∷ turns)
    ≡ (codes "raw_level" ∷ codes "heartbeat" ∷ [], false)
unfolding handle_ws send_all serve
channel_closed = refl

abbrev before : List (WsEvent ℕ ℕ)
before = Events.raw_level 1 ∷ []

forwarded :
    forward_upload_events before (
      received (record { at = codes "t"; ok_flag = false; queued = 2 })
      ∷ lagged
      ∷ received (record { at = codes "u"; ok_flag = true; queued = 0 })
      ∷ closed
      ∷ received (record { at = codes "v"; ok_flag = true; queued = 0 })
      ∷ [])
    ≡ Events.raw_level 1
      ∷ Events.upload (codes "t") (codes "error") 2
      ∷ Events.upload (codes "u") (codes "ok") 0
      ∷ []
unfolding forward_upload_events
forwarded = refl
