-- ===== src/Bridge/Socket/Linked.antt =====
-- The state of src/server.rs and what a browser's handler has read and received of it.
use propmonitor.Base.{Text, List, [], ◌∷◌, false, Option, none, some, ◌≡◌, refl, ap, subst}
use propmonitor.Store.{last}
use propmonitor.Store.History.{last-push}
use propmonitor.Worker
use propmonitor.Worker.{WorkerEvent}
use propmonitor.Events.{WsEvent}
use propmonitor.Bridge.{Bridge, stamp_event, convert_worker_event, step_of, update_state}
use propmonitor.Bridge.Snapshot.{IsDevice}
use propmonitor.Bridge.Socket.Newest.{newest, device_of, level_of, measured_of}
use propmonitor.Bridge.Socket.Hub.{
  Place, connecting, subscribed, device_read, level_read, store_read, OtherFrame, upload, update,
  config, Hub, Action, receive, send, other, handle, frame_of, receive_event, send_unsent,
  handle_next, act, run,
}
use propmonitor.Bridge.Socket.Shown.{
  has_device, has_level, has_store, Idle, Shown, written-Shown, sent-Shown, other-Shown, placed,
  read-Shown, deliver-Idle,
}

module _ {F S : Type 0} where
  pub record IsLinked (h : Hub F S) : Type 0 where
    pub device :
        Shown device_of
          (has_device h.place)
          h.seen.device_info
          h.queue
          h.unsent
          h.bridge.device_info
    pub level :
        Shown level_of
          (has_level h.place)
          h.seen.last_raw_dbfs
          h.queue
          h.unsent
          h.bridge.last_raw_dbfs
    pub measured :
        Shown measured_of
          (has_store h.place)
          (last h.seen.store)
          h.queue
          h.unsent
          (last h.bridge.store)
    pub is_device : IsDevice h.bridge.device_info
    pub seen_device : IsDevice h.seen.device_info
    pub idle : Idle h.place h.queue

  -- What a turn writes is what its frame says.
  record Writes (b c : Bridge F S) (ev : WsEvent F S) : Type 0 where
    device : c.device_info ≡ newest device_of b.device_info (ev ∷ [])
    level : c.last_raw_dbfs ≡ newest level_of b.last_raw_dbfs (ev ∷ [])
    measured : last c.store ≡ newest measured_of (last b.store) (ev ∷ [])
    is_device : IsDevice b.device_info → IsDevice c.device_info

  step-Writes :
      (b : Bridge F S) (e : Text × WorkerEvent F S)
      → let (p, s) = step_of b e in Writes b (update_state b p s) s.ws_event
  unfolding step_of stamp_event convert_worker_event
  step-Writes b (now, Worker.device_info d) = record {
    device = refl;
    level = refl;
    measured = refl;
    is_device = λ h. tt;
  }
  step-Writes b (now, Worker.raw_level l) = record {
    device = refl;
    level = refl;
    measured = refl;
    is_device = λ h. h;
  }
  step-Writes b (now, Worker.waterfall_row x y z) = record {
    device = refl;
    level = refl;
    measured = refl;
    is_device = λ h. h;
  }
  step-Writes b (now, Worker.period_started) = record {
    device = refl;
    level = refl;
    measured = refl;
    is_device = λ h. h;
  }
  step-Writes b (now, Worker.period_measurement m) = record {
    device = refl;
    level = refl;
    measured = last-push b.store _;
    is_device = λ h. h;
  }
  step-Writes b (now, Worker.error m) = record {
    device = refl;
    level = refl;
    measured = refl;
    is_device = λ h. h;
  }

  receive_event-IsLinked :
      (h : Hub F S) (u : Option (WsEvent F S)) (e : Text × WorkerEvent F S)
      → h.unsent ≡ u
      → IsLinked h
      → IsLinked (receive_event h u e)
  unfolding receive_event
  receive_event-IsLinked h (some ev) e eu l = l
  receive_event-IsLinked h none e eu l =
      let ev = (step_of h.bridge e).1.ws_event in
      let w = step-Writes h.bridge e in
      record {
        device = written-Shown device_of _ _ _ _ _ _ ev eu w.device l.device;
        level = written-Shown level_of _ _ _ _ _ _ ev eu w.level l.level;
        measured = written-Shown measured_of _ _ _ _ _ _ ev eu w.measured l.measured;
        is_device = w.is_device l.is_device;
        seen_device = l.seen_device;
        idle = l.idle;
      }

  send_unsent-IsLinked :
      (h : Hub F S) (u : Option (WsEvent F S))
      → h.unsent ≡ u
      → IsLinked h
      → IsLinked (send_unsent h u)
  unfolding send_unsent
  send_unsent-IsLinked h none eu l = l
  send_unsent-IsLinked h (some ev) eu l = record {
    device = sent-Shown device_of has_device h.place _ _ _ _ ev refl l.idle eu l.device;
    level = sent-Shown level_of has_level h.place _ _ _ _ ev refl l.idle eu l.level;
    measured = sent-Shown measured_of has_store h.place _ _ _ _ ev refl l.idle eu l.measured;
    is_device = l.is_device;
    seen_device = l.seen_device;
    idle = deliver-Idle h.place ev h.queue l.idle;
  }

  quiet :
      (f : OtherFrame F)
      → let ev : WsEvent F S = frame_of f in
        (device_of ev ≡ none) × (level_of ev ≡ none) × (measured_of ev ≡ none)
  quiet (upload a b c) = (refl, refl, refl)
  quiet (update a b c) = (refl, refl, refl)
  quiet (config c) = (refl, refl, refl)

  handle_next-IsLinked :
      (h : Hub F S) (at : Place) → h.place ≡ at → IsLinked h → IsLinked (handle_next h at)
  unfolding handle_next
  handle_next-IsLinked h connecting e l =
      let empty : h.queue ≡ [] = subst (λ p. Idle p h.queue) e l.idle in
      record {
        device =
            subst (λ q. Shown device_of false h.seen.device_info q h.unsent h.bridge.device_info)
              empty (placed device_of _ _ _ _ _ _ (ap has_device e) l.device);
        level =
            subst (λ q. Shown level_of false h.seen.last_raw_dbfs q h.unsent h.bridge.last_raw_dbfs)
              empty (placed level_of _ _ _ _ _ _ (ap has_level e) l.level);
        measured =
            subst
              (λ q. Shown measured_of false (last h.seen.store) q h.unsent (last h.bridge.store))
              empty (placed measured_of _ _ _ _ _ _ (ap has_store e) l.measured);
        is_device = l.is_device;
        seen_device = l.seen_device;
        idle = tt;
      }
  handle_next-IsLinked h subscribed e l = record {
    device = read-Shown device_of _ _ _ _ _ l.device;
    level = placed level_of _ _ _ _ _ _ (ap has_level e) l.level;
    measured = placed measured_of _ _ _ _ _ _ (ap has_store e) l.measured;
    is_device = l.is_device;
    seen_device = l.is_device;
    idle = tt;
  }
  handle_next-IsLinked h device_read e l = record {
    device = placed device_of _ _ _ _ _ _ (ap has_device e) l.device;
    level = read-Shown level_of _ _ _ _ _ l.level;
    measured = placed measured_of _ _ _ _ _ _ (ap has_store e) l.measured;
    is_device = l.is_device;
    seen_device = l.seen_device;
    idle = tt;
  }
  handle_next-IsLinked h level_read e l = record {
    device = placed device_of _ _ _ _ _ _ (ap has_device e) l.device;
    level = placed level_of _ _ _ _ _ _ (ap has_level e) l.level;
    measured = read-Shown measured_of _ _ _ _ _ l.measured;
    is_device = l.is_device;
    seen_device = l.seen_device;
    idle = tt;
  }
  handle_next-IsLinked h store_read e l = l

  act-IsLinked : (h : Hub F S) (a : Action F S) → IsLinked h → IsLinked (act h a)
  unfolding act
  act-IsLinked h (receive e) l = receive_event-IsLinked h h.unsent e refl l
  act-IsLinked h send l = send_unsent-IsLinked h h.unsent refl l
  act-IsLinked h (other f) l = record {
    device = other-Shown device_of _ h.place _ _ _ _ (frame_of f) (quiet f).0 l.device;
    level = other-Shown level_of _ h.place _ _ _ _ (frame_of f) (quiet f).1 l.level;
    measured = other-Shown measured_of _ h.place _ _ _ _ (frame_of f) (quiet f).2 l.measured;
    is_device = l.is_device;
    seen_device = l.seen_device;
    idle = deliver-Idle h.place (frame_of f) h.queue l.idle;
  }
  act-IsLinked h handle l = handle_next-IsLinked h h.place refl l

  pub run-IsLinked :
      (actions : List (Action F S)) (h : Hub F S) → IsLinked h → IsLinked (run h actions)
  unfolding run
  run-IsLinked [] h l = l
  run-IsLinked (a ∷ later) h l = run-IsLinked later (act h a) (act-IsLinked h a l)
