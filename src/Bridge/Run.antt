-- ===== src/Bridge/Run.antt =====
-- Runs of the bridge thread of src/server.rs.
use propmonitor.Base.{
  suc, Text, List, [], ◌∷◌, ◌++◌, append_assoc, append-nil, length, Bool, true, false, Option, some,
  ◌≡◌, refl, sym, ap, ◌∙◌, all, &&_split,
}
use propmonitor.Store.{StoredMeasurement, last}
use propmonitor.Store.History.{pushes, last-push}
use propmonitor.Worker
use propmonitor.Worker.{Measurement, WorkerEvent}
use propmonitor.Events
use propmonitor.Events.{WsEvent}
use propmonitor.Bridge.{
  Bridge, convert_worker_event, stamp_event, bridge_turn, bridge_loop, to_stored, unwrap_or,
}

module _ {F S : Type 0} where
  -- The measurements that a list of frames carries.
  abbrev pub measurements_in : List (WsEvent F S) → List (StoredMeasurement F)
  measurements_in [] = []
  measurements_in (Events.measurement m ∷ fs) = m ∷ measurements_in fs
  measurements_in (_ ∷ fs) = measurements_in fs

  -- The newest device frame in a list of frames, or the one before them.
  abbrev pub device_after : Option (WsEvent F S) → List (WsEvent F S) → Option (WsEvent F S)
  device_after d [] = d
  device_after d (Events.device_info i ∷ fs) = device_after (some (Events.device_info i)) fs
  device_after d (_ ∷ fs) = device_after d fs

  abbrev pub level_after : Option F → List (WsEvent F S) → Option F
  level_after r [] = r
  level_after r (Events.raw_level l ∷ fs) = level_after (some l) fs
  level_after r (_ ∷ fs) = level_after r fs

  -- The state agrees with the frames sent after a state `b`.
  pub record Follows (b c : Bridge F S) (frames : List (WsEvent F S)) : Type 0 where
    pub sent : c.sent ≡ b.sent ++ frames
    pub store : c.store ≡ pushes b.store (measurements_in frames)
    pub device_info : c.device_info ≡ device_after b.device_info frames
    pub last_raw_dbfs : c.last_raw_dbfs ≡ level_after b.last_raw_dbfs frames

  -- The frame of one turn.
  abbrev frame : Bridge F S → Text × WorkerEvent F S → WsEvent F S
  frame b (now, ev) = (convert_worker_event ev (stamp_event ev now b.period_start).1).ws_event

  turn-Follows :
      (b c : Bridge F S) (e : Text × WorkerEvent F S) (frames : List (WsEvent F S))
      → Follows (bridge_turn b e) c frames
      → Follows b c (frame b e ∷ frames)
  unfolding bridge_turn convert_worker_event stamp_event pushes
  turn-Follows b c (now, Worker.device_info d) frames h = record {
    sent = h.sent ∙ append_assoc b.sent _ frames;
    store = h.store;
    device_info = h.device_info;
    last_raw_dbfs = h.last_raw_dbfs;
  }
  turn-Follows b c (now, Worker.raw_level l) frames h = record {
    sent = h.sent ∙ append_assoc b.sent _ frames;
    store = h.store;
    device_info = h.device_info;
    last_raw_dbfs = h.last_raw_dbfs;
  }
  turn-Follows b c (now, Worker.waterfall_row x y z) frames h = record {
    sent = h.sent ∙ append_assoc b.sent _ frames;
    store = h.store;
    device_info = h.device_info;
    last_raw_dbfs = h.last_raw_dbfs;
  }
  turn-Follows b c (now, Worker.period_started) frames h = record {
    sent = h.sent ∙ append_assoc b.sent _ frames;
    store = h.store;
    device_info = h.device_info;
    last_raw_dbfs = h.last_raw_dbfs;
  }
  turn-Follows b c (now, Worker.period_measurement m) frames h = record {
    sent = h.sent ∙ append_assoc b.sent _ frames;
    store = h.store;
    device_info = h.device_info;
    last_raw_dbfs = h.last_raw_dbfs;
  }
  turn-Follows b c (now, Worker.error m) frames h = record {
    sent = h.sent ∙ append_assoc b.sent _ frames;
    store = h.store;
    device_info = h.device_info;
    last_raw_dbfs = h.last_raw_dbfs;
  }

  -- A run of the bridge sends one frame for each event of the worker, and its state agrees with the
  -- frames: the store received the measurements that the browsers were sent, with the same stamps
  -- and in the same order, and the device information and the level are those of the newest frame
  -- that carries them.
  pub bridge_loop-Follows :
      (b : Bridge F S) (events : List (Text × WorkerEvent F S))
      → (frames : List (WsEvent F S)) × Follows b (bridge_loop b events) frames
        × (length frames ≡ length events)
  unfolding bridge_loop pushes
  bridge_loop-Follows b [] = (
    [],
    record {
      sent = sym (append-nil b.sent);
      store = refl;
      device_info = refl;
      last_raw_dbfs = refl;
    },
    refl,
  )
  bridge_loop-Follows b (e ∷ es) =
      let (frames, h, n) = bridge_loop-Follows (bridge_turn b e) es in
      (frame b e ∷ frames, turn-Follows b (bridge_loop (bridge_turn b e) es) e frames h, ap suc n)

  abbrev pub keeps_window : Text × WorkerEvent F S → Bool
  keeps_window (now, Worker.period_started) = false
  keeps_window (now, _) = true

  turn-period_start :
      (b : Bridge F S) (e : Text × WorkerEvent F S)
      → keeps_window e ≡ true
      → (bridge_turn b e).period_start ≡ b.period_start
  unfolding bridge_turn stamp_event
  turn-period_start b (now, Worker.period_started) h = absurd (cc h)
  turn-period_start b (now, Worker.period_measurement m) h = refl
  turn-period_start b (now, Worker.waterfall_row x y z) h = refl
  turn-period_start b (now, Worker.raw_level l) h = refl
  turn-period_start b (now, Worker.device_info d) h = refl
  turn-period_start b (now, Worker.error m) h = refl

  turn-measurement :
      (b : Bridge F S) (t now : Text) (m : Measurement F)
      → b.period_start ≡ some t
      → last (bridge_turn b (now, Worker.period_measurement m)).store ≡ some (to_stored t m)
  unfolding bridge_turn stamp_event convert_worker_event
  turn-measurement b t now m e =
      last-push b.store _ ∙ ap (λ o. some (to_stored (unwrap_or o now) m)) e

  loop-measurement :
      (b : Bridge F S) (t now : Text) (m : Measurement F) (between : List (Text × WorkerEvent F S))
      → b.period_start ≡ some t
      → all keeps_window between ≡ true
      → last (bridge_loop b (between ++ (now, Worker.period_measurement m) ∷ [])).store
        ≡ some (to_stored t m)
  unfolding bridge_loop
  loop-measurement b t now m [] e h = turn-measurement b t now m e
  loop-measurement b t now m (x ∷ xs) e h =
      let (kept, rest) = &&_split (keeps_window x) (all keeps_window xs) h in
      loop-measurement (bridge_turn b x) t now m xs (turn-period_start b x kept ∙ e) rest

  -- A measurement is stored with the time at which its integration window started, not the time at
  -- which it was finished, whatever other events the worker sent in between.
  pub bridge_loop-window :
      (b : Bridge F S) (started finished : Text) (m : Measurement F)
      (between : List (Text × WorkerEvent F S))
      → all keeps_window between ≡ true
      → last
          (bridge_loop b (
            (started, Worker.period_started) ∷ between
            ++ (finished, Worker.period_measurement m) ∷ [])).store
        ≡ some (to_stored started m)
  unfolding bridge_loop
  bridge_loop-window b started finished m between h =
      loop-measurement (bridge_turn b (started, Worker.period_started)) started finished m between
        (unfold bridge_turn stamp_event in refl) h
