-- ===== src/Bridge/Socket/Hub.antt =====
-- The bridge thread and one browser's handler of src/server.rs as they run side by side: the state
-- that one writes and the other reads, and the broadcast channel between them, whose receivers get
-- what is sent after their subscription. Each action is one lock or one send.
use propmonitor.Base.{ℕ, Text, List, [], ◌∷◌, ◌++◌, Option, none, some}
use propmonitor.View.{ConfigView}
use propmonitor.Update.{Phase, Manifest, Failure}
use propmonitor.Worker.{WorkerEvent}
use propmonitor.Events
use propmonitor.Events.{WsEvent}
use propmonitor.Bridge.{Bridge, step_of, update_state, send_frame}

-- Where `handle_ws` stands: before its subscription, after it, and after the reads of the device, of
-- the level and of the store in `snapshot_events`.
pub data Place : Type 0 where
  connecting subscribed device_read level_read store_read : Place

-- What the other tasks send on the channel.
pub data OtherFrame (F : Type 0) : Type 0 where
  upload : Text → Text → ℕ → OtherFrame F
  update : Phase → Option Manifest → Option Failure → OtherFrame F
  config : ConfigView F → OtherFrame F

pub record Hub (F S : Type 0) : Type 0 where
  pub bridge : Bridge F S
  -- the frame of the turn whose state is written and which is not sent yet
  pub unsent : Option (WsEvent F S)
  pub place : Place
  -- what the handler has read
  pub seen : Bridge F S
  -- what its receiver got
  pub queue : List (WsEvent F S)

pub data Action (F S : Type 0) : Type 0 where
  receive : Text × WorkerEvent F S → Action F S
  send : Action F S
  other : OtherFrame F → Action F S
  handle : Action F S

-- A send on the channel, for the handler's receiver.
abbrev pub deliver : {W : Type 0} → Place → W → List W → List W
deliver connecting ev queue = queue
deliver _ ev queue = queue ++ ev ∷ []

module _ {F S : Type 0} where
  abbrev pub frame_of : OtherFrame F → WsEvent F S
  frame_of (upload at status queued) = Events.upload at status queued
  frame_of (update phase latest e) = Events.update phase latest e
  frame_of (config c) = Events.config c

  -- The bridge takes its next event when it has sent the frame of the last one.
  unfoldable pub receive_event : Hub F S → Option (WsEvent F S) → Text × WorkerEvent F S → Hub F S
  receive_event h (some ev) e = h
  receive_event h none e =
      let (period_start, s) = step_of h.bridge e in
      record h { bridge = update_state h.bridge period_start s; unsent = some s.ws_event }

  unfoldable pub send_unsent : Hub F S → Option (WsEvent F S) → Hub F S
  send_unsent h none = h
  send_unsent h (some ev) = record h {
    bridge = send_frame h.bridge ev;
    unsent = none;
    queue = deliver h.place ev h.queue;
  }

  -- The handler subscribes, and then it reads the device, the level and the store.
  unfoldable pub handle_next : Hub F S → Place → Hub F S
  handle_next h connecting = record h { place = subscribed; queue = [] }
  handle_next h subscribed = record h {
    place = device_read;
    seen = record h.seen { device_info = h.bridge.device_info };
  }
  handle_next h device_read = record h {
    place = level_read;
    seen = record h.seen { last_raw_dbfs = h.bridge.last_raw_dbfs };
  }
  handle_next h level_read = record h {
    place = store_read;
    seen = record h.seen { store = h.bridge.store };
  }
  handle_next h store_read = h

  unfoldable pub act : Hub F S → Action F S → Hub F S
  act h (receive e) = receive_event h h.unsent e
  act h send = send_unsent h h.unsent
  act h (other f) = record h { queue = deliver h.place (frame_of f) h.queue }
  act h handle = handle_next h h.place

  unfoldable pub run : Hub F S → List (Action F S) → Hub F S
  run h [] = h
  run h (a ∷ later) = run (act h a) later
