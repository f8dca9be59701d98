-- ===== src/Bridge/Socket.antt =====
-- `handle_ws` and `forward_upload_events` of src/server.rs. The encoder of serde_json and the peer
-- of the socket are parameters.
pub mod Newest
pub mod Sends
pub mod Hub
pub mod Shown
pub mod Linked
pub mod Late
mod Tests
use propmonitor.Base.{
  codes, Text, List, [], ◌∷◌, ◌++◌, Bool, true, false, Option, none, some, if◌then◌else◌,
}
use propmonitor.Timefmt.{ℤ, format_utc_iso8601}
use propmonitor.Uploader.{UploadEvent}
use propmonitor.Events
use propmonitor.Events.{WsEvent}

-- What a receiver of a broadcast channel gets.
pub data Recv (A : Type 0) : Type 0 where
  received : A → Recv A
  lagged : Recv A
  closed : Recv A

-- One turn of the select: the channel, or the beat at a time.
pub data Turn (F S : Type 0) : Type 0 where
  recv : Recv (WsEvent F S) → Turn F S
  tick : ℤ → Turn F S

-- The texts that the peer has taken, and whether the handler goes on.
abbrev pub Socket : Type 0
Socket = List Text × Bool

abbrev pub and_then : Socket → (List Text → Socket) → Socket
and_then (sent, true) k = k sent
and_then (sent, false) k = (sent, false)

module _ {F S : Type 0} where
  -- The frame of a turn.
  abbrev pub frames_of : List (Turn F S) → List (WsEvent F S)
  frames_of [] = []
  frames_of (recv (received ev) ∷ ts) = ev ∷ frames_of ts
  frames_of (recv lagged ∷ ts) = frames_of ts
  frames_of (recv closed ∷ ts) = frames_of ts
  frames_of (tick now ∷ ts) = Events.heartbeat (format_utc_iso8601 now) ∷ frames_of ts

  abbrev pub upload_frame : UploadEvent → WsEvent F S
  upload_frame ev = Events.upload ev.at (if ev.ok_flag then codes "ok" else codes "error") ev.queued

  -- The frames that were sent on the broadcast channel, and those sent after them.
  unfoldable pub forward_upload_events :
      List (WsEvent F S) → List (Recv UploadEvent) → List (WsEvent F S)
  forward_upload_events sent [] = sent
  forward_upload_events sent (received ev ∷ rs) =
      forward_upload_events (sent ++ upload_frame ev ∷ []) rs
  forward_upload_events sent (lagged ∷ rs) = forward_upload_events sent rs
  forward_upload_events sent (closed ∷ rs) = sent

module _ {F S : Type 0} (to_string : WsEvent F S → Option Text)
    (takes : List Text → Text → Bool) where
  abbrev pub send_text : List Text → Option Text → Socket
  send_text sent none = (sent, true)
  send_text sent (some s) = if takes sent s then (sent ++ s ∷ [], true) else (sent, false)

  abbrev pub send_frame : List Text → WsEvent F S → Socket
  send_frame sent ev = send_text sent (to_string ev)

  -- The loop over the snapshot.
  unfoldable pub send_all : List Text → List (WsEvent F S) → Socket
  send_all sent [] = (sent, true)
  send_all sent (ev ∷ evs) = and_then (send_frame sent ev) (λ sent. send_all sent evs)

  -- The loop over the turns, of which the run has those of the list.
  unfoldable pub serve : List Text → List (Turn F S) → Socket
  serve sent [] = (sent, true)
  serve sent (recv (received ev) ∷ ts) = and_then (send_frame sent ev) (λ sent. serve sent ts)
  serve sent (recv lagged ∷ ts) = serve sent ts
  serve sent (recv closed ∷ ts) = (sent, false)
  serve sent (tick now ∷ ts) =
      and_then (send_frame sent (Events.heartbeat (format_utc_iso8601 now))) (λ sent. serve sent ts)

  unfoldable pub handle_ws : List (WsEvent F S) → List (Turn F S) → Socket
  handle_ws snapshot turns = and_then (send_all [] snapshot) (λ sent. serve sent turns)
