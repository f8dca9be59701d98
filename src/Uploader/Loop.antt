-- ===== src/Uploader/Loop.antt =====
-- `run` of src/uploader.rs: its loop as turns, with what the outside answers in each.
use propmonitor.Base.{
  ℕ, ◌*◌, min, Text, List, [], ◌∷◌, Bool, true, false, Option, none, some, if◌then◌else◌,
}
use propmonitor.Float.{Float}
use propmonitor.Config.{MicrowavepropConfig, Config}
use propmonitor.Store.{StoredMeasurement}
use propmonitor.Events
use propmonitor.Events.{WsEvent}
use propmonitor.Uploader.{
  Uploader, ResponseClass, accepted, permanent, transient, class_of, uploading, WireMeasurement,
  max_backoff, posted, push_queue, gain_from_device_info, build_wire_measurement,
}

-- What the task shares with others, at the time that it reads it.
pub record World (F S : Type 0) : Type 0 where
  pub cfg : Config F
  pub device_info : Option (WsEvent F S)

-- What `recv` gives.
pub data Received (F S : Type 0) : Type 0 where
  event : World F S → WsEvent F S → Received F S
  lagged closed : Received F S

-- Whether the loop goes on.
pub data Flow (A : Type 0) : Type 0 where
  goes_on stops : A → Flow A

-- One turn: the world and the time when the head of the queue is posted, the status that the post is
-- answered with if any, what is received before the backoff has passed, and what is received at the
-- end of the turn if that is within five seconds.
pub record Turn (F S : Type 0) : Type 0 where
  pub world : World F S
  pub now : Text
  pub answer : Option ℕ
  pub waiting : List (Received F S)
  pub received : Option (Received F S)

unfoldable pub backed_off : {F : Type 0} → Flow (Uploader F) → Flow (Uploader F)
backed_off (goes_on u) = goes_on (record u { backoff = min (u.backoff * 2) max_backoff })
backed_off (stops u) = stops u

abbrev pub posts : {F : Type 0} → List (WireMeasurement F) → Option MicrowavepropConfig → Bool
posts [] o = false
posts (m ∷ ms) none = false
posts (m ∷ ms) (some mw) = true

module _ (fl : Float) {S : Type 0} where
  open fl use {F}

  -- From the moment that the block to upload with is looked up.
  unfoldable pub enqueue_for :
      World F S → Option MicrowavepropConfig → Uploader F → StoredMeasurement F → Uploader F
  enqueue_for w none u m = record u { status = record u.status { enabled = false } }
  enqueue_for w (some mw) u m =
      let gain = gain_from_device_info fl w.device_info w.cfg.gain in
      record u {
        status = record u.status { enabled = true };
        queue = push_queue u.queue (build_wire_measurement fl w.cfg mw gain m);
      }

  unfoldable pub enqueue_measurement : World F S → Uploader F → WsEvent F S → Uploader F
  enqueue_measurement w u (Events.measurement m) = enqueue_for w (uploading w.cfg.microwaveprop) u m
  enqueue_measurement w u _ = u

  unfoldable pub backoff_and_drain : Uploader F → List (Received F S) → Flow (Uploader F)
  backoff_and_drain u [] = goes_on u
  backoff_and_drain u (event w ev ∷ rs) = backoff_and_drain (enqueue_measurement w u ev) rs
  backoff_and_drain u (lagged ∷ rs) = backoff_and_drain u rs
  backoff_and_drain u (closed ∷ rs) = stops u

  -- The end of a turn.
  unfoldable pub receive : Uploader F → Option (Received F S) → Flow (Uploader F)
  receive u none = goes_on u
  receive u (some (event w ev)) = goes_on (enqueue_measurement w u ev)
  receive u (some lagged) = goes_on u
  receive u (some closed) = stops u

  -- A turn in which the head of the queue is posted.
  unfoldable pub after_post : Uploader F → Turn F S → ResponseClass → Flow (Uploader F)
  after_post u t accepted = receive (posted u t.now accepted) t.received
  after_post u t permanent = goes_on (posted u t.now permanent)
  after_post u t transient = backed_off (backoff_and_drain (posted u t.now transient) t.waiting)

  unfoldable pub turn : Uploader F → Turn F S → Flow (Uploader F)
  turn u t =
      if posts u.queue (uploading t.world.cfg.microwaveprop)
      then after_post u t (class_of t.answer)
      else receive u t.received
