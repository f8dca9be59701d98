-- ===== src/Uploader/Bounds.antt =====
-- The bounds of the retry queue and of the backoff of src/uploader.rs.
use propmonitor.Base.{
  ◌≤◌, Text, List, [], ◌∷◌, length, length-append, length-drop, drop, Option, none, some, leb,
  Bool-cases, inl, inr, arith,
}
use propmonitor.Float.{Float}
use propmonitor.Config.{MicrowavepropConfig}
use propmonitor.Store.{StoredMeasurement, max_entries}
use propmonitor.Events
use propmonitor.Events.{WsEvent}
use propmonitor.Uploader.{
  Uploader, WireMeasurement, UploaderStatus, new, ResponseClass, accepted, permanent, transient,
  class_of, uploading, max_backoff, emit, posted, push_queue,
}
use propmonitor.Uploader.Loop.{
  World, Received, event, lagged, closed, Flow, goes_on, stops, Turn, enqueue_for,
  enqueue_measurement, backoff_and_drain, receive, backed_off, after_post, posts, turn,
}

module _ {F : Type 0} where
  -- At most a day's measurements wait, and the backoff is between a second and five minutes.
  pub record IsBounded (u : Uploader F) : Type 0 where
    pub queue : length u.queue ≤ max_entries
    pub low : 1 ≤ u.backoff
    pub high : u.backoff ≤ max_backoff

  abbrev pub Stays : Flow (Uploader F) → Type 0
  Stays (goes_on u) = IsBounded u
  Stays (stops u) = IsBounded u

  length-push_queue :
      (q : List (WireMeasurement F)) (m : WireMeasurement F)
      → length q ≤ max_entries
      → length (push_queue q m) ≤ max_entries
  unfolding push_queue
  length-push_queue q m h = elim (Bool-cases (leb max_entries (length q))) [
    | inl full ↦ rw full (omega (arith, length-append (drop 1 q) (m ∷ []), length-drop 1 q))
    | inr room ↦ rw room (ground (arith, length-append q (m ∷ [])))
  ]

  posted-IsBounded :
      (u : Uploader F) (now : Text) (c : ResponseClass) → IsBounded u → IsBounded (posted u now c)
  unfolding posted emit
  posted-IsBounded u now accepted b = record {
    queue = omega (arith, length-drop 1 u.queue, b.queue);
    low = omega arith;
    high = omega arith;
  }
  posted-IsBounded u now permanent b = record {
    queue = omega (arith, length-drop 1 u.queue, b.queue);
    low = omega arith;
    high = omega arith;
  }
  posted-IsBounded u now transient b = record { queue = b.queue; low = b.low; high = b.high }

  new-IsBounded : (status : UploaderStatus) → IsBounded (new status)
  unfolding new
  new-IsBounded status = record { queue = omega arith; low = omega arith; high = omega arith }

  backed_off-Stays : (f : Flow (Uploader F)) → Stays f → Stays (backed_off f)
  unfolding backed_off
  backed_off-Stays (goes_on u) b = record {
    queue = b.queue;
    low = omega (arith, b.low);
    high = omega arith;
  }
  backed_off-Stays (stops u) b = b

module _ (fl : Float) {S : Type 0} where
  open fl use {F}

  enqueue_for-IsBounded :
      (w : World F S) (o : Option MicrowavepropConfig) (u : Uploader F) (m : StoredMeasurement F)
      → IsBounded u
      → IsBounded (enqueue_for fl w o u m)
  unfolding enqueue_for
  enqueue_for-IsBounded w none u m b = record { queue = b.queue; low = b.low; high = b.high }
  enqueue_for-IsBounded w (some mw) u m b = record {
    queue = length-push_queue u.queue _ b.queue;
    low = b.low;
    high = b.high;
  }

  enqueue_measurement-IsBounded :
      (w : World F S) (u : Uploader F) (ev : WsEvent F S)
      → IsBounded u
      → IsBounded (enqueue_measurement fl w u ev)
  unfolding enqueue_measurement
  enqueue_measurement-IsBounded w u (Events.measurement m) b =
      enqueue_for-IsBounded w (uploading w.cfg.microwaveprop) u m b
  enqueue_measurement-IsBounded w u (Events.device_info d) b = b
  enqueue_measurement-IsBounded w u (Events.raw_level l) b = b
  enqueue_measurement-IsBounded w u (Events.waterfall x y z) b = b
  enqueue_measurement-IsBounded w u (Events.period_started a) b = b
  enqueue_measurement-IsBounded w u (Events.upload x y z) b = b
  enqueue_measurement-IsBounded w u (Events.error e) b = b
  enqueue_measurement-IsBounded w u (Events.update x y z) b = b
  enqueue_measurement-IsBounded w u (Events.config c) b = b
  enqueue_measurement-IsBounded w u (Events.heartbeat a) b = b

  backoff_and_drain-Stays :
      (u : Uploader F) (rs : List (Received F S)) → IsBounded u → Stays (backoff_and_drain fl u rs)
  unfolding backoff_and_drain
  backoff_and_drain-Stays u [] b = b
  backoff_and_drain-Stays u (event w ev ∷ rs) b =
      backoff_and_drain-Stays (enqueue_measurement fl w u ev) rs
        (enqueue_measurement-IsBounded w u ev b)
  backoff_and_drain-Stays u (lagged ∷ rs) b = backoff_and_drain-Stays u rs b
  backoff_and_drain-Stays u (closed ∷ rs) b = b

  receive-Stays :
      (u : Uploader F) (r : Option (Received F S)) → IsBounded u → Stays (receive fl u r)
  unfolding receive
  receive-Stays u none b = b
  receive-Stays u (some (event w ev)) b = enqueue_measurement-IsBounded w u ev b
  receive-Stays u (some lagged) b = b
  receive-Stays u (some closed) b = b

  after_post-Stays :
      (u : Uploader F) (t : Turn F S) (c : ResponseClass)
      → IsBounded u
      → Stays (after_post fl u t c)
  unfolding after_post
  after_post-Stays u t accepted b =
      receive-Stays (posted u t.now accepted) t.received (posted-IsBounded u t.now accepted b)
  after_post-Stays u t permanent b = posted-IsBounded u t.now permanent b
  after_post-Stays u t transient b =
      backed_off-Stays (backoff_and_drain fl (posted u t.now transient) t.waiting) (
        backoff_and_drain-Stays (posted u t.now transient) t.waiting
          (posted-IsBounded u t.now transient b))

  -- Whatever a turn posts, receives and is answered, at most 1440 measurements wait afterwards and
  -- the backoff is between one second and 300 seconds, if that was so before.
  pub turn-Stays : (u : Uploader F) (t : Turn F S) → IsBounded u → Stays (turn fl u t)
  unfolding turn
  turn-Stays u t b = elim (Bool-cases (posts u.queue (uploading t.world.cfg.microwaveprop))) [
    | inl posting ↦ rw posting (after_post-Stays u t (class_of t.answer) b)
    | inr waiting ↦ rw waiting (receive-Stays u t.received b)
  ]
