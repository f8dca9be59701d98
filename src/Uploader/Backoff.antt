-- ===== src/Uploader/Backoff.antt =====
-- The queue and the backoff of src/uploader.rs after a post that failed.
use propmonitor.Base.{
  ℕ, ◌*◌, ◌≤◌, min, Text, List, [], ◌∷◌, ◌++◌, append_assoc, append-nil, length, drop, true, Option,
  none, some, leb, ◌≡◌, refl, subst, ◌==◌, sym, ap, ◌∙◌, arith, if◌then◌else◌,
}
use propmonitor.Float.{Float}
use propmonitor.Config.{MicrowavepropConfig}
use propmonitor.Store.{StoredMeasurement, max_entries}
use propmonitor.Store.History.{newest, append_one, append_one-newest, length-newest}
use propmonitor.Events
use propmonitor.Events.{WsEvent}
use propmonitor.Uploader.{
  Uploader, WireMeasurement, transient, class_of, uploading, max_backoff, emit, posted, push_queue,
  gain_from_device_info, build_wire_measurement,
}
use propmonitor.Uploader.Loop.{
  World, Received, event, lagged, closed, Flow, goes_on, stops, Turn, enqueue_for,
  enqueue_measurement, backoff_and_drain, backed_off, after_post, posts, turn,
}

same_test : (n : ℕ) → n ≤ max_entries → leb max_entries n ≡ (n == max_entries)
same_test n h = ground arith

module _ {F : Type 0} where
  push_queue-append_one :
      (q : List (WireMeasurement F)) (m : WireMeasurement F)
      → length q ≤ max_entries
      → push_queue q m ≡ append_one q m
  unfolding push_queue append_one
  push_queue-append_one q m h =
      ap (λ b. (if b then drop 1 q else q) ++ m ∷ []) (same_test (length q) h)

  push_queue-newest :
      (q ms : List (WireMeasurement F)) (m : WireMeasurement F)
      → q ≡ newest max_entries ms
      → push_queue q m ≡ newest max_entries (ms ++ m ∷ [])
  push_queue-newest q ms m h =
      push_queue-append_one q m (omega (arith, ap length h, length-newest max_entries ms))
      ∙ ap (λ es. append_one es m) h
      ∙ append_one-newest ms m

  -- Where a run of turns leaves the task.
  abbrev pub state_of : Flow (Uploader F) → Uploader F
  state_of (goes_on u) = u
  state_of (stops u) = u

  backed_off-queue : (f : Flow (Uploader F)) → (state_of (backed_off f)).queue ≡ (state_of f).queue
  unfolding backed_off
  backed_off-queue (goes_on u) = refl
  backed_off-queue (stops u) = refl

  -- The backoff after a failed post: doubled, up to five minutes, if the task goes on.
  abbrev pub Doubles : ℕ → Flow (Uploader F) → Type 0
  Doubles before (goes_on u) = u.backoff ≡ min (before * 2) max_backoff
  Doubles before (stops u) = Unit

  backed_off-Doubles :
      (before : ℕ) (f : Flow (Uploader F))
      → (state_of f).backoff ≡ before
      → Doubles before (backed_off f)
  unfolding backed_off
  backed_off-Doubles before (goes_on u) h = ap (λ b. min (b * 2) max_backoff) h
  backed_off-Doubles before (stops u) h = tt

  nothing_new :
      {q : List (WireMeasurement F)} (ms : List (WireMeasurement F))
      → q ≡ newest max_entries ms
      → q ≡ newest max_entries (ms ++ [])
  nothing_new ms h = h ∙ ap (newest max_entries) (sym (append-nil ms))

  newest_all : (q : List (WireMeasurement F)) → length q ≤ max_entries → q ≡ newest max_entries q
  newest_all q h = ap (λ k. drop k q) {x = 0} (omega arith)

  posted-queue : (u : Uploader F) (now : Text) → (posted u now transient).queue ≡ u.queue
  unfolding posted emit
  posted-queue u now = refl

  posted-backoff : (u : Uploader F) (now : Text) → (posted u now transient).backoff ≡ u.backoff
  unfolding posted emit
  posted-backoff u now = refl

module _ (fl : Float) {S : Type 0} where
  open fl use {F}

  -- The measurement that an event adds to the queue, if it does.
  abbrev pub built_for :
      World F S → Option MicrowavepropConfig → StoredMeasurement F → List (WireMeasurement F)
  built_for w none m = []
  built_for w (some mw) m =
      build_wire_measurement fl w.cfg mw (gain_from_device_info fl w.device_info w.cfg.gain) m ∷ []

  abbrev pub built : World F S → WsEvent F S → List (WireMeasurement F)
  built w (Events.measurement m) = built_for w (uploading w.cfg.microwaveprop) m
  built w _ = []

  enqueue_for-backoff :
      (w : World F S) (o : Option MicrowavepropConfig) (u : Uploader F) (m : StoredMeasurement F)
      → (enqueue_for fl w o u m).backoff ≡ u.backoff
  unfolding enqueue_for
  enqueue_for-backoff w none u m = refl
  enqueue_for-backoff w (some mw) u m = refl

  -- The measurements that events add, one after the other, until the channel is closed.
  abbrev pub arrivals : List (Received F S) → List (WireMeasurement F)
  arrivals [] = []
  arrivals (event w ev ∷ rs) = built w ev ++ arrivals rs
  arrivals (lagged ∷ rs) = arrivals rs
  arrivals (closed ∷ rs) = []

  enqueue_for-newest :
      (w : World F S) (o : Option MicrowavepropConfig) (u : Uploader F) (m : StoredMeasurement F)
      (ms : List (WireMeasurement F))
      → u.queue ≡ newest max_entries ms
      → (enqueue_for fl w o u m).queue ≡ newest max_entries (ms ++ built_for w o m)
  unfolding enqueue_for
  enqueue_for-newest w none u m ms h = h ∙ ap (newest max_entries) (sym (append-nil ms))
  enqueue_for-newest w (some mw) u m ms h = push_queue-newest u.queue ms _ h

  enqueue_measurement-newest :
      (w : World F S) (u : Uploader F) (ev : WsEvent F S) (ms : List (WireMeasurement F))
      → u.queue ≡ newest max_entries ms
      → (enqueue_measurement fl w u ev).queue ≡ newest max_entries (ms ++ built w ev)
  unfolding enqueue_measurement
  enqueue_measurement-newest w u (Events.measurement m) ms h =
      enqueue_for-newest w (uploading w.cfg.microwaveprop) u m ms h
  enqueue_measurement-newest w u (Events.device_info d) ms h = nothing_new ms h
  enqueue_measurement-newest w u (Events.raw_level l) ms h = nothing_new ms h
  enqueue_measurement-newest w u (Events.waterfall x y z) ms h = nothing_new ms h
  enqueue_measurement-newest w u (Events.period_started a) ms h = nothing_new ms h
  enqueue_measurement-newest w u (Events.upload x y z) ms h = nothing_new ms h
  enqueue_measurement-newest w u (Events.error e) ms h = nothing_new ms h
  enqueue_measurement-newest w u (Events.update x y z) ms h = nothing_new ms h
  enqueue_measurement-newest w u (Events.config c) ms h = nothing_new ms h
  enqueue_measurement-newest w u (Events.heartbeat a) ms h = nothing_new ms h

  backoff_and_drain-newest :
      (u : Uploader F) (rs : List (Received F S)) (ms : List (WireMeasurement F))
      → u.queue ≡ newest max_entries ms
      → (state_of (backoff_and_drain fl u rs)).queue ≡ newest max_entries (ms ++ arrivals rs)
  unfolding backoff_and_drain
  backoff_and_drain-newest u [] ms h = nothing_new ms h
  backoff_and_drain-newest u (event w ev ∷ rs) ms h =
      backoff_and_drain-newest (enqueue_measurement fl w u ev) rs (ms ++ built w ev)
        (enqueue_measurement-newest w u ev ms h)
      ∙ ap (newest max_entries) (append_assoc ms (built w ev) (arrivals rs))
  backoff_and_drain-newest u (lagged ∷ rs) ms h = backoff_and_drain-newest u rs ms h
  backoff_and_drain-newest u (closed ∷ rs) ms h = nothing_new ms h

  enqueue_measurement-backoff :
      (w : World F S) (u : Uploader F) (ev : WsEvent F S)
      → (enqueue_measurement fl w u ev).backoff ≡ u.backoff
  unfolding enqueue_measurement
  enqueue_measurement-backoff w u (Events.measurement m) =
      enqueue_for-backoff w (uploading w.cfg.microwaveprop) u m
  enqueue_measurement-backoff w u (Events.device_info d) = refl
  enqueue_measurement-backoff w u (Events.raw_level l) = refl
  enqueue_measurement-backoff w u (Events.waterfall x y z) = refl
  enqueue_measurement-backoff w u (Events.period_started a) = refl
  enqueue_measurement-backoff w u (Events.upload x y z) = refl
  enqueue_measurement-backoff w u (Events.error e) = refl
  enqueue_measurement-backoff w u (Events.update x y z) = refl
  enqueue_measurement-backoff w u (Events.config c) = refl
  enqueue_measurement-backoff w u (Events.heartbeat a) = refl

  backoff_and_drain-backoff :
      (u : Uploader F) (rs : List (Received F S))
      → (state_of (backoff_and_drain fl u rs)).backoff ≡ u.backoff
  unfolding backoff_and_drain
  backoff_and_drain-backoff u [] = refl
  backoff_and_drain-backoff u (event w ev ∷ rs) =
      backoff_and_drain-backoff (enqueue_measurement fl w u ev) rs
      ∙ enqueue_measurement-backoff w u ev
  backoff_and_drain-backoff u (lagged ∷ rs) = backoff_and_drain-backoff u rs
  backoff_and_drain-backoff u (closed ∷ rs) = refl

  turn-after_post :
      (u : Uploader F) (t : Turn F S)
      → posts u.queue (uploading t.world.cfg.microwaveprop) ≡ true
      → class_of t.answer ≡ transient
      → turn fl u t ≡ backed_off (backoff_and_drain fl (posted u t.now transient) t.waiting)
  unfolding turn after_post
  turn-after_post u t posting failed = rw (posting, failed) refl

  -- When the post of the head of the queue fails in a way that may pass, nothing is taken off the
  -- queue: it holds the newest 1440 of what it held and of the measurements that arrived during the
  -- backoff, in order, each built from the configuration of its time. The backoff is doubled, up to
  -- 300 seconds, unless the channel was closed.
  pub turn-transient :
      (u : Uploader F) (t : Turn F S)
      → length u.queue ≤ max_entries
      → posts u.queue (uploading t.world.cfg.microwaveprop) ≡ true
      → class_of t.answer ≡ transient
      → ((state_of (turn fl u t)).queue ≡ newest max_entries (u.queue ++ arrivals t.waiting))
        × Doubles u.backoff (turn fl u t)
  turn-transient u t short posting failed =
      let v = posted u t.now transient in
      let drained = backoff_and_drain fl v t.waiting in
      subst
        (λ f.
          ((state_of f).queue ≡ newest max_entries (u.queue ++ arrivals t.waiting))
          × Doubles u.backoff f)
        (sym (turn-after_post u t posting failed))
        (
          backed_off-queue drained
              ∙ backoff_and_drain-newest v t.waiting u.queue
                  (posted-queue u t.now ∙ newest_all u.queue short),
          backed_off-Doubles u.backoff drained
              (backoff_and_drain-backoff v t.waiting ∙ posted-backoff u t.now),
        )
