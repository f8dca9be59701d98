-- ===== src/Worker/Reads.antt =====
-- Whole windows of src/worker.rs: the reads of a window, its measurement, and the run of the thread.
use propmonitor.Base.{
  ℕ, Bool, true, Option, none, some, List, [], ◌∷◌, ◌++◌, append-nil, append_assoc, length, drop,
  turned, newest-append, flatten, Result, ok, err, ◌>>=◌, all, ◌≡◌, sym, ap, subst, ◌∙◌, arith,
  Bool-cases, inl, inr,
}
use propmonitor.Float.{Float}
use propmonitor.Signal.{Signal}
use propmonitor.Measure.{start_window, chunks_exact}
use propmonitor.Measure.Batch.{IsSized}
use propmonitor.Measure.Description.{measurement_of}
use propmonitor.Worker
use propmonitor.Worker.{Measurement, WorkerEvent}
use propmonitor.Worker.Waterfall.{waterfall_fft_n}
use propmonitor.Worker.Sound.{Sound, Sound->>=, Sound-weaken}
use propmonitor.Worker.Samples.{is_live, IsRing, Goes, add_samples-Goes, all-append}
use propmonitor.Worker.Windows.{Loose, Progress, got, drain-Progress}
use propmonitor.Worker.Capture.{
  Capture, Ending, Tuning, Read, samples, timeout, read_failed, Turn, asked, take_read, take_turn,
  take_turns, add_samples, open_window,
}

module _ (fl : Float) (sg : Signal fl) (tune : Tuning (Float.F fl) (Signal.S sg))
    (takes : ℕ → Bool) where
  open fl use {F}
  open sg use {S, C}

  -- What is read after a step, if the thread goes on.
  abbrev pub then_read : Result (Ending F S) (Capture F S C) → (Capture F S C → List C) → List C
  then_read (ok d) read = read d
  then_read (err ending) read = []

  -- The samples that the turns of a window read, as far as the thread goes on.
  pub reads_of : Capture F S C → List (Turn C) → List C
  reads_of c [] = []
  reads_of c (turn ∷ turns) =
      got fl sg (turn.read (asked tune.mtu c))
      ++ then_read (take_turn fl sg tune takes c turn) (λ d. reads_of d turns)

  -- The state with the start of a window sent.
  abbrev pub begun : Capture F S C → Capture F S C
  begun c = record (open_window fl sg tune takes c) { sent = c.sent ++ Worker.period_started ∷ [] }

  -- The event of a measurement.
  abbrev pub closing : Option (Measurement F) → List (WorkerEvent F S)
  closing none = []
  closing (some m) = Worker.period_measurement m ∷ []

  -- The buffers have their lengths.
  pub record IsReady (c : Capture F S C) : Type 0 where
    pub sized : IsSized c.analyzer
    pub ring : IsRing c

  -- A window from `c` to `d`: its start, live events, and the measurement of the full frames of the
  -- samples read in it.
  pub record Window (turns : List (Turn C)) (c d : Capture F S C) : Type 0 where
    pub live : List (WorkerEvent F S)
    pub all_live : all is_live live ≡ true
    pub sent :
        d.sent
        ≡ c.sent
          ++ Worker.period_started ∷ live
          ++ closing (
              measurement_of fl sg
                (start_window fl sg c.analyzer tune.offset_hz tune.width_hz)
                (chunks_exact (reads_of (begun c) turns)))
    pub ring :
        turned d.wf_pos d.wf_ring
        ≡ drop
            (length (reads_of (begun c) turns))
            (turned c.wf_pos c.wf_ring ++ reads_of (begun c) turns)
    pub ready : IsReady d

module _ (fl : Float) (sg : Signal fl)
    (forward_length : (xs : List (Signal.C sg)) → length (Signal.forward sg xs) ≡ length xs)
    (tune : Tuning (Float.F fl) (Signal.S sg)) (window_length : length tune.hann ≡ waterfall_fft_n)
    (takes : ℕ → Bool) where
  open fl use {F}
  open sg use {S, C}

  -- The samples of a chunk, and the chunk in the buffer.
  add_samples-Loose :
      (c d e : Capture F S C) (read ss : List C)
      → Progress fl sg c read d
      → Goes ss d e
      → Loose fl sg c (read ++ ss) (record e { frame_buf = e.frame_buf ++ ss })
  add_samples-Loose c d e read ss p g =
      let l = p.loose in
      record {
        frames = l.frames;
        full_frames = l.full_frames;
        joined =
            ap (λ buf. flatten l.frames ++ (buf ++ ss)) g.frame_buf
            ∙ sym (append_assoc (flatten l.frames) d.frame_buf ss)
            ∙ ap (λ xs. xs ++ ss) l.joined;
        added = l.added ∙ ap some (sym g.analyzer);
        sized = subst IsSized (sym g.analyzer) l.sized;
        ring =
            g.ring
            ∙ ap (λ zs. drop (length ss) (zs ++ ss)) l.ring
            ∙ newest-append (turned c.wf_pos c.wf_ring) read ss;
        ring_length = g.ring_length;
        pos_below = g.pos_below;
        live = l.live ++ g.live;
        sent = g.sent ∙ ap (λ s. s ++ g.live) l.sent ∙ append_assoc c.sent l.live g.live;
        all_live = all-append is_live l.live g.live l.all_live g.all_live;
      }

  take_read-Progress :
      (c d : Capture F S C) (read : List C) (r : Read C)
      → Progress fl sg c read d
      → Sound (Progress fl sg c (read ++ got fl sg r)) (take_read fl sg tune takes d r)
  unfolding take_read
  take_read-Progress c d read timeout p =
      subst (λ xs. Progress fl sg c xs d) (sym (append-nil read)) p
  take_read-Progress c d read (read_failed e) p = λ q. cc q
  take_read-Progress c d read (samples []) p =
      subst (λ xs. Progress fl sg c xs d) (sym (append-nil read)) p
  take_read-Progress c d read (samples (s ∷ ss)) p =
      let l = p.loose in
      Sound->>= (Goes (s ∷ ss) d) (Progress fl sg c (read ++ s ∷ ss))
        (add_samples fl sg tune takes d (s ∷ ss)) _
        (add_samples-Goes fl sg tune takes forward_length window_length d (s ∷ ss)
          (record { ring_length = l.ring_length; pos_below = l.pos_below }))
        λ e g.
          drain-Progress fl sg forward_length tune takes _ c _ (read ++ s ∷ ss)
            (add_samples-Loose c d e read (s ∷ ss) p g) (omega arith)

  take_turn-Progress :
      (c d : Capture F S C) (read : List C) (turn : Turn C)
      → Progress fl sg c read d
      → Sound
          (Progress fl sg c (read ++ got fl sg (turn.read (asked tune.mtu d))))
          (take_turn fl sg tune takes d turn)
  unfolding take_turn
  take_turn-Progress c d read turn p = elim (Bool-cases turn.stop) [
    | inl stop ↦ rw stop (λ q. cc q)
    | inr go ↦ rw go (take_read-Progress c d read (turn.read (asked tune.mtu d)) p)
  ]

  pub take_turns-Progress :
      (c d : Capture F S C) (read : List C) (turns : List (Turn C))
      → Progress fl sg c read d
      → Sound
          (Progress fl sg c (read ++ reads_of fl sg tune takes d turns))
          (take_turns fl sg tune takes d turns)
  unfolding take_turns reads_of
  take_turns-Progress c d read [] p = subst (λ xs. Progress fl sg c xs d) (sym (append-nil read)) p
  take_turns-Progress c d read (turn ∷ turns) p =
      after (take_turn fl sg tune takes d turn) (take_turn-Progress c d read turn p)
        λ e q. take_turns-Progress c e (read ++ got fl sg (turn.read (asked tune.mtu d))) turns q
    where
      after :
          (r : Result (Ending F S) (Capture F S C))
          → Sound (Progress fl sg c (read ++ got fl sg (turn.read (asked tune.mtu d)))) r
          → ((e : Capture F S C)
              → Progress fl sg c (read ++ got fl sg (turn.read (asked tune.mtu d))) e
              → Sound
                  (Progress fl sg c (
                    (read ++ got fl sg (turn.read (asked tune.mtu d)))
                    ++ reads_of fl sg tune takes e turns))
                  (take_turns fl sg tune takes e turns))
          → Sound
              (Progress fl sg c (
                read
                ++ (got fl sg (turn.read (asked tune.mtu d))
                    ++ then_read fl sg tune takes r (λ e. reads_of fl sg tune takes e turns))))
              (r >>= λ e. take_turns fl sg tune takes e turns)
      after (ok e) q go =
          Sound-weaken _ _ (take_turns fl sg tune takes e turns) (go e q)
            λ x z. subst (λ xs. Progress fl sg c xs x) (append_assoc read _ _) z
      after (err ending) q go = q
