-- ===== src/Worker/Measured.antt =====
-- The windows of src/worker.rs, each with its measurement, and the loop over them.
use propmonitor.Base.{
  ℕ, Bool, Option, some, List, [], ◌∷◌, ◌++◌, append-nil, append_assoc, length, Result, ok, err,
  ◌≡◌, ◌≢◌, refl, sym, ap, ◌∙◌, arith, Option-cases, Bool-cases, inl, inr,
}
use propmonitor.Float.{Float}
use propmonitor.Signal.{Signal}
use propmonitor.Measure.{add_frames, SpectrumAnalyzer, start_window, chunks_exact}
use propmonitor.Measure.Finalize.{finalize}
use propmonitor.Measure.Frame.{fft_size-pos}
use propmonitor.Measure.Batch.{IsSized, none_left}
use propmonitor.Measure.Chunks.{chunks_exact_unique}
use propmonitor.Measure.Description.{measurement_of}
use propmonitor.Measure.Analyze.{window_lem, start_window-IsSized}
use propmonitor.Worker
use propmonitor.Worker.{Measurement, WorkerEvent}
use propmonitor.Worker.Waterfall.{waterfall_fft_n}
use propmonitor.Worker.Sound.{Sound, Sound->>=}
use propmonitor.Worker.Windows.{Progress}
use propmonitor.Worker.Capture.{
  Capture, Ending, Tuning, panicked, send, Turn, take_turns, open_window, send_measurement,
  capture_window, capture_loop, ended,
}
use propmonitor.Worker.Reads.{reads_of, begun, closing, IsReady, Window, take_turns-Progress}

module _ (fl : Float) (sg : Signal fl)
    (forward_length : (xs : List (Signal.C sg)) → length (Signal.forward sg xs) ≡ length xs)
    (tune : Tuning (Float.F fl) (Signal.S sg)) (window_length : length tune.hann ≡ waterfall_fft_n)
    (takes : ℕ → Bool) where
  open fl use {F}
  open sg use {S, C}

  begun-Progress :
      (c : Capture F S C)
      → IsReady fl sg tune takes c
      → Progress fl sg (begun fl sg tune takes c) [] (begun fl sg tune takes c)
  unfolding open_window add_frames
  begun-Progress c h = record {
    loose = record {
      frames = [];
      full_frames = none_left;
      joined = refl;
      added = refl;
      sized =
          start_window-IsSized fl sg forward_length c.analyzer tune.offset_hz tune.width_hz h.sized;
      ring = sym (append-nil _);
      ring_length = h.ring.ring_length;
      pos_below = h.ring.pos_below;
      live = [];
      sent = sym (append-nil _);
      all_live = refl;
    };
    short = omega (arith, fft_size-pos);
  }

  -- The measurement of a window is that of the samples read in it.
  finalize-Progress :
      (c d : Capture F S C) (read : List C)
      → IsReady fl sg tune takes c
      → Progress fl sg (begun fl sg tune takes c) read d
      → (a : SpectrumAnalyzer F S C) × (finalize fl sg d.analyzer
          ≡ some (
            measurement_of fl sg
                (start_window fl sg c.analyzer tune.offset_hz tune.width_hz)
                (chunks_exact read),
            a,
          ))
        × IsSized a
  unfolding open_window
  finalize-Progress c d read h p =
      let l = p.loose in
      let (b, a, e, m, sized, shut) =
        window_lem fl sg forward_length c.analyzer tune.offset_hz tune.width_hz l.frames h.sized
          l.full_frames in
      let same : b ≡ d.analyzer = cc (e, l.added) in
      let frames : chunks_exact read ≡ l.frames =
        chunks_exact_unique
          (record { full_frames = l.full_frames; joined = l.joined; short = p.short }) in
      (
        a,
        ap (finalize fl sg) (sym same)
            ∙ m
            ∙ ap
                (λ taken. some (
                  measurement_of fl sg (start_window fl sg c.analyzer tune.offset_hz tune.width_hz)
                      taken,
                  a,
                ))
                (sym frames),
        sized,
      )

  abbrev measured : Capture F S C → List (Turn C) → Option (Measurement F)
  measured c turns =
      measurement_of fl sg (start_window fl sg c.analyzer tune.offset_hz tune.width_hz)
        (chunks_exact (reads_of fl sg tune takes (begun fl sg tune takes c) turns))

  -- The window, once its last event is known.
  closed-Window :
      (c d : Capture F S C) (a : SpectrumAnalyzer F S C) (turns : List (Turn C))
      (sent : List (WorkerEvent F S))
      → Progress fl sg
          (begun fl sg tune takes c)
          (reads_of fl sg tune takes (begun fl sg tune takes c) turns)
          d
      → IsSized a
      → sent ≡ d.sent ++ closing fl sg tune takes (measured c turns)
      → Window fl sg tune takes turns c (record d { analyzer = a; sent = sent })
  unfolding open_window
  closed-Window c d a turns sent p sized e =
      let l = p.loose in
      record {
        live = l.live;
        all_live = l.all_live;
        sent =
            e
            ∙ ap (λ s. s ++ closing fl sg tune takes (measured c turns))
                (l.sent ∙ append_assoc c.sent (Worker.period_started ∷ []) l.live);
        ring = l.ring;
        ready = record {
          sized = sized;
          ring = record { ring_length = l.ring_length; pos_below = l.pos_below };
        };
      }

  send_measurement-Window :
      (c d : Capture F S C) (a : SpectrumAnalyzer F S C) (turns : List (Turn C))
      → Progress fl sg
          (begun fl sg tune takes c)
          (reads_of fl sg tune takes (begun fl sg tune takes c) turns)
          d
      → IsSized a
      → Sound
          (Window fl sg tune takes turns c)
          (send_measurement fl sg tune takes (record d { analyzer = a }) (measured c turns))
  unfolding send_measurement send
  send_measurement-Window c d a turns p sized = elim (Option-cases (measured c turns)) [
    | inl nothing ↦ rw nothing (
        closed-Window c d a turns d.sent p sized
          (sym (ap (λ o. d.sent ++ closing fl sg tune takes o) nothing ∙ append-nil d.sent)))
    | inr (m, e) ↦ rw e (elim (Bool-cases (takes (length d.sent))) [
      | inl taken ↦ rw taken (
          closed-Window c d a turns (d.sent ++ Worker.period_measurement m ∷ []) p sized
            (sym (ap (λ o. d.sent ++ closing fl sg tune takes o) e)))
      | inr gone ↦ rw gone (λ q. cc q)
    ])
  ]

  -- A window does not panic, and it is as described.
  pub capture_window-Window :
      (c : Capture F S C) (turns : List (Turn C))
      → IsReady fl sg tune takes c
      → Sound (Window fl sg tune takes turns c) (capture_window fl sg tune takes c turns)
  unfolding capture_window send open_window
  capture_window-Window c turns h = elim (Bool-cases (takes (length c.sent))) [
    | inl taken ↦ rw taken (
        Sound->>=
          (Progress fl sg (begun fl sg tune takes c)
            (reads_of fl sg tune takes (begun fl sg tune takes c) turns))
          _ (take_turns fl sg tune takes (begun fl sg tune takes c) turns) _
          (take_turns-Progress fl sg forward_length tune window_length takes
            (begun fl sg tune takes c) (begun fl sg tune takes c) [] turns (begun-Progress c h))
          λ d p.
            let (a, m, sized) = finalize-Progress c d _ h p in
            rw m (send_measurement-Window c d a turns p sized))
    | inr gone ↦ rw gone (λ q. cc q)
  ]

  -- The loop over the windows ends by the flag, the receiver or an error, never by a panic.
  pub capture_loop-safe :
      (c : Capture F S C) (windows : List (List (Turn C)))
      → IsReady fl sg tune takes c
      → (capture_loop fl sg tune takes c windows).outcome ≢ panicked
  unfolding capture_loop
  capture_loop-safe c [] h = λ q. cc q
  capture_loop-safe c (turns ∷ windows) h =
      on_window (capture_window fl sg tune takes c turns) (capture_window-Window c turns h)
        λ d w. capture_loop-safe d windows w.ready
    where
      on_window :
          (r : Result (Ending F S) (Capture F S C))
          → Sound (Window fl sg tune takes turns c) r
          → ((d : Capture F S C)
              → Window fl sg tune takes turns c d
              → (capture_loop fl sg tune takes d windows).outcome ≢ panicked)
          → (ended r (λ d. capture_loop fl sg tune takes d windows)).outcome ≢ panicked
      on_window (ok d) w go = go d w
      on_window (err ending) w go = w
