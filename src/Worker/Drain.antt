-- ===== src/Worker/Drain.antt =====
-- The loop of src/worker.rs that takes the full frames out of the buffer.
use propmonitor.Base.{
  ℕ, zero, suc, ◌≤◌, ◌<◌, Bool, leb, leb→le, some, List, [], ◌∷◌, ◌++◌, append_assoc, length, take,
  drop, flatten, length-take, length-drop, take-drop, ok, ◌≡◌, refl, ap, ◌∙◌, arith, Bool-cases,
  inl, inr,
}
use propmonitor.Float.{Float}
use propmonitor.Signal.{Signal}
use propmonitor.Measure.{fft_size, add_frames}
use propmonitor.Measure.Batch.{IsSized, AreFull, full, none_left, add_frame-some}
use propmonitor.Measure.Frame.{fft_size-pos}
use propmonitor.Worker.Capture.{Capture, Tuning, drain}

module _ (fl : Float) (sg : Signal fl)
    (forward_length : (xs : List (Signal.C sg)) → length (Signal.forward sg xs) ≡ length xs)
    (tune : Tuning (Float.F fl) (Signal.S sg)) (takes : ℕ → Bool) where
  open fl use {F}
  open sg use {S, C}

  -- What the loop leaves: less than a frame, after the full frames before it went to the analyzer.
  pub record Drained (c d : Capture F S C) : Type 0 where
    pub short : length d.frame_buf < fft_size
    pub frames : List (List C)
    pub full_frames : AreFull frames
    pub joined : flatten frames ++ d.frame_buf ≡ c.frame_buf
    pub added : add_frames fl sg c.analyzer frames ≡ some d.analyzer
    pub sent : d.sent ≡ c.sent

  -- On fuel of the length of the buffer or more, and from a well-formed analyzer, the loop ends by
  -- its own test and without a panic: the frames that it took are full, in the order of the buffer,
  -- and all were added, and less than a frame is left.
  pub drain-Drained :
      (fuel : ℕ) (c : Capture F S C)
      → IsSized c.analyzer
      → length c.frame_buf ≤ fuel
      → (d : Capture F S C) × (drain fl sg tune takes fuel c ≡ ok d) × Drained c d
  unfolding drain add_frames
  drain-Drained zero c h k = (
    c,
    refl,
    record {
      short = omega (arith, fft_size-pos);
      frames = [];
      full_frames = none_left;
      joined = refl;
      added = refl;
      sent = refl;
    },
  )
  drain-Drained (suc fuel) c h k = elim (Bool-cases (leb fft_size (length c.frame_buf))) [
    | inl enough ↦
        let long = leb→le fft_size (length c.frame_buf) enough in
        let size : length (take fft_size c.frame_buf) ≡ fft_size =
          length-take fft_size c.frame_buf ∙ ground arith in
        let (b, p, e, sized) =
          add_frame-some fl sg forward_length c.analyzer (take fft_size c.frame_buf) h size in
        let (d, run, q) =
          drain-Drained fuel (record c { analyzer = b; frame_buf = drop fft_size c.frame_buf })
            sized (omega (arith, k, fft_size-pos, long, length-drop fft_size c.frame_buf)) in
        (
          d,
          rw (enough, drain) (rw e run),
          record {
            short = q.short;
            frames = take fft_size c.frame_buf ∷ q.frames;
            full_frames = full size q.full_frames;
            joined =
                append_assoc (take fft_size c.frame_buf) _ _
                ∙ ap (λ xs. take fft_size c.frame_buf ++ xs) q.joined
                ∙ take-drop fft_size c.frame_buf;
            added = rw e q.added;
            sent = q.sent;
          },
        )
    | inr few ↦ (
      c,
      rw (few, drain) refl,
      record {
        short = ground arith;
        frames = [];
        full_frames = none_left;
        joined = refl;
        added = refl;
        sent = refl;
      },
    )
  ]
