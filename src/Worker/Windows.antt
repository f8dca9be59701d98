-- ===== src/Worker/Windows.antt =====
-- The windows of src/worker.rs: the samples read in a window are the frames given to the analyzer
-- and the rest of a frame.
use propmonitor.Base.{
  ℕ, zero, suc, ◌≤◌, ◌<◌, Bool, true, leb, some, List, [], ◌∷◌, ◌++◌, append-nil, append_assoc,
  length, take, drop, turned, flatten, flatten-append, length-take, length-drop, take-drop, all,
  ◌≡◌, ap, ◌∙◌, arith, leb→le, Bool-cases, inl, inr,
}
use propmonitor.Float.{Float}
use propmonitor.Signal.{Signal}
use propmonitor.Measure.{SpectrumAnalyzer, fft_size, add_frame, add_frames}
use propmonitor.Measure.Batch.{IsSized, AreFull, AreFull-append, add_frame-some, add_frames-append}
use propmonitor.Measure.Frame.{fft_size-pos}
use propmonitor.Worker.{WorkerEvent}
use propmonitor.Worker.Waterfall.{waterfall_fft_n}
use propmonitor.Worker.Sound.{Sound}
use propmonitor.Worker.Samples.{is_live}
use propmonitor.Worker.Capture.{Capture, Tuning, Read, samples, timeout, read_failed, drain}

module _ (fl : Float) (sg : Signal fl) where
  open fl use {F}
  open sg use {S, C}

  -- The state `d` after the samples `read` of the window that began in the state `c`, where the
  -- buffer may still hold full frames.
  pub record Loose (c : Capture F S C) (read : List C) (d : Capture F S C) : Type 0 where
    pub frames : List (List C)
    pub full_frames : AreFull frames
    pub joined : flatten frames ++ d.frame_buf ≡ read
    pub added : add_frames fl sg c.analyzer frames ≡ some d.analyzer
    pub sized : IsSized d.analyzer
    pub ring : turned d.wf_pos d.wf_ring ≡ drop (length read) (turned c.wf_pos c.wf_ring ++ read)
    pub ring_length : length d.wf_ring ≡ waterfall_fft_n
    pub pos_below : d.wf_pos < waterfall_fft_n
    pub live : List (WorkerEvent F S)
    pub sent : d.sent ≡ c.sent ++ live
    pub all_live : all is_live live ≡ true

  -- The same with less than a frame in the buffer.
  pub record Progress (c : Capture F S C) (read : List C) (d : Capture F S C) : Type 0 where
    pub loose : Loose c read d
    pub short : length d.frame_buf < fft_size

  -- The samples of an answer.
  abbrev pub got : Read C → List C
  got (samples ss) = ss
  got timeout = []
  got (read_failed e) = []

module _ (fl : Float) (sg : Signal fl)
    (forward_length : (xs : List (Signal.C sg)) → length (Signal.forward sg xs) ≡ length xs)
    (tune : Tuning (Float.F fl) (Signal.S sg)) (takes : ℕ → Bool) where
  open fl use {F}
  open sg use {S, C}

  -- One frame out of the buffer.
  frame-Loose :
      (c d : Capture F S C) (read : List C)
      → Loose fl sg c read d
      → fft_size ≤ length d.frame_buf
      → (b : SpectrumAnalyzer F S C) × (p : F) × (add_frame fl sg d.analyzer
            (take fft_size d.frame_buf)
          ≡ some (p, b))
        × Loose fl sg c read (record d { analyzer = b; frame_buf = drop fft_size d.frame_buf })
  frame-Loose c d read h enough =
      let size : length (take fft_size d.frame_buf) ≡ fft_size =
        length-take fft_size d.frame_buf ∙ ground arith in
      let (b, p, e, sized) =
        add_frame-some fl sg forward_length d.analyzer (take fft_size d.frame_buf) h.sized size in
      (
        b,
        p,
        e,
        record {
          frames = h.frames ++ take fft_size d.frame_buf ∷ [];
          full_frames = AreFull-append (take fft_size d.frame_buf) h.full_frames size;
          joined =
              ap (λ xs. xs ++ drop fft_size d.frame_buf)
                (flatten-append h.frames (take fft_size d.frame_buf ∷ [])
                  ∙ ap (λ xs. flatten h.frames ++ xs) (append-nil (take fft_size d.frame_buf)))
              ∙ append_assoc (flatten h.frames) _ _
              ∙ ap (λ xs. flatten h.frames ++ xs) (take-drop fft_size d.frame_buf)
              ∙ h.joined;
          added =
              add_frames-append fl sg c.analyzer h.frames (take fft_size d.frame_buf)
              ∙ simp (h.added, e);
          sized = sized;
          ring = h.ring;
          ring_length = h.ring_length;
          pos_below = h.pos_below;
          live = h.live;
          sent = h.sent;
          all_live = h.all_live;
        },
      )

  -- The loop over the frames ends within its fuel, without a panic.
  pub drain-Progress :
      (fuel : ℕ) (c d : Capture F S C) (read : List C)
      → Loose fl sg c read d
      → length d.frame_buf ≤ fuel
      → Sound (Progress fl sg c read) (drain fl sg tune takes fuel d)
  unfolding drain
  drain-Progress zero c d read h k = record { loose = h; short = omega (arith, fft_size-pos) }
  drain-Progress (suc fuel) c d read h k = elim (Bool-cases (leb fft_size (length d.frame_buf))) [
    | inl enough ↦
        let (b, p, e, l) = frame-Loose c d read h (leb→le fft_size (length d.frame_buf) enough) in
        rw (enough, drain)
          (rw e (
            drain-Progress fuel c (record d { analyzer = b; frame_buf = drop fft_size d.frame_buf })
              read l
              (omega (
                arith,
                k,
                fft_size-pos,
                leb→le fft_size (length d.frame_buf) enough,
                length-drop fft_size d.frame_buf,
              ))))
    | inr few ↦ rw (few, drain) (record { loose = h; short = ground arith })
  ]
