-- ===== src/Measure/Analyze.antt =====
-- `analyze` of src/measure.rs: a whole window, from a well-formed analyzer.
use propmonitor.Base.{
  ℕ, zero, suc, false, some, List, [], ◌∷◌, map, length, replicate, ◌≡◌, refl, ap, ◌∙◌, arith,
  length-map, length-replicate, range, length-range,
}
use propmonitor.Float.{Float}
use propmonitor.Signal.{Signal}
use propmonitor.Measure.{
  SpectrumAnalyzer, fft_size, add_frames, start_window, new, hann, chunks_exact,
}
use propmonitor.Measure.Finalize.{close, finalize, analyze}
use propmonitor.Measure.Chunks.{chunks_exact-Splits}
use propmonitor.Measure.Batch.{IsSized, AreFull, add_frames-Holds}
use propmonitor.Measure.Description.{measurement_of}
use propmonitor.Measure.Window.{finalize-Holds}

-- A loop that only overwrites leaves one value at every index.
map-replicate :
    {A : Type 0} (x : A) (n : ℕ) (xs : List A) → length xs ≡ n → map (λ y. x) xs ≡ replicate n x
map-replicate x zero [] h = refl
map-replicate x zero (y ∷ ys) h = absurd (omega arith)
map-replicate x (suc n) [] h = absurd (omega arith)
map-replicate x (suc n) (y ∷ ys) h = ap (◌∷◌ x) (map-replicate x n ys (omega arith))

-- A new analyzer has buffers of the length of the transform.
pub new-IsSized :
    (fl : Float) (sg : Signal fl) (sample_rate : Float.F fl) → IsSized (new fl sg sample_rate)
unfolding new
new-IsSized fl sg sample_rate = record {
  window = length-map (hann fl sg) (range 0 fft_size) ∙ length-range 0 fft_size;
  fft_buf = length-replicate fft_size _;
  psd_sum = length-replicate fft_size _;
}

module _ (fl : Float) (sg : Signal fl)
    (forward_length : (xs : List (Signal.C sg)) → length (Signal.forward sg xs) ≡ length xs) where
  open fl use {F, of_ℕ}
  open sg use {S, C}

  close-IsSized : (a : SpectrumAnalyzer F S C) → IsSized a → IsSized (close fl sg a)
  unfolding close
  close-IsSized a h = record { window = h.window; fft_buf = h.fft_buf; psd_sum = h.psd_sum }

  pub start_window-IsSized :
      (a : SpectrumAnalyzer F S C) (offset_hz width_hz : F)
      → IsSized a
      → IsSized (start_window fl sg a offset_hz width_hz)
  unfolding start_window
  start_window-IsSized a offset_hz width_hz h = record {
    window = h.window;
    fft_buf = h.fft_buf;
    psd_sum = length-map (λ p. of_ℕ 0) a.psd_sum ∙ h.psd_sum;
  }

  -- A window over full frames: no index is out of range, and the measurement is the described one.
  pub window_lem :
      (a : SpectrumAnalyzer F S C) (offset_hz width_hz : F) (frames : List (List C))
      → IsSized a
      → AreFull frames
      → (b : SpectrumAnalyzer F S C) × (c : SpectrumAnalyzer F S C) × (add_frames fl sg
            (start_window fl sg a offset_hz width_hz)
            frames
          ≡ some b)
        × (finalize fl sg b
            ≡ some (measurement_of fl sg (start_window fl sg a offset_hz width_hz) frames, c))
        × IsSized c
        × (c.window_open ≡ false)
  unfolding start_window close
  window_lem a offset_hz width_hz frames h full_frames =
      let started = start_window fl sg a offset_hz width_hz in
      let (b, e, sized, held) =
        add_frames-Holds fl sg forward_length started frames
          (start_window-IsSized a offset_hz width_hz h) full_frames in
      (
        b,
        close fl sg b,
        e,
        finalize-Holds fl sg started b frames held
            (map-replicate (of_ℕ 0) fft_size a.psd_sum h.psd_sum) refl refl refl refl refl,
        close-IsSized b sized,
        refl,
      )

  -- The measurement of a list of samples: if the buffers have the length of the transform and the
  -- transform keeps the length, no index is out of range, and the streaming code gives the
  -- measurement that is described from the full frames of the samples: the noise from the median of
  -- their averaged spectrum beside the passband, the levels from the frames above twice the noise,
  -- or from all frames if there are none. Nothing of an earlier window is left in it, and the
  -- window is closed.
  pub analyze-measurement_of :
      (a : SpectrumAnalyzer F S C) (samples : List C) (offset_hz width_hz : F)
      → IsSized a
      → (c : SpectrumAnalyzer F S C) × (analyze fl sg a samples offset_hz width_hz
          ≡ some (
            measurement_of fl sg (start_window fl sg a offset_hz width_hz) (chunks_exact samples),
            c,
          ))
        × IsSized c
        × (c.window_open ≡ false)
  unfolding analyze
  analyze-measurement_of a samples offset_hz width_hz h =
      let (rest, split) = chunks_exact-Splits samples in
      let (b, c, e, m, sized, shut) =
        window_lem a offset_hz width_hz (chunks_exact samples) h split.full_frames in
      (c, simp (e, m), sized, shut)
