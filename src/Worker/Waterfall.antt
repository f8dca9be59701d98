-- ===== src/Worker/Waterfall.antt =====
-- The waterfall of src/worker.rs: one row of bins from the ring of the newest samples.
use propmonitor.Base.{
  ℕ, suc, ◌+◌, ◌-◌, ◌/◌, ◌%◌, ltb, if◌then◌else◌, Option, none, some, List, [], ◌∷◌, ◌++◌, map,
  length, get_elem?, take, drop, range,
}
use propmonitor.Float.{Float}
use propmonitor.Signal.{Signal}
use propmonitor.Measure.{◌>>=◌}

-- `WATERFALL_FFT_N`
unfoldable pub waterfall_fft_n : ℕ
waterfall_fft_n = 1024

module _ (fl : Float) (sg : Signal fl) where
  open sg use {S, C, of_ℕ32, sub32, mul32, div32, cos32, pi32, half32, scale, norm_sqr, forward}

  unfoldable pub hann_at : ℕ → S
  hann_at i =
      let phase = div32 (mul32 (mul32 (of_ℕ32 2) pi32) (of_ℕ32 i)) (of_ℕ32 (waterfall_fft_n - 1)) in
      sub32 half32 (mul32 half32 (cos32 phase))

  unfoldable pub waterfall_hann_window : List S
  waterfall_hann_window = map hann_at (range 0 waterfall_fft_n)

  -- The loop over the window from index `i`; `none` is an index out of range.
  unfoldable pub weigh_ring : List C → ℕ → ℕ → List S → Option (List C)
  weigh_ring wf_ring wf_pos i [] = some []
  weigh_ring wf_ring wf_pos i (w ∷ hann) = do
    sample ← get_elem? wf_ring ((wf_pos + i) % waterfall_fft_n)
    work ← weigh_ring wf_ring wf_pos (suc i) hann
    some (scale sample w ∷ work)

  -- `compute_waterfall_bins`; the slices of `work` want half of the transform's length.
  unfoldable pub compute_waterfall_bins : List C → ℕ → List S → Option (List S)
  compute_waterfall_bins wf_ring wf_pos hann = do
    weighed ← weigh_ring wf_ring wf_pos 0 hann
    let work = forward weighed
    if ltb (length work) (waterfall_fft_n / 2)
        then none
        else some (
            map norm_sqr (drop (waterfall_fft_n / 2) work)
            ++ map norm_sqr (take (waterfall_fft_n / 2) work))
