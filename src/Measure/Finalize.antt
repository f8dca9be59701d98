-- ===== src/Measure/Finalize.antt =====
-- `SpectrumAnalyzer::finalize` of src/measure.rs.
use propmonitor.Base.{
  ℕ, suc, ◌+◌, ◌-◌, ◌/◌, ◌%◌, ◌^◌, min, false, ◌||◌, not, ltb, leb, ◌==◌, if◌then◌else◌, Option,
  none, some, List, [], ◌∷◌, map, length, get_elem?, fold,
}
use propmonitor.Float.{Float}
use propmonitor.Signal.{Signal}
use propmonitor.Worker.{Measurement}
use propmonitor.Measure.{SpectrumAnalyzer, fft_size, ◌>>=◌, add_frames, start_window, chunks_exact}

-- The count, the peak and the sum of the frames above the threshold.
pub record Gate (F : Type 0) : Type 0 where
  pub active_count : ℕ
  pub active_peak : F
  pub active_sum : F

module _ (fl : Float) (sg : Signal fl) where
  open fl use {F, lt, add, div, of_ℕ}
  open sg use {S, C, mul, max, log10, least_power}

  -- `sort_by` with `partial_cmp`, which keeps the order of equal numbers.
  unfoldable pub insert : F → List F → List F
  insert x [] = x ∷ []
  insert x (y ∷ ys) = if lt y x then y ∷ insert x ys else x ∷ y ∷ ys

  unfoldable pub sort : List F → List F
  sort [] = []
  sort (x ∷ xs) = insert x (sort xs)

  -- The enumerated bins outside the guarded passband.
  unfoldable pub outside : ℕ → ℕ → ℕ → List F → List F
  outside guard_lo guard_hi i [] = []
  outside guard_lo guard_hi i (p ∷ ps) =
      if ltb i guard_lo || ltb guard_hi i
      then p ∷ outside guard_lo guard_hi (suc i) ps
      else outside guard_lo guard_hi (suc i) ps

  -- One round of the gating loop.
  unfoldable pub gate_frame : F → Gate F → F → Gate F
  gate_frame threshold g p =
      if lt threshold p
      then record {
        active_count = g.active_count + 1;
        active_peak = if lt g.active_peak p then p else g.active_peak;
        active_sum = add g.active_sum p;
      }
      else g

  unfoldable pub gate : F → List F → Gate F
  gate threshold powers =
      fold (gate_frame threshold)
        (record { active_count = 0; active_peak = of_ℕ 0; active_sum = of_ℕ 0 }) powers

  -- The peak and the mean power: of the frames above the threshold, or of all if there are none.
  unfoldable pub levels : SpectrumAnalyzer F S C → Gate F → F × F
  levels a g =
      if ltb 0 g.active_count
      then (max g.active_peak least_power, max (div g.active_sum (of_ℕ g.active_count)) least_power)
      else (
        max a.sig_peak_power least_power,
        max (div a.sig_sum_power (of_ℕ a.frame_count)) least_power,
      )

  -- `10.0 * x.log10()`
  unfoldable pub decibels : F → F
  decibels x = mul (of_ℕ 10) (log10 x)

  -- The code after the median, on the noise power of the band.
  unfoldable pub report : SpectrumAnalyzer F S C → F → Measurement F
  report a noise_power =
      let g = gate (mul noise_power (of_ℕ 2)) a.frame_powers in
      let l = levels a g in
      record {
        noise_dbfs = decibels noise_power;
        signal_peak_dbfs = decibels l.0;
        signal_avg_dbfs = decibels l.1;
        snr_peak_db = decibels (div l.0 noise_power);
        snr_avg_db = decibels (div l.1 noise_power);
        signal_active_fraction = div (of_ℕ g.active_count) (of_ℕ a.frame_count);
      }

  -- The bins that the noise floor is read from, of the averaged periodogram.
  unfoldable pub noise_bins : SpectrumAnalyzer F S C → List F
  noise_bins a =
      let avg_norm = div (of_ℕ 1) (mul (of_ℕ a.frame_count) a.window_energy) in
      let psd_avg = map (λ p. mul p avg_norm) a.psd_sum in
      let guard_lo = a.sig_lo - a.half_width_bins in
      let guard_hi = min ((a.sig_hi + a.half_width_bins) % 2 ^ 64) (fft_size - 1) in
      outside guard_lo guard_hi 0 psd_avg

  unfoldable pub band_noise : SpectrumAnalyzer F S C → F → F
  band_noise a noise_per_bin =
      let signal_bin_count = (a.sig_hi - a.sig_lo + 1) % 2 ^ 64 in
      max (mul noise_per_bin (of_ℕ signal_bin_count)) least_power

  -- The code from the test for bins on.
  unfoldable pub estimate : SpectrumAnalyzer F S C → List F → Option (Option (Measurement F))
  estimate a [] = some none
  estimate a (p ∷ ps) = do
    noise_per_bin ← get_elem? (sort (p ∷ ps)) (length (p ∷ ps) / 2)
    some (some (report a (band_noise a noise_per_bin)))

  unfoldable pub close : SpectrumAnalyzer F S C → SpectrumAnalyzer F S C
  close a = record a { window_open = false }

  -- `finalize`; the outer `none` is a panic.
  unfoldable pub finalize :
      SpectrumAnalyzer F S C → Option (Option (Measurement F) × SpectrumAnalyzer F S C)
  finalize a =
      if a.frame_count == 0 || not a.window_open
      then some (none, close a)
      else if leb a.sig_hi a.sig_lo
      then some (none, close a)
      else do m ← estimate a (noise_bins a); some (m, close a)

  -- `analyze`
  unfoldable pub analyze :
      SpectrumAnalyzer F S C
      → List C
      → F
      → F
      → Option (Option (Measurement F) × SpectrumAnalyzer F S C)
  analyze a samples offset_hz width_hz = do
    b ← add_frames fl sg (start_window fl sg a offset_hz width_hz) (chunks_exact samples)
    finalize b
