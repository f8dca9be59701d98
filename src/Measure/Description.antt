-- ===== src/Measure/Description.antt =====
-- The measurement of a window of src/measure.rs, described from its frames alone.
use mathlib.Core.List.{zip_with}
use propmonitor.Base.{
  ◌+◌, ◌-◌, ◌/◌, ◌^◌, ◌%◌, min, leb, if◌then◌else◌, Option, none, some, List, [], ◌∷◌, map, length,
  get_elem?, replicate, keep, fold,
}
use propmonitor.Float.{Float}
use propmonitor.Signal.{Signal}
use propmonitor.Worker.{Measurement}
use propmonitor.Measure.{SpectrumAnalyzer, fft_size, ◌>>=◌}
use propmonitor.Measure.Finalize.{sort, outside, decibels, band_noise}
use propmonitor.Measure.Frame.{spectrum, frame_power}
use propmonitor.Measure.Batch.{raise}

module _ (fl : Float) (sg : Signal fl) where
  open fl use {F, lt, add, div, of_ℕ}
  open sg use {S, C, mul, max, log10, least_power}

  -- The frames that stand out of the noise, or all of them if none does.
  abbrev pub or_all : List F → List F → List F
  or_all [] powers = powers
  or_all (p ∷ ps) powers = p ∷ ps

  abbrev pub heard : F → List F → List F
  heard threshold powers = or_all (keep (lt threshold) powers) powers

  -- The measurement from the noise power of the band and the powers of the frames.
  unfoldable pub summary : F → List F → Measurement F
  summary noise powers =
      let threshold = mul noise (of_ℕ 2) in
      let chosen = heard threshold powers in
      let peak = max (fold (raise fl) (of_ℕ 0) chosen) least_power in
      let mean = max (div (fold add (of_ℕ 0) chosen) (of_ℕ (length chosen))) least_power in
      record {
        noise_dbfs = decibels fl sg noise;
        signal_peak_dbfs = decibels fl sg peak;
        signal_avg_dbfs = decibels fl sg mean;
        snr_peak_db = decibels fl sg (div peak noise);
        snr_avg_db = decibels fl sg (div mean noise);
        signal_active_fraction =
            div (of_ℕ (length (keep (lt threshold) powers))) (of_ℕ (length powers));
      }

  -- The middle of the sorted list, if there is one.
  unfoldable pub median : List F → Option F
  median xs = get_elem? (sort fl sg xs) (length xs / 2)

  -- The averaged periodogram of the frames.
  unfoldable pub periodogram : SpectrumAnalyzer F S C → List (List C) → List F
  periodogram a frames =
      map (λ p. mul p (div (of_ℕ 1) (mul (of_ℕ (length frames)) a.window_energy)))
        (fold (zip_with add) (replicate fft_size (of_ℕ 0)) (map (spectrum fl sg a.window) frames))

  abbrev pub powers_of : SpectrumAnalyzer F S C → List (List C) → List F
  powers_of a frames = map (frame_power fl sg a.sig_lo a.sig_hi a.window_energy a.window) frames

  -- The measurement of a passband: nothing without a frame, or for a band of one bin or less, or
  -- if no bin is left beside it.
  unfoldable pub measurement_of : SpectrumAnalyzer F S C → List (List C) → Option (Measurement F)
  measurement_of a [] = none
  measurement_of a (frame ∷ frames) = if leb a.sig_hi a.sig_lo then none else do
    noise ← median (
        outside fl sg (a.sig_lo - a.half_width_bins)
          (min ((a.sig_hi + a.half_width_bins) % 2 ^ 64) (fft_size - 1)) 0
          (periodogram a (frame ∷ frames)))
    some (summary (band_noise fl sg a noise) (powers_of a (frame ∷ frames)))
