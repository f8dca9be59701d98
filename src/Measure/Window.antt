-- ===== src/Measure/Window.antt =====
-- `finalize` of src/measure.rs against the description of a window.
use propmonitor.Base.{
  suc, ◌+◌, ◌-◌, ◌/◌, ◌^◌, ◌%◌, min, Bool, true, false, not, ◌||◌, leb, ◌==◌, if◌then◌else◌, Option,
  none, some, List, [], ◌∷◌, ◌++◌, length, replicate, keep, fold, ◌≡◌, refl, ap, ap₂, ◌∙◌, arith,
  length-map, get_elem?-some, Bool-cases, inl, inr, lt→ltb, ne→==,
}
use native.Mathlib.Nat.{zero-add}
use propmonitor.Float.{Float}
use propmonitor.Signal.{Signal}
use propmonitor.Worker.{Measurement}
use propmonitor.Measure.{SpectrumAnalyzer, fft_size, ◌>>=◌}
use propmonitor.Measure.Finalize.{
  Gate, sort, insert, outside, gate, gate_frame, levels, report, noise_bins, band_noise, estimate,
  close, finalize,
}
use propmonitor.Measure.Frame.{frame_power}
use propmonitor.Measure.Batch.{Holds, raise}
use propmonitor.Measure.Description.{
  or_all, summary, median, periodogram, powers_of, measurement_of,
}

module _ (fl : Float) (sg : Signal fl) where
  open fl use {F, lt, add, div, of_ℕ}
  open sg use {S, C, mul, max, log10, least_power}

  length-insert : (x : F) (ys : List F) → length (insert fl sg x ys) ≡ suc (length ys)
  unfolding insert
  length-insert x [] = refl
  length-insert x (y ∷ ys) = ground (arith, length-insert x ys)

  length-sort : (xs : List F) → length (sort fl sg xs) ≡ length xs
  unfolding sort
  length-sort [] = refl
  length-sort (x ∷ xs) = length-insert x (sort fl sg xs) ∙ ap suc (length-sort xs)

  -- What the gating loop holds after the loud frames.
  abbrev gated : Gate F → List F → Gate F
  gated g active = record {
    active_count = g.active_count + length active;
    active_peak = fold (raise fl) g.active_peak active;
    active_sum = fold add g.active_sum active;
  }

  abbrev at_rest : Gate F
  at_rest = record { active_count = 0; active_peak = of_ℕ 0; active_sum = of_ℕ 0 }

  gate-fold :
      (threshold : F) (g : Gate F) (powers : List F)
      → fold (gate_frame fl sg threshold) g powers ≡ gated g (keep (lt threshold) powers)
  unfolding gate_frame
  gate-fold threshold g [] = ground arith
  gate-fold threshold g (p ∷ ps) = elim (Bool-cases (lt threshold p)) [
    | inl loud ↦ rw loud (
        gate-fold threshold
          (record {
            active_count = g.active_count + 1;
            active_peak = raise fl g.active_peak p;
            active_sum = add g.active_sum p;
          })
          ps
        ∙ ground arith)
    | inr quiet ↦ rw quiet (gate-fold threshold g ps)
  ]

  levels_lem :
      (a : SpectrumAnalyzer F S C) (active powers : List F)
      → a.sig_peak_power ≡ fold (raise fl) (of_ℕ 0) powers
      → a.sig_sum_power ≡ fold add (of_ℕ 0) powers
      → a.frame_count ≡ length powers
      → levels fl sg a (gated at_rest active) ≡ (
        max (fold (raise fl) (of_ℕ 0) (or_all fl sg active powers)) least_power,
        max
            (div
              (fold add (of_ℕ 0) (or_all fl sg active powers))
              (of_ℕ (length (or_all fl sg active powers))))
            least_power,
      )
  unfolding levels
  levels_lem a [] powers p s n = simp (p, s, n)
  levels_lem a (x ∷ xs) powers p s n =
      rw (lt→ltb 0 (0 + suc (length xs)) (omega arith), zero-add (suc (length xs))) refl

  report-summary :
      (a : SpectrumAnalyzer F S C) (noise : F) (powers : List F)
      → a.frame_powers ≡ powers
      → a.sig_peak_power ≡ fold (raise fl) (of_ℕ 0) powers
      → a.sig_sum_power ≡ fold add (of_ℕ 0) powers
      → a.frame_count ≡ length powers
      → report fl sg a noise ≡ summary fl sg noise powers
  unfolding report summary gate
  report-summary a noise powers f p s n =
      simp
        (
          f,
          gate-fold (mul noise (of_ℕ 2)) at_rest powers,
          levels_lem a (keep (lt (mul noise (of_ℕ 2))) powers) powers p s n,
          n,
        )
        (simp (zero-add (length (keep (lt (mul noise (of_ℕ 2))) powers))))

  estimate-median :
      (a : SpectrumAnalyzer F S C) (bins : List F)
      → estimate fl sg a bins
        ≡ some (median fl sg bins >>= λ n. some (report fl sg a (band_noise fl sg a n)))
  unfolding estimate median sort insert
  estimate-median a [] = refl
  estimate-median a (p ∷ ps) =
      let (x, e) =
        get_elem?-some (sort fl sg (p ∷ ps)) (length (p ∷ ps) / 2)
          (omega (arith, length-sort (p ∷ ps))) in
      simp e

  abbrev tested :
      Bool
      → Bool
      → SpectrumAnalyzer F S C
      → Option (Option (Measurement F) × SpectrumAnalyzer F S C)
  tested idle narrow b =
      if idle
      then some (none, close fl sg b)
      else if narrow
      then some (none, close fl sg b)
      else do m ← estimate fl sg b (noise_bins fl sg b); some (m, close fl sg b)

  noise_bins_lem :
      (a b : SpectrumAnalyzer F S C) (frames : List (List C))
      → Holds fl sg a b frames
      → a.psd_sum ≡ replicate fft_size (of_ℕ 0)
      → a.frame_count ≡ 0
      → noise_bins fl sg b
        ≡ outside fl sg
            (a.sig_lo - a.half_width_bins)
            (min ((a.sig_hi + a.half_width_bins) % 2 ^ 64) (fft_size - 1))
            0
            (periodogram fl sg a frames)
  unfolding noise_bins periodogram
  noise_bins_lem a b frames h z n = simp (
    h.sig_lo,
    h.sig_hi,
    h.half_width_bins,
    h.psd_sum,
    h.window_energy,
    z,
    h.frame_count,
    n,
    zero-add (length frames),
  )

  band_noise_lem :
      (a b : SpectrumAnalyzer F S C) (frames : List (List C))
      → Holds fl sg a b frames
      → (x : F) → band_noise fl sg b x ≡ band_noise fl sg a x
  unfolding band_noise
  band_noise_lem a b frames h x =
      ap₂ (λ lo hi. max (mul x (of_ℕ ((hi - lo + 1) % 2 ^ 64))) least_power) h.sig_lo h.sig_hi

  -- `finalize` after full frames gives the measurement of the description, and closes the window.
  pub finalize-Holds :
      (a b : SpectrumAnalyzer F S C) (frames : List (List C))
      → Holds fl sg a b frames
      → a.psd_sum ≡ replicate fft_size (of_ℕ 0)
      → a.frame_powers ≡ []
      → a.sig_peak_power ≡ of_ℕ 0
      → a.sig_sum_power ≡ of_ℕ 0
      → a.frame_count ≡ 0
      → a.window_open ≡ true
      → finalize fl sg b ≡ some (measurement_of fl sg a frames, close fl sg b)
  unfolding finalize measurement_of
  finalize-Holds a b [] h z f p s n w =
      ap (λ idle. tested (idle || not b.window_open) (leb b.sig_hi b.sig_lo) b)
        (ap (λ count. count == 0) {x = b.frame_count} {y = 0} (omega (arith, h.frame_count)))
  finalize-Holds a b (frame ∷ frames) h z f p s n w =
      ap₂ (λ none_yet opened. tested (none_yet || not opened) (leb b.sig_hi b.sig_lo) b)
        (ne→== b.frame_count 0 (omega (arith, h.frame_count))) (h.window_open ∙ w)
      ∙ ap₂ (λ lo hi. tested false (leb hi lo) b) h.sig_lo h.sig_hi
      ∙ elim (Bool-cases (leb a.sig_hi a.sig_lo)) [
        | inl narrow ↦ simp narrow
        | inr wide ↦ simp (
          wide,
          noise_bins_lem a b (frame ∷ frames) h z n,
          estimate-median b,
          band_noise_lem a b (frame ∷ frames) h,
          report_each,
        )
      ]
    where
      report_each :
          (x : F) → report fl sg b x ≡ summary fl sg x (powers_of fl sg a (frame ∷ frames))
      report_each x =
          report-summary b x _
            (h.frame_powers ∙ ap (λ ps. ps ++ powers_of fl sg a (frame ∷ frames)) f)
            (h.sig_peak_power ∙ ap (λ x. fold (raise fl) x (powers_of fl sg a (frame ∷ frames))) p)
            (h.sig_sum_power ∙ ap (λ x. fold add x (powers_of fl sg a (frame ∷ frames))) s)
            (omega (
              arith,
              h.frame_count,
              length-map (frame_power fl sg a.sig_lo a.sig_hi a.window_energy a.window) frames,
            ))
