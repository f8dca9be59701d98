-- ===== src/Measure/Bounds.antt =====
-- The passband of `start_window` in src/measure.rs, and the numbers that `finalize` reports.
use propmonitor.Base.{
  ℕ, ◌+◌, ◌-◌, ◌/◌, ◌^◌, ◌<◌, min, leb, if◌then◌else◌, ◌≡◌, arith, ◌==◌, Option, none, some,
  Bool-cases, inl, inr,
}
use propmonitor.Base.Ints.{ℤ, pos, negsuc, pos_part, neg_part, wrapping_add, wrapping_sub}
use propmonitor.Float.{Float}
use propmonitor.Signal.{Signal}
use propmonitor.Worker.{Measurement}
use propmonitor.Measure.{SpectrumAnalyzer, fft_size, low_bin, high_bin, center_bin}
use propmonitor.Measure.Finalize.{finalize, close}

-- The bins of a passband whose offset is `o` bins and whose half width is `h` bins. Far from the
-- ends of `isize` the low edge is cut at bin 0, and the high edge at the last bin; a high edge below
-- bin 0 becomes a number just below 2 ^ 64.
pub start_window-edges :
    (o : ℤ) (h : ℕ)
    → pos_part o + neg_part o + h < 2 ^ 62
    → (low_bin o (pos h) ≡ fft_size / 2 + pos_part o - (neg_part o + h))
      × (high_bin o (pos h) ≡ (
          if leb (neg_part o) (fft_size / 2 + pos_part o + h)
          then min (fft_size / 2 + pos_part o + h - neg_part o) (fft_size - 1)
          else 2 ^ 64 - (neg_part o - (fft_size / 2 + pos_part o + h))))
unfolding low_bin high_bin center_bin wrapping_add wrapping_sub fft_size
start_window-edges (pos n) h b = (ground arith, ground arith)
start_window-edges (negsuc n) h b = (ground arith, ground arith)

module _ (fl : Float) (sg : Signal fl) where
  open fl use {F, lt}
  open sg use {S, C}

  closed :
      (a : SpectrumAnalyzer F S C) → finalize fl sg (close fl sg a) ≡ some (none, close fl sg a)
  unfolding finalize close
  closed a = elim (Bool-cases (a.frame_count == 0)) [ inl e ↦ simp e | inr e ↦ simp e ]

  -- What `finalize` leaves is a closed window.
  finalize-close :
      (a : SpectrumAnalyzer F S C) {m : Option (Measurement F)} {c : SpectrumAnalyzer F S C}
      → finalize fl sg a ≡ some (m, c)
      → c ≡ close fl sg a
  unfolding finalize
  finalize-close a e = ground arith

  -- A window is measured once: after `finalize`, whatever it gave, another one without a
  -- `start_window` between them gives nothing and changes nothing.
  pub finalize-again :
      (a : SpectrumAnalyzer F S C) {m : Option (Measurement F)} {c : SpectrumAnalyzer F S C}
      → finalize fl sg a ≡ some (m, c)
      → finalize fl sg c ≡ some (none, c)
  finalize-again a e = rw (finalize-close a e) (closed a)
