-- ===== src/Measure/Tests.antt =====
-- The theorems on the analyzer at concrete inputs, and runs of its definitions.
use propmonitor.Base.{
  ℕ, ◌+◌, ◌-◌, ◌/◌, ◌^◌, min, leb, true, false, if◌then◌else◌, Option, none, some, [], ◌∷◌,
  replicate, ◌≡◌, refl, arith,
}
use propmonitor.Base.Ints.{pos, negsuc, pos_part, neg_part}
use propmonitor.Samples.{natural, natural_signal}
use propmonitor.Measure.{
  SpectrumAnalyzer, fft_size, new, start_window, low_bin, high_bin, chunks_exact,
}
use propmonitor.Measure.Finalize.{finalize, analyze, gate, gate_frame, outside, sort, insert, close}
use propmonitor.Measure.Description.{measurement_of}
use propmonitor.Measure.Batch.{IsSized}
use propmonitor.Measure.Analyze.{new-IsSized, analyze-measurement_of}
use propmonitor.Measure.Bounds.{start_window-edges, finalize-again}

abbrev device : SpectrumAnalyzer ℕ ℕ (ℕ × ℕ)
device = new natural natural_signal 250000

analyze-measurement_of_example :
    (c : SpectrumAnalyzer ℕ ℕ (ℕ × ℕ)) × (analyze natural natural_signal device
        (replicate fft_size (3, 4))
        1500
        2700
      ≡ some (
        measurement_of natural natural_signal
            (start_window natural natural_signal device 1500 2700)
            (chunks_exact (replicate fft_size (3, 4))),
        c,
      ))
    × IsSized c
    × (c.window_open ≡ false)
analyze-measurement_of_example =
    analyze-measurement_of natural natural_signal (λ cs. refl) device (replicate fft_size (3, 4))
      1500 2700 (new-IsSized natural natural_signal 250000)

start_window-edges_example :
    (low_bin (negsuc 8209) (pos 10) ≡ fft_size / 2 + 0 - (8210 + 10))
    × (high_bin (negsuc 8209) (pos 10) ≡ (
        if leb 8210 (fft_size / 2 + 0 + 10)
        then min (fft_size / 2 + 0 + 10 - 8210) (fft_size - 1)
        else 2 ^ 64 - (8210 - (fft_size / 2 + 0 + 10))))
start_window-edges_example = start_window-edges (negsuc 8209) 10 (omega arith)

idle : finalize natural natural_signal device ≡ some (none, close natural natural_signal device)
unfolding finalize new
idle = refl

measured_once :
    finalize natural natural_signal (close natural natural_signal device)
    ≡ some (none, close natural natural_signal device)
measured_once = finalize-again natural natural_signal device idle

usb_edges : high_bin (pos 98) (pos 88) - low_bin (pos 98) (pos 88) ≡ 176
unfolding high_bin low_bin propmonitor.Measure.center_bin propmonitor.Base.Ints.wrapping_add
    propmonitor.Base.Ints.wrapping_sub fft_size
usb_edges = refl

loud_frames :
    gate natural natural_signal 5 (7 ∷ 2 ∷ 9 ∷ [])
    ≡ record { active_count = 2; active_peak = 9; active_sum = 16 }
unfolding gate gate_frame
loud_frames = refl

beside : outside natural natural_signal 1 3 0 (9 ∷ 8 ∷ 7 ∷ 6 ∷ 5 ∷ 4 ∷ []) ≡ 9 ∷ 5 ∷ 4 ∷ []
unfolding outside
beside = refl

in_order : sort natural natural_signal (3 ∷ 1 ∷ 2 ∷ []) ≡ 1 ∷ 2 ∷ 3 ∷ []
unfolding sort insert
in_order = refl
