-- ===== src/Measure.antt =====
-- src/measure.rs: the analyzer that turns the samples of a window into one measurement. A function
-- gives `none` where the code would panic on an index.
pub mod Finalize
pub mod Frame
pub mod Batch
pub mod Description
pub mod Window
pub mod Analyze
pub mod Chunks
pub mod Bounds
mod Tests
use propmonitor.Base.{
  ℕ, zero, suc, ◌+◌, ◌-◌, ◌/◌, ◌%◌, ◌^◌, min, Bool, true, false, ◌&&◌, ◌||◌, not, ltb, leb, ◌==◌,
  if◌then◌else◌, Option, none, some, List, [], ◌∷◌, ◌++◌, map, length, get_elem?, set, replicate,
  range, fold, take, drop,
}
use propmonitor.Base.Ints.{ℤ, pos, as_usize, wrapping_add, wrapping_sub, max_zero, min_with}
use propmonitor.Float.{Float}
use propmonitor.Signal.{Signal}
use propmonitor.Worker.{Measurement}

-- `FFT_SIZE`
unfoldable pub fft_size : ℕ
fft_size = 16384

pub record SpectrumAnalyzer (F S C : Type 0) : Type 0 where
  pub window : List S
  pub window_energy : F
  pub sample_rate : F
  pub window_open : Bool
  pub sig_lo : ℕ
  pub sig_hi : ℕ
  pub half_width_bins : ℕ
  pub fft_buf : List C
  pub psd_sum : List F
  pub sig_peak_power : F
  pub sig_sum_power : F
  pub frame_powers : List F
  pub frame_count : ℕ

-- The chain of steps that may panic.
infixl 5 ◌>>=◌
abbrev pub ◌>>=◌ : {A B : Type 0} → Option A → (A → Option B) → Option B
none >>= next = none
some value >>= next = next value

-- The centre of the band plus the offset, and the two edges of the passband.
unfoldable pub center_bin : ℤ → ℤ
center_bin offset_bins = wrapping_add (pos (fft_size / 2)) offset_bins

unfoldable pub low_bin : ℤ → ℤ → ℕ
low_bin offset_bins half_width_bins =
    as_usize (max_zero (wrapping_sub (center_bin offset_bins) half_width_bins))

unfoldable pub high_bin : ℤ → ℤ → ℕ
high_bin offset_bins half_width_bins =
    as_usize (min_with (wrapping_add (center_bin offset_bins) half_width_bins) (fft_size - 1))

unfoldable pub in_band : ℕ → ℕ → ℕ → Bool
in_band lo hi k = leb lo k && leb k hi

module _ (fl : Float) (sg : Signal fl) where
  open fl use {F, lt, add, div, of_ℕ}
  open sg use {
    S, C, mul, max, log10, round, to_isize, least_power, to_f64, of_ℕ32, sub32, mul32, div32, cos32,
    pi32, half32, complex, re, im, forward,
  }

  -- One number of the Hann window.
  unfoldable pub hann : ℕ → S
  hann n = mul32 half32 (
      sub32 (of_ℕ32 1) (
        cos32
          (div32 (mul32 (mul32 pi32 (of_ℕ32 2)) (of_ℕ32 n)) (sub32 (of_ℕ32 fft_size) (of_ℕ32 1)))))

  -- `SpectrumAnalyzer::new`
  unfoldable pub new : F → SpectrumAnalyzer F S C
  new sample_rate =
      let window = map hann (range 0 fft_size) in
      record {
        window = window;
        window_energy = fold add (of_ℕ 0) (map (λ w. mul (to_f64 w) (to_f64 w)) window);
        sample_rate = sample_rate;
        window_open = false;
        sig_lo = 0;
        sig_hi = 0;
        half_width_bins = 0;
        fft_buf = replicate fft_size (complex (of_ℕ32 0) (of_ℕ32 0));
        psd_sum = replicate fft_size (of_ℕ 0);
        sig_peak_power = of_ℕ 0;
        sig_sum_power = of_ℕ 0;
        frame_powers = [];
        frame_count = 0;
      }

  -- `start_window`
  unfoldable pub start_window : SpectrumAnalyzer F S C → F → F → SpectrumAnalyzer F S C
  start_window a offset_hz width_hz =
      let bin_hz = div a.sample_rate (of_ℕ fft_size) in
      let offset_bins = to_isize (round (div offset_hz bin_hz)) in
      let half_width_bins = to_isize (max (round (div (div width_hz bin_hz) (of_ℕ 2))) (of_ℕ 1)) in
      record a {
        sig_lo = low_bin offset_bins half_width_bins;
        sig_hi = high_bin offset_bins half_width_bins;
        half_width_bins = as_usize half_width_bins;
        psd_sum = map (λ p. of_ℕ 0) a.psd_sum;
        sig_peak_power = of_ℕ 0;
        sig_sum_power = of_ℕ 0;
        frame_powers = [];
        frame_count = 0;
        window_open = true;
      }

  -- The loop that writes a frame, weighted by the window, into the buffer from its start.
  unfoldable pub weigh : List S → List C → List C → Option (List C)
  weigh window buf [] = some buf
  weigh [] buf (s ∷ frame) = none
  weigh (w ∷ window) [] (s ∷ frame) = none
  weigh (w ∷ window) (b ∷ buf) (s ∷ frame) = do
    rest ← weigh window buf frame
    some (complex (mul32 (re s) w) (mul32 (im s) w) ∷ rest)

  -- The power of one bin of the spectrum.
  unfoldable pub bin_power : C → F
  bin_power v = add (mul (to_f64 (re v)) (to_f64 (re v))) (mul (to_f64 (im v)) (to_f64 (im v)))

  -- One round of the loop over the bins: the sums so far, and the power of the frame.
  unfoldable pub add_bin : ℕ → ℕ → List C → ℕ → List F → F → Option (List F × F)
  add_bin lo hi spectrum k sums power = do
    v ← get_elem? spectrum ((k + fft_size / 2) % fft_size)
    sum ← get_elem? sums k
    some (
      set sums k (add sum (bin_power v)),
      if in_band lo hi k then add power (bin_power v) else power,
    )

  unfoldable pub add_bins : ℕ → ℕ → List C → List ℕ → List F → F → Option (List F × F)
  add_bins lo hi spectrum [] sums power = some (sums, power)
  add_bins lo hi spectrum (k ∷ ks) sums power = do
    r ← add_bin lo hi spectrum k sums power
    add_bins lo hi spectrum ks r.0 r.1

  -- `add_frame`
  unfoldable pub add_frame : SpectrumAnalyzer F S C → List C → Option (F × SpectrumAnalyzer F S C)
  add_frame a frame = do
    weighed ← weigh a.window a.fft_buf frame
    let spectrum = forward weighed
    r ← add_bins a.sig_lo a.sig_hi spectrum (range 0 fft_size) a.psd_sum (of_ℕ 0)
    let power = div r.1 a.window_energy
    some (
      power,
      record a {
        fft_buf = spectrum;
        psd_sum = r.0;
        sig_peak_power = if lt a.sig_peak_power power then power else a.sig_peak_power;
        sig_sum_power = add a.sig_sum_power power;
        frame_powers = a.frame_powers ++ power ∷ [];
        frame_count = a.frame_count + 1;
      },
    )

  -- `add_frame` on one frame after another.
  unfoldable pub add_frames :
      SpectrumAnalyzer F S C → List (List C) → Option (SpectrumAnalyzer F S C)
  add_frames a [] = some a
  add_frames a (frame ∷ frames) = do r ← add_frame a frame; add_frames r.1 frames

-- `chunks_exact(FFT_SIZE)`, on fuel: the full frames of a list, without the rest.
unfoldable pub chunks_from : {C : Type 0} → ℕ → List C → List (List C)
chunks_from zero samples = []
chunks_from (suc fuel) samples = elim (ltb (length samples) fft_size) [
  | true ↦ []
  | false ↦ take fft_size samples ∷ chunks_from fuel (drop fft_size samples)
]

unfoldable pub chunks_exact : {C : Type 0} → List C → List (List C)
chunks_exact samples = chunks_from (length samples) samples
