-- ===== src/Measure/Batch.antt =====
-- A window of src/measure.rs as one function of its frames: what the streaming accumulators of
-- `SpectrumAnalyzer` hold after them, and the measurement.
use mathlib.Core.List.{zip_with}
use propmonitor.Base.{
  ◌+◌, if◌then◌else◌, Option, none, some, List, [], ◌∷◌, ◌++◌, append-nil, append_assoc, map,
  length, fold, ◌≡◌, refl, sym, ◌∙◌, arith, length-map,
}
use propmonitor.Float.{Float}
use propmonitor.Signal.{Signal}
use propmonitor.Measure.{SpectrumAnalyzer, fft_size, ◌>>=◌, add_frame, add_frames, bin_power}
use propmonitor.Measure.Frame.{
  weight, spectrum, frame_power, length-shifted, length-zip_with, weigh_lem, add_bins_lem,
}

-- The buffers have the length of the transform.
pub record IsSized {F S C : Type 0} (a : SpectrumAnalyzer F S C) : Type 0 where
  pub window : length a.window ≡ fft_size
  pub fft_buf : length a.fft_buf ≡ fft_size
  pub psd_sum : length a.psd_sum ≡ fft_size

-- Every frame is a full one.
pub data AreFull {C : Type 0} : List (List C) → Type 0 where
  none_left : AreFull []
  full :
      {frame : List C} {frames : List (List C)}
      → length frame ≡ fft_size
      → AreFull frames
      → AreFull (frame ∷ frames)

-- The larger of the two, as the loops compare them.
abbrev pub raise : (fl : Float) → Float.F fl → Float.F fl → Float.F fl
raise fl peak p = if Float.lt fl peak p then p else peak

module _ (fl : Float) (sg : Signal fl) where
  open fl use {F, lt, add, div, of_ℕ}
  open sg use {S, C, forward}

  abbrev pub power_of : SpectrumAnalyzer F S C → List C → F
  power_of a frame = frame_power fl sg a.sig_lo a.sig_hi a.window_energy a.window frame

  -- What `b` holds when `frames` were added to `a`.
  pub record Holds (a b : SpectrumAnalyzer F S C) (frames : List (List C)) : Type 0 where
    pub psd_sum : b.psd_sum ≡ fold (zip_with add) a.psd_sum (map (spectrum fl sg a.window) frames)
    pub frame_powers : b.frame_powers ≡ a.frame_powers ++ map (power_of a) frames
    pub sig_peak_power :
        b.sig_peak_power ≡ fold (raise fl) a.sig_peak_power (map (power_of a) frames)
    pub sig_sum_power : b.sig_sum_power ≡ fold add a.sig_sum_power (map (power_of a) frames)
    pub frame_count : b.frame_count ≡ a.frame_count + length frames
    pub window : b.window ≡ a.window
    pub window_energy : b.window_energy ≡ a.window_energy
    pub sample_rate : b.sample_rate ≡ a.sample_rate
    pub window_open : b.window_open ≡ a.window_open
    pub sig_lo : b.sig_lo ≡ a.sig_lo
    pub sig_hi : b.sig_hi ≡ a.sig_hi
    pub half_width_bins : b.half_width_bins ≡ a.half_width_bins

  -- The state after one full frame.
  abbrev pub after_frame : SpectrumAnalyzer F S C → List C → SpectrumAnalyzer F S C
  after_frame a frame = record a {
    fft_buf = forward (zip_with (weight fl sg) frame a.window);
    psd_sum = zip_with add a.psd_sum (spectrum fl sg a.window frame);
    sig_peak_power = raise fl a.sig_peak_power (power_of a frame);
    sig_sum_power = add a.sig_sum_power (power_of a frame);
    frame_powers = a.frame_powers ++ power_of a frame ∷ [];
    frame_count = a.frame_count + 1;
  }

module _ (fl : Float) (sg : Signal fl)
    (forward_length : (xs : List (Signal.C sg)) → length (Signal.forward sg xs) ≡ length xs) where
  open fl use {F, lt, add, div, of_ℕ}
  open sg use {S, C, forward}

  length-spectrum :
      (window : List S) (frame : List C)
      → length window ≡ fft_size
      → length frame ≡ fft_size
      → length (spectrum fl sg window frame) ≡ fft_size
  unfolding spectrum
  length-spectrum window frame hw hf =
      length-map (bin_power fl sg) _
      ∙ length-shifted _
          (forward_length _ ∙ length-zip_with (weight fl sg) frame window (hf ∙ sym hw) ∙ hf)

  add_frame_lem :
      (a : SpectrumAnalyzer F S C) (frame : List C)
      → IsSized a
      → length frame ≡ fft_size
      → add_frame fl sg a frame ≡ some (power_of fl sg a frame, after_frame fl sg a frame)
  unfolding add_frame spectrum frame_power
  add_frame_lem a frame h hf =
      let sized : length (forward (zip_with (weight fl sg) frame a.window)) ≡ fft_size =
        forward_length _ ∙ length-zip_with (weight fl sg) frame a.window (hf ∙ sym h.window) ∙ hf in
      simp (
        weigh_lem fl sg a.window a.fft_buf frame (h.window ∙ sym hf) (h.fft_buf ∙ sym hf),
        add_bins_lem fl sg a.sig_lo a.sig_hi (forward (zip_with (weight fl sg) frame a.window))
            a.psd_sum sized h.psd_sum,
      )

  after_frame-IsSized :
      (a : SpectrumAnalyzer F S C) (frame : List C)
      → IsSized a
      → length frame ≡ fft_size
      → IsSized (after_frame fl sg a frame)
  after_frame-IsSized a frame h hf = record {
    window = h.window;
    fft_buf =
        forward_length _ ∙ length-zip_with (weight fl sg) frame a.window (hf ∙ sym h.window) ∙ hf;
    psd_sum =
        length-zip_with add a.psd_sum _
          (h.psd_sum ∙ sym (length-spectrum a.window frame h.window hf))
        ∙ h.psd_sum;
  }

  -- Full frames are added without a panic, and the accumulators are the folds over them.
  pub add_frames-Holds :
      (a : SpectrumAnalyzer F S C) (frames : List (List C))
      → IsSized a
      → AreFull frames
      → (b : SpectrumAnalyzer F S C) × (add_frames fl sg a frames ≡ some b)
        × IsSized b
        × Holds fl sg a b frames
  unfolding add_frames
  add_frames-Holds a [] h none_left = (
    a,
    refl,
    h,
    record {
      psd_sum = refl;
      frame_powers = sym (append-nil a.frame_powers);
      sig_peak_power = refl;
      sig_sum_power = refl;
      frame_count = omega arith;
      window = refl;
      window_energy = refl;
      sample_rate = refl;
      window_open = refl;
      sig_lo = refl;
      sig_hi = refl;
      half_width_bins = refl;
    },
  )
  add_frames-Holds a (frame ∷ frames) h (full hf rest) =
      let (b, e, sized, held) =
        add_frames-Holds (after_frame fl sg a frame) frames (after_frame-IsSized a frame h hf)
          rest in
      (
        b,
        simp (add_frame_lem a frame h hf, e),
        sized,
        record {
          psd_sum = held.psd_sum;
          frame_powers = held.frame_powers ∙ append_assoc a.frame_powers _ _;
          sig_peak_power = held.sig_peak_power;
          sig_sum_power = held.sig_sum_power;
          frame_count = omega (arith, held.frame_count);
          window = held.window;
          window_energy = held.window_energy;
          sample_rate = held.sample_rate;
          window_open = held.window_open;
          sig_lo = held.sig_lo;
          sig_hi = held.sig_hi;
          half_width_bins = held.half_width_bins;
        },
      )

  -- A full frame is added without a panic.
  pub add_frame-some :
      (a : SpectrumAnalyzer F S C) (frame : List C)
      → IsSized a
      → length frame ≡ fft_size
      → (b : SpectrumAnalyzer F S C) × (p : F) × (add_frame fl sg a frame ≡ some (p, b)) × IsSized b
  add_frame-some a frame h e = (
    after_frame fl sg a frame,
    power_of fl sg a frame,
    add_frame_lem a frame h e,
    after_frame-IsSized a frame h e,
  )

pub AreFull-append :
    {C : Type 0} {frames : List (List C)} (frame : List C)
    → AreFull frames
    → length frame ≡ fft_size
    → AreFull (frames ++ frame ∷ [])
AreFull-append frame none_left e = full e none_left
AreFull-append frame (full h f) e = full h (AreFull-append frame f e)

pub add_frames-append :
    (fl : Float) (sg : Signal fl) (a : SpectrumAnalyzer (Float.F fl) (Signal.S sg) (Signal.C sg))
    (frames : List (List (Signal.C sg))) (frame : List (Signal.C sg))
    → add_frames fl sg a (frames ++ frame ∷ [])
      ≡ (add_frames fl sg a frames >>= λ b. add_frame fl sg b frame >>= λ r. some r.1)
unfolding add_frames
add_frames-append fl sg a [] frame = refl
add_frames-append fl sg a (f ∷ frames) frame =
    on_frame (add_frame fl sg a f) λ q. add_frames-append fl sg q.1 frames frame
  where
    on_frame :
        (r : Option (Float.F fl × SpectrumAnalyzer (Float.F fl) (Signal.S sg) (Signal.C sg)))
        → ((q : Float.F fl × SpectrumAnalyzer (Float.F fl) (Signal.S sg) (Signal.C sg))
            → add_frames fl sg q.1 (frames ++ frame ∷ [])
              ≡ (add_frames fl sg q.1 frames >>= λ b. add_frame fl sg b frame >>= λ r. some r.1))
        → (r >>= λ q. add_frames fl sg q.1 (frames ++ frame ∷ [])) ≡ (
            (r >>= λ q. add_frames fl sg q.1 frames) >>= λ b.
            add_frame fl sg b frame >>= λ r. some r.1)
    on_frame none h = refl
    on_frame (some q) h = h q
