-- ===== src/Measure/Chunks.antt =====
-- `chunks_exact` of src/measure.rs: full frames, and less than a frame left.
use propmonitor.Base.{
  ℕ, zero, suc, ◌+◌, ◌≤◌, ◌<◌, ltb, List, [], ◌∷◌, ◌++◌, append_assoc, length, take, drop, flatten,
  ◌≡◌, refl, sym, ap, ◌∙◌, arith, length-take, length-drop, take-drop, Bool-cases, inl, inr, ltb→lt,
  lt→ltb, ge→ltb, take_here, drop_here, length-append, ap₂,
}
use propmonitor.Measure.{fft_size, chunks_from, chunks_exact}
use propmonitor.Measure.Frame.{fft_size-pos}
use propmonitor.Measure.Batch.{AreFull, full, none_left}

module _ {C : Type 0} where
  -- The samples are the frames and a rest that is no full frame.
  pub record Splits (samples : List C) (frames : List (List C)) (rest : List C) : Type 0 where
    pub full_frames : AreFull frames
    pub joined : flatten frames ++ rest ≡ samples
    pub short : length rest < fft_size

  pub chunks_from-Splits :
      (fuel : ℕ) (samples : List C)
      → length samples ≤ fuel
      → (rest : List C) × Splits samples (chunks_from fuel samples) rest
  unfolding chunks_from
  chunks_from-Splits zero samples h = (
    samples,
    record { full_frames = none_left; joined = refl; short = omega (arith, fft_size-pos) },
  )
  chunks_from-Splits (suc fuel) samples h = elim (Bool-cases (ltb (length samples) fft_size)) [
    | inl short ↦
        rw (short, chunks_from)
          (
            samples,
            record {
              full_frames = none_left;
              joined = refl;
              short = ltb→lt (length samples) fft_size short;
            },
          )
    | inr long ↦
        let (rest, s) =
          chunks_from-Splits fuel (drop fft_size samples)
            (omega (arith, fft_size-pos, length-drop fft_size samples)) in
        rw (long, chunks_from)
          (
            rest,
            record {
              full_frames = full (length-take fft_size samples ∙ ground arith) s.full_frames;
              joined =
                  append_assoc (take fft_size samples) _ rest
                  ∙ ap (λ xs. take fft_size samples ++ xs) s.joined
                  ∙ take-drop fft_size samples;
              short = s.short;
            },
          )
  ]

  pub chunks_exact-Splits :
      (samples : List C) → (rest : List C) × Splits samples (chunks_exact samples) rest
  unfolding chunks_exact
  chunks_exact-Splits samples = chunks_from-Splits (length samples) samples (omega arith)

  -- Full frames and a short rest are taken apart into the same frames.
  chunks_from-flatten :
      (fuel : ℕ) (frames : List (List C)) (rest : List C)
      → AreFull frames
      → length rest < fft_size
      → length (flatten frames ++ rest) ≤ fuel
      → chunks_from fuel (flatten frames ++ rest) ≡ frames
  unfolding chunks_from
  chunks_from-flatten zero [] rest none_left short h = refl
  chunks_from-flatten zero (frame ∷ frames) rest (full e f) short h = absurd (
      omega (
        arith,
        fft_size-pos,
        length-append (frame ++ flatten frames) rest,
        length-append frame (flatten frames),
      ))
  chunks_from-flatten (suc fuel) [] rest none_left short h =
      rw (lt→ltb (length rest) fft_size short, chunks_from) refl
  chunks_from-flatten (suc fuel) (frame ∷ frames) rest (full e f) short h =
      let later = flatten frames ++ rest in
      let joined = append_assoc frame (flatten frames) rest in
      let taken : take fft_size ((frame ++ flatten frames) ++ rest) ≡ frame =
        ap₂ take (sym e) joined ∙ take_here frame later in
      let dropped : drop fft_size ((frame ++ flatten frames) ++ rest) ≡ later =
        ap₂ drop (sym e) joined ∙ drop_here frame later in
      let size : length ((frame ++ flatten frames) ++ rest) ≡ fft_size + length later =
        ap length joined ∙ length-append frame later ∙ ap (λ n. n + length later) e in
      rw
        (
          ge→ltb (length ((frame ++ flatten frames) ++ rest)) fft_size (omega (arith, size)),
          chunks_from,
        )
        (ap₂ ◌∷◌ taken (
          ap (chunks_from fuel) dropped
          ∙ chunks_from-flatten fuel frames rest f short (omega (arith, size, fft_size-pos))))

  pub chunks_exact_unique :
      {samples : List C} {frames : List (List C)} {rest : List C}
      → Splits samples frames rest
      → chunks_exact samples ≡ frames
  unfolding chunks_exact
  chunks_exact_unique {samples} {frames} {rest} s =
      ap (λ xs. chunks_from (length xs) xs) (sym s.joined)
      ∙ chunks_from-flatten (length (flatten frames ++ rest)) frames rest s.full_frames s.short
          (omega arith)
