-- ===== src/Worker/Row.antt =====
-- `compute_waterfall_bins` of src/worker.rs on the ring from its oldest sample on.
use mathlib.Core.List.{zip_with}
use propmonitor.Base.{
  ℕ, suc, ◌+◌, ◌/◌, ◌%◌, ◌≤◌, ◌<◌, some, List, [], ◌∷◌, ◌++◌, map, length, get_elem?, take, drop,
  turned, drop-cons, get_elem?-some, get_elem?-turn, length-append, length-take, length-drop,
  ge→ltb, drop-all, ◌≡◌, refl, sym, ap, ◌∙◌, arith,
}
use propmonitor.Float.{Float}
use propmonitor.Signal.{Signal}
use propmonitor.Measure.Frame.{length-zip_with}
use propmonitor.Worker.Waterfall.{waterfall_fft_n, weigh_ring, compute_waterfall_bins}

pub length-turned :
    {A : Type 0} (ring : List A) (pos : ℕ)
    → pos ≤ length ring
    → length (turned pos ring) ≡ length ring
length-turned ring pos h = omega (
  arith,
  length-append (drop pos ring) (take pos ring),
  length-drop pos ring,
  length-take pos ring,
)

module _ (fl : Float) (sg : Signal fl) where
  open sg use {S, C, scale, norm_sqr, forward}

  -- The row of the given samples: their weighted spectrum, the upper half first.
  unfoldable pub row_of : List C → List S → List S
  row_of newest hann =
      let work = forward (zip_with scale newest hann) in
      map norm_sqr (drop (waterfall_fft_n / 2) work)
      ++ map norm_sqr (take (waterfall_fft_n / 2) work)

  weigh_ring_lem :
      (ring : List C) (pos i : ℕ) (hann : List S)
      → length ring ≡ waterfall_fft_n
      → pos < waterfall_fft_n
      → i + length hann ≡ waterfall_fft_n
      → weigh_ring fl sg ring pos i hann ≡ some (zip_with scale (drop i (turned pos ring)) hann)
  unfolding weigh_ring zip_with
  weigh_ring_lem ring pos i [] e h l =
      rw (drop-all i (turned pos ring) (omega (arith, length-turned ring pos (omega arith)))) refl
  weigh_ring_lem ring pos i (w ∷ hann) e h l =
      let (x, g) =
        get_elem?-some (turned pos ring) i (omega (arith, length-turned ring pos (omega arith))) in
      let read : get_elem? ring ((pos + i) % waterfall_fft_n) ≡ some x =
        ap (λ k. get_elem? ring (k % waterfall_fft_n)) {x = pos + i} {y = i + pos} (omega arith)
        ∙ sym (get_elem?-turn pos waterfall_fft_n i ring e (omega arith) (omega arith))
        ∙ g in
      simp (
        read,
        weigh_ring_lem ring pos (suc i) hann e h (omega arith),
        drop-cons (turned pos ring) i x g,
      )

  -- No index is out of range, and the row is that of the ring's samples, the oldest first.
  pub compute_waterfall_bins-row_of :
      ((xs : List C) → length (forward xs) ≡ length xs)
      → (ring : List C) (pos : ℕ) (hann : List S) → length ring ≡ waterfall_fft_n
      → pos < waterfall_fft_n
      → length hann ≡ waterfall_fft_n
      → compute_waterfall_bins fl sg ring pos hann ≡ some (row_of (turned pos ring) hann)
  unfolding compute_waterfall_bins row_of
  compute_waterfall_bins-row_of forward_length ring pos hann e h l =
      let size : length (forward (zip_with scale (turned pos ring) hann)) ≡ waterfall_fft_n =
        forward_length _
        ∙ length-zip_with scale (turned pos ring) hann
            (omega (arith, length-turned ring pos (omega arith)))
        ∙ length-turned ring pos (omega arith)
        ∙ e in
      simp (
        weigh_ring_lem ring pos 0 hann e h (omega arith),
        ge→ltb (length (forward (zip_with scale (turned pos ring) hann))) (waterfall_fft_n / 2)
            (omega (arith, size)),
      )
