-- ===== src/Measure/Frame.antt =====
-- One frame of src/measure.rs, described by whole lists: the weighted samples, the shifted spectrum
-- and the power of the band.
use propmonitor.Base.{
  ℕ, suc, ◌+◌, ◌-◌, ◌/◌, ◌%◌, ◌<◌, if◌then◌else◌, some, List, [], ◌∷◌, ◌++◌, append_assoc, map,
  length, get_elem?, set, take, drop, drop-nil, take-nil, range, fold, ◌≡◌, refl, sym, ap, ap₂, ◌∙◌,
  arith, length-append, length-take, length-drop, get_elem?-here, set_here, get_elem?-turn,
  Bool-cases, inl, inr, le→leb, gt→leb,
}
use mathlib.Core.List.{zip_with}
use native.Mathlib.Decide.{dec_lt}
use propmonitor.Float.{Float}
use propmonitor.Signal.{Signal}
use propmonitor.Measure.{fft_size, weigh, bin_power, in_band, add_bin, add_bins}

pub length-zip_with :
    {A B D : Type 0} (f : A → B → D) (xs : List A) (ys : List B)
    → length xs ≡ length ys
    → length (zip_with f xs ys) ≡ length xs
unfolding zip_with
length-zip_with f [] ys h = refl
length-zip_with f (x ∷ xs) [] h = absurd (omega arith)
length-zip_with f (x ∷ xs) (y ∷ ys) h = ap suc (length-zip_with f xs ys (omega arith))

pub fft_size-even : fft_size ≡ fft_size / 2 + fft_size / 2
unfolding fft_size
fft_size-even = omega arith

pub fft_size-pos : 0 < fft_size
unfolding fft_size
fft_size-pos = omega arith

-- A spectrum with its upper half first.
unfoldable pub shifted : {A : Type 0} → List A → List A
shifted xs = drop (fft_size / 2) xs ++ take (fft_size / 2) xs

pub length-shifted :
    {A : Type 0} (xs : List A) → length xs ≡ fft_size → length (shifted xs) ≡ fft_size
unfolding shifted
length-shifted xs h = omega (
  arith,
  length-append (drop (fft_size / 2) xs) (take (fft_size / 2) xs),
  length-drop (fft_size / 2) xs,
  length-take (fft_size / 2) xs,
  fft_size-even,
)

get_elem?-shifted :
    {A : Type 0} (xs : List A) (k : ℕ)
    → length xs ≡ fft_size
    → k < fft_size
    → get_elem? (shifted xs) k ≡ get_elem? xs ((k + fft_size / 2) % fft_size)
unfolding shifted
get_elem?-shifted xs k e h =
    get_elem?-turn (fft_size / 2) fft_size k xs e (omega (arith, fft_size-even)) h

-- The elements from index `lo` to index `hi`.
abbrev pub slice : {A : Type 0} → ℕ → ℕ → List A → List A
slice lo hi xs = take (hi + 1 - lo) (drop lo xs)

module _ (fl : Float) (sg : Signal fl) where
  open fl use {F, add, div, of_ℕ}
  open sg use {S, C, mul32, complex, re, im, forward}

  -- A sample times a number of the window.
  unfoldable pub weight : C → S → C
  weight s w = complex (mul32 (re s) w) (mul32 (im s) w)

  -- The powers of the bins of a frame, the lowest frequency first.
  unfoldable pub spectrum : List S → List C → List F
  spectrum window frame = map (bin_power fl sg) (shifted (forward (zip_with weight frame window)))

  -- The power of a frame in the bins `lo` to `hi`.
  unfoldable pub frame_power : ℕ → ℕ → F → List S → List C → F
  frame_power lo hi energy window frame =
      div (fold add (of_ℕ 0) (slice lo hi (spectrum window frame))) energy

  pub weigh_lem :
      (window : List S) (buf frame : List C)
      → length window ≡ length frame
      → length buf ≡ length frame
      → weigh fl sg window buf frame ≡ some (zip_with weight frame window)
  unfolding weigh weight zip_with
  weigh_lem [] [] [] h k = refl
  weigh_lem [] (b ∷ buf) [] h k = absurd (omega arith)
  weigh_lem (w ∷ window) buf [] h k = absurd (omega arith)
  weigh_lem [] buf (s ∷ frame) h k = absurd (omega arith)
  weigh_lem (w ∷ window) [] (s ∷ frame) h k = absurd (omega arith)
  weigh_lem (w ∷ window) (b ∷ buf) (s ∷ frame) h k =
      simp (weigh_lem window buf frame (omega arith) (omega arith))

  -- The numbers of a list in the band, where the list starts at bin `k`.
  band : ℕ → ℕ → ℕ → List F → List F
  band lo hi k [] = []
  band lo hi k (p ∷ ps) =
      if in_band lo hi k then p ∷ band lo hi (suc k) ps else band lo hi (suc k) ps

  -- The band is a slice: before it, in it and after it.
  band-slice :
      (lo hi k : ℕ) (ps : List F)
      → band lo hi k ps ≡ take (hi + 1 - (lo + (k - lo))) (drop (lo - k) ps)
  unfolding band in_band
  band-slice lo hi k [] = sym (
      ap (take (hi + 1 - (lo + (k - lo)))) (drop-nil (lo - k))
      ∙ take-nil (hi + 1 - (lo + (k - lo))))
  band-slice lo hi k (p ∷ ps) = elim (dec_lt k lo) [
    | yes before ↦ rw (gt→leb lo k before) (
        band-slice lo hi (suc k) ps
        ∙ ap₂ (λ m n. take m (drop n (p ∷ ps))) {v = lo - k} (omega arith) (step before))
    | no from ↦ elim (dec_lt hi k) [
      | yes after ↦
          rw (gt→leb k hi after, le→leb lo k (omega arith))
            (band-slice lo hi (suc k) ps
              ∙ ap (λ m. take m (drop (lo - suc k) ps)) {y = 0} (omega arith)
              ∙ sym (ap (λ m. take m (drop (lo - k) (p ∷ ps))) {y = 0} (omega arith)))
      | no within ↦
          rw (le→leb k hi (omega arith), le→leb lo k (omega arith))
            (ap (◌∷◌ p) (
                band-slice lo hi (suc k) ps
                ∙ ap₂ (λ m n. take m (drop n ps)) {y = hi - k} {v = 0} (omega arith) (omega arith))
              ∙ sym (
                  ap₂ (λ m n. take m (drop n (p ∷ ps))) {y = suc (hi - k)} {v = 0} (omega arith)
                    (omega arith)))
    ]
  ]
    where
      step : k < lo → suc (lo - suc k) ≡ lo - k
      step h = omega arith

  add_bin_lem :
      (lo hi k : ℕ) (sp : List C) (sums : List F) (power sum : F) (v : C)
      → get_elem? sp ((k + fft_size / 2) % fft_size) ≡ some v
      → get_elem? sums k ≡ some sum
      → add_bin fl sg lo hi sp k sums power
        ≡ some (
          set sums k (add sum (bin_power fl sg v)),
          if in_band lo hi k then add power (bin_power fl sg v) else power,
        )
  unfolding add_bin
  add_bin_lem lo hi k sp sums power sum v e g = simp (e, g)

  fold-band :
      (lo hi k : ℕ) (power p : F) (ps : List F)
      → fold add power (band lo hi k (p ∷ ps))
        ≡ fold add (if in_band lo hi k then add power p else power) (band lo hi (suc k) ps)
  unfolding band
  fold-band lo hi k power p ps = elim (Bool-cases (in_band lo hi k)) [
    | inl e ↦ simp e
    | inr e ↦ simp e
  ]

  add_bins_from :
      (lo hi k : ℕ) (sp : List C) (done rest : List F) (pre suf : List C) (power : F)
      → length sp ≡ fft_size
      → shifted sp ≡ pre ++ suf
      → k ≡ length pre
      → k ≡ length done
      → length rest ≡ length suf
      → add_bins fl sg lo hi sp (range k (length suf)) (done ++ rest) power
        ≡ some (
          done ++ zip_with add rest (map (bin_power fl sg) suf),
          fold add power (band lo hi k (map (bin_power fl sg) suf)),
        )
  unfolding add_bins zip_with
  add_bins_from lo hi k sp done [] pre [] power hs e hp hd hr = unfold band in refl
  add_bins_from lo hi k sp done [] pre (v ∷ suf) power hs e hp hd hr = absurd (omega arith)
  add_bins_from lo hi k sp done (r ∷ rest) pre [] power hs e hp hd hr = absurd (omega arith)
  add_bins_from lo hi k sp done (r ∷ rest) pre (v ∷ suf) power hs e hp hd hr =
      simp (add_bin_lem lo hi k sp (done ++ r ∷ rest) power r v read_v read_r, put)
        (add_bins_from lo hi (suc k) sp (done ++ add r (bin_power fl sg v) ∷ []) rest
            (pre ++ v ∷ []) suf (if in_band lo hi k then add power (bin_power fl sg v) else power)
            hs (e ∙ sym (append_assoc pre (v ∷ []) suf))
            (omega (arith, hp, length-append pre (v ∷ [])))
            (omega (arith, hd, length-append done (add r (bin_power fl sg v) ∷ []))) (omega arith)
          ∙ ap₂ (λ sums power. some (sums, power)) (append_assoc done _ _)
              (sym (fold-band lo hi k power (bin_power fl sg v) (map (bin_power fl sg) suf))))
    where
      read_v : get_elem? sp ((k + fft_size / 2) % fft_size) ≡ some v
      read_v =
          sym (
            get_elem?-shifted sp k hs
              (omega (arith, length-shifted sp hs, ap length e, length-append pre (v ∷ suf))))
          ∙ ap (λ xs. get_elem? xs k) e
          ∙ rw hp (get_elem?-here pre suf v)

      read_r : get_elem? (done ++ r ∷ rest) k ≡ some r
      read_r = rw hd (get_elem?-here done rest r)

      put :
          set (done ++ r ∷ rest) k (add r (bin_power fl sg v))
          ≡ (done ++ add r (bin_power fl sg v) ∷ []) ++ rest
      put =
          rw hd (set_here done rest r (add r (bin_power fl sg v)))
          ∙ sym (append_assoc done (add r (bin_power fl sg v) ∷ []) rest)

  -- The loop over the bins adds the spectrum to the sums, and adds up the slice of the band.
  pub add_bins_lem :
      (lo hi : ℕ) (sp : List C) (sums : List F)
      → length sp ≡ fft_size
      → length sums ≡ fft_size
      → add_bins fl sg lo hi sp (range 0 fft_size) sums (of_ℕ 0)
        ≡ some (
          zip_with add sums (map (bin_power fl sg) (shifted sp)),
          fold add (of_ℕ 0) (slice lo hi (map (bin_power fl sg) (shifted sp))),
        )
  add_bins_lem lo hi sp sums hs hn =
      ap (λ n. add_bins fl sg lo hi sp (range 0 n) sums (of_ℕ 0)) (sym (length-shifted sp hs))
      ∙ add_bins_from lo hi 0 sp [] sums [] (shifted sp) (of_ℕ 0) hs refl refl refl
          (omega (arith, length-shifted sp hs))
      ∙ ap
          (λ xs.
            some (zip_with add sums (map (bin_power fl sg) (shifted sp)), fold add (of_ℕ 0) xs))
          (band-slice lo hi 0 (map (bin_power fl sg) (shifted sp))
            ∙ ap₂ (λ m n. take m (drop n (map (bin_power fl sg) (shifted sp)))) (omega arith)
                (omega arith))
