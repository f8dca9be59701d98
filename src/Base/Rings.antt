-- ===== src/Base/Rings.antt =====
-- Splits of a list, and a list of fixed length as a ring that is written at one place.
use Prim.Native.Nat.{ℕ, zero, suc, ◌+◌, ◌<◌, ◌%◌}
use mathlib.Core.Path.{◌≡◌, refl, sym, ap, ap₂, ◌∙◌}
use mathlib.Core.List.{List, [], ◌∷◌, ◌++◌, append-nil, append_assoc}
use mathlib.Core.Option.{some}
use native.Mathlib.Omega.{arith}
use native.Mathlib.Nat.{mod-eq_of_lt, mod_self}
use propmonitor.Base.Lists.{length, get_elem?, take, drop, length-append, drop-append}
use propmonitor.Base.Arrays.{set, set_here}

module _ {ℓ} {A : Type ℓ} where
  -- The list before an index, the element and the list after it.
  pub split_at :
      (xs : List A) (i : ℕ)
      → i < length xs
      → (pre : List A) × (x : A) × (suf : List A) × (xs ≡ pre ++ x ∷ suf) × (length pre ≡ i)
  split_at [] i h = absurd (omega arith)
  split_at (x ∷ xs) zero h = ([], x, xs, refl, refl)
  split_at (x ∷ xs) (suc i) h =
      let (pre, y, suf, e, l) = split_at xs i (omega arith) in
      (x ∷ pre, y, suf, ap (◌∷◌ x) e, ap suc l)

  pub drop_here : (xs ys : List A) → drop (length xs) (xs ++ ys) ≡ ys
  drop_here [] ys = refl
  drop_here (x ∷ xs) ys = drop_here xs ys

  pub take_here : (xs ys : List A) → take (length xs) (xs ++ ys) ≡ xs
  take_here [] ys = refl
  take_here (x ∷ xs) ys = ap (◌∷◌ x) (take_here xs ys)

  pub drop-nil : (n : ℕ) → drop {A = A} n [] ≡ []
  drop-nil zero = refl
  drop-nil (suc n) = refl

  pub take-nil : (n : ℕ) → take {A = A} n [] ≡ []
  take-nil zero = refl
  take-nil (suc n) = refl

  pub drop-drop : (m n : ℕ) (xs : List A) → drop m (drop n xs) ≡ drop (n + m) xs
  drop-drop m zero xs = ap (λ k. drop k xs) (omega arith)
  drop-drop m (suc n) [] = drop-nil m ∙ sym (drop-nil (suc n + m))
  drop-drop m (suc n) (x ∷ xs) =
      drop-drop m n xs ∙ ap (λ k. drop k (x ∷ xs)) {x = suc (n + m)} (omega arith)

  -- The element at an index heads what is left from there.
  pub drop-cons :
      (xs : List A) (i : ℕ) (x : A) → get_elem? xs i ≡ some x → drop i xs ≡ x ∷ drop (suc i) xs
  drop-cons [] i x h = cc
  drop-cons (y ∷ ys) zero x h = ap (λ z. z ∷ ys) (cc h)
  drop-cons (y ∷ ys) (suc i) x h = drop-cons ys i x h

  -- The ring from its oldest place on.
  abbrev pub turned : ℕ → List A → List A
  turned pos ring = drop pos ring ++ take pos ring

  turned_here : (pre suf : List A) (x : A) → turned (length pre) (pre ++ x ∷ suf) ≡ x ∷ suf ++ pre
  turned_here pre suf x = ap₂ ◌++◌ (drop_here pre (x ∷ suf)) (take_here pre (x ∷ suf))

  turned_next :
      (pre suf : List A) (s : A)
      → turned ((length pre + 1) % (length pre + suc (length suf))) (pre ++ s ∷ suf)
        ≡ (suf ++ pre) ++ s ∷ []
  turned_next pre [] s =
      ap (λ k. turned k (pre ++ s ∷ [])) (mod_self (length pre + 1)) ∙ append-nil (pre ++ s ∷ [])
  turned_next pre (y ∷ suf) s =
      ap (λ k. turned k (pre ++ s ∷ y ∷ suf))
        (mod-eq_of_lt {n = length pre + 1} {m = length pre + suc (suc (length suf))} (omega arith)
          ∙ sym (length-append pre (s ∷ [])))
      ∙ ap (turned (length (pre ++ s ∷ []))) (sym (append_assoc pre (s ∷ []) (y ∷ suf)))
      ∙ turned_here (pre ++ s ∷ []) suf y
      ∙ sym (append_assoc (y ∷ suf) pre (s ∷ []))

  -- A write at the oldest place drops the oldest element and adds the newest.
  pub turned-set :
      (ring : List A) (n pos : ℕ) (s : A)
      → length ring ≡ n
      → pos < n
      → turned ((pos + 1) % n) (set ring pos s) ≡ drop 1 (turned pos ring) ++ s ∷ []
  turned-set ring n pos s e h =
      let (pre, x, suf, split, l) = split_at ring pos (omega arith) in
      ap₂ (λ k m. turned ((k + 1) % m) (set ring k s)) (sym l)
        (omega (arith, ap length split, length-append pre (x ∷ suf)))
      ∙ ap (turned ((length pre + 1) % (length pre + suc (length suf))))
          (ap (λ xs. set xs (length pre) s) split ∙ set_here pre suf x s)
      ∙ turned_next pre suf s
      ∙ ap (λ xs. xs ++ s ∷ [])
          (sym (ap (drop 1) (ap₂ turned (sym l) split ∙ turned_here pre suf x)))

  -- The newest elements after two runs of writes.
  pub newest-append :
      (ring xs ys : List A)
      → drop (length ys) (drop (length xs) (ring ++ xs) ++ ys)
        ≡ drop (length (xs ++ ys)) (ring ++ (xs ++ ys))
  newest-append ring xs ys =
      ap (drop (length ys))
        (sym (drop-append (length xs) (ring ++ xs) ys (omega (arith, length-append ring xs))))
      ∙ drop-drop (length ys) (length xs) ((ring ++ xs) ++ ys)
      ∙ ap₂ drop (sym (length-append xs ys)) (append_assoc ring xs ys)
