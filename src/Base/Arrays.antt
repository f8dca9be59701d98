-- ===== src/Base/Arrays.antt =====
-- Lists as arrays and as the runs of a loop: writes, ranges, folds and filters.
use Prim.Native.Nat.{ℕ, zero, suc, ◌+◌, ◌-◌, ◌≤◌, ◌<◌, ◌%◌}
use mathlib.Core.Path.{◌≡◌, refl, sym, ap, ap₂, ◌∙◌}
use mathlib.Core.Logic.{◌≢◌}
use mathlib.Core.Bool.{Bool}
use mathlib.Core.List.{List, [], ◌∷◌, ◌++◌, map, append_assoc}
use mathlib.Core.Option.{some}
use native.Mathlib.Omega.{arith}
use native.Mathlib.Decide.{dec_lt}
use native.Mathlib.Nat.{mod-eq_of_lt, mod-eq-sub-mod}
use propmonitor.Base.Booleans.{if◌then◌else◌}
use propmonitor.Base.Lists.{length, get_elem?, take, drop, length-drop}

module _ {ℓ} {A : Type ℓ} where
  -- `v[i] = x`; an index out of range changes nothing, and its reader has failed before.
  abbrev pub set : List A → ℕ → A → List A
  set [] i v = []
  set (x ∷ xs) zero v = v ∷ xs
  set (x ∷ xs) (suc i) v = x ∷ set xs i v

  -- `vec![x; n]`
  abbrev pub replicate : ℕ → A → List A
  replicate zero x = []
  replicate (suc n) x = x ∷ replicate n x

  -- `filter`
  abbrev pub keep : (A → Bool) → List A → List A
  keep p [] = []
  keep p (x ∷ xs) = if p x then x ∷ keep p xs else keep p xs

  -- `concat`
  abbrev pub flatten : List (List A) → List A
  flatten [] = []
  flatten (xs ∷ xss) = xs ++ flatten xss

  pub length-set : (xs : List A) (i : ℕ) (v : A) → length (set xs i v) ≡ length xs
  length-set [] i v = refl
  length-set (x ∷ xs) zero v = refl
  length-set (x ∷ xs) (suc i) v = ap suc (length-set xs i v)

  pub get_elem?-set_self :
      (xs : List A) (i : ℕ) (v : A) → i < length xs → get_elem? (set xs i v) i ≡ some v
  get_elem?-set_self [] i v h = absurd (omega arith)
  get_elem?-set_self (x ∷ xs) zero v h = refl
  get_elem?-set_self (x ∷ xs) (suc i) v h = get_elem?-set_self xs i v (omega arith)

  pub get_elem?-set_other :
      (xs : List A) (i j : ℕ) (v : A) → i ≢ j → get_elem? (set xs i v) j ≡ get_elem? xs j
  get_elem?-set_other [] i j v h = refl
  get_elem?-set_other (x ∷ xs) zero zero v h = absurd (h refl)
  get_elem?-set_other (x ∷ xs) zero (suc j) v h = refl
  get_elem?-set_other (x ∷ xs) (suc i) zero v h = refl
  get_elem?-set_other (x ∷ xs) (suc i) (suc j) v h = get_elem?-set_other xs i j v λ e. h (ap suc e)

  -- An index in range is read.
  pub get_elem?-some : (xs : List A) (i : ℕ) → i < length xs → (x : A) × (get_elem? xs i ≡ some x)
  get_elem?-some [] i h = absurd (omega arith)
  get_elem?-some (x ∷ xs) zero h = (x, refl)
  get_elem?-some (x ∷ xs) (suc i) h = get_elem?-some xs i (omega arith)

  pub length-replicate : (n : ℕ) (x : A) → length (replicate n x) ≡ n
  length-replicate zero x = refl
  length-replicate (suc n) x = ap suc (length-replicate n x)

  pub get_elem?-replicate : (n i : ℕ) (x : A) → i < n → get_elem? (replicate n x) i ≡ some x
  get_elem?-replicate zero i x h = absurd (omega arith)
  get_elem?-replicate (suc n) zero x h = refl
  get_elem?-replicate (suc n) (suc i) x h = get_elem?-replicate n i x (omega arith)

  pub length-keep : (p : A → Bool) (xs : List A) → length (keep p xs) ≤ length xs
  length-keep p [] = omega arith
  length-keep p (x ∷ xs) = ground (arith, length-keep p xs)

  -- Arrays of one length that agree at every index are equal.
  pub eq_of_get_elem? :
      (xs ys : List A)
      → length xs ≡ length ys
      → ((i : ℕ) → i < length xs → get_elem? xs i ≡ get_elem? ys i)
      → xs ≡ ys
  eq_of_get_elem? [] [] h k = refl
  eq_of_get_elem? [] (y ∷ ys) h k = absurd (omega arith)
  eq_of_get_elem? (x ∷ xs) [] h k = absurd (omega arith)
  eq_of_get_elem? (x ∷ xs) (y ∷ ys) h k =
      ap₂ ◌∷◌ (cc (k 0 (omega arith)))
        (eq_of_get_elem? xs ys (omega arith) λ i j. k (suc i) (omega arith))

  pub take-drop : (n : ℕ) (xs : List A) → take n xs ++ drop n xs ≡ xs
  take-drop zero xs = refl
  take-drop (suc n) [] = refl
  take-drop (suc n) (x ∷ xs) = ap (◌∷◌ x) (take-drop n xs)

  pub flatten-append : (xss yss : List (List A)) → flatten (xss ++ yss) ≡ flatten xss ++ flatten yss
  flatten-append [] yss = refl
  flatten-append (xs ∷ xss) yss = simp (flatten-append xss yss, append_assoc)

module _ {ℓ κ} {A : Type ℓ} {B : Type κ} where
  -- A loop over a list that updates one value.
  abbrev pub fold : (B → A → B) → B → List A → B
  fold f b [] = b
  fold f b (x ∷ xs) = fold f (f b x) xs

  pub fold-append :
      (f : B → A → B) (b : B) (xs ys : List A) → fold f b (xs ++ ys) ≡ fold f (fold f b xs) ys
  fold-append f b [] ys = refl
  fold-append f b (x ∷ xs) ys = fold-append f (f b x) xs ys

  pub length-map : (f : A → B) (xs : List A) → length (map f xs) ≡ length xs
  length-map f [] = refl
  length-map f (x ∷ xs) = ap suc (length-map f xs)

-- `a..b` as its first number and its length
abbrev pub range : ℕ → ℕ → List ℕ
range from zero = []
range from (suc n) = from ∷ range (suc from) n

pub length-range : (from n : ℕ) → length (range from n) ≡ n
length-range from zero = refl
length-range from (suc n) = ap suc (length-range (suc from) n)

pub get_elem?-range : (from n i : ℕ) → i < n → get_elem? (range from n) i ≡ some (from + i)
get_elem?-range from zero i h = absurd (omega arith)
get_elem?-range from (suc n) zero h = ap some (omega arith)
get_elem?-range from (suc n) (suc i) h =
    get_elem?-range (suc from) n i (omega arith) ∙ ap some (omega arith)

module _ {ℓ} {A : Type ℓ} where
  pub get_elem?-append_left :
      (xs ys : List A) (i : ℕ) → i < length xs → get_elem? (xs ++ ys) i ≡ get_elem? xs i
  get_elem?-append_left [] ys i h = absurd (omega arith)
  get_elem?-append_left (x ∷ xs) ys zero h = refl
  get_elem?-append_left (x ∷ xs) ys (suc i) h = get_elem?-append_left xs ys i (omega arith)

  pub get_elem?-append_right :
      (xs ys : List A) (i : ℕ) → get_elem? (xs ++ ys) (length xs + i) ≡ get_elem? ys i
  get_elem?-append_right [] ys i = ap (get_elem? ys) (omega arith)
  get_elem?-append_right (x ∷ xs) ys i =
      ap (get_elem? (x ∷ xs ++ ys)) {y = suc (length xs + i)} (omega arith)
      ∙ get_elem?-append_right xs ys i

  pub get_elem?-here : (xs ys : List A) (x : A) → get_elem? (xs ++ x ∷ ys) (length xs) ≡ some x
  get_elem?-here [] ys x = refl
  get_elem?-here (y ∷ xs) ys x = get_elem?-here xs ys x

  pub set_here : (xs ys : List A) (x y : A) → set (xs ++ x ∷ ys) (length xs) y ≡ xs ++ y ∷ ys
  set_here [] ys x y = refl
  set_here (z ∷ xs) ys x y = ap (◌∷◌ z) (set_here xs ys x y)

  pub get_elem?-drop : (n i : ℕ) (xs : List A) → get_elem? (drop n xs) i ≡ get_elem? xs (n + i)
  get_elem?-drop zero i xs = ap (get_elem? xs) (omega arith)
  get_elem?-drop (suc n) i [] = refl
  get_elem?-drop (suc n) i (x ∷ xs) =
      get_elem?-drop n i xs ∙ ap (get_elem? (x ∷ xs)) {x = suc (n + i)} (omega arith)

  pub get_elem?-take : (n i : ℕ) (xs : List A) → i < n → get_elem? (take n xs) i ≡ get_elem? xs i
  get_elem?-take zero i xs h = absurd (omega arith)
  get_elem?-take (suc n) i [] h = refl
  get_elem?-take (suc n) zero (x ∷ xs) h = refl
  get_elem?-take (suc n) (suc i) (x ∷ xs) h = get_elem?-take n i xs (omega arith)

  -- A list turned by `h` places is read by an index modulo its length.
  pub get_elem?-turn :
      (h n k : ℕ) (xs : List A)
      → length xs ≡ n
      → h ≤ n
      → k < n
      → get_elem? (drop h xs ++ take h xs) k ≡ get_elem? xs ((k + h) % n)
  get_elem?-turn h n k xs e g l = elim (dec_lt k (length (drop h xs))) [
    | yes p ↦
        get_elem?-append_left (drop h xs) (take h xs) k p
        ∙ get_elem?-drop h k xs
        ∙ ap (get_elem? xs) (omega arith ∙ sym (turned_small p))
    | no p ↦
        ap (get_elem? (drop h xs ++ take h xs)) {y = length (drop h xs) + (k - length (drop h xs))}
          (omega arith)
        ∙ get_elem?-append_right (drop h xs) (take h xs) (k - length (drop h xs))
        ∙ get_elem?-take h (k - length (drop h xs)) xs (omega (arith, length-drop h xs))
        ∙ ap (get_elem? xs) (omega (arith, length-drop h xs) ∙ sym (turned_over p))
  ]
    where
      turned_small : k < length (drop h xs) → (k + h) % n ≡ k + h
      turned_small p = mod-eq_of_lt (omega (arith, length-drop h xs))

      turned_over : ¬ (k < length (drop h xs)) → (k + h) % n ≡ k + h - n
      turned_over p = mod-eq-sub-mod (omega (arith, length-drop h xs)) ∙ mod-eq_of_lt (omega arith)
