-- ===== src/Base/Decimal.antt =====
-- Decimal numbers as Rust prints and parses them.
use Prim.Native.Nat.{ℕ, zero, suc, ◌+◌, ◌-◌, ◌*◌, ◌/◌, ◌%◌, ◌<◌}
use mathlib.Core.Path.{◌≡◌, refl, ap, ◌∙◌}
use mathlib.Core.Bool.{Bool, true, false, ◌&&◌}
use mathlib.Core.Logic.{inl, inr}
use mathlib.Core.Option.{Option, none, some}
use mathlib.Core.List.{[], ◌∷◌, ◌++◌}
use native.Mathlib.Omega.{arith}
use propmonitor.Base.Booleans.{ltb, leb, ◌==◌, if◌then◌else◌, Bool-cases}
use propmonitor.Base.Lists.{all}
use propmonitor.Base.Texts.{Text, is_empty}

-- The digits of a number, with fuel above it.
unfoldable pub show_from : ℕ → ℕ → Text
show_from zero n = []
show_from (suc f) n = elim (ltb n 10) [
  | true ↦ (48 + n) ∷ []
  | false ↦ show_from f (n / 10) ++ ((48 + n % 10) ∷ [])
]

-- `to_string` of an unsigned integer
unfoldable pub show : ℕ → Text
show n = show_from (suc n) n

abbrev pub is_digit : ℕ → Bool
is_digit c = leb 48 c && leb c 57

-- The loop of `from_str`, with its overflow check; `bound` is 2 ^ width.
unfoldable pub digits_from : ℕ → ℕ → Text → Option ℕ
digits_from bound acc [] = some acc
digits_from bound acc (c ∷ s) =
    let next = acc * 10 + (c - 48) in
    let rest = digits_from bound next s in if is_digit c && ltb next bound then rest else none

-- `str::parse` at an unsigned integer: one leading plus is allowed, and a sign alone is not.
unfoldable pub parse_uint : ℕ → Text → Option ℕ
parse_uint bound [] = none
parse_uint bound (c ∷ []) = digits_from bound 0 (c ∷ [])
parse_uint bound (c ∷ d ∷ s) =
    if c == b'+' then digits_from bound 0 (d ∷ s) else digits_from bound 0 (c ∷ d ∷ s)

digits_from-snoc :
    (bound acc : ℕ) (s : Text) (d n : ℕ)
    → digits_from bound acc s ≡ some n
    → d < 10
    → n * 10 + d < bound
    → digits_from bound acc (s ++ ((48 + d) ∷ [])) ≡ some (n * 10 + d)
unfolding digits_from
digits_from-snoc bound acc [] d n h hd hb = ground arith
digits_from-snoc bound acc (c ∷ s) d n h hd hb =
    ground (arith, digits_from-snoc bound (acc * 10 + (c - 48)) s d n)

show_from-small : (f n : ℕ) → ltb n 10 ≡ true → show_from (suc f) n ≡ (48 + n) ∷ []
unfolding show_from
show_from-small f n h = ground arith

show_from-large :
    (f n : ℕ)
    → ltb n 10 ≡ false
    → show_from (suc f) n ≡ show_from f (n / 10) ++ ((48 + n % 10) ∷ [])
unfolding show_from
show_from-large f n h = ground arith

digits_from-show :
    (bound f n : ℕ) → n < f → n < bound → digits_from bound 0 (show_from f n) ≡ some n
digits_from-show bound zero n h hb = absurd (omega arith)
digits_from-show bound (suc f) n h hb = elim (Bool-cases (ltb n 10)) [
  | inl small ↦ rw (show_from-small f n small) (unfold digits_from in ground arith)
  | inr large ↦ rw (show_from-large f n large) (
      digits_from-snoc bound 0 (show_from f (n / 10)) (n % 10) (n / 10)
        (digits_from-show bound f (n / 10) (ground arith) (ground arith)) (omega arith)
        (omega arith)
      ∙ ap some (omega arith))
]

digit-append :
    (s : Text) (c : ℕ)
    → all is_digit s ≡ true
    → is_digit c ≡ true
    → all is_digit (s ++ (c ∷ [])) ≡ true
digit-append [] c h k = ground arith
digit-append (d ∷ s) c h k = ground (arith, digit-append s c)

nonempty-append : (s : Text) (c : ℕ) → is_empty (s ++ (c ∷ [])) ≡ false
nonempty-append [] c = refl
nonempty-append (d ∷ s) c = refl

-- A printed number is one digit or more.
pub nonempty-show : (n : ℕ) → is_empty (show n) ≡ false
unfolding show
nonempty-show n = elim (Bool-cases (ltb n 10)) [
  | inl small ↦ ap is_empty (show_from-small n n small)
  | inr large ↦
      ap is_empty (show_from-large n n large) ∙ nonempty-append (show_from n (n / 10)) (48 + n % 10)
]

digit-show_from : (f n : ℕ) → all is_digit (show_from f n) ≡ true
digit-show_from zero n = unfold show_from in refl
digit-show_from (suc f) n = elim (Bool-cases (ltb n 10)) [
  | inl small ↦ rw (show_from-small f n small) (ground arith)
  | inr large ↦ rw (show_from-large f n large) (
      digit-append (show_from f (n / 10)) (48 + n % 10) (digit-show_from f (n / 10)) (ground arith))
]

pub digit-show : (n : ℕ) → all is_digit (show n) ≡ true
unfolding show
digit-show n = digit-show_from (suc n) n

parse_uint-digits :
    (bound : ℕ) (s : Text)
    → is_empty s ≡ false
    → all is_digit s ≡ true
    → parse_uint bound s ≡ digits_from bound 0 s
unfolding parse_uint
parse_uint-digits bound [] h k = cc
parse_uint-digits bound (c ∷ []) h k = refl
parse_uint-digits bound (c ∷ d ∷ s) h k = rw (not_plus c (ground arith))
  where
    not_plus : (c : ℕ) → is_digit c ≡ true → (c == b'+') ≡ false
    not_plus c h = ground arith

-- A printed number below the bound parses as itself.
pub parse_uint-show : (bound n : ℕ) → n < bound → parse_uint bound (show n) ≡ some n
parse_uint-show bound n h =
    parse_uint-digits bound (show n) (nonempty-show n) (digit-show n)
    ∙ (unfold show in digits_from-show bound (suc n) n (omega arith) h)
