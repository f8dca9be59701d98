-- ===== src/Http/Devices/Distinct.antt =====
-- What the value of a device in src/server.rs says of it.
use propmonitor.Base.{
  ℕ, Text, [], ◌∷◌, drop, ◌==◌, not, all, &&_split, Bool, true, Option, none, some, ◌≡◌, refl, sym,
  ap, ap₂, ◌∙◌,
}
use propmonitor.Http.Devices.{value_of}

-- No code of the text is a comma.
abbrev pub no_comma : Text → Bool
no_comma s = all (λ c. not (c == 44)) s

abbrev head : Text → ℕ
head [] = 0
head (c ∷ cs) = c

not_comma : (c : ℕ) (s : Text) → no_comma (c ∷ s) ≡ true → 44 ≡ c → ⊥
not_comma c s h e = cc (&&_split (not (c == 44)) (no_comma s) h).0

value_of-cons : (c : ℕ) (d : Text) (s : Option Text) → value_of (c ∷ d) s ≡ c ∷ value_of d s
value_of-cons c d none = refl
value_of-cons c d (some s) = refl

empty-apart :
    (c : ℕ) (e : Text) (s t : Option Text)
    → no_comma (c ∷ e) ≡ true
    → value_of [] s ≡ value_of (c ∷ e) t
    → ⊥
empty-apart c e none none k v = cc v
empty-apart c e none (some t) k v = cc v
empty-apart c e (some s) none k v = not_comma c e k (ap head v)
empty-apart c e (some s) (some t) k v = not_comma c e k (ap head v)

same_serial : (s t : Option Text) → value_of [] s ≡ value_of [] t → s ≡ t
same_serial none none v = refl
same_serial none (some t) v = absurd (cc v)
same_serial (some s) none v = absurd (cc v)
same_serial (some s) (some t) v = ap (λ x. some (drop 8 x)) v

-- A saved value tells the devices apart: two devices whose drivers have no comma in their names and
-- whose values are the same have the same driver and the same serial number, if any.
pub value_of-distinct :
    (d e : Text) (s t : Option Text)
    → no_comma d ≡ true
    → no_comma e ≡ true
    → value_of d s ≡ value_of e t
    → (d ≡ e) × (s ≡ t)
value_of-distinct [] [] s t h k v = (refl, same_serial s t v)
value_of-distinct [] (y ∷ e) s t h k v = absurd (empty-apart y e s t k v)
value_of-distinct (x ∷ d) [] s t h k v = absurd (empty-apart x d t s h (sym v))
value_of-distinct (x ∷ d) (y ∷ e) s t h k v =
    let w = sym (value_of-cons x d s) ∙ v ∙ value_of-cons y e t in
    let rest_h = (&&_split (not (x == 44)) (no_comma d) h).1 in
    let rest_k = (&&_split (not (y == 44)) (no_comma e) k).1 in
    let (driver, serial) = value_of-distinct d e s t rest_h rest_k (ap (drop 1) w) in
    (ap₂ ◌∷◌ (ap head w) driver, serial)
