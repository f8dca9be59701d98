-- ===== src/Yaml/Distinct.antt =====
-- Duplicate keys in the documents that `parse` of src/yaml.rs accepts.
use propmonitor.Base.{
  ℕ, ◌+◌, ◌-◌, ◌==◌, Text, text_eq, text_eq_refl, text_eq→eq, is_empty, byte_len, List, [], ◌∷◌,
  length, Bool, true, false, not, ◌&&◌, ◌||◌, &&_split, Option, none, some, Result, ok, err, ok_or,
  ◌>>=◌, Bool-cases, inl, inr, ◌≡◌, refl, sym, ap, subst, ◌∙◌, arith,
}
use propmonitor.Error.{Error}
use propmonitor.Yaml
use propmonitor.Yaml.{
  Value, Map, empty, entry, contains_key, insert, insert_unique, ParseState, close_child, top_line,
  child_line, parse_line, parse_lines, parse, lines, split_kv, unquote, strip_comment, trim,
  trim_start,
}
use propmonitor.Yaml.RoundTrip.{parse_lem, settled}

-- No key stands twice in a mapping, nor in a mapping in it.
mutual
  pub is_distinct : Map → Bool
  is_distinct empty = true
  is_distinct (entry k v m) = not (contains_key k m) && (is_distinct_value v && is_distinct m)

  pub is_distinct_value : Value → Bool
  is_distinct_value (Yaml.scalar s) = true
  is_distinct_value (Yaml.map m) = is_distinct m

text_eq-false : (a b : Text) → text_eq a b ≡ false → text_eq b a ≡ false
text_eq-false a b h = elim (Bool-cases (text_eq b a)) [
  | inr e ↦ e
  | inl e ↦ absurd (cc (sym h ∙ ap (λ t. text_eq t b) (sym (text_eq→eq b a e)) ∙ text_eq_refl b))
]

pub or_false : (a b : Bool) → (a || b) ≡ false → (a ≡ false) × (b ≡ false)
or_false a b h = ground arith

contains_key-insert :
    (j k : Text) (v : Value) (m : Map)
    → contains_key k m ≡ false
    → contains_key j m ≡ false
    → text_eq k j ≡ false
    → contains_key j (insert k v m) ≡ false
contains_key-insert j k v empty h g e = simp e
contains_key-insert j k v (entry i w m) h g e =
    let (ik, mk) = or_false (text_eq i k) (contains_key k m) h in
    let (ij, mj) = or_false (text_eq i j) (contains_key j m) g in
    simp (ik, ij, contains_key-insert j k v m mk mj e)

is_distinct-insert :
    (k : Text) (v : Value) (m : Map)
    → contains_key k m ≡ false
    → is_distinct_value v ≡ true
    → is_distinct m ≡ true
    → is_distinct (insert k v m) ≡ true
unfolding is_distinct
is_distinct-insert k v empty h dv d = simp dv
is_distinct-insert k v (entry i w m) h dv d =
    let (ik, mk) = or_false (text_eq i k) (contains_key k m) h in
    let (im, rest) = &&_split (not (contains_key i m)) (is_distinct_value w && is_distinct m) d in
    let (dw, dm) = &&_split (is_distinct_value w) (is_distinct m) rest in
    let fresh : contains_key i m ≡ false = ground arith in
    simp (
      ik,
      dw,
      contains_key-insert i k v m mk fresh (text_eq-false i k ik),
      is_distinct-insert k v m mk dv dm,
    )

-- What holds of a result that succeeds.
abbrev pub Gives : {A : Type 0} → (A → Type 0) → Result Error A → Type 0
Gives P (ok a) = P a
Gives P (err e) = Unit

pub Gives->>= :
    {A B : Type 0} (P : A → Type 0) (Q : B → Type 0) (r : Result Error A) (f : A → Result Error B)
    → Gives P r
    → ((a : A) → P a → Gives Q (f a))
    → Gives Q (r >>= f)
Gives->>= P Q (ok a) f h k = k a h
Gives->>= P Q (err e) f h k = tt

pub any_result : {A : Type 0} (r : Result Error A) → Gives (λ a. Unit {0}) r
any_result (ok a) = tt
any_result (err e) = tt

unfoldable pub Distinct : Map → Type 0
Distinct m = is_distinct m ≡ true

Sound : Option (Text × Map) → Type 0
Sound none = Unit
Sound (some (k, m)) = Distinct m

SoundState : ParseState → Type 0
SoundState st = Distinct st.top × Sound st.open_child

insert_unique-Gives :
    (m : Map) (k : Text) (v : Value) (n : ℕ)
    → is_distinct_value v ≡ true
    → Distinct m
    → Gives Distinct (insert_unique m k v n)
unfolding insert_unique Distinct
insert_unique-Gives m k v n dv d = elim (Bool-cases (contains_key k m)) [
  | inl dup ↦ rw dup tt
  | inr fresh ↦ rw fresh (is_distinct-insert k v m fresh dv d)
]

close-Gives :
    (top : Map) (child : Option (Text × Map)) (n : ℕ)
    → Distinct top
    → Sound child
    → Gives Distinct (close_child (record { top = top; open_child = child }) n)
unfolding close_child Distinct Sound is_distinct
close-Gives top none n d s = d
close-Gives top (some (k, m)) n d s = insert_unique-Gives top k (Yaml.map m) n s d

top_line-Gives :
    (st : ParseState) (content : Text) (n : ℕ)
    → SoundState st
    → Gives SoundState (top_line st content n)
unfolding top_line SoundState Distinct Sound is_distinct is_distinct_value
top_line-Gives st content n s =
    Gives->>= Distinct SoundState (close_child st n) _ (close-Gives st.top st.open_child n s.0 s.1)
      (λ top d.
        Gives->>= (λ _. Unit {0}) SoundState (split_kv content n) _
          (any_result (split_kv content n))
          (λ (key, value) _. elim (Bool-cases (is_empty value)) [
            | inl opens ↦ rw opens (d, refl)
            | inr leaf ↦ rw leaf (
                Gives->>= (λ _. Unit {0}) SoundState (unquote value n) _
                  (any_result (unquote value n))
                  (λ t _.
                    Gives->>= Distinct SoundState (insert_unique top key (Yaml.scalar t) n) _
                      (insert_unique-Gives top key (Yaml.scalar t) n refl d) (λ top' d'. (d', tt))))
          ]))

SoundChild : Text × Map → Type 0
SoundChild (k, m) = Distinct m

open_child-Gives : (o : Option (Text × Map)) (e : Error) → Sound o → Gives SoundChild (ok_or o e)
unfolding Sound SoundChild
open_child-Gives none e s = tt
open_child-Gives (some (k, m)) e s = s

child_line-Gives :
    (st : ParseState) (content : Text) (n : ℕ)
    → SoundState st
    → Gives SoundState (child_line st content n)
unfolding child_line SoundState SoundChild Distinct Sound is_distinct_value
child_line-Gives st content n s =
    Gives->>= SoundChild SoundState (ok_or st.open_child _) _ (open_child-Gives st.open_child _ s.1)
      (λ (parent, child) d.
        Gives->>= (λ _. Unit {0}) SoundState (split_kv content n) _
          (any_result (split_kv content n))
          (λ (key, value) _. elim (Bool-cases (is_empty value)) [
            | inl opens ↦ rw opens tt
            | inr leaf ↦ rw leaf (
                Gives->>= (λ _. Unit {0}) SoundState (unquote value n) _
                  (any_result (unquote value n))
                  (λ t _.
                    Gives->>= Distinct SoundState (insert_unique child key (Yaml.scalar t) n) _
                      (insert_unique-Gives child key (Yaml.scalar t) n refl d)
                      (λ child' d'. (s.0, d'))))
          ]))

parse_line-Gives :
    (st : ParseState) (line : Text) (n : ℕ)
    → SoundState st
    → Gives SoundState (parse_line st line n)
unfolding parse_line
parse_line-Gives st line n s =
    let stripped = strip_comment line in
    let indent = byte_len stripped - byte_len (trim_start stripped) in
    elim (Bool-cases (is_empty (trim stripped))) [
      | inl blank ↦ rw blank s
      | inr full ↦ elim (Bool-cases (indent == 0)) [
        | inl at_top ↦ rw (full, at_top) (top_line-Gives st (trim_start stripped) n s)
        | inr deeper ↦ elim (Bool-cases (indent == 2)) [
          | inl nested ↦ rw (full, deeper, nested) (child_line-Gives st (trim_start stripped) n s)
          | inr wrong ↦ rw (full, deeper, wrong) tt
        ]
      ]
    ]

parse_lines-Gives :
    (st : ParseState) (ls : List Text) (n : ℕ)
    → SoundState st
    → Gives SoundState (parse_lines st ls n)
unfolding parse_lines
parse_lines-Gives st [] n s = s
parse_lines-Gives st (l ∷ ls) n s =
    Gives->>= SoundState SoundState (parse_line st l n) _ (parse_line-Gives st l n s)
      (λ st' s'. parse_lines-Gives st' ls (n + 1) s')

pub parse-Gives : (t : Text) → Gives Distinct (parse t)
unfolding SoundState Distinct Sound is_distinct
parse-Gives t = subst (Gives Distinct) (sym (parse_lem t)) (
    Gives->>= SoundState Distinct (parse_lines (settled empty) (lines t) 1) _
      (parse_lines-Gives (settled empty) (lines t) 1 (refl, tt))
      (λ st s. close-Gives st.top st.open_child (length (lines t) + 1) s.0 s.1))
