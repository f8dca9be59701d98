-- ===== src/Yaml/Counted.antt =====
-- How many entries the documents that `parse` of src/yaml.rs accepts have.
use propmonitor.Base.{
  ℕ, ◌+◌, ◌-◌, ◌==◌, Text, text_eq, is_empty, byte_len, List, [], ◌∷◌, length, Bool, true, false,
  Option, none, some, ok, ok_or, if◌then◌else◌, Bool-cases, inl, inr, ◌≡◌, refl, sym, subst, ◌∙◌,
  arith,
}
use propmonitor.Error.{Error}
use propmonitor.Yaml
use propmonitor.Yaml.{
  Value, Map, empty, entry, contains_key, insert, insert_unique, ParseState, close_child, top_line,
  child_line, parse_line, parse_lines, parse, lines, split_kv, unquote, strip_comment, trim,
  trim_start,
}
use propmonitor.Yaml.RoundTrip.{parse_lem, settled}
use propmonitor.Yaml.Distinct.{
  is_distinct, Distinct, or_false, Gives, Gives->>=, any_result, parse-Gives,
}

-- The entries of a mapping and of the mappings in it.
mutual
  pub size : Map → ℕ
  size empty = 0
  size (entry k v m) = 1 + size_value v + size m

  pub size_value : Value → ℕ
  size_value (Yaml.scalar s) = 0
  size_value (Yaml.map m) = size m

abbrev is_content : Text → Bool
is_content line = if is_empty (trim (strip_comment line)) then false else true

-- The lines that are not blank once their comment is taken off.
abbrev pub content_lines : List Text → ℕ
content_lines [] = 0
content_lines (l ∷ ls) = (if is_content l then 1 else 0) + content_lines ls

size-insert :
    (k : Text) (v : Value) (m : Map)
    → contains_key k m ≡ false
    → size (insert k v m) ≡ 1 + size_value v + size m
unfolding size
size-insert k v empty h = refl
size-insert k v (entry i w m) h =
    let (ik, mk) = or_false (text_eq i k) (contains_key k m) h in
    rw ik (omega (arith, size-insert k v m mk))

abbrev child_size : Option (Text × Map) → ℕ
child_size none = 0
child_size (some (k, m)) = 1 + size m

Holds : ℕ → ParseState → Type 0
Holds n st = size st.top + child_size st.open_child ≡ n

HasSize : ℕ → Map → Type 0
HasSize n m = size m ≡ n

insert_unique-HasSize :
    (m : Map) (k : Text) (v : Value) (line n : ℕ)
    → 1 + size_value v + size m ≡ n
    → Gives (HasSize n) (insert_unique m k v line)
unfolding insert_unique HasSize
insert_unique-HasSize m k v line n h = elim (Bool-cases (contains_key k m)) [
  | inl dup ↦ rw dup tt
  | inr fresh ↦ rw fresh (size-insert k v m fresh ∙ h)
]

close-HasSize :
    (top : Map) (child : Option (Text × Map)) (line n : ℕ)
    → Holds n (record { top = top; open_child = child })
    → Gives (HasSize n) (close_child (record { top = top; open_child = child }) line)
unfolding close_child Holds HasSize size_value size
close-HasSize top none line n h = omega arith
close-HasSize top (some (k, m)) line n h =
    insert_unique-HasSize top k (Yaml.map m) line n (omega arith)

top_line-Holds :
    (st : ParseState) (content : Text) (line n : ℕ)
    → Holds n st
    → Gives (Holds (n + 1)) (top_line st content line)
unfolding top_line Holds HasSize size_value size
top_line-Holds st content line n h =
    Gives->>= (HasSize n) (Holds (n + 1)) (close_child st line) _
      (close-HasSize st.top st.open_child line n h)
      (λ top d.
        Gives->>= (λ _. Unit {0}) (Holds (n + 1)) (split_kv content line) _
          (any_result (split_kv content line))
          (λ (key, value) _. elim (Bool-cases (is_empty value)) [
            | inl opens ↦ rw opens (omega arith)
            | inr leaf ↦ rw leaf (
                Gives->>= (λ _. Unit {0}) (Holds (n + 1)) (unquote value line) _
                  (any_result (unquote value line))
                  (λ t _.
                    Gives->>= (HasSize (n + 1)) (Holds (n + 1))
                      (insert_unique top key (Yaml.scalar t) line) _
                      (insert_unique-HasSize top key (Yaml.scalar t) line (n + 1) (omega arith))
                      (λ top' d'. omega arith)))
          ]))

HasChild : ℕ → Map → Text × Map → Type 0
HasChild n top (k, m) = size top + (1 + size m) ≡ n

open_child-HasChild :
    (top : Map) (o : Option (Text × Map)) (e : Error) (n : ℕ)
    → Holds n (record { top = top; open_child = o })
    → Gives (HasChild n top) (ok_or o e)
unfolding Holds HasChild
open_child-HasChild top none e n h = tt
open_child-HasChild top (some (k, m)) e n h = h

child_line-Holds :
    (st : ParseState) (content : Text) (line n : ℕ)
    → Holds n st
    → Gives (Holds (n + 1)) (child_line st content line)
unfolding child_line Holds HasChild HasSize size_value
child_line-Holds st content line n h =
    Gives->>= (HasChild n st.top) (Holds (n + 1)) (ok_or st.open_child _) _
      (open_child-HasChild st.top st.open_child _ n h)
      (λ (parent, child) d.
        Gives->>= (λ _. Unit {0}) (Holds (n + 1)) (split_kv content line) _
          (any_result (split_kv content line))
          (λ (key, value) _. elim (Bool-cases (is_empty value)) [
            | inl opens ↦ rw opens tt
            | inr leaf ↦ rw leaf (
                Gives->>= (λ _. Unit {0}) (Holds (n + 1)) (unquote value line) _
                  (any_result (unquote value line))
                  (λ t _.
                    Gives->>= (HasSize (1 + size child)) (Holds (n + 1))
                      (insert_unique child key (Yaml.scalar t) line) _
                      (insert_unique-HasSize child key (Yaml.scalar t) line (1 + size child) refl)
                      (λ child' d'. omega arith)))
          ]))

parse_line-Holds :
    (st : ParseState) (line : Text) (k n : ℕ)
    → Holds n st
    → Gives (Holds (n + (if is_content line then 1 else 0))) (parse_line st line k)
unfolding parse_line Holds
parse_line-Holds st line k n h =
    let stripped = strip_comment line in
    let indent = byte_len stripped - byte_len (trim_start stripped) in
    elim (Bool-cases (is_empty (trim stripped))) [
      | inl blank ↦ rw blank (omega arith)
      | inr full ↦ elim (Bool-cases (indent == 0)) [
        | inl at_top ↦ rw (full, at_top) (top_line-Holds st (trim_start stripped) k n h)
        | inr deeper ↦ elim (Bool-cases (indent == 2)) [
          | inl nested ↦ rw (full, deeper, nested) (child_line-Holds st (trim_start stripped) k n h)
          | inr wrong ↦ rw (full, deeper, wrong) tt
        ]
      ]
    ]

parse_lines-Holds :
    (st : ParseState) (ls : List Text) (k n : ℕ)
    → Holds n st
    → Gives (Holds (n + content_lines ls)) (parse_lines st ls k)
unfolding parse_lines Holds
parse_lines-Holds st [] k n h = omega arith
parse_lines-Holds st (l ∷ ls) k n h =
    let here : ℕ = if is_content l then 1 else 0 in
    Gives->>= (Holds (n + here)) (Holds (n + content_lines (l ∷ ls))) (parse_line st l k) _
      (parse_line-Holds st l k n h)
      (λ st' s'.
        subst (λ t. Gives (Holds t) (parse_lines st' ls (k + 1))) (omega arith)
          (parse_lines-Holds st' ls (k + 1) (n + here) s'))

parse-HasSize : (t : Text) → Gives (HasSize (content_lines (lines t))) (parse t)
unfolding Holds size
parse-HasSize t =
    let n = content_lines (lines t) in
    subst (Gives (HasSize n)) (sym (parse_lem t)) (
      Gives->>= (Holds n) (HasSize n) (parse_lines (settled empty) (lines t) 1) _
        (subst (λ k. Gives (Holds k) (parse_lines (settled empty) (lines t) 1)) (omega arith)
          (parse_lines-Holds (settled empty) (lines t) 1 0 refl))
        (λ st s. close-HasSize st.top st.open_child (length (lines t) + 1) n s))

-- Whatever document `parse` accepts, no key stands twice in the mapping that it gives, nor in a
-- block of it, and the mapping has exactly one entry for each line that is not blank once its comment
-- is taken off: no line is dropped and none overwrites another, so that a document in which a key is
-- repeated is refused.
pub parse-distinct :
    (t : Text) (m : Map)
    → parse t ≡ ok m
    → (is_distinct m ≡ true) × (size m ≡ content_lines (lines t))
unfolding Distinct HasSize
parse-distinct t m e = (
  subst (Gives Distinct) e (parse-Gives t),
  subst (Gives (HasSize (content_lines (lines t)))) e (parse-HasSize t),
)
