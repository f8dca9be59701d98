-- ===== src/Yaml/RoundTrip.antt =====
-- The reader gives back what the writer wrote.
use propmonitor.Base.{
  ℕ, ◌+◌, Text, length, List, [], ◌∷◌, ◌++◌, true, false, not, ◌&&◌, ◌≡◌, refl, ap, ◌∙◌, arith,
  &&_split, some, none, ok, ◌>>=◌,
}
use propmonitor.Yaml.{
  Value, Map, empty, entry, contains_key, insert, insert_unique, close_child, ParseState, lines,
  parse_line, parse_lines, parse,
}
use propmonitor.Yaml.Scan.{is_key}
use propmonitor.Yaml.Document.{
  Field, Item, leaf, block, field_value, fields_text, document, snoc, add_fields, add_items,
  is_field, are_fields, are_items,
}
use propmonitor.Yaml.Written.{parse_line-leaf, parse_line-nested, parse_line-block}
use propmonitor.Yaml.Lines.{lines-nil, lines-leaf, lines-nested, lines-block}

insert-fresh :
    (k : Text) (v : Value) (m : Map) → contains_key k m ≡ false → insert k v m ≡ snoc m k v
insert-fresh k v empty h = refl
insert-fresh k v (entry j w m) h = ground (arith, insert-fresh k v m)

insert_unique-fresh :
    (m : Map) (k : Text) (v : Value) (n : ℕ)
    → not (contains_key k m) ≡ true
    → insert_unique m k v n ≡ ok (snoc m k v)
unfolding insert_unique
insert_unique-fresh m k v n h = ground (arith, insert-fresh k v m)

parse_lines-cons :
    (st : ParseState) (l : Text) (ls : List Text) (n : ℕ)
    → parse_lines st (l ∷ ls) n ≡ (parse_line st l n >>= λ st'. parse_lines st' ls (n + 1))
unfolding parse_lines
parse_lines-cons st l ls n = refl

abbrev within : Map → Text → Map → ParseState
within top parent child = record { top = top; open_child = some (parent, child) }

parse_lines-fields :
    (fs : List (Text × Field)) (top : Map) (parent : Text) (child : Map) (rest : Text) (n : ℕ)
    → are_fields child fs ≡ true
    → parse_lines (within top parent child) (lines (fields_text fs ++ rest)) n
      ≡ parse_lines (within top parent (add_fields child fs)) (lines rest) (n + length fs)
parse_lines-fields [] top parent child rest n h =
    ap (parse_lines (within top parent child) (lines rest)) (omega arith)
parse_lines-fields ((k, f) ∷ fs) top parent child rest n h =
    let p = &&_split (is_key k && is_field f) _ h in
    let q = &&_split (is_key k) (is_field f) p.0 in
    let r = &&_split (not (contains_key k child)) _ p.1 in
    rw (lines-nested k f (fields_text fs) rest q.0 q.1) (
      rw parse_lines-cons (
        rw
          (
            parse_line-nested (within top parent child) k f n refl q.0 q.1,
            insert_unique-fresh child k (Value.scalar (field_value f)) n r.0,
          )
          (parse_lines-fields fs top parent (snoc child k (Value.scalar (field_value f))) rest
              (n + 1) r.1
            ∙ ap
                (parse_lines
                  (within top parent (add_fields (snoc child k (Value.scalar (field_value f))) fs))
                  (lines rest))
                (omega arith))))

abbrev pub settled : Map → ParseState
settled top = record { top = top; open_child = none }

pub parse_lines-document :
    (is : List Item) (st : ParseState) (m : Map) (n last : ℕ)
    → ((l : ℕ) → close_child st l ≡ ok m)
    → are_items m is ≡ true
    → (parse_lines st (lines (document is)) n >>= λ st'. close_child st' last) ≡ ok (add_items m is)
unfolding document
parse_lines-document [] st m n last c h = rw lines-nil (unfold parse_lines in c last)
parse_lines-document (leaf k f ∷ is) st m n last c h =
    let p = &&_split (is_key k && is_field f) _ h in
    let q = &&_split (is_key k) (is_field f) p.0 in
    let r = &&_split (not (contains_key k m)) _ p.1 in
    rw (lines-leaf k f (document is) q.0 q.1) (
      rw parse_lines-cons (
        rw
          (
            parse_line-leaf st k f n q.0 q.1,
            c n,
            insert_unique-fresh m k (Value.scalar (field_value f)) n r.0,
          )
          (parse_lines-document is (settled (snoc m k (Value.scalar (field_value f)))) _ (n + 1)
            last (λ l. unfold close_child in refl) r.1)))
parse_lines-document (block k fs ∷ is) st m n last c h =
    let p = &&_split (is_key k && are_fields empty fs) _ h in
    let q = &&_split (is_key k) (are_fields empty fs) p.0 in
    let r = &&_split (not (contains_key k m)) _ p.1 in
    rw (lines-block k (fields_text fs ++ document is) q.0) (
      rw parse_lines-cons (
        rw
          (
            parse_line-block st k n q.0,
            c n,
            parse_lines-fields fs m k empty (document is) (n + 1) q.1,
          )
          (parse_lines-document is (within m k (add_fields empty fs)) _ (n + 1 + length fs) last
            (λ l.
              unfold close_child in insert_unique-fresh m k (Value.map (add_fields empty fs)) l r.0)
            r.1)))

pub parse_lem :
    (t : Text)
    → parse t
      ≡ (parse_lines (settled empty) (lines t) 1 >>= λ st. close_child st (length (lines t) + 1))
unfolding parse
parse_lem t = refl

-- A text written from items with good keys and fields, no key twice, reads as their mapping.
pub parse-document :
    (is : List Item) → are_items empty is ≡ true → parse (document is) ≡ ok (add_items empty is)
parse-document is h =
    parse_lem (document is)
    ∙ parse_lines-document is (settled empty) empty 1 _ (λ l. unfold close_child in refl) h
