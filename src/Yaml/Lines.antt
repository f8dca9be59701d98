-- ===== src/Yaml/Lines.antt =====
-- Splitting a written document into its lines.
use mathlib.Core.List
use propmonitor.Base.{
  ℕ, Text, is_empty, all, [], ◌∷◌, ◌++◌, true, false, not, ◌≡◌, refl, sym, ap, ◌∙◌, ◌==◌, arith,
  &&_split, append_assoc,
}
use propmonitor.Yaml.{is_whitespace, add_char, pieces, finish_line, lines}
use propmonitor.Yaml.Writer.{escape}
use propmonitor.Yaml.Scan.{
  is_bare, is_bare_char, is_key, is_key_char, is_one_line, ends_solid, ends_solid-append,
  strip_cr-solid, bare_of_key,
}
use propmonitor.Yaml.Document.{Field, bare, quoted, field_text, is_field, entry_line}
use propmonitor.Yaml.Written.{ends_solid-field}

pieces-line :
    (s rest : Text) → is_one_line s ≡ true → pieces (s ++ (10 ∷ rest)) ≡ (s, true) ∷ pieces rest
unfolding pieces add_char is_bare is_key is_one_line
pieces-line [] rest h = refl
pieces-line (c ∷ s) rest h = ground (arith, pieces-line s rest)

pub lines-line :
    (s rest : Text)
    → is_one_line s ≡ true
    → ends_solid s ≡ true
    → lines (s ++ (10 ∷ rest)) ≡ s ∷ lines rest
unfolding lines finish_line
lines-line s rest h e =
    rw (pieces-line s rest h)
      (ap (λ t. t ∷ List.map finish_line (pieces rest)) (strip_cr-solid s e))

pub lines-nil : lines [] ≡ []
unfolding lines pieces
lines-nil = refl

newline_is_space : (c : ℕ) → is_whitespace c ≡ false → (c == 10) ≡ false
unfolding is_whitespace
newline_is_space c h = ground arith

pub one_line-bare : (s : Text) → all is_bare_char s ≡ true → is_one_line s ≡ true
unfolding is_bare is_key is_one_line
one_line-bare [] h = refl
one_line-bare (c ∷ s) h = ground (arith, one_line-bare s, newline_is_space c)

one_line-escape : (s : Text) → is_one_line s ≡ true → is_one_line (escape s) ≡ true
unfolding escape is_bare is_key is_one_line
one_line-escape [] h = refl
one_line-escape (c ∷ s) h = ground (arith, one_line-escape s)

pub one_line-append :
    (s t : Text) → is_one_line s ≡ true → is_one_line t ≡ true → is_one_line (s ++ t) ≡ true
unfolding is_bare is_key is_one_line
one_line-append [] t h k = k
one_line-append (c ∷ s) t h k = ground (arith, one_line-append s t)

one_line-field : (f : Field) → is_field f ≡ true → is_one_line (field_text f) ≡ true
unfolding is_bare is_key is_one_line
one_line-field (bare v) h = one_line-bare v (&&_split (not (is_empty v)) (all is_bare_char v) h).1
one_line-field (quoted v) h = one_line-append (escape v) (b'"' ∷ []) (one_line-escape v h) refl

pub one_line-key : (k : Text) → is_key k ≡ true → is_one_line k ≡ true
unfolding is_bare is_key is_one_line
one_line-key k h =
    one_line-bare k (bare_of_key k (&&_split (not (is_empty k)) (all is_key_char k) h).1)

pub one_line-entry :
    (k : Text) (f : Field)
    → is_key k ≡ true
    → is_field f ≡ true
    → is_one_line (entry_line k f) ≡ true
unfolding is_bare is_key is_one_line
one_line-entry k f hk hf =
    one_line-append k (b':' ∷ 0x20 ∷ field_text f) (one_line-key k hk) (one_line-field f hf)

pub solid-entry : (k : Text) (f : Field) → is_field f ≡ true → ends_solid (entry_line k f) ≡ true
solid-entry k f hf =
    ends_solid-append k (b':' ∷ 0x20 ∷ field_text f)
      (solid_tail (field_text f) (ends_solid-field f hf))
  where
    solid_tail : (t : Text) → ends_solid t ≡ true → ends_solid (b':' ∷ 0x20 ∷ t) ≡ true
    solid_tail [] h = cc
    solid_tail (c ∷ t) h = h

pub solid-block : (k : Text) → ends_solid (k ++ (b':' ∷ [])) ≡ true
unfolding is_whitespace
solid-block k = ends_solid-append k (b':' ∷ []) refl

-- The three kinds of written line.
pub lines-leaf :
    (k : Text) (f : Field) (rest : Text)
    → is_key k ≡ true
    → is_field f ≡ true
    → lines (entry_line k f ++ (10 ∷ rest)) ≡ entry_line k f ∷ lines rest
lines-leaf k f rest hk hf =
    lines-line (entry_line k f) rest (one_line-entry k f hk hf) (solid-entry k f hf)

pub lines-nested :
    (k : Text) (f : Field) (more rest : Text)
    → is_key k ≡ true
    → is_field f ≡ true
    → lines ((0x20 ∷ 0x20 ∷ (entry_line k f ++ (10 ∷ more))) ++ rest)
      ≡ (0x20 ∷ 0x20 ∷ entry_line k f) ∷ lines (more ++ rest)
unfolding is_bare is_key is_one_line
lines-nested k f more rest hk hf =
    ap (λ t. lines (0x20 ∷ 0x20 ∷ t)) (append_assoc (entry_line k f) (10 ∷ more) rest)
    ∙ lines-line (0x20 ∷ 0x20 ∷ entry_line k f) (more ++ rest) (one_line-entry k f hk hf)
        (ends_solid-append (0x20 ∷ 0x20 ∷ []) (entry_line k f) (solid-entry k f hf))

pub lines-block :
    (k rest : Text)
    → is_key k ≡ true
    → lines (k ++ (b':' ∷ 10 ∷ rest)) ≡ (k ++ (b':' ∷ [])) ∷ lines rest
unfolding is_bare is_key is_one_line
lines-block k rest hk =
    ap lines (sym (append_assoc k (b':' ∷ []) (10 ∷ rest)))
    ∙ lines-line (k ++ (b':' ∷ [])) rest (one_line-append k (b':' ∷ []) (one_line-key k hk) refl)
        (solid-block k)
