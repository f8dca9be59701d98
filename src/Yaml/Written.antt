-- ===== src/Yaml/Written.antt =====
-- One written line, read by `parse_line`.
use propmonitor.Base.{
  ℕ, ◌<◌, Text, is_empty, all, get_last?-append, byte_len, [], ◌∷◌, ◌++◌, true, false, not, ◌≡◌,
  refl, ap, some, none, ok, arith, &&_split, ◌>>=◌, append-nil,
}
use propmonitor.Yaml.{
  is_whitespace, trim_start, trim_end, trim, strip_comment, strip_comment_from, comment_step,
  split_kv, unquote, drop_last, ends_with_quote, parse_line, close_child, insert_unique, Value, Map,
  empty, top_line, child_line, ParseState,
}
use propmonitor.Yaml.Writer.{escape}
use propmonitor.Yaml.Scan.{
  is_bare, is_bare_char, is_key, is_key_char, ends_solid, trim_start-solid, trim_end-solid,
  ends_solid-append, ends_solid_of_bare, bare_of_key, strip_comment-bare, strip_comment-escape,
  split_colon-key, unescape-escape,
}
use propmonitor.Yaml.Document.{
  Field, bare, quoted, quote, field_text, field_value, is_field, entry_line,
}

not_space_quote : is_whitespace b'"' ≡ false
unfolding is_whitespace
not_space_quote = refl

space : is_whitespace 0x20 ≡ true
unfolding is_whitespace
space = refl

drop_last-append : (s : Text) (c : ℕ) → drop_last (s ++ (c ∷ [])) ≡ s
drop_last-append [] c = refl
drop_last-append (d ∷ []) c = refl
drop_last-append (d ∷ e ∷ s) c = ap (λ t. d ∷ t) (drop_last-append (e ∷ s) c)

byte_len-snoc : (s : Text) (c : ℕ) → 0 < byte_len (s ++ (c ∷ []))
byte_len-snoc [] c = ground arith
byte_len-snoc (d ∷ s) c = omega (arith, byte_len-snoc s c)

quote_ends : (s : Text) → ends_with_quote (s ++ (b'"' ∷ [])) ≡ true
quote_ends s = rw (get_last?-append s b'"', ends_with_quote)

pub unquote-field :
    (f : Field) (n : ℕ) → is_field f ≡ true → unquote (field_text f) n ≡ ok (field_value f)
unfolding unquote is_bare is_key
unquote-field (bare []) n h = refl
unquote-field (bare (c ∷ s)) n h = ground arith
unquote-field (quoted v) n h =
    rw (quote_ends (b'"' ∷ escape v), drop_last-append (escape v) b'"')
      (ground (arith, byte_len-snoc (escape v) b'"', unescape-escape v n))

pub ends_solid-field : (f : Field) → is_field f ≡ true → ends_solid (field_text f) ≡ true
ends_solid-field (bare v) h = ends_solid_of_bare v h
ends_solid-field (quoted v) h = ends_solid-append (b'"' ∷ escape v) (b'"' ∷ []) (rw not_space_quote)

bare_head : (c : ℕ) (s : Text) → is_bare (c ∷ s) ≡ true → is_whitespace c ≡ false
unfolding is_bare is_key
bare_head c s h = ground arith

trim-field : (f : Field) → is_field f ≡ true → trim (0x20 ∷ field_text f) ≡ field_text f
unfolding trim trim_start is_bare is_key
trim-field (bare []) h = cc
trim-field (bare (c ∷ s)) h =
    rw space (rw (bare_head c s h) (trim_end-solid (c ∷ s) (ends_solid_of_bare (c ∷ s) h)))
trim-field (quoted v) h =
    rw (space, not_space_quote) (trim_end-solid (quote v) (ends_solid-field (quoted v) h))

trim-key : (k : Text) → is_key k ≡ true → trim k ≡ k
unfolding trim is_bare is_key
trim-key [] h = cc
trim-key (c ∷ k) h =
    let b = bare_of_key (c ∷ k) h in
    rw (trim_start-solid c k (bare_head c k b))
      (trim_end-solid (c ∷ k) (ends_solid_of_bare (c ∷ k) b))

strip_comment-field :
    (f : Field) → is_field f ≡ true → strip_comment_from false false (field_text f) ≡ field_text f
unfolding is_bare is_key
strip_comment-field (bare v) h =
    let p = &&_split (not (is_empty v)) (all is_bare_char v) h in
    rw (← append-nil v) (rw (strip_comment-bare v [] p.1) (unfold strip_comment_from in refl))
strip_comment-field (quoted v) h =
    unfold strip_comment_from comment_step in
    ap (λ t. b'"' ∷ t) (strip_comment-escape v (b'"' ∷ []))

strip_comment-line :
    (k : Text) (f : Field)
    → is_key k ≡ true
    → is_field f ≡ true
    → strip_comment (entry_line k f) ≡ entry_line k f
unfolding strip_comment is_bare is_key
strip_comment-line k f hk hf =
    let p = &&_split (not (is_empty k)) (all is_key_char k) hk in
    rw (strip_comment-bare k (b':' ∷ 0x20 ∷ field_text f) (bare_of_key k p.1)) (
      ap (λ t. k ++ t)
        (unfold strip_comment_from comment_step in
          ap (λ t. b':' ∷ 0x20 ∷ t) (strip_comment-field f hf)))

pub split_kv-line :
    (k : Text) (f : Field) (n : ℕ)
    → is_key k ≡ true
    → is_field f ≡ true
    → split_kv (entry_line k f) n ≡ ok (k, field_text f)
unfolding split_kv is_bare is_key
split_kv-line k f n hk hf =
    let p = &&_split (not (is_empty k)) (all is_key_char k) hk in
    rw (split_colon-key k (0x20 ∷ field_text f) p.1)
      (rw (trim-key k hk, trim-field f hf) (ground arith))

strip_comment-block :
    (k : Text) → is_key k ≡ true → strip_comment (k ++ (b':' ∷ [])) ≡ k ++ (b':' ∷ [])
unfolding strip_comment is_bare is_key
strip_comment-block k hk =
    let p = &&_split (not (is_empty k)) (all is_key_char k) hk in
    rw (strip_comment-bare k (b':' ∷ []) (bare_of_key k p.1))
      (unfold strip_comment_from comment_step in refl)

trim-nil : trim [] ≡ []
unfolding trim trim_start trim_end
trim-nil = refl

split_kv-block : (k : Text) (n : ℕ) → is_key k ≡ true → split_kv (k ++ (b':' ∷ [])) n ≡ ok (k, [])
unfolding split_kv is_bare is_key
split_kv-block k n hk =
    let p = &&_split (not (is_empty k)) (all is_key_char k) hk in
    rw (split_colon-key k [] p.1) (rw (trim-key k hk, trim-nil) (ground arith))

parse_line-top :
    (st : ParseState) (c : ℕ) (s : Text) (n : ℕ)
    → is_whitespace c ≡ false
    → strip_comment (c ∷ s) ≡ c ∷ s
    → parse_line st (c ∷ s) n ≡ top_line st (c ∷ s) n
unfolding parse_line trim
parse_line-top st c s n h e = rw (e, trim_start-solid c s h) (unfold trim_end in ground arith)

strip_comment-indent : (s : Text) → strip_comment (0x20 ∷ 0x20 ∷ s) ≡ 0x20 ∷ 0x20 ∷ strip_comment s
unfolding strip_comment strip_comment_from comment_step
strip_comment-indent s = refl

trim_start-indent :
    (c : ℕ) (s : Text) → is_whitespace c ≡ false → trim_start (0x20 ∷ 0x20 ∷ c ∷ s) ≡ c ∷ s
unfolding trim_start
trim_start-indent c s h = rw (space, h)

parse_line-child :
    (st : ParseState) (c : ℕ) (s : Text) (n : ℕ)
    → is_whitespace c ≡ false
    → strip_comment (c ∷ s) ≡ c ∷ s
    → parse_line st (0x20 ∷ 0x20 ∷ c ∷ s) n ≡ child_line st (c ∷ s) n
unfolding parse_line trim
parse_line-child st c s n h e =
    rw (strip_comment-indent (c ∷ s), e, trim_start-indent c s h) (unfold trim_end in ground arith)

is_empty-field : (f : Field) → is_field f ≡ true → is_empty (field_text f) ≡ false
unfolding is_bare is_key
is_empty-field (bare []) h = cc
is_empty-field (bare (c ∷ s)) h = refl
is_empty-field (quoted v) h = refl

-- A written top-level entry with a value.
pub parse_line-leaf :
    (st : ParseState) (k : Text) (f : Field) (n : ℕ)
    → is_key k ≡ true
    → is_field f ≡ true
    → parse_line st (entry_line k f) n ≡ (
        close_child st n >>= λ top. insert_unique top k (Value.scalar (field_value f)) n >>= λ top'.
        ok (record { top = top'; open_child = none }))
unfolding is_bare is_key
parse_line-leaf st [] f n hk hf = cc
parse_line-leaf st (c ∷ k) f n hk hf =
    let b = bare_head c k (bare_of_key (c ∷ k) hk) in
    rw
      (parse_line-top st c (k ++ (b':' ∷ 0x20 ∷ field_text f)) n b
        (strip_comment-line (c ∷ k) f hk hf))
      (unfold top_line in
        simp (split_kv-line (c ∷ k) f n hk hf, is_empty-field f hf, unquote-field f n hf))

-- A written entry of a block.
pub parse_line-nested :
    (st : ParseState) (k : Text) (f : Field) (n : ℕ) {parent : Text} {child : Map}
    → st.open_child ≡ some (parent, child)
    → is_key k ≡ true
    → is_field f ≡ true
    → parse_line st (0x20 ∷ 0x20 ∷ entry_line k f) n ≡ (
        insert_unique child k (Value.scalar (field_value f)) n >>= λ child'.
        ok (record { top = st.top; open_child = some (parent, child') }))
unfolding is_bare is_key
parse_line-nested st [] f n o hk hf = cc
parse_line-nested st (c ∷ k) f n o hk hf =
    let b = bare_head c k (bare_of_key (c ∷ k) hk) in
    rw
      (parse_line-child st c (k ++ (b':' ∷ 0x20 ∷ field_text f)) n b
        (strip_comment-line (c ∷ k) f hk hf))
      (unfold child_line in
        simp (o, split_kv-line (c ∷ k) f n hk hf, is_empty-field f hf, unquote-field f n hf))

-- The written start of a block.
pub parse_line-block :
    (st : ParseState) (k : Text) (n : ℕ)
    → is_key k ≡ true
    → parse_line st (k ++ (b':' ∷ [])) n
      ≡ (close_child st n >>= λ top. ok (record { top = top; open_child = some (k, empty) }))
unfolding is_bare is_key
parse_line-block st [] n hk = cc
parse_line-block st (c ∷ k) n hk =
    let b = bare_head c k (bare_of_key (c ∷ k) hk) in
    rw (parse_line-top st c (k ++ (b':' ∷ [])) n b (strip_comment-block (c ∷ k) hk))
      (unfold top_line in simp (split_kv-block (c ∷ k) n hk))
