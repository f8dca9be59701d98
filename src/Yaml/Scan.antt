-- ===== src/Yaml/Scan.antt =====
-- What the reader's scanning functions do on text as the writer leaves it.
use propmonitor.Base.{
  ℕ, Text, is_empty, all, [], ◌∷◌, ◌++◌, Bool, true, false, not, ◌&&◌, ◌≡◌, refl, ap, some, ok,
  ◌==◌, arith, &&_split, ◌>>=◌,
}
use propmonitor.Yaml.{
  is_whitespace, trim_start, trim_end, strip_cr, strip_comment_from, comment_step, split_colon,
  unescape, comment_step,
}
use propmonitor.Yaml.Writer.{escape}

-- A character that stands for itself in an unquoted value.
abbrev pub is_bare_char : ℕ → Bool
is_bare_char c = not (is_whitespace c) && (not (c == b'"') && not (c == b'#'))

abbrev pub is_key_char : ℕ → Bool
is_key_char c = is_bare_char c && not (c == b':')

unfoldable pub is_bare : Text → Bool
is_bare s = not (is_empty s) && all is_bare_char s

unfoldable pub is_key : Text → Bool
is_key s = not (is_empty s) && all is_key_char s

-- No newline.
unfoldable pub is_one_line : Text → Bool
is_one_line s = all (λ c. not (c == 10)) s

-- The last character is no space.
abbrev pub ends_solid : Text → Bool
ends_solid [] = false
ends_solid (c ∷ []) = not (is_whitespace c)
ends_solid (c ∷ d ∷ s) = ends_solid (d ∷ s)

pub trim_start-solid : (c : ℕ) (s : Text) → is_whitespace c ≡ false → trim_start (c ∷ s) ≡ c ∷ s
unfolding trim_start
trim_start-solid c s h = rw h

pub trim_end-solid : (s : Text) → ends_solid s ≡ true → trim_end s ≡ s
unfolding trim_end
trim_end-solid [] h = cc
trim_end-solid (c ∷ []) h = ground arith
trim_end-solid (c ∷ d ∷ s) h = ground (arith, trim_end-solid (d ∷ s) h)

not_cr : (c : ℕ) → is_whitespace c ≡ false → (c == 13) ≡ false
unfolding is_whitespace
not_cr c h = ground arith

pub strip_cr-solid : (s : Text) → ends_solid s ≡ true → strip_cr s ≡ s
unfolding strip_cr
strip_cr-solid [] h = refl
strip_cr-solid (c ∷ []) h = ground (arith, not_cr c)
strip_cr-solid (c ∷ d ∷ s) h = ap (λ t. c ∷ t) (strip_cr-solid (d ∷ s) h)

pub ends_solid-append : (s t : Text) → ends_solid t ≡ true → ends_solid (s ++ t) ≡ true
ends_solid-append [] t h = h
ends_solid-append (c ∷ []) [] h = cc
ends_solid-append (c ∷ []) (d ∷ t) h = h
ends_solid-append (c ∷ d ∷ s) t h = ends_solid-append (d ∷ s) t h

pub ends_solid_of_bare : (s : Text) → is_bare s ≡ true → ends_solid s ≡ true
unfolding is_bare
ends_solid_of_bare [] h = h
ends_solid_of_bare (c ∷ []) h = ground arith
ends_solid_of_bare (c ∷ d ∷ s) h =
    ends_solid_of_bare (d ∷ s) (&&_split (is_bare_char c) (all is_bare_char (d ∷ s)) h).1

pub bare_of_key : (s : Text) → all is_key_char s ≡ true → all is_bare_char s ≡ true
bare_of_key [] h = refl
bare_of_key (c ∷ s) h =
    let p = &&_split (is_key_char c) (all is_key_char s) h in
    let q = &&_split (is_bare_char c) (not (c == b':')) p.0 in rw q.0 (bare_of_key s p.1)

pub strip_comment-bare :
    (s t : Text)
    → all is_bare_char s ≡ true
    → strip_comment_from false false (s ++ t) ≡ s ++ strip_comment_from false false t
unfolding strip_comment_from comment_step
strip_comment-bare [] t h = refl
strip_comment-bare (c ∷ s) t h = ground (arith, strip_comment-bare s t)

pub strip_comment-escape :
    (s t : Text)
    → strip_comment_from true false (escape s ++ t) ≡ escape s ++ strip_comment_from true false t
unfolding strip_comment_from comment_step escape
strip_comment-escape [] t = refl
strip_comment-escape (c ∷ s) t = ground (arith, strip_comment-escape s t)

pub split_colon-key :
    (s t : Text) → all is_key_char s ≡ true → split_colon (s ++ b':' ∷ t) ≡ some (s, t)
unfolding split_colon
split_colon-key [] t h = refl
split_colon-key (c ∷ s) t h = ground (arith, split_colon-key s t)

unescape-plain :
    (c : ℕ) (s : Text) (n : ℕ)
    → (c == b'\\') ≡ false
    → unescape (c ∷ s) n ≡ (unescape s n >>= λ out. ok (c ∷ out))
unfolding unescape
unescape-plain c [] n h = rw h
unescape-plain c (d ∷ s) n h = rw h

pub unescape-escape : (s : Text) (n : ℕ) → unescape (escape s) n ≡ ok s
unfolding escape unescape
unescape-escape [] n = refl
unescape-escape (c ∷ s) n = ground (arith, unescape-escape s n, unescape-plain c (escape s) n)
