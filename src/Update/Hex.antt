-- ===== src/Update/Hex.antt =====
-- Digests as text in src/update.rs, read back.
use propmonitor.Base.{
  ℕ, zero, suc, ◌+◌, ◌-◌, ◌*◌, ◌/◌, ◌%◌, ◌<◌, Text, text_eq→eq, Bool, true, false, ◌&&◌, &&_split,
  leb, ltb, ltb→lt, ◌==◌, ==→eq, if◌then◌else◌, List, [], ◌∷◌, ◌++◌, append_assoc, append-nil, map,
  all, none, some, ◌≡◌, refl, sym, ap, ap₂, ◌∙◌, arith,
}
use propmonitor.Update.Digest.{
  hex_digit, hex_of, to_ascii_lowercase, eq_ignore_ascii_case, FileRead, bytes, again, broken,
  hash_reads, file_sha256,
}

-- The value of a digit, and the bytes of a text of digits.
digit_value : ℕ → ℕ
digit_value c = if leb c b'9' then c - b'0' else c - 87

unfoldable pub read_hex : Text → List ℕ
unfolding digit_value
read_hex [] = []
read_hex (c ∷ []) = []
read_hex (c ∷ d ∷ s) = (digit_value c * 16 + digit_value d) ∷ read_hex s

-- A property of the numbers below a bound, checked one by one.
all_below : ℕ → (ℕ → Bool) → Bool
all_below zero p = true
all_below (suc n) p = p n && all_below n p

all_below-at : (n : ℕ) (p : ℕ → Bool) (k : ℕ) → all_below n p ≡ true → k < n → p k ≡ true
unfolding all_below
all_below-at zero p k h l = absurd (omega arith)
all_below-at (suc n) p k h l = ground (arith, all_below-at n p k)

digits_checked :
    all_below 16
      (λ n. (digit_value (hex_digit n) == n) && (to_ascii_lowercase (hex_digit n) == hex_digit n))
    ≡ true
unfolding all_below digit_value hex_digit to_ascii_lowercase
digits_checked = refl

digit_back : (n : ℕ) → n < 16 → digit_value (hex_digit n) ≡ n
digit_back n h =
    ==→eq _ n (&&_split (digit_value (hex_digit n) == n) _ (all_below-at 16 _ n digits_checked h)).0

digit_lower : (n : ℕ) → n < 16 → to_ascii_lowercase (hex_digit n) ≡ hex_digit n
digit_lower n h =
    ==→eq _ (hex_digit n)
      (&&_split (digit_value (hex_digit n) == n) _ (all_below-at 16 _ n digits_checked h)).1

-- Bytes are below 256.
abbrev pub is_bytes : List ℕ → Bool
is_bytes bs = all (λ b. ltb b 256) bs

read_hex-hex_of : (bs : List ℕ) → is_bytes bs ≡ true → read_hex (hex_of bs) ≡ bs
unfolding read_hex hex_of
read_hex-hex_of [] h = refl
read_hex-hex_of (b ∷ bs) h =
    let (small, rest) = &&_split (ltb b 256) (is_bytes bs) h in
    let low = ltb→lt b 256 small in
    ap₂ ◌∷◌
      (ap₂ (λ x y. x * 16 + y) (digit_back (b / 16) (omega arith))
          (digit_back (b % 16) (omega arith))
        ∙ omega arith)
      (read_hex-hex_of bs rest)

hex_of-lower : (bs : List ℕ) → is_bytes bs ≡ true → map to_ascii_lowercase (hex_of bs) ≡ hex_of bs
unfolding hex_of
hex_of-lower [] h = refl
hex_of-lower (b ∷ bs) h =
    let (small, rest) = &&_split (ltb b 256) (is_bytes bs) h in
    let low = ltb→lt b 256 small in
    ap₂ ◌∷◌ (digit_lower (b / 16) (omega arith))
      (ap₂ ◌∷◌ (digit_lower (b % 16) (omega arith)) (hex_of-lower bs rest))

-- A listed digest that is accepted, in whatever case it is written, reads back as the bytes of the
-- digest that was computed.
pub eq_ignore_ascii_case-hex_of :
    (expected : Text) (digest : List ℕ)
    → is_bytes digest ≡ true
    → eq_ignore_ascii_case expected (hex_of digest) ≡ true
    → read_hex (map to_ascii_lowercase expected) ≡ digest
unfolding eq_ignore_ascii_case
eq_ignore_ascii_case-hex_of expected digest b h =
    ap read_hex (text_eq→eq _ _ h ∙ hex_of-lower digest b) ∙ read_hex-hex_of digest b

-- The bytes of a file up to its end.
unfoldable pub content : List FileRead → List ℕ
content [] = []
content (bytes [] ∷ reads) = []
content (bytes (b ∷ bs) ∷ reads) = b ∷ bs ++ content reads
content (again ∷ reads) = content reads
content (broken ∷ reads) = []

-- No read fails before the end of the file.
unfoldable pub reads_through : List FileRead → Bool
reads_through [] = true
reads_through (bytes [] ∷ reads) = true
reads_through (bytes (b ∷ bs) ∷ reads) = reads_through reads
reads_through (again ∷ reads) = reads_through reads
reads_through (broken ∷ reads) = false

hash_reads-content :
    (sha : List ℕ → List ℕ) (hashed : List ℕ) (reads : List FileRead)
    → hash_reads sha hashed reads
      ≡ (if reads_through reads then some (hex_of (sha (hashed ++ content reads))) else none)
unfolding hash_reads content reads_through
hash_reads-content sha hashed [] = ap (λ bs. some (hex_of (sha bs))) (sym (append-nil hashed))
hash_reads-content sha hashed (bytes [] ∷ reads) =
    ap (λ bs. some (hex_of (sha bs))) (sym (append-nil hashed))
hash_reads-content sha hashed (bytes (b ∷ bs) ∷ reads) =
    hash_reads-content sha (hashed ++ b ∷ bs) reads
    ∙ ap (λ xs. if reads_through reads then some (hex_of (sha xs)) else none)
        (append_assoc hashed (b ∷ bs) (content reads))
hash_reads-content sha hashed (again ∷ reads) = hash_reads-content sha hashed reads
hash_reads-content sha hashed (broken ∷ reads) = refl

-- The digest of a file is that of its content, however the reads cut it and whatever interrupts
-- them; there is none if the file does not open or a read fails before its end.
pub file_sha256-content :
    (sha : List ℕ → List ℕ) (opens : Bool) (reads : List FileRead)
    → file_sha256 sha opens reads
      ≡ (if opens && reads_through reads then some (hex_of (sha (content reads))) else none)
unfolding file_sha256
file_sha256-content sha true reads = hash_reads-content sha [] reads
file_sha256-content sha false reads = refl
