-- ===== src/Update/Digest.antt =====
-- Digests in src/update.rs: their text, their comparison and that of a file. The digest of a list
-- of bytes, from the crate `sha2`, is a parameter.
use propmonitor.Base.{
  ℕ, ◌+◌, ◌/◌, ◌%◌, Text, codes, text_eq, Bool, false, ◌&&◌, leb, if◌then◌else◌, Option, none, some,
  List, [], ◌∷◌, ◌++◌, map, get_elem?, or_default,
}

-- `HEX[n]`; a half of a byte is below 16.
unfoldable pub hex_digit : ℕ → ℕ
hex_digit n = or_default (get_elem? (codes "0123456789abcdef") n) 0

unfoldable pub hex_of : List ℕ → Text
hex_of [] = []
hex_of (b ∷ bytes) = hex_digit (b / 16) ∷ hex_digit (b % 16) ∷ hex_of bytes

unfoldable pub to_ascii_lowercase : ℕ → ℕ
to_ascii_lowercase c = if leb b'A' c && leb c b'Z' then c + 32 else c

unfoldable pub eq_ignore_ascii_case : Text → Text → Bool
eq_ignore_ascii_case s t = text_eq (map to_ascii_lowercase s) (map to_ascii_lowercase t)

-- What one `read` of a file gives; no bytes mean its end, as does the end of the list.
pub data FileRead : Type 0 where
  bytes : List ℕ → FileRead
  again : FileRead
  broken : FileRead

module _ (sha : List ℕ → List ℕ) where
  -- The loop of `file_sha256`, with the bytes hashed so far.
  unfoldable pub hash_reads : List ℕ → List FileRead → Option Text
  hash_reads hashed [] = some (hex_of (sha hashed))
  hash_reads hashed (bytes [] ∷ reads) = some (hex_of (sha hashed))
  hash_reads hashed (bytes (b ∷ bs) ∷ reads) = hash_reads (hashed ++ b ∷ bs) reads
  hash_reads hashed (again ∷ reads) = hash_reads hashed reads
  hash_reads hashed (broken ∷ reads) = none

  -- `file_sha256`, with whether the file opens.
  unfoldable pub file_sha256 : Bool → List FileRead → Option Text
  file_sha256 opens reads = if opens then hash_reads [] reads else none

  unfoldable pub is_digest : Text → Option Text → Bool
  is_digest expected none = false
  is_digest expected (some actual) = eq_ignore_ascii_case actual expected

  unfoldable pub already_installed : Bool → List FileRead → Text → Bool
  already_installed opens reads expected = is_digest expected (file_sha256 opens reads)
