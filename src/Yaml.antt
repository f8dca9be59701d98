-- ===== src/Yaml.antt =====
-- src/yaml.rs: the two-level YAML reader.
mod Tests
pub mod Writer
pub mod Scan
pub mod Document
pub mod Atomic
mod Written
mod Lines
pub mod RoundTrip
pub mod Distinct
pub mod Counted
use mathlib.Core.List
use propmonitor.Base.{
  ℕ, zero, suc, ◌+◌, ◌-◌, Text, codes, text_eq, is_empty, byte_len, length, drop, get_last?, List,
  [], ◌∷◌, Bool, true, false, not, ◌&&◌, ◌||◌, ltb, leb, ◌==◌, if◌then◌else◌, Option, none, some,
  Result, ok, err, ◌>>=◌, ◌>>◌, ok_or,
}
use propmonitor.Error.{
  Error, orphan_entry, nested_too_deep, unexpected_indent, no_colon, empty_key, unterminated_string,
  unsupported_escape, trailing_backslash, duplicate_key, missing_key, not_a_scalar,
}

-- A `BTreeMap<String, Value>` is an association list: nothing in the program walks one, so the
-- order of the keys is not kept.
mutual
  pub data Value : Type 0 where
    scalar : Text → Value
    map : Map → Value

  pub data Map : Type 0 where
    empty : Map
    entry : Text → Value → Map → Map

-- `BTreeMap::get`
abbrev pub get : Text → Map → Option Value
get k empty = none
get k (entry j v m) = if text_eq j k then some v else get k m

abbrev pub contains_key : Text → Map → Bool
contains_key k empty = false
contains_key k (entry j v m) = text_eq j k || contains_key k m

-- `BTreeMap::insert`
abbrev pub insert : Text → Value → Map → Map
insert k v empty = entry k v empty
insert k v (entry j w m) = if text_eq j k then entry k v m else entry j w (insert k v m)

abbrev pub as_scalar : Value → Option Text
as_scalar (scalar s) = some s
as_scalar (map m) = none

abbrev pub as_map : Value → Option Map
as_map (scalar s) = none
as_map (map m) = some m

-- `char::is_whitespace`, the White_Space property of Unicode
unfoldable pub is_whitespace : ℕ → Bool
is_whitespace c =
    leb 9 c && leb c 13
    || c == 0x20
    || c == 0x85
    || c == 0xa0
    || c == 0x1680
    || leb 0x2000 c && leb c 0x200a
    || c == 0x2028
    || c == 0x2029
    || c == 0x202f
    || c == 0x205f
    || c == 0x3000

-- `str::trim_start`, `str::trim_end`, `str::trim`
unfoldable pub trim_start : Text → Text
trim_start [] = []
trim_start (c ∷ s) = let rest = trim_start s in if is_whitespace c then rest else c ∷ s

unfoldable pub trim_end : Text → Text
trim_end [] = []
trim_end (c ∷ s) =
    let rest = trim_end s in if is_whitespace c && is_empty rest then [] else c ∷ rest

unfoldable pub trim : Text → Text
trim s = trim_end (trim_start s)

-- The pieces of a text between newlines, each with whether a newline ended it.
unfoldable pub add_char : ℕ → List (Text × Bool) → List (Text × Bool)
add_char c [] = (c ∷ [], false) ∷ []
add_char c ((s, ended) ∷ ps) = (c ∷ s, ended) ∷ ps

unfoldable pub pieces : Text → List (Text × Bool)
pieces [] = []
pieces (c ∷ s) = let ps = pieces s in if c == 10 then ([], true) ∷ ps else add_char c ps

unfoldable pub strip_cr : Text → Text
strip_cr [] = []
strip_cr (c ∷ []) = if c == 13 then [] else c ∷ []
strip_cr (c ∷ d ∷ s) = c ∷ strip_cr (d ∷ s)

unfoldable pub finish_line : Text × Bool → Text
finish_line (s, true) = strip_cr s
finish_line (s, false) = s

-- `str::lines`: a carriage return before a newline goes with it.
unfoldable pub lines : Text → List Text
lines s = List.map finish_line (pieces s)

-- One character of `strip_comment`: the new `(in_quotes, escaped)`, or the comment's start.
unfoldable pub comment_step : Bool → Bool → ℕ → Option (Bool × Bool)
comment_step in_quotes escaped c =
    if escaped
    then some (in_quotes, false)
    else if c == b'\\' && in_quotes
    then some (in_quotes, true)
    else if c == b'"'
    then some (not in_quotes, false)
    else if c == b'#' && not in_quotes
    then none
    else some (in_quotes, false)

unfoldable pub strip_comment_from : Bool → Bool → Text → Text
strip_comment_from in_quotes escaped [] = []
strip_comment_from in_quotes escaped (c ∷ s) = elim (comment_step in_quotes escaped c) [
  | none ↦ []
  | some (q, e) ↦ c ∷ strip_comment_from q e s
]

unfoldable pub strip_comment : Text → Text
strip_comment line = strip_comment_from false false line

-- The texts before and after the first colon.
unfoldable pub split_colon : Text → Option (Text × Text)
split_colon [] = none
split_colon (c ∷ s) =
    let rest = split_colon s in
    if c == b':' then some ([], s) else elim rest [ none ↦ none | some (a, b) ↦ some (c ∷ a, b) ]

unfoldable pub split_kv : Text → ℕ → Result Error (Text × Text)
split_kv s line_no = do
  (before, after) ← ok_or (split_colon s) (no_colon line_no)
  let key = trim before
  if is_empty key then err (empty_key line_no) else ok (key, trim after)

-- The characters between the quotes, with `\\"` and `\\\\` read.
unfoldable pub unescape : Text → ℕ → Result Error Text
unescape [] line_no = ok []
unescape (c ∷ []) line_no = if c == b'\\' then err (trailing_backslash line_no) else ok (c ∷ [])
unescape (c ∷ d ∷ s) line_no =
    let plain = (do out ← unescape (d ∷ s) line_no; ok (c ∷ out)) in
    let escaped = (do out ← unescape s line_no; ok (d ∷ out)) in
    if c == b'\\'
    then if d == b'"'
      then escaped
      else if d == b'\\'
      then escaped
      else err (unsupported_escape line_no d)
    else plain

abbrev pub starts_with_quote : Text → Bool
starts_with_quote [] = false
starts_with_quote (c ∷ s) = c == b'"'

abbrev pub ends_with_quote : Text → Bool
ends_with_quote s = elim (get_last? s) [ none ↦ false | some c ↦ c == b'"' ]

abbrev pub drop_last : Text → Text
drop_last [] = []
drop_last (c ∷ []) = []
drop_last (c ∷ d ∷ s) = c ∷ drop_last (d ∷ s)

unfoldable pub unquote : Text → ℕ → Result Error Text
unquote s line_no =
    if not (starts_with_quote s)
    then ok s
    else if ltb (byte_len s) 2 || not (ends_with_quote s)
    then err (unterminated_string line_no)
    else unescape (drop_last (drop 1 s)) line_no

unfoldable pub insert_unique : Map → Text → Value → ℕ → Result Error Map
insert_unique m key value line_no =
    if contains_key key m then err (duplicate_key line_no key) else ok (insert key value m)

-- The state of the loop of `parse`.
pub record ParseState : Type 0 where
  pub top : Map
  -- the block that is being read: its key and its entries so far
  pub open_child : Option (Text × Map)

-- `open_child.take()` and the insertion of what it held
unfoldable pub close_child : ParseState → ℕ → Result Error Map
close_child st line_no = elim st.open_child [
  | none ↦ ok st.top
  | some (k, m) ↦ insert_unique st.top k (map m) line_no
]

-- A line with no indent.
unfoldable pub top_line : ParseState → Text → ℕ → Result Error ParseState
top_line st content line_no = do
  top ← close_child st line_no
  (key, value) ← split_kv content line_no
  if is_empty value then ok (record { top = top; open_child = some (key, empty) }) else do
    s ← unquote value line_no
    top' ← insert_unique top key (scalar s) line_no
    ok (record { top = top'; open_child = none })

-- A line with an indent of two.
unfoldable pub child_line : ParseState → Text → ℕ → Result Error ParseState
child_line st content line_no = do
  (parent, child) ← ok_or st.open_child (orphan_entry line_no)
  (key, value) ← split_kv content line_no
  if is_empty value then err (nested_too_deep line_no) else do
    s ← unquote value line_no
    child' ← insert_unique child key (scalar s) line_no
    ok (record { top = st.top; open_child = some (parent, child') })

-- The body of the loop, on one line.
unfoldable pub parse_line : ParseState → Text → ℕ → Result Error ParseState
parse_line st raw_line line_no =
    let stripped = strip_comment raw_line in
    let content = trim_start stripped in
    let indent = byte_len stripped - byte_len content in
    if is_empty (trim stripped)
    then ok st
    else if indent == 0
    then top_line st content line_no
    else if indent == 2
    then child_line st content line_no
    else err (unexpected_indent line_no indent)

-- The loop, from line `line_no` on.
unfoldable pub parse_lines : ParseState → List Text → ℕ → Result Error ParseState
parse_lines st [] line_no = ok st
parse_lines st (l ∷ ls) line_no = do st' ← parse_line st l line_no; parse_lines st' ls (line_no + 1)

unfoldable pub parse : Text → Result Error Map
unfolding is_whitespace trim_start trim_end trim add_char pieces strip_cr finish_line lines
    comment_step strip_comment_from strip_comment split_colon split_kv unescape unquote
    insert_unique close_child top_line child_line parse_line parse_lines
parse text = do
  st ← parse_lines (record { top = empty; open_child = none }) (lines text) 1
  close_child st (length (lines text) + 1)

-- The typed accessors.
abbrev pub require : Map → Text → Result Error Value
require m key = ok_or (get key m) (missing_key key)

abbrev pub require_scalar : Map → Text → Result Error Text
require_scalar m key = do v ← require m key; ok_or (as_scalar v) (not_a_scalar key)
