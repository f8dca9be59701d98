-- ===== src/Yaml/Writer.antt =====
-- `YamlWriter` of src/yaml.rs: its state is the text written so far.
use propmonitor.Base.{Text, codes, [], ◌∷◌, ◌++◌, ◌==◌, if◌then◌else◌}

unfoldable pub escape : Text → Text
escape [] = []
escape (c ∷ s) =
    let rest = escape s in
    if c == b'"' then b'\\' ∷ b'"' ∷ rest else if c == b'\\' then b'\\' ∷ b'\\' ∷ rest else c ∷ rest

unfoldable pub write_quoted : Text → Text → Text
unfolding escape
write_quoted out value = out ++ (b'"' ∷ (escape value ++ (b'"' ∷ [])))

abbrev pub new : Text
new = []

unfoldable pub scalar : Text → Text → Text → Text
scalar out key value = out ++ (key ++ (codes ": " ++ (value ++ (10 ∷ []))))

unfoldable pub string : Text → Text → Text → Text
unfolding write_quoted
string out key value = write_quoted (out ++ (key ++ codes ": ")) value ++ (10 ∷ [])

unfoldable pub nested_open : Text → Text → Text
nested_open out key = out ++ (key ++ codes ":\n")

unfoldable pub nested_scalar : Text → Text → Text → Text
nested_scalar out key value = out ++ (codes "  " ++ (key ++ (codes ": " ++ (value ++ (10 ∷ [])))))

unfoldable pub nested_string : Text → Text → Text → Text
unfolding write_quoted
nested_string out key value =
    write_quoted (out ++ (codes "  " ++ (key ++ codes ": "))) value ++ (10 ∷ [])
