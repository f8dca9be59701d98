-- ===== src/Yaml/Tests.antt =====
-- Runs of the YAML reader and writer.
use propmonitor.Base.{codes, Text, true, List, [], ◌∷◌, ◌≡◌, refl, ok, err}
use propmonitor.Error.{duplicate_key, orphan_entry}
use propmonitor.Yaml.{Map, lines, parse, entry, empty, scalar, map, is_whitespace}
use propmonitor.Yaml.Scan.{is_bare, is_key, is_one_line}
use propmonitor.Yaml.Document.{Item, leaf, block, bare, quoted, document, add_items, are_items}
use propmonitor.Yaml.Distinct.{is_distinct}
use propmonitor.Yaml.Counted.{size, content_lines, parse-distinct}
use propmonitor.Yaml.RoundTrip.{parse-document}

abbrev nested_text : Text
nested_text = codes "a: 1 # one\r\n\r\nbeacon:\n  x: \"p # \\\"q\\\"\"\nb: z"

abbrev nested_map : Map
nested_map = entry (codes "a") (scalar (codes "1")) (
    entry (codes "beacon") (map (entry (codes "x") (scalar (codes "p # \"q\"")) empty))
      (entry (codes "b") (scalar (codes "z")) empty))

nested : parse nested_text ≡ ok nested_map
unfolding parse
nested = refl

twice : parse (codes "mode: cw\nmode: am\n") ≡ err (duplicate_key 2 (codes "mode"))
unfolding parse
twice = refl

orphan : parse (codes "  mode: cw\n") ≡ err (orphan_entry 1)
unfolding parse
orphan = refl

abbrev items : List Item
items =
    leaf (codes "frequency") (bare (codes "28330000"))
    ∷ leaf (codes "driver") (quoted (codes "a # \"b\""))
    ∷ block (codes "http") ((codes "bind", quoted (codes "[::]:5760")) ∷ [])
    ∷ []

items-are_items : are_items empty items ≡ true
unfolding is_bare is_key is_one_line is_whitespace
items-are_items = refl

parse-document_example : parse (document items) ≡ ok (add_items empty items)
parse-document_example = parse-document items items-are_items

parse-distinct_example :
    (is_distinct nested_map ≡ true) × (size nested_map ≡ content_lines (lines nested_text))
parse-distinct_example = parse-distinct nested_text nested_map nested
