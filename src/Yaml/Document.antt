-- ===== src/Yaml/Document.antt =====
-- What a run of `YamlWriter` writes: a list of top-level items, with the mapping that it stands for.
use propmonitor.Base.{Text, List, [], ◌∷◌, ◌++◌, Bool, true, not, ◌&&◌}
use propmonitor.Yaml.{Value, Map, empty, entry, contains_key}
use propmonitor.Yaml.Writer.{escape}
use propmonitor.Yaml.Scan.{is_bare, is_key, is_one_line}

pub data Field : Type 0 where
  bare quoted : Text → Field

pub data Item : Type 0 where
  leaf : Text → Field → Item
  block : Text → List (Text × Field) → Item

abbrev pub quote : Text → Text
quote v = b'"' ∷ (escape v ++ (b'"' ∷ []))

abbrev pub field_text : Field → Text
field_text (bare v) = v
field_text (quoted v) = quote v

abbrev pub field_value : Field → Text
field_value (bare v) = v
field_value (quoted v) = v

-- A line without its newline.
abbrev pub entry_line : Text → Field → Text
entry_line key f = key ++ (b':' ∷ 0x20 ∷ field_text f)

abbrev pub fields_text : List (Text × Field) → Text
fields_text [] = []
fields_text ((k, f) ∷ fs) = 0x20 ∷ 0x20 ∷ (entry_line k f ++ (10 ∷ fields_text fs))

unfoldable pub document : List Item → Text
document [] = []
document (leaf k f ∷ is) = entry_line k f ++ (10 ∷ document is)
document (block k fs ∷ is) = k ++ (b':' ∷ 10 ∷ (fields_text fs ++ document is))

-- The entry goes behind the others.
abbrev pub snoc : Map → Text → Value → Map
snoc empty k v = entry k v empty
snoc (entry j w m) k v = entry j w (snoc m k v)

abbrev pub add_fields : Map → List (Text × Field) → Map
add_fields m [] = m
add_fields m ((k, f) ∷ fs) = add_fields (snoc m k (Value.scalar (field_value f))) fs

abbrev pub add_items : Map → List Item → Map
add_items m [] = m
add_items m (leaf k f ∷ is) = add_items (snoc m k (Value.scalar (field_value f))) is
add_items m (block k fs ∷ is) = add_items (snoc m k (Value.map (add_fields empty fs))) is

-- Texts that the reader gives back: keys and bare values with no special character, quoted values
-- on one line, and no key twice.
abbrev pub is_field : Field → Bool
is_field (bare v) = is_bare v
is_field (quoted v) = is_one_line v

abbrev pub are_fields : Map → List (Text × Field) → Bool
are_fields m [] = true
are_fields m ((k, f) ∷ fs) =
    (is_key k && is_field f)
    && (not (contains_key k m) && are_fields (snoc m k (Value.scalar (field_value f))) fs)

abbrev pub are_items : Map → List Item → Bool
are_items m [] = true
are_items m (leaf k f ∷ is) =
    (is_key k && is_field f)
    && (not (contains_key k m) && are_items (snoc m k (Value.scalar (field_value f))) is)
are_items m (block k fs ∷ is) =
    (is_key k && are_fields empty fs)
    && (not (contains_key k m) && are_items (snoc m k (Value.map (add_fields empty fs))) is)
