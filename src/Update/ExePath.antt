-- ===== src/Update/ExePath.antt =====
-- The path of the running binary in src/update.rs. What the file system says is the input.
use propmonitor.Base.{
  Text, codes, text_eq, is_empty, Bool, not, ◌||◌, if◌then◌else◌, Option, none, some, [], ◌∷◌,
  or_default,
}

-- What the file system knows of names: the regular files, and their canonical names.
pub record Names : Type 0 where
  pub is_file : Text → Bool
  pub canonicalize : Text → Option Text

-- `str::strip_suffix`
unfoldable pub strip_suffix : Text → Text → Option Text
strip_suffix suffix [] = if text_eq [] suffix then some [] else none
strip_suffix suffix (c ∷ s) =
    if text_eq (c ∷ s) suffix
    then some []
    else elim (strip_suffix suffix s) [ none ↦ none | some rest ↦ some (c ∷ rest) ]

unfoldable pub usable_exe_path : Names → Text → Option Text
usable_exe_path names link =
    let clean = or_default (strip_suffix (codes " (deleted)") link) link in
    if is_empty clean || not (names.is_file clean)
    then none
    else some (or_default (names.canonicalize clean) clean)

abbrev pub and_then : {A B : Type 0} → Option A → (A → Option B) → Option B
and_then none f = none
and_then (some a) f = f a

-- `resolve_install_path`, with the link `/proc/self/exe` and the first argument.
unfoldable pub resolve_install_path : Names → Option Text → Option Text → Text
resolve_install_path names link argv0 = elim (and_then link (usable_exe_path names)) [
  | some path ↦ path
  | none ↦ or_default (and_then argv0 names.canonicalize) (codes "propmonitor")
]
