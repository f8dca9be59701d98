-- ===== src/Update/Swap.antt =====
-- `swap` of src/update.rs: the new binary is put in the place of the old one by two renames.
use propmonitor.Base.{
  Text, Bool, true, false, ◌&&◌, ◌≡◌, refl, Option, none, some, Result, ok, err, if◌then◌else◌,
}
use propmonitor.Update.{SwapError, not_set_aside, not_installed}

-- The contents of the binary's path, of its `.prev` and of the verified download.
pub record Files : Type 0 where
  pub path : Option Text
  pub backup : Option Text
  pub tmp : Option Text

-- What the system answers to the renames.
pub record Renames : Type 0 where
  pub aside_ok : Bool
  pub install_ok : Bool
  pub restore_ok : Bool

-- From the rename of the download on.
unfoldable pub install_over : Renames → Files → Bool → Files × Result SwapError (Unit {0})
install_over out fs backed_up =
    if out.install_ok
    then (record fs { path = fs.tmp; tmp = none }, ok tt)
    else if backed_up && out.restore_ok
    then (record fs { path = fs.backup; backup = none }, err not_installed)
    else (fs, err not_installed)

unfoldable pub set_aside : Renames → Files → Option Text → Files × Result SwapError (Unit {0})
set_aside out fs none = install_over out fs false
set_aside out fs (some old) =
    if out.aside_ok
    then install_over out (record fs { path = none; backup = some old }) true
    else (fs, err not_set_aside)

unfoldable pub swap : Renames → Files → Files × Result SwapError (Unit {0})
swap out fs = set_aside out fs fs.path

-- What `.prev` holds after a swap: the binary that was there, if there was one.
abbrev pub kept_aside : Option Text → Option Text → Option Text
kept_aside none backup = backup
kept_aside (some old) backup = some old

-- What a failed swap leaves at the path.
abbrev pub left_at : Renames → SwapError → Option Text → Option Text
left_at out not_set_aside path = path
left_at out not_installed path = if out.restore_ok then path else none

-- What a failed swap leaves as `.prev`.
abbrev pub aside_at : Renames → SwapError → Option Text → Option Text → Option Text
aside_at out not_set_aside path backup = backup
aside_at out not_installed none backup = backup
aside_at out not_installed (some old) backup = if out.restore_ok then none else some old

abbrev pub Swapped : Renames → Files → Files × Result SwapError (Unit {0}) → Type 0
Swapped out fs (fs', ok _) =
    (fs'.path ≡ fs.tmp) × (fs'.tmp ≡ none) × (fs'.backup ≡ kept_aside fs.path fs.backup)
Swapped out fs (fs', err e) =
    (fs'.tmp ≡ fs.tmp)
    × (fs'.path ≡ left_at out e fs.path)
    × (fs'.backup ≡ aside_at out e fs.path fs.backup)

install_over-none :
    (i r : Bool) (a : Bool) (backup tmp : Option Text)
    → let out : Renames = record { aside_ok = a; install_ok = i; restore_ok = r } in
      let fs : Files = record { path = none; backup = backup; tmp = tmp } in
      Swapped out fs (install_over out fs false)
unfolding install_over
install_over-none true r a backup tmp = (refl, refl, refl)
install_over-none false true a backup tmp = (refl, refl, refl)
install_over-none false false a backup tmp = (refl, refl, refl)

swap-at :
    (a i r : Bool) (path backup tmp : Option Text)
    → let out : Renames = record { aside_ok = a; install_ok = i; restore_ok = r } in
      let fs : Files = record { path = path; backup = backup; tmp = tmp } in
      Swapped out fs (swap out fs)
unfolding swap set_aside install_over
swap-at a i r none backup tmp = install_over-none i r a backup tmp
swap-at true true r (some old) backup tmp = (refl, refl, refl)
swap-at true false true (some old) backup tmp = (refl, refl, refl)
swap-at true false false (some old) backup tmp = (refl, refl, refl)
swap-at false i r (some old) backup tmp = (refl, refl, refl)

-- A swap that succeeds puts the download at the binary's path, with the binary that was there as
-- `.prev`. One that fails keeps the download. If the old binary could not be set aside, it is still
-- at the path and `.prev` is what it was. If it was set aside, it is back at the path and `.prev` is
-- gone, unless the rename that restores it fails too: then it is kept as `.prev` and nothing is at
-- the path. If there was no binary, there still is none and `.prev` is what it was.
pub swap-Swapped : (out : Renames) (fs : Files) → Swapped out fs (swap out fs)
swap-Swapped out fs = swap-at out.aside_ok out.install_ok out.restore_ok fs.path fs.backup fs.tmp
