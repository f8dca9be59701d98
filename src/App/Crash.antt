-- ===== src/App/Crash.antt =====
-- The file of the configuration of src/server.rs while `write_atomic` of src/yaml.rs replaces it.
mod Tests
use propmonitor.Base.{
  ℕ, Text, List, [], ◌∷◌, map, take, Bool, true, false, Option, none, some, Result, ok, err,
  if◌then◌else◌, ◌⊎◌, inl, inr, ◌≡◌, refl, sym, ap, ◌∙◌,
}
use propmonitor.Float.{Float}
use propmonitor.App.{App, Outcome, write_config_file}
use propmonitor.Yaml.Atomic.{
  AtomicError, not_created, not_written, not_synced, not_renamed, File, Disk, Answers, Run, fail,
  visit, visit_all, with_tmp, renamed, rename_tmp, partly_written, sync_tmp, write_tmp,
  write_atomic,
}

-- A file that a crash does not change.
abbrev pub stored : Text → File
stored contents = record { contents = contents; synced = true }

-- The path holds the old file, or the new one as a whole.
abbrev pub Whole : Option File → Text → Disk → Type 0
Whole old contents d = (d.path ≡ old) ⊎ (d.path ≡ some (stored contents))

abbrev pub Every : (Disk → Type 0) → List Disk → Type 0
Every P [] = Unit
Every P (d ∷ ds) = P d × Every P ds

abbrev Ends : Option File → Text → Result AtomicError (Unit {0}) → Disk → Type 0
Ends old contents (err e) d = d.path ≡ old
Ends old contents (ok _) d = d.path ≡ some (stored contents)

abbrev pub succeeds : Result AtomicError (Unit {0}) → Bool
succeeds (ok _) = true
succeeds (err e) = false

module _ (old : Option File) (contents : Text) where
  record IsAtomic (r : Run) : Type 0 where
    visited : Every (Whole old contents) r.visited
    ends : Ends old contents r.result r.disk

  visit-IsAtomic : (d : Disk) (r : Run) → d.path ≡ old → IsAtomic r → IsAtomic (visit d r)
  visit-IsAtomic d r h k = record { visited = (inl h, k.visited); ends = k.ends }

  fail-IsAtomic : (d : Disk) (e : AtomicError) → d.path ≡ old → IsAtomic (fail d e)
  fail-IsAtomic d e h = record { visited = tt; ends = h }

  either-IsAtomic : (b : Bool) (r s : Run) → IsAtomic r → IsAtomic s → IsAtomic (if b then r else s)
  either-IsAtomic true r s h k = h
  either-IsAtomic false r s h k = k

  parts-IsAtomic :
      (d : Disk) (ns : List ℕ) (r : Run)
      → d.path ≡ old
      → IsAtomic r
      → IsAtomic (visit_all (map (λ n. with_tmp d (take n contents) false) ns) r)
  parts-IsAtomic d [] r h k = k
  parts-IsAtomic d (n ∷ ns) r h k = visit-IsAtomic _ _ h (parts-IsAtomic d ns r h k)

  rename_tmp-IsAtomic :
      (a : Answers) (d : Disk)
      → d.path ≡ old
      → d.tmp ≡ some (stored contents)
      → IsAtomic (rename_tmp contents a d)
  unfolding rename_tmp
  rename_tmp-IsAtomic a d h t = visit-IsAtomic d _ h (
      either-IsAtomic a.rename_ok _ _ (record { visited = tt; ends = t })
        (fail-IsAtomic d not_renamed h))

  partly_written_path :
      (a : Answers) (d : Disk) (ns : List ℕ)
      → d.path ≡ old
      → (partly_written contents a d ns).path ≡ old
  partly_written_path a d [] h = h
  partly_written_path a d (n ∷ ns) h =
      partly_written_path a (with_tmp d (take n contents) false) ns h

  write_atomic-IsAtomic :
      (a : Answers) (d : Disk) → d.path ≡ old → IsAtomic (write_atomic contents a d)
  unfolding write_atomic write_tmp sync_tmp
  write_atomic-IsAtomic a d h =
      let created = with_tmp d [] false in
      visit-IsAtomic d _ h (
        either-IsAtomic a.create_ok _ _
          (visit-IsAtomic created _ h (
            parts-IsAtomic created a.parts _ h (
              either-IsAtomic a.write_ok _ _
                (visit-IsAtomic (with_tmp d contents false) _ h (
                  either-IsAtomic a.sync_ok _ _
                    (rename_tmp-IsAtomic a (with_tmp d contents true) h refl)
                    (fail-IsAtomic (with_tmp d contents false) not_synced h)))
                (fail-IsAtomic _ not_written (partly_written_path a created a.parts h)))))
          (fail-IsAtomic d not_created h))

module _ (fl : Float) where
  open fl use {F}

  Ends-write_config_file :
      (out : Outcome) (app : App F) (yaml : Text) (old : Option File)
      (r : Result AtomicError (Unit {0})) (d : Disk)
      → old ≡ some (stored app.disk)
      → out.write_ok ≡ succeeds r
      → Ends old yaml r d
      → d.path ≡ some (stored (write_config_file fl out app yaml).0.disk)
  unfolding write_config_file
  Ends-write_config_file out app yaml old (ok u) d old_file w h = rw w h
  Ends-write_config_file out app yaml old (err e) d old_file w h = rw w (h ∙ old_file)

  -- The configuration changes see `write_atomic` as one step that replaces the file or leaves it, and
  -- it does so step by step, on every branch: when the file of the node is stored before, then in
  -- every state that the disk passes through, where the machine may crash, the path holds the old
  -- text or the new one, complete and on stable storage, and in the end it holds what the one step
  -- leaves there.
  pub write_atomic-write_config_file :
      (out : Outcome) (app : App F) (yaml : Text) (a : Answers) (d : Disk)
      → d.path ≡ some (stored app.disk)
      → out.write_ok ≡ succeeds (write_atomic yaml a d).result
      → Every (Whole (some (stored app.disk)) yaml) (write_atomic yaml a d).visited
        × ((write_atomic yaml a d).disk.path
            ≡ some (stored (write_config_file fl out app yaml).0.disk))
  write_atomic-write_config_file out app yaml a d h w =
      let r = write_atomic yaml a d in
      let atomic = write_atomic-IsAtomic (some (stored app.disk)) yaml a d h in
      (
        atomic.visited,
        Ends-write_config_file out app yaml (some (stored app.disk)) r.result r.disk refl w
            atomic.ends,
      )
