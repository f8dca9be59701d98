-- ===== src/Yaml/Atomic.antt =====
-- `write_atomic` of src/yaml.rs, with the states that the disk passes through.
use propmonitor.Base.{
  ℕ, Text, List, [], ◌∷◌, map, take, Bool, true, false, Option, none, some, Result, ok, err,
  if◌then◌else◌,
}

pub data AtomicError : Type 0 where
  not_created not_written not_synced not_renamed : AtomicError

-- What a path holds, and whether it is on stable storage.
pub record File : Type 0 where
  pub contents : Text
  pub synced : Bool

-- The path of the configuration and its `.tmp`.
pub record Disk : Type 0 where
  pub path : Option File
  pub tmp : Option File

-- What the system answers. `parts` are the lengths that the temporary file has while `write_all`
-- writes it.
pub record Answers : Type 0 where
  pub create_ok : Bool
  pub parts : List ℕ
  pub write_ok : Bool
  pub sync_ok : Bool
  pub rename_ok : Bool

-- The states before the last one, the last one, and the result.
pub record Run : Type 0 where
  pub visited : List Disk
  pub disk : Disk
  pub result : Result AtomicError (Unit {0})

abbrev pub fail : Disk → AtomicError → Run
fail d e = record { visited = []; disk = d; result = err e }

abbrev pub visit : Disk → Run → Run
visit d r = record r { visited = d ∷ r.visited }

abbrev pub visit_all : List Disk → Run → Run
visit_all [] r = r
visit_all (d ∷ ds) r = visit d (visit_all ds r)

abbrev pub with_tmp : Disk → Text → Bool → Disk
with_tmp d contents synced = record d {
  tmp = some (record { contents = contents; synced = synced });
}

abbrev pub renamed : Disk → Disk
renamed d = record { path = d.tmp; tmp = none }

module _ (contents : Text) (a : Answers) where
  unfoldable pub rename_tmp : Disk → Run
  rename_tmp d = visit d (
      if a.rename_ok
      then record { visited = []; disk = renamed d; result = ok tt }
      else fail d not_renamed)

  unfoldable pub sync_tmp : Disk → Run
  sync_tmp d =
      visit d (if a.sync_ok then rename_tmp (with_tmp d contents true) else fail d not_synced)

  -- The temporary file when `write_all` gives up.
  abbrev pub partly_written : Disk → List ℕ → Disk
  partly_written d [] = d
  partly_written d (n ∷ ns) = partly_written (with_tmp d (take n contents) false) ns

  unfoldable pub write_tmp : Disk → Run
  write_tmp d = visit_all (d ∷ map (λ n. with_tmp d (take n contents) false) a.parts) (
      if a.write_ok
      then sync_tmp (with_tmp d contents false)
      else fail (partly_written d a.parts) not_written)

  unfoldable pub write_atomic : Disk → Run
  write_atomic d =
      visit d (if a.create_ok then write_tmp (with_tmp d [] false) else fail d not_created)
