-- ===== src/Update/Probe.antt =====
-- The preflight of src/update.rs: a candidate is run before it is installed.
use propmonitor.Base.{
  Text, codes, is_empty, Bool, List, [], ◌∷◌, take, Result, ok, err, ◌>>=◌, if◌then◌else◌,
}
use propmonitor.Error.Chain.{contains}
use propmonitor.Yaml.{trim}
use propmonitor.Update.{
  ProbeError, will_not_start, not_in_time, cannot_wait, config_refused, accepted_no_file,
  failed_run,
}

pub record Probe : Type 0 where
  pub success : Bool
  pub stderr : Text

-- What one look at the child before the deadline finds. At the end of the list the child still runs
-- at the deadline.
pub data Poll : Type 0 where
  exited : Probe → Poll
  running : Poll
  lost : Text → Poll

-- A child: whether it starts, and the looks at it.
pub record Child : Type 0 where
  pub spawned : Result Text (Unit {0})
  pub polls : List Poll

-- What became of the child.
pub data Fate : Type 0 where
  never_started left_by_itself killed_and_waited : Fate

-- The loop of `run_probe`.
unfoldable pub watch : List Poll → Result ProbeError Probe × Fate
watch [] = (err not_in_time, killed_and_waited)
watch (exited p ∷ polls) = (ok p, left_by_itself)
watch (running ∷ polls) = watch polls
watch (lost e ∷ polls) = (err (cannot_wait e), killed_and_waited)

unfoldable pub watch_spawned : Result Text (Unit {0}) → List Poll → Result ProbeError Probe × Fate
watch_spawned (err e) polls = (err (will_not_start e), never_started)
watch_spawned (ok started) polls = watch polls

-- `run_probe`
unfoldable pub run_probe : Child → Result ProbeError Probe × Fate
run_probe child = watch_spawned child.spawned child.polls

unfoldable pub excerpt : Text → Text
excerpt stderr =
    let text = take 300 (trim stderr) in if is_empty text then codes "no output on stderr" else text

-- The rest of `legacy_preflight` and of `preflight` after the probe has run.
unfoldable pub judge_legacy : Probe → Result ProbeError (Unit {0})
judge_legacy probe =
    if probe.success
    then err accepted_no_file
    else if contains probe.stderr (codes "failed to load config from")
    then ok tt
    else err (failed_run (excerpt probe.stderr))

-- How the candidate behaves for given arguments.
abbrev pub Candidate : Type 0
Candidate = List Text → Child

unfoldable pub legacy_preflight : Candidate → Result ProbeError (Unit {0})
legacy_preflight candidate = do
  probe ← (run_probe (candidate (codes "/nonexistent/propmonitor-preflight.yaml" ∷ []))).0
  judge_legacy probe

unfoldable pub judge : Candidate → Text → Probe → Result ProbeError (Unit {0})
judge candidate config_path probe =
    if probe.success
    then ok tt
    else if contains probe.stderr (codes "failed to load config from --check-config")
    then legacy_preflight candidate
    else err (config_refused config_path (excerpt probe.stderr))

unfoldable pub preflight : Candidate → Text → Result ProbeError (Unit {0})
preflight candidate config_path = do
  probe ← (run_probe (candidate (codes "--check-config" ∷ config_path ∷ []))).0
  judge candidate config_path probe
