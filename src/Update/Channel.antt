-- ===== src/Update/Channel.antt =====
-- The channel task of src/update.rs: `check`, the decisions of `run`, and the requests of
-- src/server.rs that depend on its state.
use propmonitor.Base.{
  ℕ, max, Text, text_eq, Bool, true, false, not, List, [], ◌∷◌, ◌++◌, leb, ltb, ◌&&◌, ◌||◌, Option,
  none, some, Result, ok, err, if◌then◌else◌,
}
use propmonitor.Update.{
  Manifest, idle, checking, is_busy, Failure, unreachable, refused, unreadable, UpdateState,
  UpdateRequest, nothing, check, install, Checked, failed, up_to_date, available, retry_delay,
}

-- The state, and the states that the browsers were told of.
pub record Channel : Type 0 where
  pub state : UpdateState
  pub told : List UpdateState

unfoldable pub set_state : Channel → UpdateState → Channel
set_state ch s = record { state = s; told = ch.told ++ s ∷ [] }

unfoldable pub fail : Channel → Failure → Channel
fail ch e = set_state ch (record ch.state { phase = idle; last_error = some e })

-- What the release channel answers: nothing, or a status with a body that is a manifest or is not.
pub data Fetched : Type 0 where
  no_answer : Text → Fetched
  answered : ℕ → Result Text Manifest → Fetched

-- From the moment that the manifest is read.
unfoldable pub record_manifest : Channel → Text → Text → Manifest → Channel × Checked
record_manifest ch current now manifest =
    let differs = not (text_eq manifest.commit current) in
    (
      set_state ch (record ch.state {
        latest = if differs then some manifest else none;
        phase = idle;
        last_check_at = some now;
      }),
      if differs then available else up_to_date,
    )

unfoldable pub read_body : Channel → Text → Text → Result Text Manifest → Channel × Checked
read_body ch current now (err e) = (fail ch (unreadable e), failed)
read_body ch current now (ok manifest) = record_manifest ch current now manifest

unfoldable pub on_answer : Channel → Text → Text → Fetched → Channel × Checked
on_answer ch current now (no_answer e) = (fail ch (unreachable e), failed)
on_answer ch current now (answered status body) =
    if leb 200 status && ltb status 300
    then read_body ch current now body
    else (fail ch (refused status), failed)

-- `check`, with the commit of the running build and the time.
unfoldable pub check_channel : Channel → Text → Text → Fetched → Channel × Checked
check_channel ch current now fetched =
    on_answer (set_state ch (record ch.state { phase = checking; last_error = none })) current now
      fetched

-- The timer of `run`: the wait before the next check, and the delay after the last failure.
pub record Timer : Type 0 where
  pub wait : ℕ
  pub retry : Option ℕ

abbrev pub wants_install : UpdateRequest → Bool
wants_install nothing = false
wants_install check = false
wants_install install = true

abbrev pub is_nothing : UpdateRequest → Bool
is_nothing nothing = true
is_nothing check = false
is_nothing install = false

abbrev pub is_available : Checked → Bool
is_available failed = false
is_available up_to_date = false
is_available available = true

-- The part of `run` after `check`, with whether `install` is called.
unfoldable pub after_check : Bool → Bool → UpdateRequest → ℕ → Option ℕ → Checked → Timer × Bool
after_check auto allowed request wait retry failed =
    let delay = retry_delay retry wait in (record { wait = delay; retry = some delay }, false)
after_check auto allowed request wait retry up_to_date =
    (record { wait = wait; retry = none }, wants_install request)
after_check auto allowed request wait retry available =
    (record { wait = wait; retry = none }, wants_install request || (auto && allowed))

-- What happened in one turn of `run`: no check, or one, and after it an install or not.
pub data Done : Type 0 where
  skipped checked installed : Done

unfoldable pub run_turn : Bool → Bool → Bool → ℕ → UpdateRequest → Checked → Timer → Timer × Done
run_turn enabled auto allowed check_interval request outcome timer =
    let wait = max check_interval 60 in
    if not enabled && is_nothing request
    then (record timer { wait = wait }, skipped)
    else let (timer', installs) = after_check auto allowed request wait timer.retry outcome in
      (timer', if installs then installed else checked)

-- `POST /api/update/install`: the reasons to refuse, and the request left for the task.
pub data Refusal : Type 0 where
  already_running not_linux no_update : Refusal

unfoldable pub latest_known : Option Manifest → Result Refusal UpdateRequest
latest_known none = err no_update
latest_known (some m) = ok install

unfoldable pub post_update_install : Bool → UpdateState → Result Refusal UpdateRequest
post_update_install can_self_update s =
    if is_busy s.phase
    then err already_running
    else if not can_self_update
    then err not_linux
    else latest_known s.latest
