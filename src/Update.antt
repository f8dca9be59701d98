-- ===== src/Update.antt =====
-- src/update.rs: the self-update channel: its state, the assets and the retry delay.
mod Tests
pub mod Digest
pub mod Probe
pub mod Install
pub mod Verified
pub mod Hex
pub mod ExePath
pub mod Delay
pub mod Channel
pub mod Swap
pub mod Outcomes
use propmonitor.Base.{
  ℕ, ◌*◌, ◌-◌, ◌^◌, min, max, Text, codes, text_eq, List, [], ◌∷◌, ◌++◌, Bool, true, false, not,
  ◌&&◌, ◌||◌, ◌==◌, if◌then◌else◌, Option, none, some,
}

-- The assets are a `BTreeMap` in the source.
pub record Manifest : Type 0 where
  pub version : Text
  pub commit : Text
  pub built_at : Text
  pub assets : List (Text × Text)

pub data Phase : Type 0 where
  idle checking downloading installing : Phase

unfoldable pub is_busy : Phase → Bool
is_busy idle = false
is_busy checking = true
is_busy downloading = true
is_busy installing = true

pub data SwapError : Type 0 where
  not_set_aside not_installed : SwapError

-- Why a candidate binary is refused, with its output where the message shows it.
pub data ProbeError : Type 0 where
  will_not_start : Text → ProbeError
  not_in_time : ProbeError
  cannot_wait : Text → ProbeError
  config_refused : Text → Text → ProbeError
  accepted_no_file : ProbeError
  failed_run : Text → ProbeError

-- Why an install failed.
pub data InstallError : Type 0 where
  nothing_known not_on_linux no_asset : InstallError
  no_digest : Text → InstallError
  no_directory : InstallError
  no_response : Text → InstallError
  bad_status : ℕ → InstallError
  not_created : Text → InstallError
  not_written : Text → InstallError
  interrupted : Text → InstallError
  not_flushed : Text → InstallError
  wrong_digest : Text → Text → InstallError
  not_executable : Text → InstallError
  preflight_not_started : Text → InstallError
  preflight_failed : ProbeError → InstallError
  swap_not_started : Text → InstallError
  swap_failed : SwapError → InstallError
  not_restarted : Text → InstallError

-- Why the last check or install failed; the program formats each as a text.
pub data Failure : Type 0 where
  unreachable : Text → Failure
  refused : ℕ → Failure
  unreadable : Text → Failure
  install_failed : InstallError → Failure

-- `UpdateState`, without `current`, which never changes.
pub record UpdateState : Type 0 where
  pub latest : Option Manifest
  pub phase : Phase
  pub last_check_at : Option Text
  pub last_error : Option Failure

unfoldable pub new : UpdateState
new = record { latest = none; phase = idle; last_check_at = none; last_error = none }

pub data UpdateRequest : Type 0 where
  nothing check install : UpdateRequest

pub data Checked : Type 0 where
  failed up_to_date available : Checked

unfoldable pub asset_name : Text → Text → Option Text
asset_name os arch =
    if not (text_eq os (codes "linux"))
    then none
    else if text_eq arch (codes "x86_64")
    then some (codes "propmonitor-x86_64-linux")
    else if text_eq arch (codes "aarch64")
    then some (codes "propmonitor-aarch64-linux")
    else if text_eq arch (codes "arm")
    then some (codes "propmonitor-armv7-linux")
    else none

-- The text up to its last slash, the slash included, if it has one.
unfoldable pub directory_of : Text → Option Text
directory_of [] = none
directory_of (c ∷ s) = elim (directory_of s) [
  | some dir ↦ some (c ∷ dir)
  | none ↦ if c == b'/' then some (c ∷ []) else none
]

unfoldable pub asset_url : Text → Text → Text
asset_url manifest_url asset = elim (directory_of manifest_url) [
  | some dir ↦ dir ++ asset
  | none ↦ asset
]

-- Durations are in seconds. `saturating_mul` stops at the largest `Duration`.
abbrev pub first_retry : ℕ
first_retry = 30

abbrev pub max_duration : ℕ
max_duration = 2 ^ 64 - 1

unfoldable pub retry_delay : Option ℕ → ℕ → ℕ
retry_delay none interval = min first_retry interval
retry_delay (some d) interval = min (min (d * 2) max_duration) interval
