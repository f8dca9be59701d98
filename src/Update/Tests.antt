-- ===== src/Update/Tests.antt =====
-- Runs of the self-update channel of src/update.rs.
use propmonitor.Base.{
  ℕ, ◌*◌, ◌^◌, min, codes, text_eq, List, length, map, ◌&&◌, if◌then◌else◌, ◌∷◌, [], true, false,
  none, some, ok, ◌≡◌, refl, arith,
}
use propmonitor.Update.{
  Manifest, new, nothing, available, first_retry, asset_name, asset_url, directory_of,
}
use propmonitor.Update.Digest.{
  hex_of, hex_digit, to_ascii_lowercase, eq_ignore_ascii_case, bytes, again, hash_reads,
  file_sha256, is_digest, already_installed,
}
use propmonitor.Update.Hex.{
  read_hex, content, reads_through, eq_ignore_ascii_case-hex_of, file_sha256-content,
}
use propmonitor.Update.Probe.{running, exited, preflight, run_probe, watch_spawned, watch, judge}
use propmonitor.Update.Install.{
  Place, Answers, piece, install, install_wanted, wanted, finish, download_and_verify,
  open_download, install_received, receive, verify, flush, check_digest, check_status, find_asset,
  swap_in, activate,
}
use propmonitor.Update.Verified.{Ends, install-Ends}
use propmonitor.Update.ExePath.{resolve_install_path, usable_exe_path, strip_suffix}
use propmonitor.Update.Delay.{delay_after, delay_after-min}
use propmonitor.Update.Channel.{Channel, answered, check_channel, run_turn}
use propmonitor.Update.Outcomes.{Checks, check_channel-Checks, Allowed, run_turn-Allowed}
use propmonitor.Update.Swap.{Files, Renames, Swapped, swap, set_aside, install_over, swap-Swapped}

sibling :
    asset_url (codes "https://h/latest/manifest.json") (codes "propmonitor-armv7-linux")
    ≡ codes "https://h/latest/propmonitor-armv7-linux"
unfolding asset_url directory_of
sibling = refl

arm : asset_name (codes "linux") (codes "arm") ≡ some (codes "propmonitor-armv7-linux")
unfolding asset_name
arm = refl

abbrev offered : Manifest
offered = record {
  version = codes "0.3.0";
  commit = codes "abc";
  built_at = codes "2026-05-13T00:00:00Z";
  assets = [];
}

abbrev idle_channel : Channel
idle_channel = record { state = new; told = [] }

check_channel-Checks_example :
    Checks new (codes "def") (codes "2026-05-14T00:00:00Z") (answered 200 (ok offered)) (
      check_channel idle_channel
        (codes "def")
        (codes "2026-05-14T00:00:00Z")
        (answered 200 (ok offered)))
check_channel-Checks_example =
    check_channel-Checks idle_channel (codes "def") (codes "2026-05-14T00:00:00Z")
      (answered 200 (ok offered))

run_turn-Allowed_example :
    Allowed true true true 3600 nothing available
      (run_turn true true true 3600 nothing available (record { wait = 0; retry = some 60 }))
run_turn-Allowed_example =
    run_turn-Allowed true true true 3600 nothing available (record { wait = 0; retry = some 60 })

delay_after-min_example : delay_after 3600 5 ≡ min (first_retry * 2 ^ 5) 3600
delay_after-min_example = delay_after-min 3600 5 (omega arith)

abbrev files : Files
files = record { path = some (codes "old"); backup = none; tmp = some (codes "new") }

abbrev refused : Renames
refused = record { aside_ok = true; install_ok = false; restore_ok = true }

swap-Swapped_example : Swapped refused files (swap refused files)
swap-Swapped_example = swap-Swapped refused files

unlinked :
    resolve_install_path
      (record { is_file = λ p. text_eq p (codes "/opt/pm"); canonicalize = λ p. some p })
      (some (codes "/opt/pm (deleted)"))
      none
    ≡ codes "/opt/pm"
unfolding resolve_install_path usable_exe_path strip_suffix
unlinked = refl

-- A digest of one byte, for the runs: the number of the bytes.
abbrev count_bytes : List ℕ → List ℕ
count_bytes bs = length bs ∷ []

abbrev raspberry : Place
raspberry = record {
  can_self_update = true;
  os = codes "linux";
  arch = codes "arm";
  has_directory = true;
  config_path = codes "/etc/propmonitor.yaml";
}

abbrev good_answers : Answers
good_answers = record {
  joined = true;
  opens = true;
  reads = bytes (1 ∷ []) ∷ [];
  response = ok 200;
  created = ok tt;
  chunks = piece (7 ∷ 8 ∷ []) (ok tt) ∷ piece (9 ∷ []) (ok tt) ∷ [];
  flushed = ok tt;
  synced = ok tt;
  made_executable = ok tt;
  preflight_joined = ok tt;
  runs = λ program args. record {
    spawned = ok tt;
    polls = running ∷ exited (record { success = true; stderr = [] }) ∷ [];
  };
  swap_joined = ok tt;
  renames = record { aside_ok = true; install_ok = true; restore_ok = true };
  removed = true;
  exec = none;
}

abbrev listed : Channel
listed = record {
  state = record new {
    latest = some (record offered { assets = (codes "propmonitor-armv7-linux", codes "03") ∷ [] });
  };
  told = [];
}

abbrev old_build : Files
old_build = record { path = some (1 ∷ []); backup = none; tmp = none }

install-Ends_example :
    Ends count_bytes raspberry good_answers listed old_build
      (install count_bytes raspberry good_answers listed old_build)
install-Ends_example = install-Ends count_bytes raspberry good_answers listed old_build

upgraded :
    (install count_bytes raspberry good_answers listed old_build).files.path ≡ some (7 ∷ 8 ∷ 9 ∷ [])
unfolding install install_wanted wanted finish download_and_verify open_download install_received
    receive verify flush check_digest check_status find_asset asset_name eq_ignore_ascii_case
    to_ascii_lowercase hex_of hex_digit already_installed file_sha256 hash_reads is_digest preflight
    run_probe watch_spawned watch judge swap_in swap set_aside install_over activate
upgraded = refl

eq_ignore_ascii_case-hex_of_example :
    read_hex (map to_ascii_lowercase (codes "AF0b")) ≡ 0xaf ∷ 0x0b ∷ []
eq_ignore_ascii_case-hex_of_example =
    eq_ignore_ascii_case-hex_of (codes "AF0b") (0xaf ∷ 0x0b ∷ []) refl
      (unfold eq_ignore_ascii_case to_ascii_lowercase hex_of hex_digit in refl)

digest_in_parts :
    file_sha256 count_bytes true (bytes (1 ∷ 2 ∷ []) ∷ again ∷ bytes (3 ∷ []) ∷ []) ≡ (
      if true && reads_through (bytes (1 ∷ 2 ∷ []) ∷ again ∷ bytes (3 ∷ []) ∷ [])
      then some (hex_of (count_bytes (content (bytes (1 ∷ 2 ∷ []) ∷ again ∷ bytes (3 ∷ []) ∷ []))))
      else none)
digest_in_parts =
    file_sha256-content count_bytes true (bytes (1 ∷ 2 ∷ []) ∷ again ∷ bytes (3 ∷ []) ∷ [])
