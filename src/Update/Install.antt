-- ===== src/Update/Install.antt =====
-- `install`, `download_and_verify` and `activate` of src/update.rs, with what the network, the files,
-- the candidate and `execve` answer as the input.
use propmonitor.Base.{
  ℕ, Text, text_eq, Bool, true, false, ◌&&◌, ltb, leb, if◌then◌else◌, Option, none, some, List, [],
  ◌∷◌, ◌++◌, Result, ok, err, map_err, ok_or, ◌>>=◌, ◌>>◌,
}
use propmonitor.Update.{
  Manifest, downloading, installing, InstallError, nothing_known, not_on_linux, no_asset, no_digest,
  no_directory, no_response, bad_status, not_created, not_written, interrupted, not_flushed,
  wrong_digest, not_executable, preflight_not_started, preflight_failed, swap_not_started,
  swap_failed, not_restarted, install_failed, Phase, asset_name,
}
use propmonitor.Update.Channel.{Channel, set_state, fail}
use propmonitor.Update.Digest.{FileRead, hex_of, eq_ignore_ascii_case, already_installed}
use propmonitor.Update.Probe.{Candidate, preflight}
use propmonitor.Update.Swap.{Files, Renames, swap}

-- A piece of the download and the answer to its write, or the error that ends it.
pub data Chunk : Type 0 where
  piece : List ℕ → Result Text (Unit {0}) → Chunk
  cut_off : Text → Chunk

-- What does not change while the program runs.
pub record Place : Type 0 where
  pub can_self_update : Bool
  pub os : Text
  pub arch : Text
  -- whether the path of the binary has a directory that is not empty
  pub has_directory : Bool
  pub config_path : Text

-- What the system answers, each to the one step that asks. A program of given bytes behaves as
-- `runs` says.
pub record Answers : Type 0 where
  pub joined : Bool
  pub opens : Bool
  pub reads : List FileRead
  pub response : Result Text ℕ
  pub created : Result Text (Unit {0})
  pub chunks : List Chunk
  pub flushed : Result Text (Unit {0})
  pub synced : Result Text (Unit {0})
  pub made_executable : Result Text (Unit {0})
  pub preflight_joined : Result Text (Unit {0})
  pub runs : List ℕ → Candidate
  pub swap_joined : Result Text (Unit {0})
  pub renames : Renames
  pub removed : Bool
  -- The error of `execve`, which returns only on failure.
  pub exec : Option Text

-- How an attempt leaves the program: still running, or replaced by the binary at the path.
pub data Image : Type 0 where
  same replaced : Image

-- `BTreeMap::get`
unfoldable pub find_asset : Text → List (Text × Text) → Option Text
find_asset name [] = none
find_asset name ((n, sha) ∷ assets) = if text_eq n name then some sha else find_asset name assets

-- The loop that writes and hashes the download: the bytes written, and whether all were.
unfoldable pub receive : List ℕ → List Chunk → List ℕ × Result InstallError (Unit {0})
receive written [] = (written, ok tt)
receive written (piece bs (ok done) ∷ chunks) = receive (written ++ bs) chunks
receive written (piece bs (err e) ∷ chunks) = (written, err (not_written e))
receive written (cut_off e ∷ chunks) = (written, err (interrupted e))

unfoldable pub check_status : ℕ → Result InstallError (Unit {0})
check_status status = if leb 200 status && ltb status 300 then ok tt else err (bad_status status)

-- The two flushes.
unfoldable pub flush : Answers → Result InstallError (Unit {0})
flush a = do map_err not_written a.flushed; map_err not_flushed a.synced

module _ (sha : List ℕ → List ℕ) where
  unfoldable pub check_digest : Text → List ℕ → Result InstallError (Unit {0})
  check_digest expected downloaded =
      let actual = hex_of (sha downloaded) in
      if eq_ignore_ascii_case expected actual then ok tt else err (wrong_digest expected actual)

  -- The checks on the whole download.
  unfoldable pub verify : Place → Answers → Text → List ℕ → Result InstallError (Unit {0})
  verify p a expected downloaded = do
    flush a
    check_digest expected downloaded
    map_err not_executable a.made_executable
    map_err preflight_not_started a.preflight_joined
    map_err preflight_failed (preflight (a.runs downloaded) p.config_path)
    map_err swap_not_started a.swap_joined

  -- The response, its status and the file.
  unfoldable pub open_download : Answers → Result InstallError (Unit {0})
  open_download a = do
    status ← map_err no_response a.response
    check_status status
    map_err not_created a.created

  unfoldable pub swap_in : Answers → Files → Files × Result InstallError (Unit {0})
  swap_in a fs = let (fs', r) = swap a.renames fs in (fs', map_err swap_failed r)

  -- From the first chunk on.
  unfoldable pub install_received :
      Place
      → Answers
      → Text
      → Files
      → List ℕ × Result InstallError (Unit {0})
      → Files × Result InstallError (Unit {0})
  install_received p a expected fs (downloaded, err e) =
      (record fs { tmp = some downloaded }, err e)
  install_received p a expected fs (downloaded, ok done) = elim (verify p a expected downloaded) [
    | err e ↦ (record fs { tmp = some downloaded }, err e)
    | ok verified ↦ swap_in a (record fs { tmp = some downloaded })
  ]

  unfoldable pub download_and_verify :
      Place → Answers → Text → Files → Files × Result InstallError (Unit {0})
  download_and_verify p a expected fs = elim (open_download a) [
    | err e ↦ (fs, err e)
    | ok opened ↦ install_received p a expected fs (receive [] a.chunks)
  ]

  -- The state of an attempt.
  pub record Attempt : Type 0 where
    pub channel : Channel
    pub files : Files
    pub image : Image
    -- whether the service manager is asked for a restart
    pub restart : Bool

  abbrev pub failed : Channel → Files → InstallError → Attempt
  failed ch fs e = record {
    channel = fail ch (install_failed e);
    files = fs;
    image = same;
    restart = false;
  }

  -- `activate`
  unfoldable pub activate : Channel → Files → Option Text → Attempt
  activate ch fs none = record { channel = ch; files = fs; image = replaced; restart = false }
  activate ch fs (some e) = record {
    channel = fail ch (install_failed (not_restarted e));
    files = fs;
    image = same;
    restart = true;
  }

  abbrev pub in_phase : Channel → Phase → Channel
  in_phase ch phase = set_state ch (record ch.state { phase = phase })

  -- The end of `install`.
  unfoldable pub finish : Answers → Channel → Files × Result InstallError (Unit {0}) → Attempt
  finish a ch (fs, ok done) = activate (in_phase ch installing) fs a.exec
  finish a ch (fs, err e) = failed ch (if a.removed then record fs { tmp = none } else fs) e

  -- The guards of `install`: the digest that the manifest lists for this machine.
  unfoldable pub wanted : Place → Option Manifest → Result InstallError Text
  wanted p latest = do
    manifest ← ok_or latest nothing_known
    if p.can_self_update then ok tt else err not_on_linux
    asset ← ok_or (asset_name p.os p.arch) no_asset
    expected ← ok_or (find_asset asset manifest.assets) (no_digest asset)
    if p.has_directory then ok tt else err no_directory
    ok expected

  unfoldable pub install_wanted :
      Place → Answers → Channel → Files → Result InstallError Text → Attempt
  install_wanted p a ch fs (err e) = failed ch fs e
  install_wanted p a ch fs (ok expected) =
      if a.joined && already_installed sha a.opens a.reads expected
      then activate (in_phase ch installing) fs a.exec
      else finish a (in_phase ch downloading) (download_and_verify p a expected fs)

  -- `install`
  unfoldable pub install : Place → Answers → Channel → Files → Attempt
  install p a ch fs = install_wanted p a ch fs (wanted p ch.state.latest)
