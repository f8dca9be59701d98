-- ===== src/Update/Verified.antt =====
-- What an attempt to install of src/update.rs leaves behind.
use propmonitor.Base.{
  ℕ, Text, Bool, true, false, ◌&&◌, &&_split, if◌then◌else◌, Option, none, some, List, [], Result,
  ok, err, map_err, >>-eq-ok, ◌≡◌, refl, ap, ◌∙◌, ◌⊎◌, inl, inr, Bool-cases, arith,
}
use propmonitor.Update.{
  idle, InstallError, install_failed, not_restarted, SwapError, not_set_aside, not_installed,
  swap_failed,
}
use propmonitor.Update.Channel.{Channel, set_state, fail}
use propmonitor.Update.Digest.{hex_of, eq_ignore_ascii_case, already_installed}
use propmonitor.Update.Probe.{preflight}
use propmonitor.Update.Swap.{Files, swap, Swapped, swap-Swapped, kept_aside}
use propmonitor.Update.Install.{
  Place, Answers, same, replaced, check_digest, verify, open_download, swap_in, receive,
  install_received, download_and_verify, Attempt, activate, finish, wanted, install_wanted, install,
  failed,
}

module _ (sha : List ℕ → List ℕ) where
  -- The program of these bytes has the digest and passes its preflight.
  pub record Verified (p : Place) (a : Answers) (expected : Text) (program : List ℕ) : Type 0 where
    pub digest : eq_ignore_ascii_case expected (hex_of (sha program)) ≡ true
    pub preflight_passed : preflight (a.runs program) p.config_path ≡ ok tt

  -- What is at the path of the binary afterwards: what was there, a verified program with the old
  -- one kept aside, or nothing, if neither it nor the old one could be put there.
  abbrev pub Published : Place → Answers → Text → Files → Files → Type 0
  Published p a expected before after =
      (program : List ℕ) × Verified p a expected program
      × (after.path ≡ some program)
      × (after.backup ≡ kept_aside before.path before.backup)

  abbrev pub Lost : Answers → Files → Type 0
  Lost a after = (after.path ≡ none) × (a.renames.restore_ok ≡ false)

  abbrev pub Placed : Place → Answers → Text → Files → Files → Type 0
  Placed p a expected before after =
      (after.path ≡ before.path) ⊎ (Published p a expected before after ⊎ Lost a after)

  map_err-ok :
      {E F : Type 0} (f : E → F) (r : Result E (Unit {0})) → map_err f r ≡ ok tt → r ≡ ok tt
  map_err-ok f (ok done) h = refl
  map_err-ok f (err e) h = cc

  check_digest-ok :
      (expected : Text) (program : List ℕ)
      → check_digest sha expected program ≡ ok tt
      → eq_ignore_ascii_case expected (hex_of (sha program)) ≡ true
  unfolding check_digest
  check_digest-ok expected program h = ground arith

  verify-Verified :
      (p : Place) (a : Answers) (expected : Text) (program : List ℕ)
      → verify sha p a expected program ≡ ok tt
      → Verified p a expected program
  unfolding verify
  verify-Verified p a expected program h =
      let (flushed, h1) = (>>-eq-ok _ _).0 h in
      let (digest, h2) = (>>-eq-ok _ _).0 h1 in
      let (executable, h3) = (>>-eq-ok _ _).0 h2 in
      let (joined, h4) = (>>-eq-ok _ _).0 h3 in
      let (passed, h5) = (>>-eq-ok _ _).0 h4 in
      record {
        digest = check_digest-ok expected program digest;
        preflight_passed = map_err-ok _ _ passed;
      }

  -- The outcome of a download: a failure with its files, or a published program.
  abbrev pub Downloaded :
      Place → Answers → Text → Files → Files × Result InstallError (Unit {0}) → Type 0
  Downloaded p a expected before (after, ok done) = Published p a expected before after
  Downloaded p a expected before (after, err e) = (after.path ≡ before.path) ⊎ Lost a after

  Swapped-Downloaded :
      (p : Place) (a : Answers) (expected : Text) (fs : Files) (program : List ℕ) (after : Files)
      (r : Result SwapError (Unit {0}))
      → Verified p a expected program
      → Swapped a.renames (record fs { tmp = some program }) (after, r)
      → Downloaded p a expected fs (after, map_err swap_failed r)
  Swapped-Downloaded p a expected fs program after (ok done) v (path, tmp, backup) =
      (program, v, path, backup)
  Swapped-Downloaded p a expected fs program after (err not_set_aside) v (tmp, path, backup) =
      inl path
  Swapped-Downloaded p a expected fs program after (err not_installed) v (tmp, path, backup) =
      elim (Bool-cases a.renames.restore_ok) [
        | inl back ↦ inl (path ∙ ap (λ b. if b then fs.path else none) back)
        | inr gone ↦ inr (path ∙ ap (λ b. if b then fs.path else none) gone, gone)
      ]

  swap_in-Downloaded :
      (p : Place) (a : Answers) (expected : Text) (fs : Files) (program : List ℕ)
      → Verified p a expected program
      → Downloaded p a expected fs (swap_in sha a (record fs { tmp = some program }))
  unfolding swap_in
  swap_in-Downloaded p a expected fs program v =
      let r = swap a.renames (record fs { tmp = some program }) in
      Swapped-Downloaded p a expected fs program r.0 r.1 v
        (swap-Swapped a.renames (record fs { tmp = some program }))

  install_received-Downloaded :
      (p : Place) (a : Answers) (expected : Text) (fs : Files)
      (received : List ℕ × Result InstallError (Unit {0}))
      → Downloaded p a expected fs (install_received sha p a expected fs received)
  unfolding install_received
  install_received-Downloaded p a expected fs (program, err e) = inl refl
  install_received-Downloaded p a expected fs (program, ok done) =
      on_verified (verify sha p a expected program) (verify-Verified p a expected program)
    where
      on_verified :
          (r : Result InstallError (Unit {0}))
          → (r ≡ ok tt → Verified p a expected program)
          → Downloaded p a expected fs (elim r [
            | err e ↦ (record fs { tmp = some program }, err e)
            | ok verified ↦ swap_in sha a (record fs { tmp = some program })
          ])
      on_verified (err e) v = inl refl
      on_verified (ok done) v = swap_in-Downloaded p a expected fs program (v refl)

  download_and_verify-Downloaded :
      (p : Place) (a : Answers) (expected : Text) (fs : Files)
      → Downloaded p a expected fs (download_and_verify sha p a expected fs)
  unfolding download_and_verify
  download_and_verify-Downloaded p a expected fs = on_open (open_download sha a)
    where
      on_open :
          (r : Result InstallError (Unit {0}))
          → Downloaded p a expected fs (elim r [
            | err e ↦ (fs, err e)
            | ok opened ↦ install_received sha p a expected fs (receive [] a.chunks)
          ])
      on_open (err e) = inl refl
      on_open (ok opened) = install_received-Downloaded p a expected fs (receive [] a.chunks)

  -- The attempt replaced the running program by the binary at its path: one that was there before
  -- and has the wanted digest, or a verified one that is now published.
  abbrev pub Replaced : Place → Answers → Channel → Files → Attempt sha → Type 0
  Replaced p a ch before t =
      (t.image ≡ replaced)
      × (a.exec ≡ none)
      × ((expected : Text) × (wanted sha p ch.state.latest ≡ ok expected)
          × (((already_installed sha a.opens a.reads expected ≡ true) × (t.files ≡ before))
              ⊎ Published p a expected before t.files))

  -- The attempt failed, with the failure recorded, and the next attempt may start.
  abbrev pub Failed : Attempt sha → Type 0
  Failed t =
      (t.image ≡ same)
      × (t.channel.state.phase ≡ idle)
      × ((e : InstallError) × (t.channel.state.last_error ≡ some (install_failed e)))

  -- What the attempt leaves at the path.
  abbrev pub Leaves : Place → Answers → Channel → Files → Attempt sha → Type 0
  Leaves p a ch before t =
      (t.files.path ≡ before.path)
      ⊎ ((expected : Text) × (wanted sha p ch.state.latest ≡ ok expected)
          × (Published p a expected before t.files ⊎ Lost a t.files))

  abbrev pub Ends : Place → Answers → Channel → Files → Attempt sha → Type 0
  Ends p a ch before t = (Replaced p a ch before t ⊎ Failed t) × Leaves p a ch before t

  -- `activate` on files that hold what the manifest asks for.
  activate-Ends :
      (p : Place) (a : Answers) (ch ch' : Channel) (before after : Files) (expected : Text)
      (exec : Option Text)
      → a.exec ≡ exec
      → wanted sha p ch.state.latest ≡ ok expected
      → (((already_installed sha a.opens a.reads expected ≡ true) × (after ≡ before))
          ⊎ Published p a expected before after)
      → Ends p a ch before (activate sha ch' after exec)
  unfolding activate fail set_state
  activate-Ends p a ch ch' before after expected none e w (inl (i, f)) =
      (inl (refl, e, (expected, w, inl (i, f))), inl (ap Files.path f))
  activate-Ends p a ch ch' before after expected none e w (inr q) =
      (inl (refl, e, (expected, w, inr q)), inr (expected, w, inl q))
  activate-Ends p a ch ch' before after expected (some x) e w (inl (i, f)) =
      (inr (refl, refl, (not_restarted x, refl)), inl (ap Files.path f))
  activate-Ends p a ch ch' before after expected (some x) e w (inr q) =
      (inr (refl, refl, (not_restarted x, refl)), inr (expected, w, inl q))

  finish-Ends :
      (p : Place) (a : Answers) (ch ch' : Channel) (before : Files) (expected : Text)
      (r : Files × Result InstallError (Unit {0}))
      → wanted sha p ch.state.latest ≡ ok expected
      → Downloaded p a expected before r
      → Ends p a ch before (finish sha a ch' r)
  unfolding finish fail set_state
  finish-Ends p a ch ch' before expected (after, ok done) w d =
      activate-Ends p a ch _ before after expected a.exec refl w (inr d)
  finish-Ends p a ch ch' before expected (after, err e) w d =
      (inr (refl, refl, (e, refl)), left a.removed d)
    where
      left :
          (removed : Bool)
          → ((after.path ≡ before.path) ⊎ Lost a after)
          → Leaves p a ch before
              (failed sha ch' (if removed then record after { tmp = none } else after) e)
      left true (inl kept) = inl kept
      left true (inr lost) = inr (expected, w, inr lost)
      left false (inl kept) = inl kept
      left false (inr lost) = inr (expected, w, inr lost)

  install_wanted-Ends :
      (p : Place) (a : Answers) (ch : Channel) (fs : Files) (r : Result InstallError Text)
      → wanted sha p ch.state.latest ≡ r
      → Ends p a ch fs (install_wanted sha p a ch fs r)
  unfolding install_wanted fail set_state
  install_wanted-Ends p a ch fs (err e) w = (inr (refl, refl, (e, refl)), inl refl)
  install_wanted-Ends p a ch fs (ok expected) w =
      elim (Bool-cases (a.joined && already_installed sha a.opens a.reads expected)) [
        | inl there ↦ rw there (
            activate-Ends p a ch _ fs fs expected a.exec refl w
              (inl ((&&_split _ _ there).1, refl)))
        | inr new ↦ rw new (
            finish-Ends p a ch _ fs expected (download_and_verify sha p a expected fs) w
              (download_and_verify-Downloaded p a expected fs))
      ]

  -- An attempt to install replaces the running program or fails. It replaces it only by a build
  -- whose digest the manifest lists for this machine: one that was at the path before, in which case
  -- no file is touched, or a download that has the digest and passed its preflight, with the old
  -- binary kept aside. If it fails, the failure is recorded and the next attempt may start. The path
  -- holds what it held before, or such a download, or nothing if the rename that restores the old
  -- binary failed.
  pub install-Ends :
      (p : Place) (a : Answers) (ch : Channel) (fs : Files) → Ends p a ch fs (install sha p a ch fs)
  unfolding install
  install-Ends p a ch fs = install_wanted-Ends p a ch fs (wanted sha p ch.state.latest) refl
