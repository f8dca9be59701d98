-- ===== src/Update/Outcomes.antt =====
-- The branches of a check and of a turn of the channel task of src/update.rs.
use propmonitor.Base.{
  ℕ, max, ◌≤◌, ◌<◌, Text, text_eq, text_eq_refl, text_eq→eq, &&_split, leb→le, ltb→lt, Bool, true,
  false, leb, ltb, ◌&&◌, ◌≡◌, ◌≢◌, refl, sym, ◌∙◌, ap, Option, none, some, Result, ok, err,
  if◌then◌else◌, ◌⊎◌, Bool-cases, inl, inr, arith,
}
use propmonitor.Update.{
  Manifest, idle, Failure, unreachable, refused, unreadable, UpdateState, UpdateRequest, nothing,
  check, install, Checked, failed, up_to_date, available, retry_delay,
}
use propmonitor.Update.Channel.{
  Channel, set_state, fail, Fetched, no_answer, answered, record_manifest, read_body, on_answer,
  check_channel, Timer, after_check, Done, skipped, checked, installed, run_turn,
}

-- A status that is a success, and one that is not.
abbrev Success : ℕ → Type 0
Success status = (200 ≤ status) × (status < 300)

abbrev NoSuccess : ℕ → Type 0
NoSuccess status = (status < 200) ⊎ (300 ≤ status)

-- The channel offers a manifest with an answer.
abbrev pub Offers : Fetched → Manifest → Type 0
Offers f m = (status : ℕ) × (f ≡ answered status (ok m)) × Success status

-- Why an answer offers nothing.
abbrev pub Refuses : Fetched → Failure → Type 0
Refuses (no_answer e) failure = failure ≡ unreachable e
Refuses (answered status (ok m)) failure = (failure ≡ refused status) × NoSuccess status
Refuses (answered status (err e)) failure =
    ((failure ≡ refused status) × NoSuccess status) ⊎ ((failure ≡ unreadable e) × Success status)

-- What a check found in an answer, against the state before it.
abbrev pub Found : UpdateState → Text → Text → Fetched → UpdateState → Checked → Type 0
Found old current now f s failed =
    ((e : Failure) × Refuses f e × (s.last_error ≡ some e))
    × (s.latest ≡ old.latest)
    × (s.last_check_at ≡ old.last_check_at)
Found old current now f s up_to_date =
    (s.last_error ≡ none)
    × ((m : Manifest) × Offers f m × (m.commit ≡ current) × (s.latest ≡ none))
    × (s.last_check_at ≡ some now)
Found old current now f s available =
    (s.last_error ≡ none)
    × ((m : Manifest) × Offers f m × (m.commit ≢ current) × (s.latest ≡ some m))
    × (s.last_check_at ≡ some now)

abbrev pub Checks : UpdateState → Text → Text → Fetched → Channel × Checked → Type 0
Checks old current now f (ch, outcome) =
    (ch.state.phase ≡ idle) × Found old current now f ch.state outcome

differs : (a b : Text) → text_eq a b ≡ false → a ≢ b
differs a b h = λ q. cc (sym h ∙ ap (λ c. text_eq c b) q ∙ text_eq_refl b)

record_manifest-Checks :
    (old : UpdateState) (ch : Channel) (current now : Text) (m : Manifest) (f : Fetched)
    → ch.state.last_error ≡ none
    → Offers f m
    → Checks old current now f (record_manifest ch current now m)
unfolding record_manifest set_state
record_manifest-Checks old ch current now m f e offers =
    elim (Bool-cases (text_eq m.commit current)) [
      | inl same ↦ rw same (refl, (e, (m, offers, text_eq→eq m.commit current same, refl), refl))
      | inr other ↦ rw other (refl, (e, (m, offers, differs m.commit current other, refl), refl))
    ]

read_body-Checks :
    (old : UpdateState) (ch : Channel) (current now : Text) (status : ℕ)
    (body : Result Text Manifest)
    → ch.state.last_error ≡ none
    → ch.state.latest ≡ old.latest
    → ch.state.last_check_at ≡ old.last_check_at
    → Success status
    → Checks old current now (answered status body) (read_body ch current now body)
unfolding read_body fail set_state
read_body-Checks old ch current now status (err e) clear latest at good =
    (refl, ((unreadable e, inr (refl, good), refl), latest, at))
read_body-Checks old ch current now status (ok m) clear latest at good =
    record_manifest-Checks old ch current now m _ clear (status, refl, good)

refused-Refuses :
    (status : ℕ) (body : Result Text Manifest)
    → NoSuccess status
    → Refuses (answered status body) (refused status)
refused-Refuses status (ok m) h = (refl, h)
refused-Refuses status (err e) h = inl (refl, h)

Success-cases : (status : ℕ) → (leb 200 status && ltb status 300) ≡ true → Success status
Success-cases status h =
    let (low, high) = &&_split (leb 200 status) (ltb status 300) h in
    (leb→le 200 status low, ltb→lt status 300 high)

NoSuccess-cases : (status : ℕ) → (leb 200 status && ltb status 300) ≡ false → NoSuccess status
NoSuccess-cases status h = elim (Bool-cases (leb 200 status)) [
  | inr low ↦ inl (ground arith)
  | inl high ↦ inr (ground arith)
]

on_answer-Checks :
    (old : UpdateState) (ch : Channel) (current now : Text) (f : Fetched)
    → ch.state.last_error ≡ none
    → ch.state.latest ≡ old.latest
    → ch.state.last_check_at ≡ old.last_check_at
    → Checks old current now f (on_answer ch current now f)
unfolding on_answer fail set_state
on_answer-Checks old ch current now (no_answer e) clear latest at =
    (refl, ((unreachable e, refl, refl), latest, at))
on_answer-Checks old ch current now (answered status body) clear latest at =
    elim (Bool-cases (leb 200 status && ltb status 300)) [
      | inl success ↦ rw success (
          read_body-Checks old ch current now status body clear latest at
            (Success-cases status success))
      | inr failure ↦
          let why = refused-Refuses status body (NoSuccess-cases status failure) in
          rw failure (refl, ((refused status, why, refl), latest, at))
    ]

-- A check always ends idle. It fails exactly if there is no answer, a status that is no success, or
-- a body that is no manifest: then that error is recorded, and the build on offer and the time of
-- the last check are the ones that were there. If not, the answer offers a manifest, no error is
-- left and the time is recorded; a manifest with the running commit leaves no build on offer, and
-- any other is the build on offer.
pub check_channel-Checks :
    (ch : Channel) (current now : Text) (f : Fetched)
    → Checks ch.state current now f (check_channel ch current now f)
unfolding check_channel set_state
check_channel-Checks ch current now f = on_answer-Checks ch.state _ current now f refl refl refl

-- What a turn may do, and when.
abbrev pub Allowed : Bool → Bool → Bool → ℕ → UpdateRequest → Checked → Timer × Done → Type 0
Allowed enabled auto allowed interval request outcome (t, skipped) =
    (enabled ≡ false) × (request ≡ nothing) × (t.wait ≡ max interval 60)
Allowed enabled auto allowed interval request outcome (t, checked) = t.wait ≤ max interval 60
Allowed enabled auto allowed interval request outcome (t, installed) =
    (outcome ≢ failed)
    × (t.retry ≡ none)
    × (t.wait ≡ max interval 60)
    × ((request ≡ install) ⊎ ((outcome ≡ available) × (auto ≡ true) × (allowed ≡ true)))

retry_delay-le : (retry : Option ℕ) (wait : ℕ) → retry_delay retry wait ≤ wait
unfolding retry_delay
retry_delay-le none wait = omega arith
retry_delay-le (some d) wait = omega arith

abbrev turn_done : Timer × Bool → Timer × Done
turn_done (t, installs) = (t, if installs then installed else checked)

after_check-Allowed :
    (enabled auto allowed : Bool) (interval : ℕ) (request : UpdateRequest) (outcome : Checked)
    (retry : Option ℕ)
    → Allowed enabled auto allowed interval request outcome
        (turn_done (after_check auto allowed request (max interval 60) retry outcome))
unfolding after_check
after_check-Allowed enabled auto allowed interval request failed retry =
    retry_delay-le retry (max interval 60)
after_check-Allowed enabled auto allowed interval nothing up_to_date retry = omega arith
after_check-Allowed enabled auto allowed interval check up_to_date retry = omega arith
after_check-Allowed enabled auto allowed interval install up_to_date retry =
    ((λ e. cc e), refl, refl, inl refl)
after_check-Allowed enabled auto allowed interval install available retry =
    ((λ e. cc e), refl, refl, inl refl)
after_check-Allowed enabled true true interval nothing available retry =
    ((λ e. cc e), refl, refl, inr (refl, refl, refl))
after_check-Allowed enabled true true interval check available retry =
    ((λ e. cc e), refl, refl, inr (refl, refl, refl))
after_check-Allowed enabled false allowed interval nothing available retry = omega arith
after_check-Allowed enabled false allowed interval check available retry = omega arith
after_check-Allowed enabled true false interval nothing available retry = omega arith
after_check-Allowed enabled true false interval check available retry = omega arith

-- A turn checks nothing only if updates are switched off and nobody asked. It installs a build only
-- after a check that did not fail, and only if the operator asked for the install, or a different
-- build is on offer and unattended installs are configured and allowed. It never waits longer than
-- the configured interval, or than a minute if that is less.
pub run_turn-Allowed :
    (enabled auto allowed : Bool) (interval : ℕ) (request : UpdateRequest) (outcome : Checked)
    (timer : Timer)
    → Allowed enabled auto allowed interval request outcome
        (run_turn enabled auto allowed interval request outcome timer)
unfolding run_turn
run_turn-Allowed true auto allowed interval request outcome timer =
    after_check-Allowed true auto allowed interval request outcome timer.retry
run_turn-Allowed false auto allowed interval nothing outcome timer = (refl, refl, refl)
run_turn-Allowed false auto allowed interval check outcome timer =
    after_check-Allowed false auto allowed interval check outcome timer.retry
run_turn-Allowed false auto allowed interval install outcome timer =
    after_check-Allowed false auto allowed interval install outcome timer.retry
