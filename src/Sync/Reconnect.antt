-- ===== src/Sync/Reconnect.antt =====
-- The loop of `run` in src/sync.rs around the sessions: the latched edits, the polls and the wait
-- before the next attempt. Times are in whole seconds.
use propmonitor.Base.{
  ℕ, ◌+◌, ◌*◌, ◌≤◌, min, leb, Bool, true, false, if◌then◌else◌, List, [], ◌∷◌, all, ◌≡◌, refl,
  arith, ◌&&◌, ◌&&◌,
}
use propmonitor.Sync.Report.{ReportState, mark_edit}

-- `MIN_BACKOFF`, `MAX_BACKOFF` and `POLL_INTERVAL`
abbrev pub min_backoff : ℕ
min_backoff = 1

abbrev pub max_backoff : ℕ
max_backoff = 300

abbrev pub poll_interval : ℕ
poll_interval = 60

-- `latch_local_edit`, with whether the channel has changed.
unfoldable pub latch_local_edit : Bool → ReportState → ReportState
latch_local_edit changed report = if changed then mark_edit report else report

-- The variables of the loop that the sessions do not change.
pub record Reconnect : Type 0 where
  pub backoff : ℕ
  pub next_poll : ℕ

-- One round: whether a session came up, the time after it, and the time after the poll if there is
-- one.
pub record Attempt : Type 0 where
  pub connected : Bool
  pub ended_at : ℕ
  pub polled_at : ℕ

-- What a round does: it polls or not, and it sleeps.
pub record Rest : Type 0 where
  pub polls : Bool
  pub sleeps : ℕ

unfoldable pub run_round : Attempt → Reconnect → Reconnect × Rest
run_round a r =
    let waited = if a.connected then min_backoff else r.backoff in
    let polls = leb r.next_poll a.ended_at in
    (
      record {
        backoff = min (waited * 2) max_backoff;
        next_poll = if polls then a.polled_at + poll_interval else r.next_poll;
      },
      record { polls = polls; sleeps = waited },
    )

unfoldable pub run_rounds : List Attempt → Reconnect → Reconnect × List Rest
run_rounds [] r = (r, [])
run_rounds (a ∷ attempts) r =
    let (r', rest) = run_round a r in
    let (r'', rests) = run_rounds attempts r' in (r'', rest ∷ rests)

-- The polls of some rounds: when each began and ended.
abbrev pub polls_of : List Attempt → List Rest → List (ℕ × ℕ)
polls_of [] rests = []
polls_of (a ∷ attempts) [] = []
polls_of (a ∷ attempts) (rest ∷ rests) =
    if rest.polls
    then (a.ended_at, a.polled_at) ∷ polls_of attempts rests
    else polls_of attempts rests

-- Each poll begins at `from` or later, and an interval or more after the end of the one before it.
abbrev pub is_spaced : ℕ → List (ℕ × ℕ) → Bool
is_spaced from [] = true
is_spaced from ((start, finish) ∷ polls) =
    leb from start && is_spaced (finish + poll_interval) polls

abbrev pub is_bounded : Rest → Bool
is_bounded rest = leb min_backoff rest.sleeps && leb rest.sleeps max_backoff

spaced_step :
    (due : Bool) (from start finish : ℕ) (later : List (ℕ × ℕ))
    → leb from start ≡ due
    → is_spaced (if due then finish + poll_interval else from) later ≡ true
    → is_spaced from (if due then (start, finish) ∷ later else later) ≡ true
spaced_step true from start finish later e h = rw e h
spaced_step false from start finish later e h = h

-- Through any rounds, every wait before the next attempt is between 1 and 300 seconds if the first
-- is, and a poll begins 60 seconds or more after the end of the one before it, however fast the
-- attempts follow one another.
pub run_rounds_paced :
    (attempts : List Attempt) (r : Reconnect)
    → min_backoff ≤ r.backoff
    → r.backoff ≤ max_backoff
    → let rests = (run_rounds attempts r).1 in
      (all is_bounded rests ≡ true) × (is_spaced r.next_poll (polls_of attempts rests) ≡ true)
unfolding run_rounds run_round
run_rounds_paced [] r low high = (refl, refl)
run_rounds_paced (a ∷ attempts) r low high =
    let next = (run_round a r).0 in
    let (bounded, spaced) = run_rounds_paced attempts next (ground arith) (ground arith) in
    (
      ground arith,
      spaced_step (leb r.next_poll a.ended_at) r.next_poll a.ended_at a.polled_at
          (polls_of attempts (run_rounds attempts next).1) refl spaced,
    )
