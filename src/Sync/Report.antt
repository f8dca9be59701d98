-- ===== src/Sync/Report.antt =====
-- `ReportState` of src/sync.rs, and the sync task as the steps that change it.
pub mod Sound
pub mod Delivery
use propmonitor.Base.{
  ℕ, ◌+◌, ◌≤◌, ◌<◌, Bool, true, false, not, ◌&&◌, ◌≡◌, refl, ◌∙◌, ltb, ltb→lt, Bool-cases, inl, inr,
  if◌then◌else◌, arith,
}

pub record ReportState : Type 0 where
  pub pending : Bool
  pub awaiting_ack : Bool
  pub dirty : Bool

abbrev pub initial : ReportState
initial = record { pending = false; awaiting_ack = false; dirty = false }

unfoldable pub mark_edit : ReportState → ReportState
mark_edit r = if r.awaiting_ack then record r { dirty = true } else record r { pending = true }

unfoldable pub acked : ReportState → ReportState
acked r =
    if r.dirty
    then record r { awaiting_ack = false; dirty = false; pending = true }
    else record r { awaiting_ack = false; pending = false }

-- The start of `run_session`.
unfoldable pub begin_session : ReportState → ReportState
begin_session r =
    let r = record r { awaiting_ack = false } in
    if r.dirty then record r { pending = true; dirty = false } else r

-- The test and the assignment at the head of the session's loop.
unfoldable pub owes_report : ReportState → Bool
owes_report r = r.pending && not r.awaiting_ack

unfoldable pub report_sent : ReportState → ReportState
report_sent r = record r { awaiting_ack = true }

-- The task with the history that decides whether it works: `edits` counts the local edits made, and
-- is the value of the watch channel; `seen` is the value that the task read from it last; `carried`
-- counts the edits made when the configuration of the report in flight was read, `delivered` those
-- of the last report that the website accepted, `greeted` those of the last `hello`, which carries
-- the configuration too, and `waited` those that `wait_for_token` has read from the channel.
pub record Link : Type 0 where
  pub report : ReportState
  pub edits : ℕ
  pub seen : ℕ
  pub carried : ℕ
  pub delivered : ℕ
  pub greeted : ℕ
  pub waited : ℕ

abbrev pub start : Link
start = record {
  report = initial;
  edits = 0;
  seen = 0;
  carried = 0;
  delivered = 0;
  greeted = 0;
  waited = 0;
}

pub data Step : Link → Link → Type 0 where
  -- a local edit, at any time
  edit : (l : Link) → Step l (record l { edits = l.edits + 1 })
  -- `edits.changed()` in a session, or `latch_local_edit` between sessions
  notice :
      (l : Link)
      → l.seen < l.edits
      → Step l (record l { seen = l.edits; report = mark_edit l.report })
  -- `edits.changed()` in `wait_for_token`: the edit is seen, and not marked. The code does so between
  -- sessions and without a token only; the step may be taken at any time.
  wait : (l : Link) → l.seen < l.edits → Step l (record l { seen = l.edits; waited = l.edits })
  -- `run_session` begins
  session : (l : Link) → Step l (record l { report = begin_session l.report })
  -- the session sends `hello` with the configuration as it is
  greet : (l : Link) → Step l (record l { greeted = l.edits })
  -- the head of the session's loop sends a report of the configuration as it is
  send :
      (l : Link)
      → owes_report l.report ≡ true
      → Step l (record l { carried = l.edits; report = report_sent l.report })
  -- `config_accepted` for the report in flight
  accepted :
      (l : Link)
      → l.report.awaiting_ack ≡ true
      → Step l (record l { delivered = l.carried; report = acked l.report })
  -- `poll_cycle` posts a report of the configuration as it was after `n` edits, and it is accepted
  posted :
      (l : Link) (n : ℕ)
      → l.report.pending ≡ true
      → l.seen ≤ n
      → n ≤ l.edits
      → Step l (record l { delivered = n; report = acked l.report })

pub data Run : Link → Link → Type 0 where
  done : (l : Link) → Run l l
  step : (a b c : Link) → Run a b → Step b c → Run a c
