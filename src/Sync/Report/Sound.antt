-- ===== src/Sync/Report/Sound.antt =====
-- What the flags of `ReportState` of src/sync.rs promise of the edits and reports so far.
use propmonitor.Base.{ℕ, ◌≤◌, max, Bool, true, false, not, ◌&&◌, ◌≡◌, arith}
use propmonitor.Sync.Report.{
  ReportState, mark_edit, acked, begin_session, owes_report, report_sent, Link, start, Step, edit,
  notice, wait, greet, session, send, accepted, posted, Run, done, step,
}

-- What the flags promise of the history: pending, awaiting an acknowledgement, dirty. What
-- `wait_for_token` has read is not promised.
abbrev pub Flags : Bool → Bool → Bool → ℕ → ℕ → ℕ → ℕ → Type 0
Flags false false false seen carried delivered waited = seen ≤ max delivered waited
Flags true false false seen carried delivered waited = Unit
Flags true true false seen carried delivered waited = seen ≤ max carried waited
Flags true true true seen carried delivered waited = Unit
Flags true false true seen carried delivered waited = ⊥
Flags false true dirty seen carried delivered waited = ⊥
Flags false false true seen carried delivered waited = ⊥

abbrev pub Promise : ReportState → ℕ → ℕ → ℕ → ℕ → Type 0
Promise r = Flags r.pending r.awaiting_ack r.dirty

pub record IsSound (l : Link) : Type 0 where
  pub seen : l.seen ≤ l.edits
  pub carried : l.carried ≤ l.edits
  pub delivered : l.delivered ≤ l.edits
  pub waited : l.waited ≤ l.edits
  pub flags : Promise l.report l.seen l.carried l.delivered l.waited

mark-Promise :
    (p a d : Bool) (seen carried delivered waited later : ℕ)
    → Flags p a d seen carried delivered waited
    → Promise
        (mark_edit (record { pending = p; awaiting_ack = a; dirty = d }))
        later
        carried
        delivered
        waited
unfolding mark_edit
mark-Promise true true d seen carried delivered waited later h = tt
mark-Promise true false false seen carried delivered waited later h = tt
mark-Promise true false true seen carried delivered waited later h = h
mark-Promise false true d seen carried delivered waited later h = absurd h
mark-Promise false false false seen carried delivered waited later h = tt
mark-Promise false false true seen carried delivered waited later h = absurd h

waited-Promise :
    (p a d : Bool) (seen carried delivered waited later : ℕ)
    → Flags p a d seen carried delivered waited
    → Flags p a d later carried delivered later
waited-Promise true true true seen carried delivered waited later h = tt
waited-Promise true true false seen carried delivered waited later h = omega arith
waited-Promise true false true seen carried delivered waited later h = h
waited-Promise true false false seen carried delivered waited later h = tt
waited-Promise false true d seen carried delivered waited later h = absurd h
waited-Promise false false false seen carried delivered waited later h = omega arith
waited-Promise false false true seen carried delivered waited later h = absurd h

session-Promise :
    (p a d : Bool) (seen carried delivered waited : ℕ)
    → Flags p a d seen carried delivered waited
    → Promise
        (begin_session (record { pending = p; awaiting_ack = a; dirty = d }))
        seen
        carried
        delivered
        waited
unfolding begin_session
session-Promise true true true seen carried delivered waited h = tt
session-Promise true true false seen carried delivered waited h = tt
session-Promise true false true seen carried delivered waited h = tt
session-Promise true false false seen carried delivered waited h = tt
session-Promise false true d seen carried delivered waited h = absurd h
session-Promise false false false seen carried delivered waited h = h
session-Promise false false true seen carried delivered waited h = absurd h

sent-Promise :
    (p a d : Bool) (seen carried delivered waited later : ℕ)
    → Flags p a d seen carried delivered waited
    → p && not a ≡ true
    → seen ≤ later
    → Promise
        (report_sent (record { pending = p; awaiting_ack = a; dirty = d }))
        seen
        later
        delivered
        waited
unfolding report_sent
sent-Promise true false false seen carried delivered waited later h owes le = omega arith
sent-Promise true false true seen carried delivered waited later h owes le = absurd h
sent-Promise true true d seen carried delivered waited later h owes le = ground arith
sent-Promise false a d seen carried delivered waited later h owes le = ground arith

acked-Promise :
    (p a d : Bool) (seen carried delivered waited : ℕ)
    → Flags p a d seen carried delivered waited
    → a ≡ true
    → Promise
        (acked (record { pending = p; awaiting_ack = a; dirty = d }))
        seen
        carried
        carried
        waited
unfolding acked
acked-Promise true true true seen carried delivered waited h awaits = tt
acked-Promise true true false seen carried delivered waited h awaits = h
acked-Promise true false d seen carried delivered waited h awaits = ground arith
acked-Promise false true d seen carried delivered waited h awaits = absurd h
acked-Promise false false d seen carried delivered waited h awaits = ground arith

posted-Promise :
    (p a d : Bool) (seen carried delivered waited n : ℕ)
    → Flags p a d seen carried delivered waited
    → seen ≤ n
    → Promise (acked (record { pending = p; awaiting_ack = a; dirty = d })) seen carried n waited
unfolding acked
posted-Promise p a true seen carried delivered waited n h le = tt
posted-Promise p a false seen carried delivered waited n h le = omega arith

step-IsSound : (l m : Link) → Step l m → IsSound l → IsSound m
unfolding owes_report
step-IsSound _ _ (edit l) s = record {
  seen = omega (arith, s.seen);
  carried = omega (arith, s.carried);
  delivered = omega (arith, s.delivered);
  waited = omega (arith, s.waited);
  flags = s.flags;
}
step-IsSound _ _ (notice l new) s = record {
  seen = omega arith;
  carried = s.carried;
  delivered = s.delivered;
  waited = s.waited;
  flags = mark-Promise _ _ _ l.seen l.carried l.delivered l.waited l.edits s.flags;
}
step-IsSound _ _ (wait l new) s = record {
  seen = omega arith;
  carried = s.carried;
  delivered = s.delivered;
  waited = omega arith;
  flags = waited-Promise _ _ _ l.seen l.carried l.delivered l.waited l.edits s.flags;
}
step-IsSound _ _ (greet l) s = record {
  seen = s.seen;
  carried = s.carried;
  delivered = s.delivered;
  waited = s.waited;
  flags = s.flags;
}
step-IsSound _ _ (session l) s = record {
  seen = s.seen;
  carried = s.carried;
  delivered = s.delivered;
  waited = s.waited;
  flags = session-Promise _ _ _ l.seen l.carried l.delivered l.waited s.flags;
}
step-IsSound _ _ (send l owes) s = record {
  seen = s.seen;
  carried = omega arith;
  delivered = s.delivered;
  waited = s.waited;
  flags = sent-Promise _ _ _ l.seen l.carried l.delivered l.waited l.edits s.flags owes s.seen;
}
step-IsSound _ _ (accepted l awaits) s = record {
  seen = s.seen;
  carried = s.carried;
  delivered = s.carried;
  waited = s.waited;
  flags = acked-Promise _ _ _ l.seen l.carried l.delivered l.waited s.flags awaits;
}
step-IsSound _ _ (posted l n pending low high) s = record {
  seen = s.seen;
  carried = s.carried;
  delivered = high;
  waited = s.waited;
  flags = posted-Promise _ _ _ l.seen l.carried l.delivered l.waited n s.flags low;
}

pub Run-IsSound : (a b : Link) → Run a b → IsSound a → IsSound b
Run-IsSound _ _ (done l) s = s
Run-IsSound _ _ (step a b c r t) s = step-IsSound b c t (Run-IsSound a b r s)

pub start-IsSound : IsSound start
start-IsSound = record {
  seen = omega arith;
  carried = omega arith;
  delivered = omega arith;
  waited = omega arith;
  flags = omega arith;
}
