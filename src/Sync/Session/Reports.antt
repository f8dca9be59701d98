-- ===== src/Sync/Session/Reports.antt =====
-- The reports that a session of src/sync.rs sends.
mod Tests
use propmonitor.Base.{ℕ, ◌+◌, ◌≤◌, List, [], ◌∷◌, Bool, true, false, some}
use propmonitor.Float.{Float}
use propmonitor.App.{App}
use propmonitor.Sync.{config_accepted}
use propmonitor.Sync.Report.{acked}
use propmonitor.Sync.Session.{
  NodeFrame, hello, config_report, Message, text, SessionEvent, incoming, Session, Next, goes_on,
  ends,
}

abbrev pub one_if : Bool → ℕ
one_if true = 1
one_if false = 0

-- A count with one more, if it is so.
abbrev counted : Bool → ℕ → ℕ
counted true k = 1 + k
counted false k = k

module _ {F : Type 0} where
  abbrev pub is_report : NodeFrame F → Bool
  is_report (config_report body) = true
  is_report _ = false

  -- The reports among the frames of the node.
  abbrev pub reports : List (NodeFrame F) → ℕ
  reports [] = 0
  reports (f ∷ fs) = one_if (is_report f) + reports fs

  abbrev pub is_accepted : SessionEvent F → Bool
  is_accepted (incoming out (text (some (config_accepted version)))) = true
  is_accepted _ = false

  -- The acknowledgements among the events of a session.
  abbrev pub accepts : List (Bool × Bool × SessionEvent F) → ℕ
  accepts [] = 0
  accepts ((_, _, ev) ∷ es) = one_if (is_accepted ev) + accepts es

  abbrev pub frames_of : Next (Session F) → List (NodeFrame F)
  frames_of (goes_on s) = s.sent
  frames_of (ends s) = s.sent

  -- At most `k` reports besides the one that waits for its acknowledgement.
  abbrev Held : ℕ → Next (Session F) → Type 0
  Held k (goes_on s) = reports s.sent ≤ k + one_if s.report.awaiting_ack
  Held k (ends s) = reports s.sent ≤ k + 1
