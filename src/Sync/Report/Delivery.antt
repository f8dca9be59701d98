-- ===== src/Sync/Report/Delivery.antt =====
-- A session of the sync task of src/sync.rs after any history.
use propmonitor.Base.{false, ◌≡◌}
use propmonitor.Sync.Report.{Link, Run}

-- Reading the watch channel, if there is anything new in it.
record Noticed (l m : Link) : Type 0 where
  run : Run l m
  edits : m.edits ≡ l.edits
  greeted : m.greeted ≡ l.greeted
  waited : m.waited ≡ l.waited
  seen : m.seen ≡ m.edits
  quiet : m.report.awaiting_ack ≡ false
  clean : m.report.dirty ≡ false

record Settled (l m : Link) : Type 0 where
  run : Run l m
  edits : m.edits ≡ l.edits
  greeted : m.greeted ≡ l.greeted
  waited : m.waited ≡ l.waited
  seen : m.seen ≡ m.edits
  idle : m.report.pending ≡ false
