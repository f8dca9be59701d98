-- ===== src/Sync/Poll/Tests.antt =====
-- The polling fallback and the reconnects of src/sync.rs at concrete inputs.
use propmonitor.Base.{ℕ, List, codes, none, ok, true, false, [], ◌∷◌, ◌++◌, all, ◌≡◌, refl, arith}
use propmonitor.Config.{MicrowavepropConfig}
use propmonitor.Store
use propmonitor.App.{set_version}
use propmonitor.Sync.{from_config, report_body}
use propmonitor.Sync.Report.{acked}
use propmonitor.Sync.Session.{status_body}
use propmonitor.Sync.Poll.{
  replied, accept, no_reply, Round, Polling, post_config, get_config, put_status, poll_cycle,
}
use propmonitor.Sync.Poll.Kept.{poll_cycle-kept}
use propmonitor.Sync.Reconnect.{
  Attempt, run_rounds, polls_of, is_spaced, is_bounded, run_rounds_paced,
}
use propmonitor.Samples.{natural, node, running, full_disk, all_well}

abbrev block : MicrowavepropConfig
block = record {
  enabled = true;
  monitor_token = codes "se#cret\"";
  beacon_id = codes "b-1";
  gridsquare = codes "EM12";
  config_version = 4;
}

-- The website accepts the report as version 9 and still offers version 8.
abbrev round : Round ℕ
round = record {
  report_reply = replied 200 (ok 9);
  record_outcome = full_disk;
  config_reply = replied 200 (ok (8, from_config node));
  push_outcome = all_well;
  status_reply = no_reply (codes "timeout");
  local_ip = none;
  uploader = record { enabled = true; last_post_at = none; last_status = none; queued = 0 };
  store = Store.new;
}

abbrev edited : Polling ℕ
edited = record {
  app = running;
  report = record { pending = true; awaiting_ack = false; dirty = false };
  requests = [];
}

poll_cycle-kept_example :
    let p' = poll_cycle natural round edited in
    (p'.app.config ≡ set_version node block 9)
    × (p'.report ≡ acked edited.report)
    × (p'.requests
        ≡ []
          ++ post_config (report_body node)
            ∷ get_config 9
            ∷ put_status (status_body none node.http.bind round.uploader round.store)
            ∷ [])
poll_cycle-kept_example =
    poll_cycle-kept natural round edited block 9 8 (from_config node) refl refl
      (unfold accept in refl) (unfold accept in refl) (omega arith)

-- Two attempts that fail at once, and one that comes up a minute later.
run_rounds_paced_example :
    let attempts : List Attempt =
      record { connected = false; ended_at = 100; polled_at = 103 }
      ∷ record { connected = false; ended_at = 104; polled_at = 104 }
      ∷ record { connected = true; ended_at = 170; polled_at = 171 }
      ∷ [] in
    let rests = (run_rounds attempts (record { backoff = 1; next_poll = 0 })).1 in
    (all is_bounded rests ≡ true) × (is_spaced 0 (polls_of attempts rests) ≡ true)
run_rounds_paced_example =
    run_rounds_paced
      (record { connected = false; ended_at = 100; polled_at = 103 }
        ∷ record { connected = false; ended_at = 104; polled_at = 104 }
        ∷ record { connected = true; ended_at = 170; polled_at = 171 }
        ∷ [])
      (record { backoff = 1; next_poll = 0 }) (omega arith) (omega arith)
