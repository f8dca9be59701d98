-- ===== src/Uploader/Tests.antt =====
-- Runs of the upload task of src/uploader.rs.
use propmonitor.Base.{ℕ, codes, [], ◌∷◌, ◌++◌, none, some, true, ◌≡◌, refl, arith}
use propmonitor.Store.{StoredMeasurement, max_entries}
use propmonitor.Store.History.{newest}
use propmonitor.Events
use propmonitor.Events.{WsEvent}
use propmonitor.Uploader.{
  Uploader, UploaderStatus, WireMeasurement, should_upload, class_of, classify_status, transient,
  uploading,
}
use propmonitor.Uploader.Loop.{World, event, lagged, Turn, turn, posts}
use propmonitor.Uploader.Bounds.{IsBounded, Stays, turn-Stays}
use propmonitor.Uploader.Backoff.{state_of, arrivals, Doubles, turn-transient}
use propmonitor.Samples.{natural, node}

abbrev reading : StoredMeasurement ℕ
reading = record {
  measured_at = codes "2026-05-13T00:01:00Z";
  noise_floor_dbfs = 1;
  signal_peak_dbfs = 2;
  signal_avg_dbfs = 3;
  snr_peak_db = 4;
  snr_avg_db = 5;
  signal_active_fraction = 1;
}

abbrev queued : WireMeasurement ℕ
queued = record {
  beacon_id = codes "b-1";
  gridsquare = codes "EM12";
  frequency_hz = 28330000;
  measured_at = codes "2026-05-13T00:00:00Z";
  integration_s = 60;
  passband_hz = 50;
  gain_db = 30;
  noise_floor_dbfs = 1;
  signal_peak_dbfs = 2;
  signal_avg_dbfs = 3;
  snr_peak_db = 4;
  snr_avg_db = 5;
  signal_active_fraction = 1;
  propmonitor_version = codes "0.2.0";
}

abbrev status : UploaderStatus
status = record { enabled = true; last_post_at = none; last_status = none; queued = 0 }

abbrev waiting_one : Uploader ℕ
waiting_one = record { queue = queued ∷ []; backoff = 4; status = status; emitted = [] }

abbrev world : World ℕ ℕ
world = record { cfg = node; device_info = none }

-- The website is overloaded, and a measurement arrives during the backoff.
abbrev outage : Turn ℕ ℕ
outage = record {
  world = world;
  now = codes "2026-05-13T00:00:30Z";
  answer = some 503;
  waiting = lagged ∷ event world (Events.measurement reading) ∷ [];
  received = none;
}

outage-posts : posts (queued ∷ []) (uploading node.microwaveprop) ≡ true
unfolding should_upload
outage-posts = refl

outage-transient : class_of (some 503) ≡ transient
unfolding class_of classify_status
outage-transient = refl

turn-transient_example :
    ((state_of (turn natural waiting_one outage)).queue
      ≡ newest max_entries (waiting_one.queue ++ arrivals natural outage.waiting))
    × Doubles 4 (turn natural waiting_one outage)
turn-transient_example =
    turn-transient natural waiting_one outage (omega arith) outage-posts outage-transient

waiting_one-IsBounded : IsBounded waiting_one
waiting_one-IsBounded = record { queue = omega arith; low = omega arith; high = omega arith }

turn-Stays_example : Stays (turn natural waiting_one outage)
turn-Stays_example = turn-Stays natural waiting_one outage waiting_one-IsBounded
