-- ===== src/Bridge/Snapshot/Tests.antt =====
-- A browser that connects after two windows of the receiver.
use propmonitor.Base.{ℕ, codes, List, [], ◌∷◌, Text, some, true, ◌≡◌}
use propmonitor.Worker
use propmonitor.Worker.{Measurement, WorkerEvent}
use propmonitor.Uploader.{UploaderStatus}
use propmonitor.Bridge.{bridge_loop}
use propmonitor.Bridge.Snapshot.{fresh, page, snapshot_events, snapshot_events-page}
use propmonitor.Samples.{node}

abbrev reading : ℕ → Measurement ℕ
reading n = record {
  noise_dbfs = n;
  signal_peak_dbfs = 2;
  signal_avg_dbfs = 3;
  snr_peak_db = 4;
  snr_avg_db = 5;
  signal_active_fraction = 6;
}

abbrev events : List (Text × WorkerEvent ℕ ℕ)
events =
    (
      codes "a",
      Worker.device_info (record {
        actual_sample_rate = 250000;
        actual_frequency = 28330000;
        actual_gain = 30;
        gain_elements = [];
      }),
    )
    ∷ (codes "b", Worker.period_started)
    ∷ (codes "c", Worker.raw_level 9)
    ∷ (codes "d", Worker.period_measurement (reading 1))
    ∷ (codes "e", Worker.period_measurement (reading 2))
    ∷ []

abbrev uploader : UploaderStatus
uploader = record {
  enabled = true;
  last_post_at = some (codes "d");
  last_status = some (codes "ok");
  queued = 0;
}

late_browser :
    page (snapshot_events (bridge_loop fresh events) uploader node)
    ≡ page (bridge_loop fresh events).sent
late_browser = snapshot_events-page events uploader node
