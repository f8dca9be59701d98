-- ===== src/Bridge/Tests.antt =====
-- Runs of the bridge thread of src/server.rs.
use propmonitor.Base.{ℕ, codes, List, [], ◌∷◌, ◌++◌, length, Text, none, some, ◌≡◌, refl}
use propmonitor.Store.{new, last}
use propmonitor.Worker
use propmonitor.Worker.{Measurement, WorkerEvent}
use propmonitor.Events.{WsEvent}
use propmonitor.Bridge.{Bridge, bridge_loop, to_stored}
use propmonitor.Bridge.Run.{Follows, bridge_loop-Follows, bridge_loop-window}

abbrev fresh : Bridge ℕ ℕ
fresh = record {
  period_start = none;
  device_info = none;
  last_raw_dbfs = none;
  store = new;
  sent = [];
}

abbrev reading : Measurement ℕ
reading = record {
  noise_dbfs = 1;
  signal_peak_dbfs = 2;
  signal_avg_dbfs = 3;
  snr_peak_db = 4;
  snr_avg_db = 5;
  signal_active_fraction = 6;
}

abbrev between : List (Text × WorkerEvent ℕ ℕ)
between = (codes "b", Worker.raw_level 9) ∷ (codes "c", Worker.waterfall_row [] 0 1) ∷ []

bridge_loop-Follows_example :
    (frames : List (WsEvent ℕ ℕ)) × Follows fresh (bridge_loop fresh between) frames
    × (length frames ≡ length between)
bridge_loop-Follows_example = bridge_loop-Follows fresh between

bridge_loop-window_example :
    last
      (bridge_loop fresh (
        (codes "a", Worker.period_started) ∷ between
        ++ (codes "d", Worker.period_measurement reading) ∷ [])).store
    ≡ some (to_stored (codes "a") reading)
bridge_loop-window_example = bridge_loop-window fresh (codes "a") (codes "d") reading between refl
