-- ===== src/App/Tests.antt =====
-- Runs of the configuration changes of src/server.rs.
use propmonitor.Base.{ℕ, codes, true, some, ok, err, ◌≡◌, refl, arith}
use propmonitor.Error.{write_failed}
use propmonitor.Config.{MicrowavepropConfig}
use propmonitor.Settings.{ConfigUpdate, cfg_to_update}
use propmonitor.App.{set_version, apply_config, put_config, persist_config_version}
use propmonitor.App.Apply.{
  Outcomes, Answered, IsConsistent, apply_config-Outcomes, apply_config-IsConsistent,
  put_config-Answered,
}
use propmonitor.App.Persist.{Recorded, persist_config_version-Recorded, persist_config_version-lost}
use propmonitor.Samples.{
  natural, natural_laws, node, node-IsStorable, running, running-IsConsistent, all_well, full_disk,
}

-- The node's own settings at another frequency and another address.
abbrev retuned : ConfigUpdate ℕ
retuned = record (cfg_to_update node) {
  frequency = 144300000;
  http = some (record { bind = codes "127.0.0.1:8080" });
}

abbrev block : MicrowavepropConfig
block = record {
  enabled = true;
  monitor_token = codes "se#cret\"";
  beacon_id = codes "b-1";
  gridsquare = codes "EM12";
  config_version = 4;
}

apply_config-Outcomes_example :
    Outcomes natural running (apply_config natural all_well running retuned (some 5))
apply_config-Outcomes_example = apply_config-Outcomes natural all_well running retuned (some 5)

apply_config-IsConsistent_example :
    IsConsistent natural (apply_config natural all_well running retuned (some 5)).0
apply_config-IsConsistent_example =
    apply_config-IsConsistent natural all_well {app = running} retuned (some 5) running-IsConsistent

put_config-Answered_example : Answered natural running (put_config natural all_well running retuned)
put_config-Answered_example = put_config-Answered natural all_well running retuned

persist_config_version-Recorded_example :
    let (app', result) = persist_config_version natural all_well running 7 in
    (result ≡ ok tt) × Recorded natural running app' block 7
persist_config_version-Recorded_example =
    persist_config_version-Recorded natural natural_laws all_well running block 7 refl refl
      (omega arith) node-IsStorable running-IsConsistent

persist_config_version-lost_example :
    let (app', result) = persist_config_version natural full_disk running 7 in
    (result ≡ err write_failed)
    × (app'.config ≡ set_version node block 7)
    × (persist_config_version natural all_well app' 7 ≡ (app', ok tt))
    × (app'.disk ≡ running.disk)
persist_config_version-lost_example =
    persist_config_version-lost natural full_disk all_well running block 7 refl refl (omega arith)
