-- ===== src/Sync/Tests.antt =====
-- Runs of the configuration sync of src/sync.rs.
use propmonitor.Base.{ℕ, codes, none, some, ok, true, false, ◌≡◌, refl, arith}
use propmonitor.Mode
use propmonitor.Mode.{beacon}
use propmonitor.Config.{
  MicrowavepropConfig, validate, validate_beacon, validate_gain, validate_gridsquare,
}
use propmonitor.Settings.{token_of, cfg_to_update, build_yaml_from_update}
use propmonitor.Settings.RoundTrip.{IsWritable, merge}
use propmonitor.Yaml.Scan.{is_one_line}
use propmonitor.App.{
  App, set_version, write_config_file, persist_in, persist_found, persist_config_version,
}
use propmonitor.Sync.{
  report_body, SyncConfig, from_config, to_config_update, applied_version, version_only, stale,
  apply, decide_push, same_config,
}
use propmonitor.Sync.Report.{Link, start, edit, wait, Run, done, step}
use propmonitor.View.{cfg_to_view}
use propmonitor.Sync.Secret.{with_token, sent-with_token}
use propmonitor.Sync.Merge.{pushed_config, pushed_config-Carried}
use propmonitor.Sync.Carried.{Carries, apply_push-Carries}
use propmonitor.Sync.Push.{push_as, apply_push_read, apply_push}
use propmonitor.Sync.Outcome.{Pushed, apply_push_read-Pushed}
use propmonitor.Sync.Again.{apply_push-again}
use propmonitor.Samples.{natural, natural_laws, node, running, all_well, full_disk}

abbrev block : MicrowavepropConfig
block = record {
  enabled = true;
  monitor_token = codes "se#cret\"";
  beacon_id = codes "b-1";
  gridsquare = codes "EM12";
  config_version = 4;
}

abbrev pushed : SyncConfig ℕ
pushed = record {
  frequency = 10368300000;
  mode = codes "beacon";
  driver = codes "rtlsdr";
  sample_rate = 250000;
  gain = none;
  ppm = 3;
  period_seconds = 30;
  beacon = some (record { offset_hz = 800; bandwidth_hz = 100 });
  upload_enabled = true;
  beacon_id = codes "b-2";
  gridsquare = codes "EM13";
}

settings_carried :
    (from_config (pushed_config natural beacon pushed node 9) ≡ pushed)
    × (applied_version (pushed_config natural beacon pushed node 9) ≡ 9)
    × ((pushed_config natural beacon pushed node 9).http ≡ node.http)
    × (token_of (pushed_config natural beacon pushed node 9).microwaveprop
        ≡ token_of node.microwaveprop)
    × ((pushed_config natural beacon pushed node 9).update ≡ node.update)
settings_carried = pushed_config-Carried natural beacon pushed node 9 (unfold Mode.as_str in refl)

apply_push_read-Pushed_example :
    Pushed natural node running 9 pushed (apply_push_read natural all_well node running 9 pushed)
apply_push_read-Pushed_example = apply_push_read-Pushed natural all_well node running 9 pushed

pushed-IsWritable : IsWritable natural (to_config_update pushed node) node (some 9)
unfolding is_one_line to_config_update
pushed-IsWritable = record {
  frequency = refl;
  sample_rate = refl;
  gain = tt;
  ppm = refl;
  beacon = (refl, refl);
  driver = refl;
  bind = refl;
  texts = (refl, refl, refl);
  period = omega arith;
  version_fits = omega arith;
  interval = omega arith;
}

pushed-valid : validate natural (pushed_config natural beacon pushed node 9) ≡ ok tt
unfolding validate validate_beacon validate_gain validate_gridsquare to_config_update merge
pushed-valid = refl

apply_push-Carries_example :
    ((apply_push natural all_well running 9 pushed).1 ≡ ok apply)
    × Carries natural running (apply_push natural all_well running 9 pushed).0 pushed 9
apply_push-Carries_example =
    apply_push-Carries natural natural_laws all_well running beacon 9 pushed
      (unfold Mode.as_str in refl) pushed-IsWritable (unfold applied_version in omega arith)
      (unfold same_config from_config Mode.as_str in refl) pushed-valid refl

-- The settings that the node runs, pushed back to it at a newer version, can be saved.
echoed-IsWritable : IsWritable natural (to_config_update (from_config node) node) node (some 9)
unfolding is_one_line to_config_update from_config
echoed-IsWritable = record {
  frequency = refl;
  sample_rate = refl;
  gain = refl;
  ppm = refl;
  beacon = (refl, refl);
  driver = refl;
  bind = refl;
  texts = (refl, refl, refl);
  period = omega arith;
  version_fits = omega arith;
  interval = omega arith;
}

abbrev recorded : App ℕ
recorded = record running {
  config = set_version node block 9;
  disk =
      build_yaml_from_update natural (cfg_to_update (set_version node block 9))
        (set_version node block 9) (some 9);
}

echo-recorded :
    apply_push natural all_well running 9 (from_config node) ≡ (recorded, ok version_only)
unfolding apply_push apply_push_read push_as decide_push same_config from_config applied_version
    persist_config_version persist_found persist_in write_config_file Mode.as_str
echo-recorded = refl

apply_push-again_example :
    apply_push natural full_disk recorded 9 (from_config node) ≡ (recorded, ok stale)
apply_push-again_example =
    apply_push-again natural natural_laws all_well full_disk running recorded beacon
      (from_config node) 9 version_only (unfold from_config in refl) echoed-IsWritable echo-recorded

-- Two edits, the second one while the report of the first is in flight.
abbrev reported : Link
reported = record {
  report = record { pending = false; awaiting_ack = false; dirty = false };
  edits = 2;
  seen = 2;
  carried = 2;
  delivered = 2;
  greeted = 0;
  waited = 0;
}

-- An edit that `wait_for_token` reads is seen, and no report is owed for it.
read_by_wait :
    (l : Link) × Run start l
    × (l.edits ≡ 1)
    × (l.seen ≡ 1)
    × (l.report.pending ≡ false)
    × (l.delivered ≡ 0)
read_by_wait = (
  _,
  step _ _ _ (step _ _ _ (done start) (edit _)) (wait _ (omega arith)),
  refl,
  refl,
  refl,
  refl,
)

sent-with_token_example :
    (cfg_to_view (with_token (codes "other") node) ≡ cfg_to_view node)
    × (from_config (with_token (codes "other") node) ≡ from_config node)
    × (report_body (with_token (codes "other") node) ≡ report_body node)
sent-with_token_example = sent-with_token (codes "other") node
