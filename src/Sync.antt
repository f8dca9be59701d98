-- ===== src/Sync.antt =====
-- src/sync.rs: the configuration that the website and the node exchange, and the decisions on it.
mod Tests
pub mod Report
pub mod Secret
pub mod Merge
pub mod Carried
pub mod Push
pub mod Poll
pub mod Reconnect
pub mod Outcome
pub mod Again
pub mod Session
use propmonitor.Base.{
  ℕ, ◌^◌, Text, codes, text_eq, [], Bool, true, false, ◌&&◌, ◌==◌, leb, if◌then◌else◌, Option, none,
  some,
}
use mathlib.Core.Option
use propmonitor.Float.{Float}
use propmonitor.Mode
use propmonitor.Config.{BeaconConfig, MicrowavepropConfig, Config}
use propmonitor.Settings.{BeaconUpdate, MicrowavepropUpdate, ConfigUpdate, redacted, version_of}

pub record SyncBeacon (F : Type 0) : Type 0 where
  pub offset_hz : F
  pub bandwidth_hz : F

pub record SyncConfig (F : Type 0) : Type 0 where
  pub frequency : F
  pub mode : Text
  pub driver : Text
  pub sample_rate : F
  pub gain : Option F
  pub ppm : F
  pub period_seconds : ℕ
  pub beacon : Option (SyncBeacon F)
  pub upload_enabled : Bool
  pub beacon_id : Text
  pub gridsquare : Text

abbrev pub to_sync_beacon : {F : Type 0} → BeaconConfig F → SyncBeacon F
to_sync_beacon b = record { offset_hz = b.offset_hz; bandwidth_hz = b.bandwidth_hz }

abbrev pub of_sync_beacon : {F : Type 0} → SyncBeacon F → BeaconUpdate F
of_sync_beacon b = record { offset_hz = b.offset_hz; bandwidth_hz = b.bandwidth_hz }

abbrev pub enabled_of : Option MicrowavepropConfig → Bool
enabled_of none = false
enabled_of (some m) = m.enabled

abbrev pub beacon_id_of : Option MicrowavepropConfig → Text
beacon_id_of none = []
beacon_id_of (some m) = m.beacon_id

abbrev pub gridsquare_of : Option MicrowavepropConfig → Text
gridsquare_of none = []
gridsquare_of (some m) = m.gridsquare

module _ {F : Type 0} where
  -- `SyncConfig::from_config`
  unfoldable pub from_config : Config F → SyncConfig F
  from_config cfg = record {
    frequency = cfg.frequency;
    mode = Mode.as_str cfg.mode;
    driver = cfg.driver;
    sample_rate = cfg.sample_rate;
    gain = cfg.gain;
    ppm = cfg.ppm;
    period_seconds = cfg.period_seconds;
    beacon = Option.map to_sync_beacon cfg.beacon;
    upload_enabled = enabled_of cfg.microwaveprop;
    beacon_id = beacon_id_of cfg.microwaveprop;
    gridsquare = gridsquare_of cfg.microwaveprop;
  }

  unfoldable pub to_config_update : SyncConfig F → Config F → ConfigUpdate F
  to_config_update pushed current = record {
    frequency = pushed.frequency;
    mode = pushed.mode;
    driver = pushed.driver;
    sample_rate = pushed.sample_rate;
    gain = pushed.gain;
    ppm = some pushed.ppm;
    period_seconds = some pushed.period_seconds;
    beacon = Option.map of_sync_beacon pushed.beacon;
    http = some (record { bind = current.http.bind });
    microwaveprop = some (record {
      enabled = pushed.upload_enabled;
      monitor_token = redacted;
      beacon_id = pushed.beacon_id;
      gridsquare = pushed.gridsquare;
    });
    update = none;
  }

  unfoldable pub applied_version : Config F → ℕ
  applied_version cfg = version_of cfg.microwaveprop

-- What to do with a pushed configuration.
pub data PushDecision : Type 0 where
  stale version_only apply : PushDecision

-- Frames from the website.
pub data ServerFrame (F : Type 0) : Type 0 where
  hello_ack : ℕ → ServerFrame F
  config_push : ℕ → SyncConfig F → ServerFrame F
  config_accepted : ℕ → ServerFrame F
  error : Text → Text → ServerFrame F

-- The body of a `config_report`.
pub record ReportBody (F : Type 0) : Type 0 where
  pub base_version : ℕ
  pub config : SyncConfig F

unfoldable pub report_body : {F : Type 0} → Config F → ReportBody F
report_body cfg = record { base_version = applied_version cfg; config = from_config cfg }

abbrev same_flag : Bool → Bool → Bool
same_flag true b = b
same_flag false true = false
same_flag false false = true

module _ (fl : Float) where
  open fl use {F, eq}

  abbrev same_gain : Option F → Option F → Bool
  same_gain none none = true
  same_gain none (some b) = false
  same_gain (some a) none = false
  same_gain (some a) (some b) = eq a b

  abbrev same_beacon : Option (SyncBeacon F) → Option (SyncBeacon F) → Bool
  same_beacon none none = true
  same_beacon none (some b) = false
  same_beacon (some a) none = false
  same_beacon (some a) (some b) = eq a.offset_hz b.offset_hz && eq a.bandwidth_hz b.bandwidth_hz

  -- `==` of the source, field by field, with the `==` of `f64` on the numbers
  unfoldable pub same_config : SyncConfig F → SyncConfig F → Bool
  same_config a b =
      eq a.frequency b.frequency
      && (text_eq a.mode b.mode
          && (text_eq a.driver b.driver
              && (eq a.sample_rate b.sample_rate
                  && (same_gain a.gain b.gain
                      && (eq a.ppm b.ppm
                          && ((a.period_seconds == b.period_seconds)
                              && (same_beacon a.beacon b.beacon
                                  && (same_flag a.upload_enabled b.upload_enabled
                                      && (text_eq a.beacon_id b.beacon_id
                                          && text_eq a.gridsquare b.gridsquare)))))))))

  unfoldable pub decide_push : ℕ → ℕ → SyncConfig F → SyncConfig F → PushDecision
  decide_push pushed_version applied_version pushed active =
      if leb pushed_version applied_version
      then stale
      else if same_config pushed active
      then version_only
      else apply
