-- ===== src/View.antt =====
-- src/server.rs: `ConfigView`, the configuration as the API and the browsers see it.
use propmonitor.Base.{ℕ, Text, Bool, Option}
use mathlib.Core.Option
use propmonitor.Mode
use propmonitor.Config.{Config}
use propmonitor.Settings.{redacted}

pub record BeaconView (F : Type 0) : Type 0 where
  pub offset_hz : F
  pub bandwidth_hz : F

pub record HttpView : Type 0 where
  pub bind : Text

pub record MicrowavepropView : Type 0 where
  pub enabled : Bool
  pub monitor_token : Text
  pub beacon_id : Text
  pub gridsquare : Text

pub record UpdateView : Type 0 where
  pub enabled : Bool
  pub auto : Bool
  pub check_interval : ℕ

pub record ConfigView (F : Type 0) : Type 0 where
  pub frequency : F
  pub mode : Text
  pub driver : Text
  pub sample_rate : F
  pub gain : Option F
  pub ppm : F
  pub period_seconds : ℕ
  pub beacon : Option (BeaconView F)
  pub http : HttpView
  pub microwaveprop : Option MicrowavepropView
  pub update : UpdateView

unfoldable pub cfg_to_view : {F : Type 0} → Config F → ConfigView F
cfg_to_view cfg = record {
  frequency = cfg.frequency;
  mode = Mode.as_str cfg.mode;
  driver = cfg.driver;
  sample_rate = cfg.sample_rate;
  gain = cfg.gain;
  ppm = cfg.ppm;
  period_seconds = cfg.period_seconds;
  beacon =
      Option.map (λ b. record { offset_hz = b.offset_hz; bandwidth_hz = b.bandwidth_hz })
        cfg.beacon;
  http = record { bind = cfg.http.bind };
  microwaveprop =
      Option.map
        (λ m. record {
          enabled = m.enabled;
          monitor_token = redacted;
          beacon_id = m.beacon_id;
          gridsquare = m.gridsquare;
        })
        cfg.microwaveprop;
  update = record {
    enabled = cfg.update.enabled;
    auto = cfg.update.auto;
    check_interval = cfg.update.check_interval;
  };
}
