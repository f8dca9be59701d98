-- ===== src/Settings.antt =====
-- src/server.rs: the update body of `PUT /api/config`, and the YAML document it becomes.
mod Tests
pub mod Written
pub mod Clean
pub mod Read
pub mod RoundTrip
use propmonitor.Base.{
  ℕ, Text, codes, text_eq, [], Bool, true, false, if◌then◌else◌, Option, none, some,
}
use mathlib.Core.Option
use propmonitor.Base.Decimal.{show}
use propmonitor.Float.{Float}
use propmonitor.Mode
use propmonitor.Config.{BeaconConfig, HttpConfig, MicrowavepropConfig, UpdateConfig, Config}
use propmonitor.Yaml.Writer

pub record BeaconUpdate (F : Type 0) : Type 0 where
  pub offset_hz : F
  pub bandwidth_hz : F

pub record HttpUpdate : Type 0 where
  pub bind : Text

pub record MicrowavepropUpdate : Type 0 where
  pub enabled : Bool
  pub monitor_token : Text
  pub beacon_id : Text
  pub gridsquare : Text

pub record UpdateUpdate : Type 0 where
  pub enabled : Bool
  pub auto : Bool
  pub check_interval : ℕ

pub record ConfigUpdate (F : Type 0) : Type 0 where
  pub frequency : F
  pub mode : Text
  pub driver : Text
  pub sample_rate : F
  pub gain : Option F
  pub ppm : Option F
  pub period_seconds : Option ℕ
  pub beacon : Option (BeaconUpdate F)
  pub http : Option HttpUpdate
  pub microwaveprop : Option MicrowavepropUpdate
  pub update : Option UpdateUpdate

-- What the API puts in place of a token.
abbrev pub redacted : Text
redacted = codes "redacted"

abbrev pub unwrap_or : {A : Type 0} → Option A → A → A
unwrap_or none d = d
unwrap_or (some a) d = a

abbrev pub token_of : Option MicrowavepropConfig → Text
token_of none = []
token_of (some m) = m.monitor_token

abbrev pub version_of : Option MicrowavepropConfig → ℕ
version_of none = 0
version_of (some m) = m.config_version

abbrev pub bool_text : Bool → Text
bool_text b = if b then codes "true" else codes "false"

-- `Option<UpdateUpdate>` as settings, the running ones if it is absent
abbrev pub resolve_update : Option UpdateUpdate → UpdateConfig → UpdateConfig
resolve_update none current = current
resolve_update (some u) current = record {
  enabled = u.enabled;
  auto = u.auto;
  check_interval = u.check_interval;
}

unfoldable pub write_http : Text → Option HttpUpdate → Text
write_http w none =
    let w = Writer.nested_open w (codes "http") in
    Writer.nested_string w (codes "bind") (codes "0.0.0.0:5760")
write_http w (some h) =
    let w = Writer.nested_open w (codes "http") in Writer.nested_string w (codes "bind") h.bind

unfoldable pub write_microwaveprop : Text → Option MicrowavepropUpdate → Text → ℕ → Text
write_microwaveprop w none preserved_token version = w
write_microwaveprop w (some m) preserved_token version =
    let token = if text_eq m.monitor_token redacted then preserved_token else m.monitor_token in
    let w = Writer.nested_open w (codes "microwaveprop") in
    let w = Writer.nested_scalar w (codes "enabled") (bool_text m.enabled) in
    let w = Writer.nested_string w (codes "monitor_token") token in
    let w = Writer.nested_string w (codes "beacon_id") m.beacon_id in
    let w = Writer.nested_string w (codes "gridsquare") m.gridsquare in
    Writer.nested_scalar w (codes "config_version") (show version)

unfoldable pub write_update : Text → UpdateConfig → Text
write_update w update =
    let w = Writer.nested_open w (codes "update") in
    let w = Writer.nested_scalar w (codes "enabled") (bool_text update.enabled) in
    let w = Writer.nested_scalar w (codes "auto") (bool_text update.auto) in
    Writer.nested_scalar w (codes "check_interval") (show update.check_interval)

module _ (fl : Float) where
  open fl use {F, display, of_ℕ}

  unfoldable pub write_gain : Text → Option F → Text
  write_gain w none = w
  write_gain w (some g) = Writer.scalar w (codes "gain") (display g)

  unfoldable pub write_beacon : Text → Option (BeaconUpdate F) → Text
  write_beacon w none = w
  write_beacon w (some b) =
      let w = Writer.nested_open w (codes "beacon") in
      let w = Writer.nested_scalar w (codes "offset_hz") (display b.offset_hz) in
      Writer.nested_scalar w (codes "bandwidth_hz") (display b.bandwidth_hz)

  unfoldable pub build_yaml_from_update : ConfigUpdate F → Config F → Option ℕ → Text
  build_yaml_from_update body current config_version =
      let preserved_token = token_of current.microwaveprop in
      let version = unwrap_or config_version (version_of current.microwaveprop) in
      let w = Writer.scalar Writer.new (codes "frequency") (display body.frequency) in
      let w = Writer.scalar w (codes "mode") body.mode in
      let w = Writer.string w (codes "driver") body.driver in
      let w = Writer.scalar w (codes "sample_rate") (display body.sample_rate) in
      let w = write_gain w body.gain in
      let w = Writer.scalar w (codes "ppm") (display (unwrap_or body.ppm (of_ℕ 0))) in
      let period = unwrap_or body.period_seconds current.period_seconds in
      let w = Writer.scalar w (codes "period_seconds") (show period) in
      let w = write_beacon w body.beacon in
      let w = write_http w body.http in
      let w = write_microwaveprop w body.microwaveprop preserved_token version in
      write_update w (resolve_update body.update current.update)

abbrev pub to_beacon_update : {F : Type 0} → BeaconConfig F → BeaconUpdate F
to_beacon_update b = record { offset_hz = b.offset_hz; bandwidth_hz = b.bandwidth_hz }

abbrev pub to_microwaveprop_update : MicrowavepropConfig → MicrowavepropUpdate
to_microwaveprop_update m = record {
  enabled = m.enabled;
  monitor_token = m.monitor_token;
  beacon_id = m.beacon_id;
  gridsquare = m.gridsquare;
}

unfoldable pub cfg_to_update : {F : Type 0} → Config F → ConfigUpdate F
cfg_to_update cfg = record {
  frequency = cfg.frequency;
  mode = Mode.as_str cfg.mode;
  driver = cfg.driver;
  sample_rate = cfg.sample_rate;
  gain = cfg.gain;
  ppm = some cfg.ppm;
  period_seconds = some cfg.period_seconds;
  beacon = Option.map to_beacon_update cfg.beacon;
  http = some (record { bind = cfg.http.bind });
  microwaveprop = Option.map to_microwaveprop_update cfg.microwaveprop;
  update = some (record {
    enabled = cfg.update.enabled;
    auto = cfg.update.auto;
    check_interval = cfg.update.check_interval;
  });
}
