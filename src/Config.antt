-- ===== src/Config.antt =====
-- src/config.rs: the configuration and its validation. `Config/Load.antt` reads it from YAML.
mod Tests
pub mod Load
pub mod Facts
use propmonitor.Base.{
  ℕ, ◌<◌, ◌^◌, Text, codes, text_eq, is_empty, byte_len, Bool, true, false, not, ◌&&◌, ◌||◌, ltb,
  if◌then◌else◌, Option, none, some, Result, ok, err, ◌>>=◌, ◌>>◌, ok_or,
}
use propmonitor.Error.{
  Error, bad_frequency, bad_sample_rate, gain_not_finite, ppm_not_finite, period_too_short,
  beacon_missing, beacon_offset_not_finite, bad_beacon_bandwidth, beacon_bandwidth_too_wide,
  beacon_outside_spectrum, bad_gridsquare, check_interval_too_short,
}
use propmonitor.Float.{Float}
use propmonitor.Mode.{Mode, usb, lsb, am, nfm, wfm, cw, beacon, is_beacon}

pub record BeaconConfig (F : Type 0) : Type 0 where
  pub offset_hz : F
  pub bandwidth_hz : F

pub record HttpConfig : Type 0 where
  pub bind : Text

pub record MicrowavepropConfig : Type 0 where
  pub enabled : Bool
  pub monitor_token : Text
  pub beacon_id : Text
  pub gridsquare : Text
  pub config_version : ℕ

abbrev pub default_check_interval : ℕ
default_check_interval = 3600

abbrev pub min_check_interval : ℕ
min_check_interval = 60

pub record UpdateConfig : Type 0 where
  pub enabled : Bool
  pub auto : Bool
  pub check_interval : ℕ

abbrev pub default_update : UpdateConfig
default_update = record { enabled = true; auto = true; check_interval = default_check_interval }

pub record Config (F : Type 0) : Type 0 where
  pub frequency : F
  pub mode : Mode
  pub sample_rate : F
  pub gain : Option F
  pub driver : Text
  pub ppm : F
  pub period_seconds : ℕ
  pub beacon : Option (BeaconConfig F)
  pub http : HttpConfig
  pub microwaveprop : Option MicrowavepropConfig
  pub update : UpdateConfig

-- `return Err(e)` if the test holds
abbrev pub reject : Bool → Error → Result Error (Unit {0})
reject true e = err e
reject false e = ok tt

module _ (fl : Float) where
  open fl use {F, is_finite, lt, le, add, div, neg, abs, of_ℕ}

  -- The offset and the bandwidth of a mode.
  unfoldable pub passband_for : Mode → Option (BeaconConfig F) → F × F
  passband_for usb b = (of_ℕ 1500, of_ℕ 2700)
  passband_for lsb b = (neg (of_ℕ 1500), of_ℕ 2700)
  passband_for am b = (of_ℕ 0, of_ℕ 6000)
  passband_for nfm b = (of_ℕ 0, of_ℕ 12500)
  passband_for wfm b = (of_ℕ 0, of_ℕ 150000)
  passband_for cw b = (of_ℕ 700, of_ℕ 500)
  passband_for beacon none = (of_ℕ 0, of_ℕ 50)
  passband_for beacon (some b) = (b.offset_hz, b.bandwidth_hz)

  -- The part of `validate` for `mode: beacon`.
  unfoldable pub validate_beacon : F → Option (BeaconConfig F) → Result Error (Unit {0})
  validate_beacon sample_rate block = do
    b ← ok_or block beacon_missing
    reject (not (is_finite b.offset_hz)) beacon_offset_not_finite
    reject (not (is_finite b.bandwidth_hz) || le b.bandwidth_hz (of_ℕ 0)) bad_beacon_bandwidth
    reject (lt (div sample_rate (of_ℕ 2)) b.bandwidth_hz) beacon_bandwidth_too_wide
    reject (lt (div sample_rate (of_ℕ 2)) (add (abs b.offset_hz) (div b.bandwidth_hz (of_ℕ 2))))
        beacon_outside_spectrum

  unfoldable pub validate_gain : Option F → Result Error (Unit {0})
  validate_gain none = ok tt
  validate_gain (some g) = reject (not (is_finite g)) gain_not_finite

  unfoldable pub validate_gridsquare : Option MicrowavepropConfig → Result Error (Unit {0})
  validate_gridsquare none = ok tt
  validate_gridsquare (some mw) =
      reject
        (not (is_empty mw.gridsquare)
          && (ltb (byte_len mw.gridsquare) 4 || ltb 20 (byte_len mw.gridsquare)))
        bad_gridsquare

  unfoldable pub validate : Config F → Result Error (Unit {0})
  validate cfg = do
    reject (not (is_finite cfg.frequency) || le cfg.frequency (of_ℕ 0)) bad_frequency
    reject (not (is_finite cfg.sample_rate) || lt cfg.sample_rate (of_ℕ 250000)) bad_sample_rate
    validate_gain cfg.gain
    reject (not (is_finite cfg.ppm)) ppm_not_finite
    reject (ltb cfg.period_seconds 5) period_too_short
    if is_beacon cfg.mode then validate_beacon cfg.sample_rate cfg.beacon else ok tt
    validate_gridsquare cfg.microwaveprop
    reject (ltb cfg.update.check_interval min_check_interval) check_interval_too_short
