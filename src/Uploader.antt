-- ===== src/Uploader.antt =====
-- src/uploader.rs: the task that posts measurements to the website, with its retry queue.
mod Tests
pub mod Loop
pub mod Bounds
pub mod Backoff
use propmonitor.Base.{
  ℕ, ◌+◌, ◌*◌, min, Text, codes, is_empty, List, [], ◌∷◌, ◌++◌, length, drop, Bool, true, false,
  not, ◌&&◌, ◌==◌, ltb, leb, if◌then◌else◌, Option, none, some,
}
use propmonitor.Float.{Float}
use propmonitor.Config.{MicrowavepropConfig, Config, passband_for}
use propmonitor.Settings.{unwrap_or}
use propmonitor.Store.{StoredMeasurement, max_entries}
use propmonitor.Worker.{DeviceInfo}
use propmonitor.Events
use propmonitor.Events.{WsEvent}

pub record UploadEvent : Type 0 where
  pub at : Text
  pub ok_flag : Bool
  pub queued : ℕ

pub record UploaderStatus : Type 0 where
  pub enabled : Bool
  pub last_post_at : Option Text
  pub last_status : Option Text
  pub queued : ℕ

pub data ResponseClass : Type 0 where
  accepted permanent transient : ResponseClass

-- `is_success` and `is_client_error` are the ranges 200 to 299 and 400 to 499.
unfoldable pub classify_status : ℕ → ResponseClass
classify_status code =
    if leb 200 code && ltb code 300
    then accepted
    else if code == 429
    then transient
    else if leb 400 code && ltb code 500
    then permanent
    else transient

-- The answer to a post: a status, or a network error or timeout.
unfoldable pub class_of : Option ℕ → ResponseClass
class_of none = transient
class_of (some code) = classify_status code

unfoldable pub should_upload : MicrowavepropConfig → Bool
should_upload mw =
    mw.enabled
    && (not (is_empty mw.monitor_token)
        && (not (is_empty mw.beacon_id) && not (is_empty mw.gridsquare)))

-- `as_ref().filter(should_upload)`
abbrev pub uploading : Option MicrowavepropConfig → Option MicrowavepropConfig
uploading none = none
uploading (some mw) = if should_upload mw then some mw else none

pub record WireMeasurement (F : Type 0) : Type 0 where
  pub beacon_id : Text
  pub gridsquare : Text
  pub frequency_hz : ℕ
  pub measured_at : Text
  pub integration_s : ℕ
  pub passband_hz : F
  pub gain_db : F
  pub noise_floor_dbfs : F
  pub signal_peak_dbfs : F
  pub signal_avg_dbfs : F
  pub snr_peak_db : F
  pub snr_avg_db : F
  pub signal_active_fraction : F
  pub propmonitor_version : Text

abbrev pub max_backoff : ℕ
max_backoff = 300

-- The task's own variables, the status it shares, and the events it emitted.
pub record Uploader (F : Type 0) : Type 0 where
  pub queue : List (WireMeasurement F)
  pub backoff : ℕ
  pub status : UploaderStatus
  pub emitted : List UploadEvent

unfoldable pub new : {F : Type 0} → UploaderStatus → Uploader F
new status = record { queue = []; backoff = 1; status = status; emitted = [] }

module _ {F : Type 0} where
  unfoldable pub emit : Uploader F → UploadEvent → Uploader F
  emit u ev = record u {
    status = record u.status {
      last_post_at = some ev.at;
      last_status = some (if ev.ok_flag then codes "ok" else codes "error");
      queued = ev.queued;
    };
    emitted = u.emitted ++ ev ∷ [];
  }

  unfoldable pub push_queue :
      List (WireMeasurement F) → WireMeasurement F → List (WireMeasurement F)
  push_queue queue m =
      let kept = if leb max_entries (length queue) then drop 1 queue else queue in kept ++ m ∷ []

  -- The post of the head of the queue, answered with a class at a time.
  unfoldable pub posted : Uploader F → Text → ResponseClass → Uploader F
  posted u now accepted =
      let queue = drop 1 u.queue in
      emit (record u { queue = queue; backoff = 1 })
        (record { at = now; ok_flag = true; queued = length queue })
  posted u now permanent =
      let told = emit u (record { at = now; ok_flag = false; queued = length u.queue }) in
      record told { queue = drop 1 told.queue; backoff = 1 }
  posted u now transient = emit u (record { at = now; ok_flag = false; queued = length u.queue })

module _ (fl : Float) where
  open fl use {F, of_ℕ, to_u64}

  unfoldable pub gain_from_device_info : {S : Type 0} → Option (WsEvent F S) → Option F → F
  gain_from_device_info (some (Events.device_info d)) cfg_gain = d.actual_gain
  gain_from_device_info _ cfg_gain = unwrap_or cfg_gain (of_ℕ 0)

  unfoldable pub build_wire_measurement :
      Config F → MicrowavepropConfig → F → StoredMeasurement F → WireMeasurement F
  build_wire_measurement cfg mw actual_gain m = record {
    beacon_id = mw.beacon_id;
    gridsquare = mw.gridsquare;
    frequency_hz = to_u64 cfg.frequency;
    measured_at = m.measured_at;
    integration_s = cfg.period_seconds;
    passband_hz = (passband_for fl cfg.mode cfg.beacon).1;
    gain_db = actual_gain;
    noise_floor_dbfs = m.noise_floor_dbfs;
    signal_peak_dbfs = m.signal_peak_dbfs;
    signal_avg_dbfs = m.signal_avg_dbfs;
    snr_peak_db = m.snr_peak_db;
    snr_avg_db = m.snr_avg_db;
    signal_active_fraction = m.signal_active_fraction;
    propmonitor_version = codes "0.2.0";
  }
