-- ===== src/Worker.antt =====
-- The events of src/worker.rs, and the measurement of src/measure.rs that one of them carries.
pub mod Waterfall
pub mod Row
pub mod Capture
pub mod Sound
pub mod Samples
pub mod Drain
pub mod Windows
pub mod Reads
pub mod Measured
pub mod Device
use propmonitor.Base.{Text, List}

-- `Measurement`
pub record Measurement (F : Type 0) : Type 0 where
  pub noise_dbfs : F
  pub signal_peak_dbfs : F
  pub signal_avg_dbfs : F
  pub snr_peak_db : F
  pub snr_avg_db : F
  pub signal_active_fraction : F

-- What the device accepted.
pub record DeviceInfo (F : Type 0) : Type 0 where
  pub actual_sample_rate : F
  pub actual_frequency : F
  pub actual_gain : F
  pub gain_elements : List Text

-- `S` is `f32`, the type of the waterfall's numbers.
pub data WorkerEvent (F S : Type 0) : Type 0 where
  period_started : WorkerEvent F S
  period_measurement : Measurement F → WorkerEvent F S
  waterfall_row : List S → S → S → WorkerEvent F S
  raw_level : F → WorkerEvent F S
  device_info : DeviceInfo F → WorkerEvent F S
  error : Text → WorkerEvent F S
