-- ===== src/Store.antt =====
-- src/store.rs: the ring buffer of the last day's measurements.
pub mod History
use propmonitor.Base.{
  ℕ, ◌+◌, ◌-◌, min, Text, List, [], ◌∷◌, ◌++◌, length, drop, get_last?, ◌==◌, if◌then◌else◌, Option,
}
use propmonitor.Float.{Float}

-- The measurement numbers are `f64` in the source; the store never looks at them.
pub record StoredMeasurement (F : Type 0) : Type 0 where
  pub measured_at : Text
  pub noise_floor_dbfs : F
  pub signal_peak_dbfs : F
  pub signal_avg_dbfs : F
  pub snr_peak_db : F
  pub snr_avg_db : F
  pub signal_active_fraction : F

abbrev pub max_entries : ℕ
max_entries = 1440

pub record MeasurementStore (M : Type 0) : Type 0 where
  pub entries : List M

module _ {M : Type 0} where
  unfoldable pub new : MeasurementStore M
  new = record { entries = [] }

  unfoldable pub push : MeasurementStore M → M → MeasurementStore M
  push s m =
      let kept = if length s.entries == max_entries then drop 1 s.entries else s.entries in
      record { entries = kept ++ m ∷ [] }

  unfoldable pub recent : MeasurementStore M → ℕ → List M
  recent s limit = let n = min limit (length s.entries) in drop (length s.entries - n) s.entries

  unfoldable pub last : MeasurementStore M → Option M
  last s = get_last? s.entries
