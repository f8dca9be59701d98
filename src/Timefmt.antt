-- ===== src/Timefmt.antt =====
-- src/timefmt.rs: UTC timestamps from Unix seconds.
pub mod Calendar
pub mod Format
use propmonitor.Base.{
  ℕ, zero, suc, List, [], ◌∷◌, length, ◌+◌, ◌-◌, ◌*◌, ◌/◌, ◌%◌, ◌^◌, Text, codes, ◌++◌, ltb, leb,
  if◌then◌else◌,
}
use propmonitor.Base.Decimal.{show}

-- The steps of `days_to_ymd`. Its signed numbers are never negative here: the days are unsigned and
-- 719468 is added to them, so `z >= 0` holds.
abbrev pub year_of_era : ℕ → ℕ
year_of_era doe = (doe - doe / 1460 + doe / 36524 - doe / 146096) / 365

-- The days of an era before its year `yoe`.
abbrev pub days_before : ℕ → ℕ
days_before yoe = 365 * yoe + yoe / 4 - yoe / 100

-- The date of day `doy` of the year that begins in March of year `y`.
unfoldable pub civil : ℕ → ℕ → ℕ × ℕ × ℕ
civil y doy =
    let mp = (5 * doy + 2) / 153 in
    let d = doy - (153 * mp + 2) / 5 + 1 in
    let m = if ltb mp 10 then mp + 3 else mp - 9 in (if leb m 2 then y + 1 else y, m, d)

unfoldable pub days_to_ymd : ℕ → ℕ × ℕ × ℕ
unfolding civil
days_to_ymd days_since_epoch =
    let z = days_since_epoch + 719468 in
    let era = z / 146097 in
    let doe = z - era * 146097 in
    let yoe = year_of_era doe in
    let y = yoe + era * 400 in let doy = doe - days_before yoe in civil y doy

-- `i64`; the bounds of the width are stated where a theorem needs them.
pub data ℤ : Type 0 where
  pos negsuc : ℕ → ℤ

-- `max(0) as u64`
abbrev pub clamp : ℤ → ℕ
clamp (pos n) = n
clamp (negsuc n) = 0

abbrev zeros : ℕ → Text
zeros zero = []
zeros (suc n) = b'0' ∷ zeros n

-- `{:0width}`
unfoldable pub pad : ℕ → ℕ → Text
pad width n = zeros (width - length (show n)) ++ show n

-- `{:04}-{:02}-{:02}T{:02}:{:02}:{:02}Z`
unfoldable pub render : ℕ × ℕ × ℕ → ℕ → ℕ → ℕ → Text
render (year, month, day) hour min sec =
    pad 4 year
    ++ b'-' ∷ pad 2 month
    ++ b'-' ∷ pad 2 day
    ++ b'T' ∷ pad 2 hour
    ++ b':' ∷ pad 2 min
    ++ b':' ∷ pad 2 sec
    ++ b'Z' ∷ []

unfoldable pub format_utc_iso8601 : ℤ → Text
format_utc_iso8601 unix_secs =
    let secs = clamp unix_secs in
    let sod = secs % 86400 in
    render (days_to_ymd ((secs / 86400) % 2 ^ 32)) (sod / 3600) (sod % 3600 / 60) (sod % 60)
