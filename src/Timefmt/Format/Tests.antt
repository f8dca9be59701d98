-- ===== src/Timefmt/Format/Tests.antt =====
-- Runs of the date code of src/timefmt.rs.
use propmonitor.Base.{◌+◌, ◌*◌, codes, ◌≡◌, refl, arith}
use propmonitor.Base.Decimal.{show, show_from}
use propmonitor.Timefmt.{pos, negsuc, days_to_ymd, civil, pad, render, format_utc_iso8601}
use propmonitor.Timefmt.Calendar.{calendar, days_to_ymd-calendar}
use propmonitor.Timefmt.Format.{format_utc_iso8601-calendar}

format-epoch : format_utc_iso8601 (negsuc 3) ≡ codes "1970-01-01T00:00:00Z"
unfolding format_utc_iso8601 days_to_ymd civil pad render show show_from
format-epoch = refl

format-leap_day : format_utc_iso8601 (pos 1709210096) ≡ codes "2024-02-29T12:34:56Z"
unfolding format_utc_iso8601 days_to_ymd civil pad render show show_from
format-leap_day = refl

format_utc_iso8601-calendar_example :
    format_utc_iso8601 (pos (58 * 86400 + 23 * 3600 + 59 * 60 + 59)) ≡ render (calendar 58) 23 59 59
format_utc_iso8601-calendar_example =
    format_utc_iso8601-calendar 58 23 59 59 (omega arith) (omega arith) (omega arith) (omega arith)

days_to_ymd-calendar_example : days_to_ymd 11016 ≡ calendar 11016
days_to_ymd-calendar_example = days_to_ymd-calendar 11016

leap_day : days_to_ymd 11016 ≡ (2000, 2, 29)
unfolding days_to_ymd civil
leap_day = refl
