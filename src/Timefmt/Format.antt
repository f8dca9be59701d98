-- ===== src/Timefmt/Format.antt =====
-- `format_utc_iso8601` of src/timefmt.rs, against the calendar.
mod Tests
use propmonitor.Base.{ℕ, ◌+◌, ◌*◌, ◌/◌, ◌%◌, ◌^◌, ◌<◌, ◌≡◌, refl, ap, ap₂, ◌∙◌, arith}
use propmonitor.Timefmt.{ℤ, pos, negsuc, days_to_ymd, render, format_utc_iso8601}
use propmonitor.Timefmt.Calendar.{calendar, days_to_ymd-calendar}

-- `h` hours, `m` minutes and `s` seconds into day `d` after 1 January 1970, for fewer than 2 ^ 32
-- days, the text is that of the Gregorian date of the day, with the hour, the minute and the second.
pub format_utc_iso8601-calendar :
    (d h m s : ℕ)
    → d < 2 ^ 32
    → h < 24
    → m < 60
    → s < 60
    → format_utc_iso8601 (pos (d * 86400 + h * 3600 + m * 60 + s)) ≡ render (calendar d) h m s
unfolding format_utc_iso8601
format_utc_iso8601-calendar d h m s dd hh mm ss =
    let t = d * 86400 + h * 3600 + m * 60 + s in
    let day : (t / 86400) % 2 ^ 32 ≡ d = omega arith in
    let hour : t % 86400 / 3600 ≡ h = omega arith in
    let minute : t % 86400 % 3600 / 60 ≡ m = omega arith in
    let second : t % 86400 % 60 ≡ s = omega arith in
    ap (λ k. render (days_to_ymd k) (t % 86400 / 3600) (t % 86400 % 3600 / 60) (t % 86400 % 60)) day
    ∙ ap (λ c. render c (t % 86400 / 3600) (t % 86400 % 3600 / 60) (t % 86400 % 60))
        (days_to_ymd-calendar d)
    ∙ ap (λ k. render (calendar d) k (t % 86400 % 3600 / 60) (t % 86400 % 60)) hour
    ∙ ap (λ k. render (calendar d) h k (t % 86400 % 60)) minute
    ∙ ap (render (calendar d) h m) second
