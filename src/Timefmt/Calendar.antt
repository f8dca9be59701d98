-- ===== src/Timefmt/Calendar.antt =====
-- The Gregorian calendar, and the days of src/timefmt.rs in it.
use propmonitor.Base.{
  ℕ, suc, ◌+◌, ◌-◌, ◌*◌, ◌/◌, ◌%◌, ◌≤◌, ◌<◌, ◌≡◌, ◌≢◌, refl, Bool, true, false, not, ◌&&◌, ◌||◌,
  ltb, ◌==◌, if◌then◌else◌, arith, ◌∙◌, ap, sym, inl, inr, Bool-cases, ltb→lt, ==→eq, zero,
}
use propmonitor.Timefmt.{year_of_era, days_before, civil, days_to_ymd}

abbrev pub is_leap : ℕ → Bool
is_leap y = (y % 4 == 0) && (not (y % 100 == 0) || (y % 400 == 0))

abbrev pub days_in_month : ℕ → ℕ → ℕ
days_in_month y m =
    if m == 2
    then (if is_leap y then 29 else 28)
    else if (m == 4) || ((m == 6) || ((m == 9) || (m == 11)))
    then 30
    else 31

-- The day after a date of the Gregorian calendar.
unfoldable pub next_day : ℕ × ℕ × ℕ → ℕ × ℕ × ℕ
next_day (y, m, d) =
    if ltb d (days_in_month y m)
    then (y, m, d + 1)
    else if ltb m 12
    then (y, m + 1, 1)
    else (y + 1, 1, 1)

abbrev start : ℕ → ℕ
start y = 365 * y + y / 4 - y / 100 + y / 400

yoe-lt : (doe : ℕ) → doe < 146097 → year_of_era doe < 400
yoe-lt doe h = omega arith

yoe_low : (doe : ℕ) → doe < 146097 → start (year_of_era doe) ≤ doe
yoe_low doe h = omega arith

yoe_high : (doe : ℕ) → doe < 146097 → doe < start (year_of_era doe + 1)
yoe_high doe h = omega arith

start_mono : (a b : ℕ) → a ≤ b → start a ≤ start b
start_mono a b h = omega arith

yoe_unique : (doe y : ℕ) → doe < 146097 → start y ≤ doe → doe < start (y + 1) → year_of_era doe ≡ y
yoe_unique doe y h lo hi = omega (arith, yoe_low doe h, yoe_high doe h)

civil-next : (y doy : ℕ) → doy < 364 → next_day (civil y doy) ≡ civil y (doy + 1)
unfolding next_day civil
civil-next y doy h = ground arith

civil-leap : (y : ℕ) → is_leap (y + 1) ≡ true → next_day (civil y 364) ≡ civil y 365
unfolding next_day civil
civil-leap y h = ground arith

civil-common : (y : ℕ) → is_leap (y + 1) ≡ false → next_day (civil y 364) ≡ civil (y + 1) 0
unfolding next_day civil
civil-common y h = ground arith

civil-end : (y : ℕ) → is_leap (y + 1) ≡ true → next_day (civil y 365) ≡ civil (y + 1) 0
unfolding next_day civil
civil-end y h = ground arith

leap_length :
    (era yoe : ℕ) → is_leap (yoe + era * 400 + 1) ≡ true → start (yoe + 1) ≡ start yoe + 366
leap_length era yoe h = ground arith

common_length :
    (era yoe : ℕ) → is_leap (yoe + era * 400 + 1) ≡ false → start (yoe + 1) ≡ start yoe + 365
common_length era yoe h = ground arith

abbrev era_of : ℕ → ℕ
era_of z = z / 146097

era_of-at : (z era doe : ℕ) → z ≡ era * 146097 + doe → doe < 146097 → era_of z ≡ era
era_of-at z era doe h lt = omega arith

-- A day written as era, year of the era and day of the year is the day `civil` gives.
days_to_ymd-at :
    (n era yoe doy : ℕ)
    → n + 719468 ≡ era * 146097 + (start yoe + doy)
    → yoe < 400
    → start yoe + doy < start (yoe + 1)
    → days_to_ymd n ≡ civil (yoe + era * 400) doy
unfolding days_to_ymd
days_to_ymd-at n era yoe doy h y400 top =
    let doe = start yoe + doy in
    let small : doe < 146097 = omega (arith, start_mono (yoe + 1) 400 (omega arith)) in
    let e : era_of (n + 719468) ≡ era = era_of-at (n + 719468) era doe h small in
    let d : n + 719468 - era_of (n + 719468) * 146097 ≡ doe =
      ap (λ k. n + 719468 - k * 146097) e ∙ omega arith in
    let y : year_of_era doe ≡ yoe = yoe_unique doe yoe small (omega arith) top in
    ap
      (λ k.
        let doe' = n + 719468 - k * 146097 in
        civil (year_of_era doe' + k * 400) (doe' - days_before (year_of_era doe')))
      e
    ∙ ap (λ k. civil (year_of_era k + era * 400) (k - days_before (year_of_era k))) (omega arith)
    ∙ ap (λ k. civil (k + era * 400) (doe - days_before k)) y
    ∙ ap (civil (yoe + era * 400)) (omega arith)

-- The successor of the last day of a year that begins in March.
days_to_ymd-rollover :
    (n era yoe : ℕ)
    → n + 719468 + 1 ≡ era * 146097 + start (yoe + 1)
    → yoe < 400
    → days_to_ymd (n + 1) ≡ civil (yoe + era * 400 + 1) 0
days_to_ymd-rollover n era yoe h y400 = elim (Bool-cases (yoe == 399)) [
  | inl e ↦
      let y : yoe ≡ 399 = ==→eq yoe 399 e in
      let last : start (yoe + 1) ≡ 146097 = ap (λ k. start (k + 1)) y in
      days_to_ymd-at (n + 1) (era + 1) 0 0 (omega arith) (omega arith) (omega arith)
      ∙ ap (λ k. civil k 0) (omega arith)
  | inr e ↦
      let low : yoe < 399 = ground arith in
      days_to_ymd-at (n + 1) era (yoe + 1) 0 (omega arith) (omega arith) (omega arith)
      ∙ ap (λ k. civil k 0) (omega arith)
]

next-at :
    (n era yoe doy : ℕ)
    → n + 719468 ≡ era * 146097 + (start yoe + doy)
    → yoe < 400
    → start yoe + doy < start (yoe + 1)
    → days_to_ymd (n + 1) ≡ next_day (civil (yoe + era * 400) doy)
next-at n era yoe doy h y400 top =
    let y = yoe + era * 400 in
    elim (Bool-cases (ltb doy 364)) [
      | inl e ↦
          let small : doy < 364 = ltb→lt doy 364 e in
          days_to_ymd-at (n + 1) era yoe (doy + 1) (omega arith) y400 (omega arith)
          ∙ sym (civil-next y doy small)
      | inr e ↦
          let late : 364 ≤ doy = ground arith in
          elim (Bool-cases (is_leap (y + 1))) [
            | inl l ↦
                let len = leap_length era yoe l in
                elim (Bool-cases (doy == 364)) [
                  | inl d ↦
                      let day : doy ≡ 364 = ==→eq doy 364 d in
                      days_to_ymd-at (n + 1) era yoe 365 (omega arith) y400 (omega arith)
                      ∙ sym (civil-leap y l)
                      ∙ ap (λ k. next_day (civil y k)) (sym day)
                  | inr d ↦
                      let not_364 : doy ≢ 364 = λ q. ground arith in
                      let day : doy ≡ 365 = omega arith in
                      days_to_ymd-rollover n era yoe (omega arith) y400
                      ∙ sym (civil-end y l)
                      ∙ ap (λ k. next_day (civil y k)) (sym day)
                ]
            | inr l ↦
                let len = common_length era yoe l in
                let day : doy ≡ 364 = omega arith in
                days_to_ymd-rollover n era yoe (omega arith) y400
                ∙ sym (civil-common y l)
                ∙ ap (λ k. next_day (civil y k)) (sym day)
          ]
    ]

-- The date that `days_to_ymd` gives for a day is followed, on the next day, by its successor in the
-- Gregorian calendar, with the leap years that the calendar has.
days_to_ymd-suc : (n : ℕ) → days_to_ymd (n + 1) ≡ next_day (days_to_ymd n)
days_to_ymd-suc n =
    let z = n + 719468 in
    let era = z / 146097 in
    let doe = z % 146097 in
    let yoe = year_of_era doe in
    let small : doe < 146097 = omega arith in
    let low = yoe_low doe small in
    let high = yoe_high doe small in
    let y400 = yoe-lt doe small in
    let split : z ≡ era * 146097 + (start yoe + (doe - start yoe)) = omega arith in
    let top : start yoe + (doe - start yoe) < start (yoe + 1) = omega arith in
    next-at n era yoe (doe - start yoe) split y400 top
    ∙ ap next_day (sym (days_to_ymd-at n era yoe (doe - start yoe) split y400 top))

-- An independent calendar: the date reached from 1 January 1970 by a number of successor steps.
unfoldable pub calendar : ℕ → ℕ × ℕ × ℕ
calendar zero = (1970, 1, 1)
calendar (suc n) = next_day (calendar n)

epoch : days_to_ymd 0 ≡ (1970, 1, 1)
unfolding days_to_ymd civil
epoch = refl

-- For every number of days, `days_to_ymd` gives the date that many Gregorian days after
-- 1 January 1970.
pub days_to_ymd-calendar : (n : ℕ) → days_to_ymd n ≡ calendar n
unfolding calendar
days_to_ymd-calendar zero = epoch
days_to_ymd-calendar (suc n) =
    ap days_to_ymd (omega arith) ∙ days_to_ymd-suc n ∙ ap next_day (days_to_ymd-calendar n)
