-- ===== src/Timestamp/Civil.antt =====
-- `civil_from_days` against the calendar, counted year by year and month by month.
use tcslog.Prelude.{
  ℕ, suc, ◌+◌, ◌-◌, ◌*◌, ◌/◌, ◌%◌, ◌≤◌, ◌<◌, ◌≡◌, refl, sym, ap, subst, ◌∙◌, arith, false,
  if◌then◌else◌,
}
use tcslog.Timestamp.{civil_from_days}
use tcslog.Timestamp.Calendar.{IsDate, day_number, is_leap, leap_days, leap_days-step}
use tcslog.Timestamp.Months.{before_march, date_of, date_of-IsDate, date_of-day_number, january}

yoe_of : ℕ → ℕ
yoe_of doe = (doe - doe / 1460 + doe / 36_524 - doe / 146_096) / 365

-- The year of the era that a day of the era falls in.
yoe_bounds :
    (doe : ℕ)
    → doe < 146_097
    → (365 * yoe_of doe + yoe_of doe / 4 - yoe_of doe / 100 ≤ doe)
      × (doe
          < 365 * (yoe_of doe + 1)
            + (yoe_of doe + 1) / 4
            - (yoe_of doe + 1) / 100
            + (yoe_of doe + 1) / 400)
      × (yoe_of doe < 400)
unfolding yoe_of
yoe_bounds doe h = omega arith

civil_from_days-date_of :
    (days : ℕ)
    → let doe : ℕ = (days + 719_468) % 146_097 in
      let yoe : ℕ = yoe_of doe in
      civil_from_days days
      ≡ date_of (yoe + (days + 719_468) / 146_097 * 400) (doe - (365 * yoe + yoe / 4 - yoe / 100))
unfolding civil_from_days date_of yoe_of
civil_from_days-date_of days = refl

-- An era has 97 leap days.
leap_days_era : (k era : ℕ) → leap_days (k + era * 400) ≡ leap_days k + era * 97
unfolding leap_days
leap_days_era k era = omega arith

leap_1970 : is_leap 1970 ≡ false
unfolding is_leap
leap_1970 = refl

leap_days_1970 : leap_days 1970 ≡ 477
unfolding leap_days
leap_days_1970 = refl

epoch : day_number (1970, 1, 1) ≡ 719_528
unfolding day_number
epoch = ground (arith, before_march 1970, january (is_leap 1970), leap_1970, leap_days_1970)

leap_days_first : (k : ℕ) → k < 400 → leap_days k ≡ k / 4 - k / 100
unfolding leap_days
leap_days_first k h = omega arith

leap_days_next : (k : ℕ) → leap_days (suc k) ≡ (k + 1) / 4 - (k + 1) / 100 + (k + 1) / 400
unfolding leap_days
leap_days_next k = omega arith

is_leap_era : (k era : ℕ) → is_leap (k + era * 400 + 1) ≡ is_leap (suc k)
unfolding is_leap
is_leap_era k era =
    let four : (k + era * 400 + 1) % 4 ≡ suc k % 4 = omega arith in
    let hundred : (k + era * 400 + 1) % 100 ≡ suc k % 100 = omega arith in
    let four_hundred : (k + era * 400 + 1) % 400 ≡ suc k % 400 = omega arith in
    rw four (rw hundred (rw four_hundred refl))

-- A day of an era, in the year of the era that it falls in.
day_of_era :
    (doe yoe era : ℕ)
    → 365 * yoe + yoe / 4 - yoe / 100 ≤ doe
    → doe < 365 * (yoe + 1) + (yoe + 1) / 4 - (yoe + 1) / 100 + (yoe + 1) / 400
    → yoe < 400
    → let date : ℕ × ℕ × ℕ = date_of (yoe + era * 400) (doe - (365 * yoe + yoe / 4 - yoe / 100)) in
      IsDate date × (day_number date ≡ doe + era * 146_097 + 60)
day_of_era doe yoe era low high below =
    let doy : ℕ = doe - (365 * yoe + yoe / 4 - yoe / 100) in
    let year : ℕ = yoe + era * 400 in
    let now : leap_days yoe ≡ yoe / 4 - yoe / 100 = leap_days_first yoe below in
    let leap : is_leap (year + 1) ≡ is_leap (suc yoe) = is_leap_era yoe era in
    let short : doy < 365 + (if is_leap (suc yoe) then 1 else 0) =
      omega (arith, now, leap_days_next yoe, leap_days-step yoe) in
    let at_most : doy ≤ 365 = ground (arith, short) in
    (
      date_of-IsDate year doy (rw leap short),
      date_of-day_number year doy at_most ∙ omega (arith, now, leap_days_era yoe era),
    )

-- The date of a day since 1970-01-01 is a date of the calendar, and it is that many days after
-- 1970-01-01.
pub civil_from_days-day_number :
    (days : ℕ)
    → IsDate (civil_from_days days)
      × (day_number (civil_from_days days) ≡ day_number (1970, 1, 1) + days)
civil_from_days-day_number days =
    let doe : ℕ = (days + 719_468) % 146_097 in
    let era : ℕ = (days + 719_468) / 146_097 in
    let bounds = yoe_bounds doe (omega arith) in
    let day = day_of_era doe (yoe_of doe) era bounds.0 bounds.1 bounds.2 in
    (
      subst IsDate (sym (civil_from_days-date_of days)) day.0,
      ap day_number (civil_from_days-date_of days) ∙ day.1 ∙ omega (arith, epoch),
    )
