-- ===== src/Timestamp/Months.antt =====
-- A day of a year that starts in March.
use tcslog.Prelude.{
  ℕ, zero, suc, ◌+◌, ◌-◌, ◌*◌, ◌/◌, ◌≤◌, ◌<◌, ◌≡◌, refl, sym, ap, subst, ◌∙◌, arith, Bool, true,
  false, inl, inr, ltb, leb, ◌==◌, if◌then◌else◌, Bool-cases,
}
use tcslog.Timestamp.Calendar.{
  IsDate, day_number, days_before_month, days_before_year, days_before_year-closed, days_in_month,
  is_leap, leap_days, leap_days-step,
}

days_before_month-step :
    (leap : Bool) (m : ℕ)
    → days_before_month leap (suc (suc m))
      ≡ days_before_month leap (suc m) + days_in_month leap (suc m)
unfolding days_before_month
days_before_month-step leap m = refl

month_lengths :
    (leap : Bool) (mp : ℕ)
    → suc mp < 10
    → (153 * suc mp + 2) / 5 ≡ (153 * mp + 2) / 5 + days_in_month leap (suc (suc (suc mp)))
unfolding days_in_month
month_lengths leap mp h = ground arith

-- A month from March on starts as many days into a year that starts in March.
spring :
    (leap : Bool) (mp : ℕ)
    → mp < 10
    → days_before_month leap (suc (suc (suc mp))) ≡ (153 * mp + 2) / 5 + days_before_month leap 3
spring leap zero h = omega arith
spring leap (suc mp) h = omega (
  arith,
  spring leap mp (omega arith),
  month_lengths leap mp h,
  days_before_month-step leap (suc (suc mp)),
)

-- The date that is `doy` days after the first of March of a year.
unfoldable pub date_of : ℕ → ℕ → ℕ × ℕ × ℕ
date_of year doy =
    let mp = (5 * doy + 2) / 153 in
    let day = doy - (153 * mp + 2) / 5 + 1 in
    let month = if ltb mp 10 then mp + 3 else mp - 9 in
    (if leb month 2 then year + 1 else year, month, day)

first_of_march : (leap : Bool) → days_before_month leap 3 ≡ 59 + (if leap then 1 else 0)
unfolding days_before_month days_in_month
first_of_march true = refl
first_of_march false = refl

pub before_march :
    (y : ℕ) → days_before_year y + (if is_leap y then 1 else 0) ≡ 365 * y + leap_days y + 1
unfolding leap_days days_before_year is_leap
before_march zero = refl
before_march (suc y) = omega (arith, days_before_year-closed y, leap_days-step y)

autumn :
    (y doy : ℕ)
    → (5 * doy + 2) / 153 < 10
    → day_number (y, (5 * doy + 2) / 153 + 3, doy - (153 * ((5 * doy + 2) / 153) + 2) / 5 + 1)
      ≡ 365 * y + leap_days y + (doy + 60)
unfolding day_number
autumn y doy h =
    let mp : ℕ = (5 * doy + 2) / 153 in
    let three : days_before_month (is_leap y) (mp + 3)
        ≡ days_before_month (is_leap y) (suc (suc (suc mp))) =
      ap (days_before_month (is_leap y)) (omega arith) in
    omega (arith, three, before_march y, spring (is_leap y) mp h, first_of_march (is_leap y))

pub january : (leap : Bool) → days_before_month leap 1 ≡ 0
unfolding days_before_month
january leap = refl

february : (leap : Bool) → days_before_month leap 2 ≡ 31
unfolding days_before_month days_in_month
february leap = refl

winter :
    (y doy : ℕ)
    → 10 ≤ (5 * doy + 2) / 153
    → doy ≤ 365
    → day_number (y + 1, (5 * doy + 2) / 153 - 9, doy - (153 * ((5 * doy + 2) / 153) + 2) / 5 + 1)
      ≡ 365 * y + leap_days y + (doy + 60)
unfolding day_number
winter y doy h k =
    let mp : ℕ = (5 * doy + 2) / 153 in
    let leap : Bool = is_leap (y + 1) in
    let year : days_before_year (y + 1) ≡ days_before_year (suc y) =
      ap days_before_year (omega arith) in
    elim (Bool-cases (mp == 10)) [
      | inl e ↦
          let one : days_before_month leap (mp - 9) ≡ days_before_month leap 1 =
            ap (days_before_month leap) (ground arith) in
          ground (arith, one, year, days_before_year-closed y, january leap)
      | inr e ↦
          let two : days_before_month leap (mp - 9) ≡ days_before_month leap 2 =
            ap (days_before_month leap) (ground arith) in
          ground (arith, two, year, days_before_year-closed y, february leap)
    ]

date_of_autumn :
    (y doy : ℕ)
    → (5 * doy + 2) / 153 < 10
    → date_of y doy ≡ (y, (5 * doy + 2) / 153 + 3, doy - (153 * ((5 * doy + 2) / 153) + 2) / 5 + 1)
unfolding date_of
date_of_autumn y doy h =
    let early : ltb ((5 * doy + 2) / 153) 10 ≡ true = ground arith in
    let late : leb ((5 * doy + 2) / 153 + 3) 2 ≡ false = ground arith in rw early (rw late refl)

date_of_winter :
    (y doy : ℕ)
    → 10 ≤ (5 * doy + 2) / 153
    → doy ≤ 365
    → date_of y doy
      ≡ (y + 1, (5 * doy + 2) / 153 - 9, doy - (153 * ((5 * doy + 2) / 153) + 2) / 5 + 1)
unfolding date_of
date_of_winter y doy h k =
    let early : ltb ((5 * doy + 2) / 153) 10 ≡ false = ground arith in
    let late : leb ((5 * doy + 2) / 153 - 9) 2 ≡ true = ground arith in rw early (rw late refl)

-- A day of a year that starts in March is a date of the calendar.
pub date_of-IsDate :
    (y doy : ℕ) → doy < 365 + (if is_leap (y + 1) then 1 else 0) → IsDate (date_of y doy)
unfolding days_in_month
date_of-IsDate y doy h = elim (Bool-cases (ltb ((5 * doy + 2) / 153) 10)) [
  | inl e ↦ subst IsDate (sym (date_of_autumn y doy (ground arith))) (record {
    month_low = omega arith;
    month_high = ground arith;
    day_low = omega arith;
    day_high = ground arith;
  })
  | inr e ↦ subst IsDate (sym (date_of_winter y doy (ground arith) (ground arith))) (record {
    month_low = ground arith;
    month_high = ground arith;
    day_low = omega arith;
    day_high = ground arith;
  })
]

pub date_of-day_number :
    (y doy : ℕ) → doy ≤ 365 → day_number (date_of y doy) ≡ 365 * y + leap_days y + (doy + 60)
date_of-day_number y doy h = elim (Bool-cases (ltb ((5 * doy + 2) / 153) 10)) [
  | inl e ↦ ap day_number (date_of_autumn y doy (ground arith)) ∙ autumn y doy (ground arith)
  | inr e ↦ ap day_number (date_of_winter y doy (ground arith) h) ∙ winter y doy (ground arith) h
]
