-- ===== src/Timestamp/Calendar.antt =====
-- The calendar, year by year and month by month.
use tcslog.Prelude.{
  ℕ, zero, suc, ◌+◌, ◌-◌, ◌*◌, ◌/◌, ◌%◌, ◌≤◌, ◌≡◌, refl, arith, Bool, inl, inr, ◌==◌, ◌&&◌, ◌||◌,
  not, if◌then◌else◌, Bool-cases,
}

-- The calendar that every fourth year has a leap day, but not every hundredth, but every four
-- hundredth.
unfoldable pub is_leap : ℕ → Bool
is_leap y = (y % 4 == 0) && (not (y % 100 == 0) || (y % 400 == 0))

unfoldable pub days_in_year : ℕ → ℕ
days_in_year y = if is_leap y then 366 else 365

unfoldable pub days_in_month : Bool → ℕ → ℕ
days_in_month leap m =
    if m == 2
    then (if leap then 29 else 28)
    else if (m == 4) || ((m == 6) || ((m == 9) || (m == 11)))
    then 30
    else 31

-- The days of the years before, from the year 0.
unfoldable pub days_before_year : ℕ → ℕ
days_before_year zero = 0
days_before_year (suc y) = days_before_year y + days_in_year y

-- The days of the months before, in a year.
unfoldable pub days_before_month : Bool → ℕ → ℕ
days_before_month leap zero = 0
days_before_month leap (suc zero) = 0
days_before_month leap (suc (suc m)) = days_before_month leap (suc m) + days_in_month leap (suc m)

-- The days from the first of January of the year 0 to a date.
unfoldable pub day_number : ℕ × ℕ × ℕ → ℕ
day_number (y, m, d) = days_before_year y + days_before_month (is_leap y) m + (d - 1)

-- A date of the calendar.
pub record IsDate (date : ℕ × ℕ × ℕ) : Type 0 where
  pub month_low : 1 ≤ date.1
  pub month_high : date.1 ≤ 12
  pub day_low : 1 ≤ date.2
  pub day_high : date.2 ≤ days_in_month (is_leap date.0) date.1

unfoldable pub leap_days : ℕ → ℕ
leap_days y = y / 4 - y / 100 + y / 400

pub leap_days-step : (y : ℕ) → leap_days (suc y) ≡ leap_days y + (if is_leap (suc y) then 1 else 0)
unfolding leap_days is_leap
leap_days-step y = elim (Bool-cases (suc y % 4 == 0)) [
  | inl e ↦ elim (Bool-cases (suc y % 100 == 0)) [
    | inl k ↦ elim (Bool-cases (suc y % 400 == 0)) [
      | inl l ↦ rw e (rw k (rw l (ground arith)))
      | inr l ↦ rw e (rw k (rw l (ground arith)))
    ]
    | inr k ↦ rw e (rw k (ground arith))
  ]
  | inr e ↦ rw e (ground arith)
]

pub days_before_year-closed : (y : ℕ) → days_before_year (suc y) ≡ 365 * y + leap_days y + 366
unfolding days_before_year days_in_year leap_days is_leap
days_before_year-closed zero = refl
days_before_year-closed (suc y) = ground (arith, days_before_year-closed y, leap_days-step y)
