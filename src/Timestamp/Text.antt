-- ===== src/Timestamp/Text.antt =====
-- The text of a timestamp has a fixed length.
use tcslog.Prelude.{
  ℕ, suc, ◌+◌, ◌/◌, ◌%◌, ◌^◌, ◌<◌, ◌≡◌, arith, List, [], ◌∷◌, ◌++◌, length, length-append,
}
use tcslog.Decimal.{padded, length-padded}
use tcslog.Timestamp.{
  nanos_per_sec, secs_per_day, timestamp_str_len, civil_from_days, write_timestamp,
  format_timestamp,
}
use tcslog.Timestamp.Civil.{civil_from_days-day_number}

civil_from_days-year : (days : ℕ) → days < 2_900_000 → (civil_from_days days).0 < 10 ^ 4
unfolding civil_from_days
civil_from_days-year days h = ground arith

civil_from_days-month : (days : ℕ) → (civil_from_days days).1 < 10 ^ 2
civil_from_days-month days = omega (arith, (civil_from_days-day_number days).0.month_high)

civil_from_days-day : (days : ℕ) → (civil_from_days days).2 < 10 ^ 2
unfolding civil_from_days
civil_from_days-day days = omega arith

-- Fields between separators.
length-field :
    (w n b : ℕ) (rest : List ℕ)
    → n < 10 ^ suc w
    → length (padded (suc w) n ++ (b ∷ rest)) ≡ suc w + suc (length rest)
length-field w n b rest h =
    omega (arith, length-append (padded (suc w) n) (b ∷ rest), length-padded w n h)

-- Every `u64` is written as a timestamp of exactly 30 characters.
pub length-format_timestamp :
    (ts : ℕ) → ts < 2 ^ 64 → length (format_timestamp ts) ≡ timestamp_str_len
unfolding format_timestamp write_timestamp
length-format_timestamp ts h =
    let secs : ℕ = ts / nanos_per_sec in
    let days : ℕ = secs / secs_per_day in
    omega (
      arith,
      length-field 3 (civil_from_days days).0 b'-' _ (civil_from_days-year days (omega arith)),
      length-field 1 (civil_from_days days).1 b'-' _ (civil_from_days-month days),
      length-field 1 (civil_from_days days).2 b'T' _ (civil_from_days-day days),
      length-field 1 (secs % secs_per_day / 3600) b':' _ (omega arith),
      length-field 1 (secs % secs_per_day % 3600 / 60) b':' _ (omega arith),
      length-field 1 (secs % secs_per_day % 60) b'.' _ (omega arith),
      length-field 8 (ts % nanos_per_sec) b'Z' [] (omega arith),
    )
