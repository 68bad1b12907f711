-- ===== src/Tests/Timestamp.antt =====
-- Dates and timestamps at known days.
use tcslog.Prelude.{◌+◌, ◌≡◌, refl, arith, length, [], ◌∷◌}
use tcslog.Decimal.{digits, decimal, padded}
use tcslog.Format.{Meta}
use tcslog.Timestamp.{
  civil_from_days, write_timestamp, format_timestamp, timestamp_str_len, record_trailer,
}
use tcslog.Timestamp.Calendar.{IsDate, day_number}
use tcslog.Timestamp.Civil.{civil_from_days-day_number}
use tcslog.Timestamp.Text.{length-format_timestamp}

civil_from_days-day_number_example :
    IsDate (civil_from_days 19_782)
    × (day_number (civil_from_days 19_782) ≡ day_number (1970, 1, 1) + 19_782)
civil_from_days-day_number_example = civil_from_days-day_number 19_782

-- A leap day.
civil_known : civil_from_days 19_782 ≡ (2024, 2, 29)
unfolding civil_from_days
civil_known = refl

length-format_timestamp_example :
    length (format_timestamp 1_709_164_800_000_000_000) ≡ timestamp_str_len
length-format_timestamp_example = length-format_timestamp 1_709_164_800_000_000_000 (omega arith)

timestamp_known : write_timestamp 0 ≡ (
    b'1' ∷ b'9' ∷ b'7' ∷ b'0' ∷ b'-' ∷ b'0' ∷ b'1' ∷ b'-' ∷ b'0' ∷ b'1' ∷ b'T' ∷ b'0' ∷ b'0' ∷ b':'
    ∷ b'0' ∷ b'0' ∷ b':' ∷ b'0' ∷ b'0' ∷ b'.' ∷ b'0' ∷ b'0' ∷ b'0' ∷ b'0' ∷ b'0' ∷ b'0' ∷ b'0'
    ∷ b'0' ∷ b'0' ∷ b'Z' ∷ [])
unfolding write_timestamp civil_from_days padded decimal digits
timestamp_known = refl

trailer_known :
    record_trailer 12 Meta.fixed
    ≡ (b'(' ∷ b'1' ∷ b'2' ∷ b' ' ∷ b'b' ∷ b'y' ∷ b't' ∷ b'e' ∷ b's' ∷ b')' ∷ [])
unfolding record_trailer decimal digits
trailer_known = refl
