-- ===== src/Timestamp.antt =====
-- tcslog/src/util.rs: timestamps and record trailers as text.
pub mod Calendar
pub mod Months
pub mod Civil
pub mod Text
use tcslog.Prelude.{ℕ, ◌+◌, ◌-◌, ◌*◌, ◌/◌, ◌%◌, List, [], ◌∷◌, ◌++◌, ltb, leb, if◌then◌else◌}
use tcslog.Decimal.{decimal, padded}
use tcslog.Format.{Meta}

abbrev pub nanos_per_sec : ℕ
nanos_per_sec = 1_000_000_000

abbrev pub secs_per_day : ℕ
secs_per_day = 86_400

abbrev pub timestamp_str_len : ℕ
timestamp_str_len = 30

-- The year, the month and the day.
unfoldable pub civil_from_days : ℕ → ℕ × ℕ × ℕ
civil_from_days days =
    let z = days + 719_468 in
    let era = z / 146_097 in
    let doe = z % 146_097 in
    let yoe = (doe - doe / 1460 + doe / 36_524 - doe / 146_096) / 365 in
    let year = yoe + era * 400 in
    let doy = doe - (365 * yoe + yoe / 4 - yoe / 100) in
    let mp = (5 * doy + 2) / 153 in
    let day = doy - (153 * mp + 2) / 5 + 1 in
    let month = if ltb mp 10 then mp + 3 else mp - 9 in
    (if leb month 2 then year + 1 else year, month, day)

-- What is written to `w`, which for a `String` and for a buffer that is long enough is never an
-- error.
unfoldable pub write_timestamp : ℕ → List ℕ
write_timestamp ts =
    let secs = ts / nanos_per_sec in
    let nanos = ts % nanos_per_sec in
    let days = secs / secs_per_day in
    let secs_of_day = secs % secs_per_day in
    let (year, month, day) = civil_from_days days in
    let hour = secs_of_day / 3600 in
    let minute = secs_of_day % 3600 / 60 in
    let second = secs_of_day % 60 in
    padded 4 year
    ++ (b'-'
        ∷ (padded 2 month
            ++ (b'-'
                ∷ (padded 2 day
                    ++ (b'T'
                        ∷ (padded 2 hour
                            ++ (b':'
                                ∷ (padded 2 minute
                                    ++ (b':'
                                        ∷ (padded 2 second
                                            ++ (b'.' ∷ (padded 9 nanos ++ (b'Z' ∷ [])))))))))))))

unfoldable pub format_timestamp : ℕ → List ℕ
format_timestamp ts = write_timestamp ts

-- " bytes", and ", ts=" and ", rc=".
abbrev bytes_text : List ℕ
bytes_text = b' ' ∷ b'b' ∷ b'y' ∷ b't' ∷ b'e' ∷ b's' ∷ []

abbrev ts_text : List ℕ
ts_text = b',' ∷ b' ' ∷ b't' ∷ b's' ∷ b'=' ∷ []

abbrev rc_text : List ℕ
rc_text = b',' ∷ b' ' ∷ b'r' ∷ b'c' ∷ b'=' ∷ []

unfoldable pub record_trailer : ℕ → Meta → List ℕ
record_trailer payload_len Meta.fixed = b'(' ∷ (decimal payload_len ++ (bytes_text ++ (b')' ∷ [])))
record_trailer payload_len Meta.variable_simple =
    b'(' ∷ (decimal payload_len ++ (bytes_text ++ (b')' ∷ [])))
record_trailer payload_len (Meta.variable_ts_rc ts rc) =
    b'('
    ∷ (decimal payload_len
        ++ (bytes_text
            ++ (ts_text ++ (format_timestamp ts ++ (rc_text ++ (decimal rc ++ (b')' ∷ [])))))))
