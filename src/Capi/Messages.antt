-- ===== src/Capi/Messages.antt =====
-- tcslog-c/src/lib.rs: the descriptions of the statuses.
use tcslog.Prelude.{[], ◌∷◌, ◌<◌, arith, length}
use tcslog.Fs.{Text}
use tcslog.Capi.Status.{TcslogStatus}

-- The text without its NUL. An unknown number is no status of the model.
unfoldable pub tcslog_status_str : TcslogStatus → Text
tcslog_status_str TcslogStatus.ok = b'o' ∷ b'k' ∷ []
tcslog_status_str TcslogStatus.eof =
    b'e' ∷ b'n' ∷ b'd' ∷ b' ' ∷ b'o' ∷ b'f' ∷ b' ' ∷ b'l' ∷ b'o' ∷ b'g' ∷ []
tcslog_status_str TcslogStatus.session_end =
    b'e' ∷ b'n' ∷ b'd' ∷ b' ' ∷ b'o' ∷ b'f' ∷ b' ' ∷ b's' ∷ b'e' ∷ b's' ∷ b's' ∷ b'i' ∷ b'o' ∷ b'n'
    ∷ []
tcslog_status_str TcslogStatus.read_truncated =
    b't' ∷ b'e' ∷ b'l' ∷ b'e' ∷ b'm' ∷ b'e' ∷ b't' ∷ b'r' ∷ b'y' ∷ b' ' ∷ b'l' ∷ b'o' ∷ b's' ∷ b't'
    ∷ b';' ∷ b' ' ∷ b'r' ∷ b'e' ∷ b'c' ∷ b'o' ∷ b'r' ∷ b'd' ∷ b' ' ∷ b'c' ∷ b'u' ∷ b't' ∷ b' '
    ∷ b's' ∷ b'h' ∷ b'o' ∷ b'r' ∷ b't' ∷ []
tcslog_status_str TcslogStatus.read_overflow =
    b'r' ∷ b'e' ∷ b'c' ∷ b'o' ∷ b'r' ∷ b'd' ∷ b' ' ∷ b'l' ∷ b'a' ∷ b'r' ∷ b'g' ∷ b'e' ∷ b'r' ∷ b' '
    ∷ b't' ∷ b'h' ∷ b'a' ∷ b'n' ∷ b' ' ∷ b't' ∷ b'h' ∷ b'e' ∷ b' ' ∷ b'b' ∷ b'u' ∷ b'f' ∷ b'f'
    ∷ b'e' ∷ b'r' ∷ b';' ∷ b' ' ∷ b'i' ∷ b't' ∷ b's' ∷ b' ' ∷ b'f' ∷ b'r' ∷ b'o' ∷ b'n' ∷ b't'
    ∷ b' ' ∷ b'w' ∷ b'a' ∷ b's' ∷ b' ' ∷ b'c' ∷ b'a' ∷ b'p' ∷ b't' ∷ b'u' ∷ b'r' ∷ b'e' ∷ b'd' ∷ []
tcslog_status_str TcslogStatus.clock_error =
    b'r' ∷ b'e' ∷ b'a' ∷ b'l' ∷ b'-' ∷ b't' ∷ b'i' ∷ b'm' ∷ b'e' ∷ b' ' ∷ b'c' ∷ b'l' ∷ b'o' ∷ b'c'
    ∷ b'k' ∷ b' ' ∷ b'i' ∷ b's' ∷ b' ' ∷ b'n' ∷ b'o' ∷ b't' ∷ b' ' ∷ b's' ∷ b'e' ∷ b't' ∷ []
tcslog_status_str TcslogStatus.fixed_len_mismatch =
    b'p' ∷ b'a' ∷ b'y' ∷ b'l' ∷ b'o' ∷ b'a' ∷ b'd' ∷ b' ' ∷ b'i' ∷ b's' ∷ b' ' ∷ b'n' ∷ b'o' ∷ b't'
    ∷ b' ' ∷ b't' ∷ b'h' ∷ b'e' ∷ b' ' ∷ b'f' ∷ b'i' ∷ b'x' ∷ b'e' ∷ b'd' ∷ b' ' ∷ b'r' ∷ b'e'
    ∷ b'c' ∷ b'o' ∷ b'r' ∷ b'd' ∷ b' ' ∷ b'l' ∷ b'e' ∷ b'n' ∷ b'g' ∷ b't' ∷ b'h' ∷ []
tcslog_status_str TcslogStatus.invalid_header =
    b's' ∷ b'e' ∷ b'g' ∷ b'm' ∷ b'e' ∷ b'n' ∷ b't' ∷ b' ' ∷ b'f' ∷ b'i' ∷ b'l' ∷ b'e' ∷ b' ' ∷ b'h'
    ∷ b'e' ∷ b'a' ∷ b'd' ∷ b'e' ∷ b'r' ∷ b' ' ∷ b'c' ∷ b'o' ∷ b'u' ∷ b'l' ∷ b'd' ∷ b' ' ∷ b'n'
    ∷ b'o' ∷ b't' ∷ b' ' ∷ b'b' ∷ b'e' ∷ b' ' ∷ b'r' ∷ b'e' ∷ b'a' ∷ b'd' ∷ []
tcslog_status_str TcslogStatus.invalid_pathname =
    b'd' ∷ b'i' ∷ b'r' ∷ b'e' ∷ b'c' ∷ b't' ∷ b'o' ∷ b'r' ∷ b'y' ∷ b',' ∷ b' ' ∷ b'p' ∷ b'r' ∷ b'e'
    ∷ b'f' ∷ b'i' ∷ b'x' ∷ b',' ∷ b' ' ∷ b'o' ∷ b'r' ∷ b' ' ∷ b's' ∷ b'u' ∷ b'f' ∷ b'f' ∷ b'i'
    ∷ b'x' ∷ b' ' ∷ b'c' ∷ b'a' ∷ b'n' ∷ b'n' ∷ b'o' ∷ b't' ∷ b' ' ∷ b'n' ∷ b'a' ∷ b'm' ∷ b'e'
    ∷ b' ' ∷ b'a' ∷ b' ' ∷ b'l' ∷ b'o' ∷ b'g' ∷ []
tcslog_status_str TcslogStatus.io_error =
    b'I' ∷ b'/' ∷ b'O' ∷ b' ' ∷ b'e' ∷ b'r' ∷ b'r' ∷ b'o' ∷ b'r' ∷ []
tcslog_status_str TcslogStatus.no_segment_files =
    b'n' ∷ b'o' ∷ b' ' ∷ b's' ∷ b'e' ∷ b'g' ∷ b'm' ∷ b'e' ∷ b'n' ∷ b't' ∷ b' ' ∷ b'f' ∷ b'i' ∷ b'l'
    ∷ b'e' ∷ b's' ∷ []
tcslog_status_str TcslogStatus.path_delimiter_not_allowed =
    b'p' ∷ b'r' ∷ b'e' ∷ b'f' ∷ b'i' ∷ b'x' ∷ b' ' ∷ b'o' ∷ b'r' ∷ b' ' ∷ b's' ∷ b'u' ∷ b'f' ∷ b'f'
    ∷ b'i' ∷ b'x' ∷ b' ' ∷ b'h' ∷ b'o' ∷ b'l' ∷ b'd' ∷ b's' ∷ b' ' ∷ b'a' ∷ b' ' ∷ b'p' ∷ b'a'
    ∷ b't' ∷ b'h' ∷ b' ' ∷ b's' ∷ b'e' ∷ b'p' ∷ b'a' ∷ b'r' ∷ b'a' ∷ b't' ∷ b'o' ∷ b'r' ∷ []
tcslog_status_str TcslogStatus.payload_too_large =
    b'p' ∷ b'a' ∷ b'y' ∷ b'l' ∷ b'o' ∷ b'a' ∷ b'd' ∷ b' ' ∷ b't' ∷ b'o' ∷ b'o' ∷ b' ' ∷ b'l' ∷ b'a'
    ∷ b'r' ∷ b'g' ∷ b'e' ∷ b' ' ∷ b'f' ∷ b'o' ∷ b'r' ∷ b' ' ∷ b'a' ∷ b' ' ∷ b'r' ∷ b'e' ∷ b'c'
    ∷ b'o' ∷ b'r' ∷ b'd' ∷ []
tcslog_status_str TcslogStatus.seg_size_too_small =
    b's' ∷ b'e' ∷ b'g' ∷ b'm' ∷ b'e' ∷ b'n' ∷ b't' ∷ b' ' ∷ b's' ∷ b'i' ∷ b'z' ∷ b'e' ∷ b' ' ∷ b'l'
    ∷ b'e' ∷ b'a' ∷ b'v' ∷ b'e' ∷ b's' ∷ b' ' ∷ b'n' ∷ b'o' ∷ b' ' ∷ b'r' ∷ b'o' ∷ b'o' ∷ b'm'
    ∷ b' ' ∷ b'f' ∷ b'o' ∷ b'r' ∷ b' ' ∷ b'a' ∷ b' ' ∷ b'r' ∷ b'e' ∷ b'c' ∷ b'o' ∷ b'r' ∷ b'd' ∷ []
tcslog_status_str TcslogStatus.timer_resolution_zero =
    b'b' ∷ b'u' ∷ b'i' ∷ b'l' ∷ b't' ∷ b' ' ∷ b'w' ∷ b'i' ∷ b't' ∷ b'h' ∷ b'o' ∷ b'u' ∷ b't' ∷ b' '
    ∷ b'T' ∷ b'I' ∷ b'M' ∷ b'E' ∷ b'R' ∷ b'_' ∷ b'R' ∷ b'E' ∷ b'S' ∷ b'O' ∷ b'L' ∷ b'U' ∷ b'T'
    ∷ b'I' ∷ b'O' ∷ b'N' ∷ []
tcslog_status_str TcslogStatus.version_mismatch =
    b's' ∷ b'e' ∷ b'g' ∷ b'm' ∷ b'e' ∷ b'n' ∷ b't' ∷ b' ' ∷ b'f' ∷ b'i' ∷ b'l' ∷ b'e' ∷ b' ' ∷ b'v'
    ∷ b'e' ∷ b'r' ∷ b's' ∷ b'i' ∷ b'o' ∷ b'n' ∷ b' ' ∷ b'i' ∷ b's' ∷ b' ' ∷ b'n' ∷ b'o' ∷ b't'
    ∷ b' ' ∷ b'r' ∷ b'e' ∷ b'a' ∷ b'd' ∷ b'a' ∷ b'b' ∷ b'l' ∷ b'e' ∷ b' ' ∷ b'b' ∷ b'y' ∷ b' '
    ∷ b't' ∷ b'h' ∷ b'i' ∷ b's' ∷ b' ' ∷ b'b' ∷ b'u' ∷ b'i' ∷ b'l' ∷ b'd' ∷ []
tcslog_status_str TcslogStatus.null_argument =
    b'n' ∷ b'u' ∷ b'l' ∷ b'l' ∷ b' ' ∷ b'a' ∷ b'r' ∷ b'g' ∷ b'u' ∷ b'm' ∷ b'e' ∷ b'n' ∷ b't' ∷ []
tcslog_status_str TcslogStatus.not_utf8 =
    b'a' ∷ b'r' ∷ b'g' ∷ b'u' ∷ b'm' ∷ b'e' ∷ b'n' ∷ b't' ∷ b' ' ∷ b'i' ∷ b's' ∷ b' ' ∷ b'n' ∷ b'o'
    ∷ b't' ∷ b' ' ∷ b'v' ∷ b'a' ∷ b'l' ∷ b'i' ∷ b'd' ∷ b' ' ∷ b'U' ∷ b'T' ∷ b'F' ∷ b'-' ∷ b'8' ∷ []
tcslog_status_str TcslogStatus.panic =
    b'p' ∷ b'a' ∷ b'n' ∷ b'i' ∷ b'c' ∷ b' ' ∷ b'c' ∷ b'a' ∷ b'u' ∷ b'g' ∷ b'h' ∷ b't' ∷ b' ' ∷ b'a'
    ∷ b't' ∷ b' ' ∷ b't' ∷ b'h' ∷ b'e' ∷ b' ' ∷ b'b' ∷ b'o' ∷ b'u' ∷ b'n' ∷ b'd' ∷ b'a' ∷ b'r'
    ∷ b'y' ∷ []
tcslog_status_str TcslogStatus.invalid_format =
    b'f' ∷ b'o' ∷ b'r' ∷ b'm' ∷ b'a' ∷ b't' ∷ b' ' ∷ b't' ∷ b'a' ∷ b'g' ∷ b' ' ∷ b'i' ∷ b's' ∷ b' '
    ∷ b'n' ∷ b'o' ∷ b't' ∷ b' ' ∷ b'o' ∷ b'n' ∷ b'e' ∷ b' ' ∷ b'o' ∷ b'f' ∷ b' ' ∷ b't' ∷ b'h'
    ∷ b'e' ∷ b' ' ∷ b't' ∷ b'h' ∷ b'r' ∷ b'e' ∷ b'e' ∷ b' ' ∷ b'f' ∷ b'o' ∷ b'r' ∷ b'm' ∷ b'a'
    ∷ b't' ∷ b's' ∷ []
tcslog_status_str TcslogStatus.buffer_too_small =
    b'b' ∷ b'u' ∷ b'f' ∷ b'f' ∷ b'e' ∷ b'r' ∷ b' ' ∷ b't' ∷ b'o' ∷ b'o' ∷ b' ' ∷ b's' ∷ b'm' ∷ b'a'
    ∷ b'l' ∷ b'l' ∷ b' ' ∷ b'f' ∷ b'o' ∷ b'r' ∷ b' ' ∷ b't' ∷ b'h' ∷ b'e' ∷ b' ' ∷ b't' ∷ b'e'
    ∷ b'x' ∷ b't' ∷ []
tcslog_status_str TcslogStatus.name_too_long =
    b'p' ∷ b'r' ∷ b'e' ∷ b'f' ∷ b'i' ∷ b'x' ∷ b' ' ∷ b'o' ∷ b'r' ∷ b' ' ∷ b's' ∷ b'u' ∷ b'f' ∷ b'f'
    ∷ b'i' ∷ b'x' ∷ b' ' ∷ b'l' ∷ b'o' ∷ b'n' ∷ b'g' ∷ b'e' ∷ b'r' ∷ b' ' ∷ b't' ∷ b'h' ∷ b'a'
    ∷ b'n' ∷ b' ' ∷ b'1' ∷ b'6' ∷ b' ' ∷ b'c' ∷ b'h' ∷ b'a' ∷ b'r' ∷ b'a' ∷ b'c' ∷ b't' ∷ b'e'
    ∷ b'r' ∷ b's' ∷ []
tcslog_status_str TcslogStatus.timestamp_overflow =
    b'c' ∷ b'l' ∷ b'o' ∷ b'c' ∷ b'k' ∷ b' ' ∷ b'p' ∷ b'a' ∷ b's' ∷ b't' ∷ b' ' ∷ b't' ∷ b'h' ∷ b'e'
    ∷ b' ' ∷ b'l' ∷ b'a' ∷ b's' ∷ b't' ∷ b' ' ∷ b't' ∷ b'i' ∷ b'm' ∷ b'e' ∷ b' ' ∷ b'a' ∷ b' '
    ∷ b't' ∷ b'i' ∷ b'm' ∷ b'e' ∷ b's' ∷ b't' ∷ b'a' ∷ b'm' ∷ b'p' ∷ b' ' ∷ b'h' ∷ b'o' ∷ b'l'
    ∷ b'd' ∷ b's' ∷ []

-- Every status has a description.
pub every_status_has_a_description : (status : TcslogStatus) → 0 < length (tcslog_status_str status)
unfolding tcslog_status_str
every_status_has_a_description TcslogStatus.ok = omega arith
every_status_has_a_description TcslogStatus.eof = omega arith
every_status_has_a_description TcslogStatus.session_end = omega arith
every_status_has_a_description TcslogStatus.read_truncated = omega arith
every_status_has_a_description TcslogStatus.read_overflow = omega arith
every_status_has_a_description TcslogStatus.clock_error = omega arith
every_status_has_a_description TcslogStatus.fixed_len_mismatch = omega arith
every_status_has_a_description TcslogStatus.invalid_header = omega arith
every_status_has_a_description TcslogStatus.invalid_pathname = omega arith
every_status_has_a_description TcslogStatus.io_error = omega arith
every_status_has_a_description TcslogStatus.no_segment_files = omega arith
every_status_has_a_description TcslogStatus.path_delimiter_not_allowed = omega arith
every_status_has_a_description TcslogStatus.payload_too_large = omega arith
every_status_has_a_description TcslogStatus.seg_size_too_small = omega arith
every_status_has_a_description TcslogStatus.timer_resolution_zero = omega arith
every_status_has_a_description TcslogStatus.version_mismatch = omega arith
every_status_has_a_description TcslogStatus.null_argument = omega arith
every_status_has_a_description TcslogStatus.not_utf8 = omega arith
every_status_has_a_description TcslogStatus.panic = omega arith
every_status_has_a_description TcslogStatus.invalid_format = omega arith
every_status_has_a_description TcslogStatus.buffer_too_small = omega arith
every_status_has_a_description TcslogStatus.name_too_long = omega arith
every_status_has_a_description TcslogStatus.timestamp_overflow = omega arith
