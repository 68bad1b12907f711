-- ===== src/Capi/Statuses.antt =====
-- What a status tells of the error that it stands for.
use tcslog.Prelude.{◌==◌, ℕ, if◌then◌else◌, ◌≡◌, refl, Option, none, some}
use tcslog.Error.{
  LogError, clock_error, eof, fixed_len_mismatch, invalid_header, invalid_pathname, other, io_error,
  name_too_long, no_segment_files, path_delimiter_not_allowed, payload_too_large, read_overflow,
  read_truncated, seg_size_too_small, session_end, timer_resolution_zero, timestamp_overflow,
  version_mismatch,
}
use tcslog.Capi.Status.{code}
use tcslog.Capi.{TcslogReadResult, status_of}

-- The error without the detail of an I/O error, which no status carries.
abbrev pub without_detail : LogError → LogError
without_detail (io_error e) = io_error (other 0)
without_detail e = e

-- The error that a caller reads off the number of a status and a result.
abbrev pub error_of : ℕ → TcslogReadResult → Option LogError
error_of status out =
    if status == 1
    then some eof
    else if status == 2
    then some session_end
    else if status == 3
    then some (read_truncated out.lost out.n)
    else if status == 4
    then some (read_overflow out.n)
    else if status == 5
    then some clock_error
    else if status == 6
    then some fixed_len_mismatch
    else if status == 7
    then some invalid_header
    else if status == 8
    then some invalid_pathname
    else if status == 9
    then some (io_error (other 0))
    else if status == 10
    then some no_segment_files
    else if status == 11
    then some path_delimiter_not_allowed
    else if status == 12
    then some payload_too_large
    else if status == 13
    then some seg_size_too_small
    else if status == 14
    then some timer_resolution_zero
    else if status == 15
    then some version_mismatch
    else if status == 21
    then some name_too_long
    else if status == 22
    then some timestamp_overflow
    else none

-- The number of the status and the result that stand for an error tell the error, all but the
-- detail of an I/O error, whatever the result held before.
pub error_of-status_of :
    (e : LogError) (out : TcslogReadResult)
    → error_of (code (status_of e out).0) (status_of e out).1 ≡ some (without_detail e)
unfolding status_of code
error_of-status_of clock_error out = refl
error_of-status_of eof out = refl
error_of-status_of fixed_len_mismatch out = refl
error_of-status_of invalid_header out = refl
error_of-status_of invalid_pathname out = refl
error_of-status_of (io_error e) out = refl
error_of-status_of name_too_long out = refl
error_of-status_of no_segment_files out = refl
error_of-status_of path_delimiter_not_allowed out = refl
error_of-status_of payload_too_large out = refl
error_of-status_of (read_overflow n) out = refl
error_of-status_of (read_truncated lost n) out = refl
error_of-status_of seg_size_too_small out = refl
error_of-status_of session_end out = refl
error_of-status_of timer_resolution_zero out = refl
error_of-status_of timestamp_overflow out = refl
error_of-status_of version_mismatch out = refl
