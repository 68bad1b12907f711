-- ===== src/Capi/Status.antt =====
-- tcslog-c/src/lib.rs: the status codes.
use tcslog.Prelude.{ℕ}

pub data TcslogStatus : Type 0 where
  ok eof session_end read_truncated read_overflow clock_error fixed_len_mismatch invalid_header
        invalid_pathname io_error no_segment_files path_delimiter_not_allowed payload_too_large
        seg_size_too_small timer_resolution_zero version_mismatch null_argument not_utf8 panic
        invalid_format buffer_too_small name_too_long timestamp_overflow :
      TcslogStatus

-- The values of the enumeration, which are ABI.
unfoldable pub code : TcslogStatus → ℕ
code TcslogStatus.ok = 0
code TcslogStatus.eof = 1
code TcslogStatus.session_end = 2
code TcslogStatus.read_truncated = 3
code TcslogStatus.read_overflow = 4
code TcslogStatus.clock_error = 5
code TcslogStatus.fixed_len_mismatch = 6
code TcslogStatus.invalid_header = 7
code TcslogStatus.invalid_pathname = 8
code TcslogStatus.io_error = 9
code TcslogStatus.no_segment_files = 10
code TcslogStatus.path_delimiter_not_allowed = 11
code TcslogStatus.payload_too_large = 12
code TcslogStatus.seg_size_too_small = 13
code TcslogStatus.timer_resolution_zero = 14
code TcslogStatus.version_mismatch = 15
code TcslogStatus.null_argument = 16
code TcslogStatus.not_utf8 = 17
code TcslogStatus.panic = 18
code TcslogStatus.invalid_format = 19
code TcslogStatus.buffer_too_small = 20
code TcslogStatus.name_too_long = 21
code TcslogStatus.timestamp_overflow = 22
