-- ===== src/Capi.antt =====
-- tcslog-c/src/lib.rs: statuses, results and the conversions of the C interface. The children hold
-- its calls: `Status` has the status codes and `Messages` their descriptions, `Strings` those that
-- render and parse text, `Handler` the callbacks, `Writing` and `Reading` the two handles.
pub mod Status
pub mod Messages
pub mod Strings
pub mod Handler
pub mod Writing
pub mod Reading
pub mod Statuses
pub mod Rendering
pub mod Headers
pub mod Routing
pub mod Recording
pub mod Delivering
use tcslog.Prelude.{ℕ, Option, none, some, List, ◌==◌, Bool, if◌then◌else◌}
use tcslog.Exec.{Exec, pure, on_error}
use tcslog.Error.{
  Result, ok, err, stuck, LogError, clock_error, eof, fixed_len_mismatch, invalid_header,
  invalid_pathname, io_error, name_too_long, no_segment_files, path_delimiter_not_allowed,
  payload_too_large, read_overflow, read_truncated, seg_size_too_small, session_end,
  timer_resolution_zero, timestamp_overflow, version_mismatch,
}
use tcslog.Fs.{Text}
use tcslog.Format.{Format, Meta, tag, fixed_len}
use tcslog.Header.{SegmentHeader}
use tcslog.Capi.Status.{TcslogStatus}

pub data TcslogMeta : Type 0 where
  fixed variable_simple variable_ts_rc : TcslogMeta

pub record TcslogReadResult : Type 0 where
  pub n : ℕ
  pub meta : TcslogMeta
  pub timestamp : ℕ
  pub record_count : ℕ
  pub lost : ℕ

-- `TcslogReadResult::empty`
abbrev pub empty : TcslogReadResult
empty = record { n = 0; meta = TcslogMeta.fixed; timestamp = 0; record_count = 0; lost = 0 }

unfoldable pub set_meta : Meta → TcslogReadResult → TcslogReadResult
set_meta Meta.fixed out = record out { meta = TcslogMeta.fixed }
set_meta Meta.variable_simple out = record out { meta = TcslogMeta.variable_simple }
set_meta (Meta.variable_ts_rc ts rc) out = record out {
  meta = TcslogMeta.variable_ts_rc;
  timestamp = ts;
  record_count = rc;
}

pub record TcslogRecordMeta : Type 0 where
  pub meta : TcslogMeta
  pub timestamp : ℕ
  pub record_count : ℕ

-- `From<Meta>`
unfoldable pub record_meta : Meta → TcslogRecordMeta
unfolding set_meta
record_meta m =
    let out = set_meta m empty in
    record { meta = out.meta; timestamp = out.timestamp; record_count = out.record_count }

pub record TcslogSegmentHeader : Type 0 where
  pub segment_id : ℕ
  pub session_id : ℕ
  pub remaining : ℕ
  pub sequence : ℕ
  pub max_size : ℕ
  pub format_tag : ℕ
  pub fixed_len : ℕ

-- `From<&SegmentHeader>`
unfoldable pub segment_header : SegmentHeader → TcslogSegmentHeader
segment_header h = record {
  segment_id = h.segment_id;
  session_id = h.session_id;
  remaining = h.remaining;
  sequence = h.sequence;
  max_size = h.max_size;
  format_tag = tag h.format;
  fixed_len = fixed_len h.format;
}

-- The status of an error, and the result with what the error carries filled in.
unfoldable pub status_of : LogError → TcslogReadResult → TcslogStatus × TcslogReadResult
status_of clock_error out = (TcslogStatus.clock_error, out)
status_of eof out = (TcslogStatus.eof, out)
status_of fixed_len_mismatch out = (TcslogStatus.fixed_len_mismatch, out)
status_of invalid_header out = (TcslogStatus.invalid_header, out)
status_of invalid_pathname out = (TcslogStatus.invalid_pathname, out)
status_of (io_error e) out = (TcslogStatus.io_error, out)
status_of name_too_long out = (TcslogStatus.name_too_long, out)
status_of no_segment_files out = (TcslogStatus.no_segment_files, out)
status_of path_delimiter_not_allowed out = (TcslogStatus.path_delimiter_not_allowed, out)
status_of payload_too_large out = (TcslogStatus.payload_too_large, out)
status_of (read_overflow need) out = (TcslogStatus.read_overflow, record out { n = need })
status_of (read_truncated lost n) out =
    (TcslogStatus.read_truncated, record out { lost = lost; n = n })
status_of seg_size_too_small out = (TcslogStatus.seg_size_too_small, out)
status_of session_end out = (TcslogStatus.session_end, out)
status_of timer_resolution_zero out = (TcslogStatus.timer_resolution_zero, out)
status_of timestamp_overflow out = (TcslogStatus.timestamp_overflow, out)
status_of version_mismatch out = (TcslogStatus.version_mismatch, out)

unfoldable pub status_only : LogError → TcslogStatus
unfolding status_of
status_only e = (status_of e empty).0

-- A refusal with a status, or a value: what `as_str` and `format_of` return.
pub data Checked {ℓ} (A : Type ℓ) : Type ℓ where
  value : A → Checked A
  refused : TcslogStatus → Checked A

-- A string argument: null, or the bytes before its NUL. Which bytes are UTF-8 is the standard
-- library's to say.
unfoldable pub as_str : (Text → Bool) → Option Text → Checked Text
as_str is_utf8 none = refused TcslogStatus.null_argument
as_str is_utf8 (some text) = if is_utf8 text then value text else refused TcslogStatus.not_utf8

unfoldable pub format_of : ℕ → ℕ → Checked Format
format_of format_tag len =
    if format_tag == 0
    then value (Format.fixed len)
    else if format_tag == 1
    then value Format.variable_simple
    else if format_tag == 2
    then value Format.variable_ts_rc
    else refused TcslogStatus.invalid_format

-- A call on a handle, which is null or live. A null one is refused, and nothing changes.
unfoldable pub on_handle : {S A : Type 0} → A → Exec S A → Exec (Option S) A
on_handle on_null m none = (ok on_null, none)
on_handle on_null m (some s) = let (r, t) = m s in (r, some t)

-- `match` on what the library returns, where an error becomes its status.
abbrev pub status_from : {S : Type 0} → Exec S (Unit {0}) → Exec S TcslogStatus
status_from m = on_error m (λ e. pure (status_only e)) (λ _. pure TcslogStatus.ok)
