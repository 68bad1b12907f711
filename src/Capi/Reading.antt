-- ===== src/Capi/Reading.antt =====
-- tcslog-c/src/lib.rs: the calls on a reader.
use tcslog.Prelude.{
  ℕ, zero, suc, ◌-◌, ◌==◌, Bool, Option, none, some, List, [], ◌++◌, map, length, ltb, not, ◌&&◌,
  ◌||◌, if◌then◌else◌, min,
}
use tcslog.Exec.{Exec, skip, pure, gets, on_error, ◌>>=◌}
use tcslog.Error.{LogError}
use tcslog.Fs.{Text, World}
use tcslog.Format.{Meta}
use tcslog.Read
use tcslog.Read.{LogRead, Reader, Reads, ReadResult, current_header, take_opened_headers_into}
use tcslog.Read.Accessors.{segments_opened, last_meta}
use tcslog.Read.Record.{read}
use tcslog.Capi.Status.{TcslogStatus}
use tcslog.Capi.{
  value, refused, status_of, status_only, on_handle, TcslogReadResult, empty, set_meta,
  TcslogRecordMeta, record_meta, TcslogSegmentHeader, segment_header,
}
use tcslog.Capi.Writing.{as_strs, is_null, query}

-- The out-parameter receives a reader, or is left null; `no_out` says that it is null itself.
unfoldable pub tcslog_read_open :
    (Text → Bool)
    → Bool
    → Option Text
    → Option Text
    → Option Text
    → Exec World (TcslogStatus × Option LogRead)
tcslog_read_open is_utf8 no_out dir prefix suffix =
    if no_out
    then pure (TcslogStatus.null_argument, none)
    else elim (as_strs is_utf8 dir prefix suffix) [
      | refused status ↦ pure (status, none)
      | value (d, p, s) ↦
          on_error (Read.new p s) (λ e. pure (status_only e, none))
            (λ l. pure (TcslogStatus.ok, some l))
    ]

-- The result of a read that returned.
unfoldable pub whole_record : ReadResult → TcslogReadResult
whole_record r = set_meta r.meta (record empty { n = r.n })

-- The status and the result of a read that failed. Where the front of a record reached the buffer,
-- its metadata is reported too.
unfoldable pub failed_read : LogError → Meta → TcslogStatus × TcslogReadResult
failed_read e meta =
    let (status, out) = status_of e empty in
    (status, if ltb 0 out.n then set_meta meta out else out)

unfoldable pub read_into : ℕ → Reads (TcslogStatus × TcslogReadResult)
read_into room =
    on_error (read room) (λ e. gets (λ s. failed_read e (last_meta s.log)))
      (λ r. pure (TcslogStatus.ok, whole_record r))

-- `no_buf` says that the buffer is null. The last component is what `result` points to, if it is
-- not null.
unfoldable pub tcslog_read_record :
    Bool
    → ℕ
    → Option TcslogReadResult
    → Exec (Option Reader) (TcslogStatus × Option TcslogReadResult)
tcslog_read_record no_buf room result =
    on_handle (TcslogStatus.null_argument, result)
      (if is_null result || (no_buf && not (room == 0))
        then pure (TcslogStatus.null_argument, result)
        else (do (status, out) ← read_into room; pure (status, some out)))

unfoldable pub tcslog_read_segments_opened : Option ℕ → Option LogRead → TcslogStatus × Option ℕ
tcslog_read_segments_opened = query segments_opened

unfoldable pub tcslog_read_last_meta :
    Option TcslogRecordMeta → Option LogRead → TcslogStatus × Option TcslogRecordMeta
tcslog_read_last_meta = query (λ l. record_meta (last_meta l))

-- The header and whether one is present, each where its pointer is not null.
unfoldable pub tcslog_read_current_header :
    Option TcslogSegmentHeader
    → Option ℕ
    → Option LogRead
    → TcslogStatus × Option TcslogSegmentHeader × Option ℕ
tcslog_read_current_header (some out) (some present) (some l) = elim (current_header l) [
  | some header ↦ (TcslogStatus.ok, some (segment_header header), some 1)
  | none ↦ (TcslogStatus.ok, some out, some 0)
]
tcslog_read_current_header out present l = (TcslogStatus.null_argument, out, present)

unfoldable pub tcslog_read_collect_opened_headers :
    ℕ → Option LogRead → TcslogStatus × Option LogRead
tcslog_read_collect_opened_headers enable none = (TcslogStatus.null_argument, none)
tcslog_read_collect_opened_headers enable (some l) =
    (TcslogStatus.ok, some (Read.collect_opened_headers (not (enable == 0)) l))

-- The length of the array on the stack.
abbrev pub chunk_len : ℕ
chunk_len = 16

-- The loop, with fuel for each entry of the caller's: what has been placed, and the reader.
unfoldable pub take_loop :
    ℕ → ℕ → List TcslogSegmentHeader → LogRead → List TcslogSegmentHeader × LogRead
take_loop zero room placed l = (placed, l)
take_loop (suc fuel) room placed l =
    let done = length placed in
    let want = min (room - done) chunk_len in
    let (got, l') = take_opened_headers_into want l in
    let rest = take_loop fuel room (placed ++ map segment_header got) l' in
    if ltb done room
    then (if ltb (length got) want then (placed ++ map segment_header got, l') else rest)
    else (placed, l)

-- The headers placed at the front of the caller's entries, and their number.
unfoldable pub tcslog_read_take_opened_headers :
    Bool
    → ℕ
    → Option ℕ
    → Option LogRead
    → TcslogStatus × List TcslogSegmentHeader × Option ℕ × Option LogRead
tcslog_read_take_opened_headers no_out room (some n) (some l) =
    if no_out && not (room == 0)
    then (TcslogStatus.null_argument, [], some n, some l)
    else let (placed, l') = take_loop room room [] l in
      (TcslogStatus.ok, placed, some (length placed), some l')
tcslog_read_take_opened_headers no_out room n l = (TcslogStatus.null_argument, [], n, l)

-- A null handle is accepted and does nothing. Dropping a reader closes its file, which changes
-- nothing else.
unfoldable pub tcslog_read_close : Exec (Option Reader) (Unit {0})
tcslog_read_close = on_handle tt skip
