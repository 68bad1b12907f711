-- ===== src/Tests/Capi.antt =====
-- Calls of the C interface on small logs.
use tcslog.Prelude.{
  ℕ, ◌+◌, ◌≤◌, ◌<◌, ◌≡◌, refl, arith, Bool, true, false, none, some, List, [], ◌∷◌, ◌++◌,
  append-nil, length, map, ◌⊎◌,
}
use tcslog.Error.{read_truncated}
use tcslog.Exec.Post.{Ensures}
use tcslog.Fs.{Text, World}
use tcslog.Format.{Format}
use tcslog.Timestamp.{format_timestamp}
use tcslog.Read.{LogRead, Reader}
use tcslog.Capi.Status.{TcslogStatus, code}
use tcslog.Capi.{empty, status_of, segment_header, TcslogReadResult}
use tcslog.Capi.Statuses.{error_of, error_of-status_of}
use tcslog.Capi.Strings.{
  c_string, tcslog_seg_id_format, tcslog_format_timestamp, tcslog_seg_id_parse,
}
use tcslog.Capi.Rendering.{rendered, tcslog_seg_id_parse-format, tcslog_format_timestamp-rendered}
use tcslog.Capi.Reading.{tcslog_read_record, tcslog_read_take_opened_headers}
use tcslog.Capi.Headers.{tcslog_read_take_opened_headers-taken}
use tcslog.Capi.Delivering.{Answered, tcslog_read_record-Answered}
use tcslog.Capi.Handler.{TcslogCallbacks, CHandler, handler_callbacks}
use tcslog.Capi.Routing.{Sent, NotSent, Completed, NotCompleted, handler_callbacks-Routed}
use tcslog.Tests.Data.{header_1, log_of_two, reader_of_two, two_files}

error_of-status_of_example :
    error_of
      (code (status_of (read_truncated 2 5) empty).0)
      (status_of (read_truncated 2 5) empty).1
    ≡ some (read_truncated 2 5)
error_of-status_of_example = error_of-status_of (read_truncated 2 5) empty

-- Text written in one piece, into a buffer of 24 bytes.
abbrev one_piece : Text → List Text
one_piece text = text ∷ []

abbrev any_text : Text → Bool
any_text text = true

abbrev buffer : List ℕ
buffer =
    1 ∷ 2 ∷ 3 ∷ 4 ∷ 5 ∷ 6 ∷ 7 ∷ 8 ∷ 9 ∷ 10 ∷ 11 ∷ 12 ∷ 13 ∷ 14 ∷ 15 ∷ 16 ∷ 17 ∷ 18 ∷ 19 ∷ 20 ∷ 21
    ∷ 22 ∷ 23 ∷ 24 ∷ []

tcslog_seg_id_parse-format_example :
    (19 < length buffer
      → (filled : List ℕ) × (tcslog_seg_id_format one_piece 7 (some buffer)
          ≡ (TcslogStatus.ok, some filled))
        × (tcslog_seg_id_parse any_text (some (c_string filled)) (some 0)
            ≡ (TcslogStatus.ok, some 7)))
    × (length buffer ≤ 19
        → tcslog_seg_id_format one_piece 7 (some buffer)
          ≡ (TcslogStatus.buffer_too_small, some buffer))
tcslog_seg_id_parse-format_example =
    tcslog_seg_id_parse-format one_piece any_text 7 buffer 0 (λ text. append-nil text)
      (λ text h. refl) (omega arith)

tcslog_format_timestamp-rendered_example :
    (30 < length (buffer ++ buffer)
      → tcslog_format_timestamp one_piece 5 (some (buffer ++ buffer))
        ≡ rendered (format_timestamp 5) (buffer ++ buffer))
    × (length (buffer ++ buffer) ≤ 30
        → tcslog_format_timestamp one_piece 5 (some (buffer ++ buffer))
          ≡ (TcslogStatus.buffer_too_small, some (buffer ++ buffer)))
tcslog_format_timestamp-rendered_example =
    tcslog_format_timestamp-rendered one_piece 5 (buffer ++ buffer) (λ text. append-nil text)
      (omega arith)

abbrev with_headers : LogRead
with_headers = record log_of_two { opened_headers = header_1 ∷ header_1 ∷ header_1 ∷ [] }

tcslog_read_take_opened_headers-taken_example :
    tcslog_read_take_opened_headers false 2 (some 0) (some with_headers) ≡ (
      TcslogStatus.ok,
      map segment_header (header_1 ∷ header_1 ∷ []),
      some 2,
      some (record with_headers { opened_headers = header_1 ∷ [] }),
    )
tcslog_read_take_opened_headers-taken_example =
    tcslog_read_take_opened_headers-taken 2 0 with_headers

tcslog_read_record-Answered_example :
    Ensures
      (tcslog_read_record false 4 (some empty))
      (some reader_of_two)
      (λ r o.
        (t : Reader) × (o ≡ some t)
        × (((out : TcslogReadResult) × (r.1 ≡ some out) × Answered 4 r.0 out t)
            ⊎ ((false ≡ true)
                × (0 < 4)
                × (r ≡ (TcslogStatus.null_argument, some empty))
                × (t ≡ reader_of_two))))
      (λ e o. ⊥)
tcslog_read_record-Answered_example =
    tcslog_read_record-Answered false 4 empty reader_of_two (omega arith) tt

-- A C function that counts its calls, and fails on the second one.
abbrev counting : TcslogCallbacks ℕ
counting = record {
  send = some (λ path p. (p.0, (p.0 + 1, p.1)));
  record_complete = none;
  timer_resolution_adjusted = none;
}

-- The second call, for a path of two bytes.
handler_callbacks-Routed_example :
    let p : CHandler ℕ × World = (record { ctx = 1; path_buf = [] }, two_files) in
    Ensures
      ((handler_callbacks (λ name. 3) (λ name. some name) counting).send (b'a' ∷ b'b' ∷ []))
      p
      (λ u q. Sent counting.send (some (b'a' ∷ b'b' ∷ [])) p q)
      (NotSent counting.send (some (b'a' ∷ b'b' ∷ [])) p)
    × Ensures
        ((handler_callbacks (λ name. 3) (λ name. some name) counting).record_complete
          (b'a' ∷ b'b' ∷ []))
        p
        (λ u q. Completed counting.record_complete 3 p q)
        (NotCompleted counting.record_complete 3 p)
handler_callbacks-Routed_example =
    handler_callbacks-Routed (λ name. 3) (λ name. some name) counting (b'a' ∷ b'b' ∷ [])
      (record { ctx = 1; path_buf = [] }, two_files)
