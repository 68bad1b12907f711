-- ===== src/Read/Record.antt =====
-- tcslog/src/read.rs: `read`, one whole record.
use tcslog.Prelude.{
  ℕ, ◌+◌, ◌-◌, Bool, true, false, ◌&&◌, Option, none, some, List, [], ◌∷◌, ltb, if◌then◌else◌, min,
  u32_max,
}
use tcslog.Exec.{pure, raise, gets, on_error, ◌>>=◌, ◌>>◌}
use tcslog.Error.{eof, read_truncated, read_overflow}
use tcslog.Format.{Meta, data_header_len}
use tcslog.Read.{
  Segment, new_cursor, Start, fresh, recovered, Reads, ReadResult, on_log, on_cursor, set_current,
  exhausted, lose_position,
}
use tcslog.Read.Open.{find_record_start}
use tcslog.Read.Fill.{fill, read_data_header}
use tcslog.Read.Fill

-- `return Err(self.lose_position(e))` on every error of a step.
abbrev pub guarded : {A : Type 0} → Reads A → Reads A
guarded m = on_error m lose_position pure

abbrev pub is_empty {ℓ} : {A : Type ℓ} → List A → Bool
is_empty [] = true
is_empty (x ∷ xs) = false

abbrev pub is_none {ℓ} : {A : Type ℓ} → Option A → Bool
is_none none = true
is_none (some a) = false

-- The report of segment files lost ahead of a session's first surviving one.
unfoldable pub report_lost : Start → Reads Start
report_lost start = do
  lost ← gets (λ s. s.session_start_lost)
  if ltb 0 lost
      then (do on_log (λ l. record l { session_start_lost = 0 }); raise (read_truncated lost 0))
      else pure start

-- The search for a record to start at, where the position is not known.
unfoldable pub resynchronize : Reads Start
resynchronize = do
  armed ← gets (λ s. s.resync)
  if armed
      then (do
        start ← guarded find_record_start
        on_log (λ l. record l { resync = false })
        report_lost start)
      else pure fresh

-- The payload length and metadata of the record at the read position.
unfoldable pub decode_header : Start → Segment → Reads (ℕ × Meta)
decode_header (recovered n) segment = do
  let header_len = data_header_len segment.header.format
  on_cursor (λ c. record c { consumed = header_len; total = some (header_len + n) })
  pure (n, Meta.variable_simple)
decode_header fresh segment = guarded (read_data_header segment.header.format segment.header.minor)

-- The payload: what fits goes into the buffer, and the rest is passed over.
unfoldable pub read_payload : ℕ → ℕ → Meta → Reads ReadResult
read_payload buf_len payload_len meta = do
  let got = min payload_len buf_len
  guarded (fill got)
  let n = min got u32_max
  if ltb buf_len payload_len
      then on_error (Fill.skip (payload_len - buf_len))
          (λ _. do
            on_log (λ l. record l { resync = true; current = none })
            raise (read_overflow n))
          (λ _. raise (read_overflow n))
      else pure (record { n = n; meta = meta })

-- What follows once the data header has been decoded.
unfoldable pub read_body : ℕ → ℕ × Meta → Reads ReadResult
read_body buf_len (payload_len, meta) = do
  on_log (λ l. record l { last_meta = meta })
  on_cursor (λ c. record c { in_payload = true })
  read_payload buf_len payload_len meta

unfoldable pub read : ℕ → Reads ReadResult
read buf_len = do
  finished ← gets (λ s. is_empty s.pending && exhausted s.log)
  if finished then (do set_current none; raise eof) else (do
    on_log (λ l. record l { resync = (if is_none l.current then true else l.resync) })
    on_cursor (λ _. new_cursor)
    start ← resynchronize
    current ← gets (λ s. s.current)
    elim current [
      | none ↦ lose_position eof
      | some segment ↦ (decode_header start segment >>= read_body buf_len)
    ])
