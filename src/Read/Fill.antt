-- ===== src/Read/Fill.antt =====
-- tcslog/src/read.rs: `fill` and `skip`, which read and pass over bytes of a record across the
-- segment files that it spans, and `settle_payload_len` and `read_data_header`.
use tcslog.Prelude.{
  ℕ, zero, suc, ◌+◌, ◌-◌, not, Option, none, some, List, [], ◌++◌, length, take, drop, ◌==◌,
  if◌then◌else◌, min, saturating_add, u32_max,
}
use tcslog.Exec.{pure, raise, gets, modify, out_of_fuel, ◌>>=◌, ◌>>◌}
use tcslog.Exec
use tcslog.Fs.{read_exact, attempt}
use tcslog.Bytes.{from_le_bytes}
use tcslog.Format.{Format, Meta, data_header_len, data_header_len_in}
use tcslog.Read.{Segment, Cursor, Reads, io, on_cursor, exhausted, as_i64, reject_current}
use tcslog.Read.Cross.{cross, truncate}

-- `if self.exhausted() { self.cross(cursor)?; }`
unfoldable pub cross_if_exhausted : Reads (Unit {0})
cross_if_exhausted = do done ← gets (λ s. exhausted s.log); if done then cross else Exec.skip

-- What a round of `fill` changes: the file is positioned after the bytes, the cursor counts them,
-- and they stand in `dst`.
abbrev pub count_bytes : ℕ → Cursor → Cursor
count_bytes n c = record c {
  consumed = c.consumed + n;
  payload_in_buf =
      (if c.in_payload
        then saturating_add u32_max c.payload_in_buf (min n u32_max)
        else c.payload_in_buf);
}

abbrev pub advance_fill : Segment → List ℕ → Reads (Unit {0})
advance_fill segment bytes = modify (λ s.
    let n = length bytes in
    let moved = record segment { offset = segment.offset + n; pos = segment.pos + n } in
    record s {
      log = record s.log { current = some moved };
      cursor = count_bytes n s.cursor;
      dst = s.dst ++ bytes;
    })

-- A round of `fill` once there are bytes to read, or none to be had.
unfoldable pub fill_from : (ℕ → Reads (Unit {0})) → ℕ → Option Segment → Reads (Unit {0})
fill_from next left none = truncate
fill_from next left (some segment) = do
  let n = min (segment.data_len - segment.pos) left
  bytes ← io (read_exact segment.name segment.offset n)
  advance_fill segment bytes
  next (left - n)

-- The loop of `fill`, with the number of bytes that `dst` still lacks. A round takes a byte, or it
-- crosses into a segment file and takes that off the pending list.
unfoldable pub fill_loop : ℕ → ℕ → Reads (Unit {0})
fill_loop fuel zero = Exec.skip
fill_loop zero (suc left) = out_of_fuel
fill_loop (suc fuel) (suc left) = do
  cross_if_exhausted
  current ← gets (λ s. s.current)
  fill_from (fill_loop fuel) (suc left) current

unfoldable pub fill : ℕ → Reads (Unit {0})
fill n = do
  modify (λ s. record s { dst = [] })
  pending ← gets (λ s. s.pending)
  fill_loop (suc (n + length pending)) n

abbrev pub advance_skip : Segment → ℕ → Reads (Unit {0})
advance_skip segment step = modify (λ s.
    let moved = record segment {
      offset = segment.offset + as_i64 step;
      pos = segment.pos + step;
    } in
    record s {
      log = record s.log { current = some moved };
      cursor = record s.cursor { consumed = s.cursor.consumed + step };
    })

unfoldable pub skip_from : (ℕ → Reads (Unit {0})) → ℕ → Option Segment → Reads (Unit {0})
skip_from next count none = truncate
skip_from next count (some segment) = do
  let step = min (segment.data_len - segment.pos) count
  io attempt
  advance_skip segment step
  next (count - step)

-- The loop of `skip`, with the number of bytes still to be passed over.
unfoldable pub skip_loop : ℕ → ℕ → Reads (Unit {0})
skip_loop fuel zero = Exec.skip
skip_loop zero (suc count) = out_of_fuel
skip_loop (suc fuel) (suc count) = do
  cross_if_exhausted
  current ← gets (λ s. s.current)
  skip_from (skip_loop fuel) (suc count) current

unfoldable pub skip : ℕ → Reads (Unit {0})
skip count = do pending ← gets (λ s. s.pending); skip_loop (suc (count + length pending)) count

unfoldable pub settle_payload_len : ℕ → Reads ℕ
settle_payload_len decoded = do
  implied ← gets (λ s. s.cursor.implied_payload)
  elim implied [
    | none ↦ pure decoded
    | some n ↦ (if not (n == decoded) then reject_current 0 0 else pure decoded)
  ]

abbrev pub set_total : ℕ → Reads (Unit {0})
set_total total = on_cursor (λ c. record c { total = some total })

unfoldable pub read_data_header : Format → ℕ → Reads (ℕ × Meta)
read_data_header (Format.fixed n) minor = do set_total n; pure (n, Meta.fixed)
read_data_header Format.variable_simple minor = do
  fill 4
  head ← gets (λ s. s.dst)
  n ← settle_payload_len (from_le_bytes head)
  set_total (data_header_len Format.variable_simple + n)
  pure (n, Meta.variable_simple)
read_data_header Format.variable_ts_rc minor = do
  let len = data_header_len_in Format.variable_ts_rc minor
  fill len
  head ← gets (λ s. s.dst)
  n ← settle_payload_len (from_le_bytes (take 4 head))
  set_total (len + n)
  pure
      (n, Meta.variable_ts_rc (from_le_bytes (take 8 (drop 4 head))) (from_le_bytes (drop 12 head)))
