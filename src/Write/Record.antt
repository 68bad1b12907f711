-- ===== src/Write/Record.antt =====
-- tcslog/src/write.rs: building a data header, appending bytes across segment files, and `write`.
use tcslog.Prelude.{
  ℕ, zero, suc, ◌+◌, ◌-◌, Bool, true, false, not, ◌&&◌, Option, none, some, List, [], ◌∷◌, ◌++◌,
  length, take, drop, ltb, leb, ◌==◌, if◌then◌else◌, min, u32_max,
}
use tcslog.Exec.{pure, raise, gets, skip, out_of_fuel, on_error, ◌>>=◌, ◌>>◌}
use tcslog.Error.{io_error, not_found, fixed_len_mismatch, payload_too_large}
use tcslog.Fs.{write_all}
use tcslog.Bytes.{to_le_bytes}
use tcslog.Format.{Format, Meta, data_header_len, record_count_max}
use tcslog.Clock.{now}
use tcslog.Write.{WriteCallbacks, Current, LogWrite, Writes, io, on_log, call, room}
use tcslog.Write.Files.{start_session, close_and_send, roll, abandon_after_error}

-- What a chunk that was written changes.
abbrev pub note_written : Current → ℕ → {H : Type 0} → LogWrite H → LogWrite H
note_written file n l = record l {
  current = some (record file { data_written = file.data_written + n });
  record_bytes_left = l.record_bytes_left - n;
}

abbrev pub wrong_length : Format → ℕ → Bool
wrong_length (Format.fixed n) len = not (len == n)
wrong_length Format.variable_simple len = false
wrong_length Format.variable_ts_rc len = false

abbrev pub is_ts_rc : Format → Bool
is_ts_rc (Format.fixed n) = false
is_ts_rc Format.variable_simple = false
is_ts_rc Format.variable_ts_rc = true

module _ {H : Type 0} (cb : WriteCallbacks H) where
  -- The bytes of the data header, in the header buffer, and the metadata that they carry.
  unfoldable pub build_data_header : ℕ → Writes H (ℕ × Meta)
  build_data_header n = do
    format ← gets (λ s. s.format)
    if ltb u32_max n then raise payload_too_large else elim format [
      | Format.fixed _ ↦ pure (0, Meta.fixed)
      | Format.variable_simple ↦ (do
        on_log (λ l. record l { header_buf = to_le_bytes 4 n })
        pure (4, Meta.variable_simple))
      | Format.variable_ts_rc ↦ (do
        clock ← gets (λ s. s.clock)
        ts ← io (now clock)
        on_log (λ l. record l { record_count = l.record_count + 1 })
        rc ← gets (λ s. s.record_count)
        on_log (λ l. record l {
          header_buf = to_le_bytes 4 n ++ (to_le_bytes 8 ts ++ take 6 (to_le_bytes 8 rc));
        })
        pure (18, Meta.variable_ts_rc ts rc))
    ]

  unfoldable pub roll_if_full : Writes H (Unit {0})
  roll_if_full = do free ← gets (λ s. room s.log); if free == 0 then roll cb else skip

  -- A round of `write_bytes`: a chunk that fits, and the rest.
  unfoldable pub write_chunk :
      (List ℕ → Writes H (Unit {0})) → List ℕ → Option Current → Writes H (Unit {0})
  write_chunk next bytes none = raise (io_error not_found)
  write_chunk next bytes (some file) = do
    free ← gets (λ s. room s.log)
    let n = min free (length bytes)
    on_error (io (write_all file.name (take n bytes))) (λ e. do abandon_after_error cb; raise e)
        (λ _. do on_log (note_written file n); next (drop n bytes))

  -- The loop of `write_bytes`, over the bytes still to be written.
  unfoldable pub write_loop : ℕ → List ℕ → Writes H (Unit {0})
  write_loop fuel [] = skip
  write_loop zero (b ∷ rest) = out_of_fuel
  write_loop (suc fuel) (b ∷ rest) = do
    roll_if_full
    current ← gets (λ s. s.current)
    write_chunk (write_loop fuel) (b ∷ rest) current

  unfoldable pub write_bytes : List ℕ → Writes H (Unit {0})
  write_bytes bytes = write_loop (length bytes) bytes

  unfoldable pub write_bytes_from_header : ℕ → Writes H (Unit {0})
  write_bytes_from_header len = do buf ← gets (λ s. s.header_buf); write_bytes (take len buf)

  -- A segment file to begin a record in: a new session's where none is open, or where the session
  -- has used up its record counts.
  unfoldable pub ensure_session : Writes H (Unit {0})
  ensure_session = do
    current ← gets (λ s. s.current)
    used_up ← gets (λ s. is_ts_rc s.format && leb record_count_max s.record_count)
    elim current [
      | none ↦ start_session cb
      | some file ↦ (if used_up then (do close_and_send cb; start_session cb) else skip)
    ]

  unfoldable pub complete : Writes H (Unit {0})
  complete = do
    current ← gets (λ s. s.current)
    elim current [ none ↦ skip | some file ↦ call (cb.record_complete file.name) ]

  -- `write` once its argument has been accepted.
  unfoldable pub write_record : List ℕ → ℕ → Writes H ℕ
  write_record msg total = do
    ensure_session
    roll_if_full
    (built, meta) ← build_data_header (length msg)
    on_log (λ l. record l { record_bytes_left = total })
    write_bytes_from_header built
    write_bytes msg
    on_log (λ l. record l { last_meta = meta })
    complete
    pure total

  unfoldable pub write : List ℕ → Writes H ℕ
  write msg = do
    format ← gets (λ s. s.format)
    let total = data_header_len format + length msg
    if wrong_length format (length msg)
        then raise fixed_len_mismatch
        else if ltb u32_max (length msg)
        then raise payload_too_large
        else if ltb u32_max total
        then raise payload_too_large
        else write_record msg total
