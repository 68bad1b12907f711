-- ===== src/Write/Session.antt =====
-- tcslog/src/write.rs: opening a log for writing, clearing it, flushing it and letting it go.
use tcslog.Prelude.{
  ℕ, Bool, false, Option, none, some, List, [], ◌∷◌, leb, ◌==◌, if◌then◌else◌, u32_max,
  saturating_add,
}
use tcslog.Exec.{pure, raise, gets, skip, lift, on_error, ◌>>=◌, ◌>>◌}
use tcslog.Error.{
  Result, ok, err, stuck, timer_resolution_zero, seg_size_too_small, fixed_len_mismatch,
}
use tcslog.Fs.{Text, Io, flush, remove_file}
use tcslog.SegId.{SegId}
use tcslog.SeqId
use tcslog.Format.{Format, Meta, data_header_len}
use tcslog.Header.{segment_file_header_len}
use tcslog.Names.{check_log_location, scan_segment_ids, build_name}
use tcslog.Clock
use tcslog.Clock.{Clock}
use tcslog.Write.{WriteCallbacks, LogWrite, Writes, io, on_log, call}
use tcslog.Write.Files.{start_session}

-- `ids.last().copied()`
abbrev pub last : List SegId → Option SegId
last [] = none
last (id ∷ []) = some id
last (id ∷ (next ∷ rest)) = last (next ∷ rest)

-- The metadata reported before the first write.
abbrev initial_meta : Format → Meta
initial_meta (Format.fixed n) = Meta.fixed
initial_meta Format.variable_simple = Meta.variable_simple
initial_meta Format.variable_ts_rc = Meta.variable_ts_rc 0 0

abbrev pub is_fixed_zero : Format → Bool
is_fixed_zero (Format.fixed n) = n == 0
is_fixed_zero Format.variable_simple = false
is_fixed_zero Format.variable_ts_rc = false

module _ {H : Type 0} (cb : WriteCallbacks H) where
  -- The loop of `for_each_segment_file`.
  unfoldable pub for_each : (Text → Writes H (Unit {0})) → List SegId → Writes H (Unit {0})
  for_each action [] = skip
  for_each action (id ∷ rest) = do
    name ← gets (λ s. build_name s.prefix id s.suffix)
    action name
    for_each action rest

  unfoldable pub for_each_segment_file : (Text → Writes H (Unit {0})) → Writes H (Option SegId)
  for_each_segment_file action = do
    prefix ← gets (λ s. s.prefix)
    suffix ← gets (λ s. s.suffix)
    ids ← io (scan_segment_ids prefix suffix)
    for_each action ids
    pure (last ids)

  unfoldable pub send_existing : Writes H (Option SegId)
  send_existing = for_each_segment_file (λ name. call (cb.send name))

  unfoldable pub clear : Writes H (Unit {0})
  clear = do
    on_log (λ l. record l { current = none; record_bytes_left = 0 })
    for_each_segment_file (λ name. io (remove_file name))
    skip

  unfoldable pub flush_log : Writes H (Unit {0})
  flush_log = do
    current ← gets (λ s. s.current)
    elim current [ none ↦ skip | some file ↦ io (flush file.name) ]

  -- `Drop`: a file that holds no data is not handed over, and errors are discarded.
  unfoldable pub drop_log : Writes H (Unit {0})
  drop_log = do
    current ← gets (λ s. s.current)
    on_log (λ l. record l { current = none })
    elim current [
      | none ↦ skip
      | some file ↦
          (if file.data_written == 0 then skip else (do
            on_error (io (flush file.name)) (λ _. skip) (λ _. skip)
            on_error (call (cb.send file.name)) (λ _. skip) (λ _. skip)))
    ]

  -- The clock is advanced past what an earlier writer left.
  unfoldable pub seed_clock : Option SegId → Writes H (Unit {0})
  seed_clock none = skip
  seed_clock (some highest) = do
    clock ← gets (λ s. s.clock)
    clock' ← io (Clock.advance_past highest clock)
    on_log (λ l. record l { clock = clock' })

  -- The rest of `new`, on the writer that it has built.
  unfoldable pub open_session : Writes H (Unit {0})
  open_session = do highest ← send_existing; seed_clock highest; start_session cb

-- `LogWrite::new` up to the directory: the checks of its arguments, in the source's order, and the
-- clock. `timer_resolution_ns` is the build's `TIMER_RESOLUTION_NS`.
unfoldable pub prepare : {H : Type 0} → ℕ → Text → Text → ℕ → Format → H → Io (LogWrite H)
prepare timer_resolution_ns prefix suffix seg_size_max format handler =
    if timer_resolution_ns == 0
    then raise timer_resolution_zero
    else if leb seg_size_max
        (saturating_add u32_max segment_file_header_len (data_header_len format))
    then raise seg_size_too_small
    else if is_fixed_zero format
    then raise fixed_len_mismatch
    else do
      clock ← Clock.new
      w ← gets (λ w. w)
      lift (check_log_location prefix suffix w)
      pure (record {
        prefix = prefix;
        suffix = suffix;
        seg_size_max = seg_size_max;
        format = format;
        handler = handler;
        timer_resolution = timer_resolution_ns;
        clock = clock;
        current = none;
        session_id = 0;
        sequence = SeqId.first;
        record_count = 0;
        record_bytes_left = 0;
        last_meta = initial_meta format;
        header_buf = [];
      })

-- The writer's own part of a call, for a caller that holds only the world.
abbrev pub returned : {H : Type 0} → Result (Unit {0}) → LogWrite H → Result (LogWrite H)
returned (ok _) l = ok l
returned (err e) l = err e
returned stuck l = stuck

abbrev pub run_on : {H : Type 0} → LogWrite H → Writes H (Unit {0}) → Io (LogWrite H)
run_on l m w = let (r, s) = m (record { log = l; world = w }) in (returned r s.log, s.world)

-- `LogWrite::new`. Where the rest fails the writer is dropped, with no file open.
unfoldable pub new :
    {H : Type 0} → WriteCallbacks H → ℕ → Text → Text → ℕ → Format → H → Io (LogWrite H)
new cb timer_resolution_ns prefix suffix seg_size_max format handler = do
  l ← prepare timer_resolution_ns prefix suffix seg_size_max format handler
  run_on l (open_session cb)
