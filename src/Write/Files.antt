-- ===== src/Write/Files.antt =====
-- tcslog/src/write.rs: naming, creating, closing and handing over segment files.
use tcslog.Prelude.{ℕ, zero, suc, ◌+◌, Bool, true, false, none, some, length, ◌==◌, if◌then◌else◌}
use tcslog.Exec.{pure, raise, gets, skip, out_of_fuel, on_error, ◌>>=◌, ◌>>◌}
use tcslog.Error.{LogError, io_error, already_exists}
use tcslog.Fs.{Text, create_new, write_all, flush, sleep}
use tcslog.SegId.{SegId}
use tcslog.SeqId
use tcslog.Header.{SegmentHeader, version_minor, to_bytes}
use tcslog.Names.{build_name}
use tcslog.Clock.{now_seg_id, nap_for, widened}
use tcslog.Write.{WriteCallbacks, LogWrite, Writes, io, on_log, call}

-- `e.kind() == ErrorKind::AlreadyExists`
abbrev pub is_collision : LogError → Bool
is_collision (io_error already_exists) = true
is_collision _ = false

module _ {H : Type 0} (cb : WriteCallbacks H) where
  -- The sleep to take, once the resolution has been widened where that is called for.
  unfoldable pub note_collision : Bool → Writes H ℕ
  note_collision collided_before = do
    resolution ← gets (λ s. s.timer_resolution)
    let wider = widened resolution collided_before
    on_log (λ l. if wider == l.timer_resolution then l else record l {
      timer_resolution = wider;
      handler = cb.timer_resolution_adjusted wider l.handler;
    })
    widest ← gets (λ s. s.timer_resolution)
    pure (nap_for widest)

  -- The retry loop. The name of one file may be tried more than once: a nap may be too short to
  -- move the clock, until the resolution has been widened far enough.
  unfoldable pub create_loop : ℕ → Bool → Writes H (SegId × Text)
  create_loop zero collided_before = out_of_fuel
  create_loop (suc fuel) collided_before = do
    clock ← gets (λ s. s.clock)
    id ← io (now_seg_id clock)
    name ← gets (λ s. build_name s.prefix id s.suffix)
    on_error (io (create_new name))
        (λ e. elim (is_collision e) [
          | true ↦ (do nap ← note_collision collided_before; io (sleep nap); create_loop fuel true)
          | false ↦ raise e
        ])
        (λ _. pure (id, name))

  -- The fuel: for a collision before any widening, for 64 that widen the resolution up to the
  -- greatest `u64`, from then on for one with each file, and for the round that succeeds.
  unfoldable pub create_unique_file : Writes H (SegId × Text)
  create_unique_file = do files ← gets (λ s. s.world.files); create_loop (66 + length files) false

  -- The header of a segment file of the log in its state.
  unfoldable pub header_for : SegId → LogWrite H → SegmentHeader
  header_for id l = record {
    segment_id = id;
    session_id = l.session_id;
    max_size = l.seg_size_max;
    remaining = l.record_bytes_left;
    format = l.format;
    sequence = l.sequence;
    minor = version_minor;
  }

  unfoldable pub create_segment : Bool → Writes H (Unit {0})
  create_segment opens_session = do
    (id, name) ← create_unique_file
    on_log (λ l. record l { session_id = (if opens_session then id else l.session_id) })
    header ← gets (λ s. header_for id s.log)
    io (write_all name (to_bytes header))
    on_log (λ l. record l { current = some (record { id = id; name = name; data_written = 0 }) })

  unfoldable pub start_session : Writes H (Unit {0})
  start_session = do
    on_log (λ l. record l { record_count = 0; sequence = SeqId.first; record_bytes_left = 0 })
    create_segment true

  unfoldable pub close_and_send : Writes H (Unit {0})
  close_and_send = do
    current ← gets (λ s. s.current)
    on_log (λ l. record l { current = none })
    elim current [ none ↦ skip | some file ↦ (do io (flush file.name); call (cb.send file.name)) ]

  unfoldable pub roll : Writes H (Unit {0})
  roll = do
    close_and_send
    on_log (λ l. record l { sequence = SeqId.next l.sequence })
    create_segment false

  -- A failure to close the file that is given up is ignored.
  unfoldable pub abandon_after_error : Writes H (Unit {0})
  abandon_after_error = do
    on_log (λ l. record l { record_bytes_left = 0 })
    on_error close_and_send (λ _. skip) (λ _. skip)
    on_log (λ l. record l { sequence = SeqId.next l.sequence })
    create_segment false
