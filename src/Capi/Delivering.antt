-- ===== src/Capi/Delivering.antt =====
-- A record read through the C interface.
use tcslog.Prelude.{
  ℕ, ◌≤◌, ◌<◌, ◌≡◌, ◌≢◌, refl, ◌∙◌, arith, Bool, true, false, not, ◌&&◌, ◌==◌, some, length, ltb,
  u32_max, if◌then◌else◌, ◌⊎◌, inl, inr,
}
use tcslog.Error.{
  LogError, clock_error, eof, fixed_len_mismatch, invalid_header, invalid_pathname, io_error,
  name_too_long, no_segment_files, path_delimiter_not_allowed, payload_too_large, read_overflow,
  read_truncated, seg_size_too_small, session_end, timer_resolution_zero, timestamp_overflow,
  version_mismatch,
}
use tcslog.Exec.{gets}
use tcslog.Exec.Post.{Ensures, Ensures-pure, Ensures-on_error, Ensures-bind, Ensures-if}
use tcslog.Format.{Meta}
use tcslog.Read.{Reader}
use tcslog.Read.Sound.{OpenSound}
use tcslog.Read.Total.{Told, read-Delivered}
use tcslog.Capi.Status.{TcslogStatus}
use tcslog.Capi.{TcslogReadResult, TcslogMeta, set_meta, status_of, empty}
use tcslog.Capi.Reading.{whole_record, failed_read, read_into, tcslog_read_record}
use tcslog.Capi.Recording.{Ensures-on_handle}

-- The result that goes with each status, for a buffer of `room` bytes, of which `d` have been
-- filled: what it announces has been placed, and what a status does not describe is zero.
abbrev pub Answers : ℕ → ℕ → TcslogStatus → TcslogReadResult → Type 0
Answers room d TcslogStatus.ok out = (out.n ≡ d) × (out.n ≤ room) × (out.lost ≡ 0)
Answers room d TcslogStatus.read_overflow out = (out.n ≡ room) × (d ≡ room) × (out.lost ≡ 0)
Answers room d TcslogStatus.read_truncated out = (out.n ≤ room) × (out.n ≤ d)
Answers room d _ out = (out.n ≡ 0) × (out.lost ≡ 0)

-- The metadata of a result has a time and a count only if its shape has.
abbrev pub HasShape : TcslogReadResult → Type 0
HasShape out = (out.meta ≢ TcslogMeta.variable_ts_rc) → (out.timestamp ≡ 0) × (out.record_count ≡ 0)

set_meta-counts :
    (meta : Meta) (out : TcslogReadResult)
    → ((set_meta meta out).n ≡ out.n) × ((set_meta meta out).lost ≡ out.lost)
unfolding set_meta
set_meta-counts Meta.fixed out = (refl, refl)
set_meta-counts Meta.variable_simple out = (refl, refl)
set_meta-counts (Meta.variable_ts_rc ts rc) out = (refl, refl)

set_meta-HasShape :
    (meta : Meta) (out : TcslogReadResult)
    → out.timestamp ≡ 0
    → out.record_count ≡ 0
    → HasShape (set_meta meta out)
unfolding set_meta
set_meta-HasShape Meta.fixed out h k = λ other. (h, k)
set_meta-HasShape Meta.variable_simple out h k = λ other. (h, k)
set_meta-HasShape (Meta.variable_ts_rc ts rc) out h k = λ other. absurd (other refl)

-- The metadata of what was recovered, if anything was.
described-counts :
    (b : Bool) (meta : Meta) (out : TcslogReadResult)
    → let described : TcslogReadResult = if b then set_meta meta out else out in
      (described.n ≡ out.n) × (described.lost ≡ out.lost)
described-counts true meta out = set_meta-counts meta out
described-counts false meta out = (refl, refl)

described-HasShape :
    (b : Bool) (meta : Meta) (out : TcslogReadResult)
    → out.timestamp ≡ 0
    → out.record_count ≡ 0
    → HasShape (if b then set_meta meta out else out)
described-HasShape true meta out h k = set_meta-HasShape meta out h k
described-HasShape false meta out h k = λ other. (h, k)

status_of_untouched :
    (e : LogError)
    → ((status_of e empty).1.timestamp ≡ 0) × ((status_of e empty).1.record_count ≡ 0)
unfolding status_of
status_of_untouched clock_error = (refl, refl)
status_of_untouched eof = (refl, refl)
status_of_untouched fixed_len_mismatch = (refl, refl)
status_of_untouched invalid_header = (refl, refl)
status_of_untouched invalid_pathname = (refl, refl)
status_of_untouched (io_error k) = (refl, refl)
status_of_untouched name_too_long = (refl, refl)
status_of_untouched no_segment_files = (refl, refl)
status_of_untouched path_delimiter_not_allowed = (refl, refl)
status_of_untouched payload_too_large = (refl, refl)
status_of_untouched (read_overflow n) = (refl, refl)
status_of_untouched (read_truncated lost n) = (refl, refl)
status_of_untouched seg_size_too_small = (refl, refl)
status_of_untouched session_end = (refl, refl)
status_of_untouched timer_resolution_zero = (refl, refl)
status_of_untouched timestamp_overflow = (refl, refl)
status_of_untouched version_mismatch = (refl, refl)

failed_read-HasShape : (e : LogError) (meta : Meta) → HasShape (failed_read e meta).1
unfolding failed_read
failed_read-HasShape e meta =
    let untouched = status_of_untouched e in
    described-HasShape (ltb 0 (status_of e empty).1.n) meta (status_of e empty).1 untouched.0
      untouched.1

failed_read-Answers :
    (room : ℕ) (e : LogError) (meta : Meta) (s : Reader)
    → Told room e s
    → Answers room (length s.dst) (failed_read e meta).0 (failed_read e meta).1
unfolding failed_read status_of
failed_read-Answers room (read_overflow n) meta s h =
    let out : TcslogReadResult = record empty { n = n } in
    let counts = described-counts (ltb 0 n) meta out in (counts.0 ∙ h.0, h.1, counts.1)
failed_read-Answers room (read_truncated lost n) meta s h =
    let out : TcslogReadResult = record empty { lost = lost; n = n } in
    let counts = described-counts (ltb 0 n) meta out in
    (omega (arith, counts.0, h.0), omega (arith, counts.0, h.1))
failed_read-Answers room clock_error meta s h = (refl, refl)
failed_read-Answers room eof meta s h = (refl, refl)
failed_read-Answers room fixed_len_mismatch meta s h = (refl, refl)
failed_read-Answers room invalid_header meta s h = (refl, refl)
failed_read-Answers room invalid_pathname meta s h = (refl, refl)
failed_read-Answers room name_too_long meta s h = (refl, refl)
failed_read-Answers room no_segment_files meta s h = (refl, refl)
failed_read-Answers room path_delimiter_not_allowed meta s h = (refl, refl)
failed_read-Answers room payload_too_large meta s h = (refl, refl)
failed_read-Answers room seg_size_too_small meta s h = (refl, refl)
failed_read-Answers room session_end meta s h = (refl, refl)
failed_read-Answers room timer_resolution_zero meta s h = (refl, refl)
failed_read-Answers room timestamp_overflow meta s h = (refl, refl)
failed_read-Answers room version_mismatch meta s h = (refl, refl)
failed_read-Answers room (io_error k) meta s h = (refl, refl)

-- What a read through the interface ensures.
pub record Answered (room : ℕ) (status : TcslogStatus) (out : TcslogReadResult) (t : Reader)
    : Type 0 where
  pub sound : OpenSound t.log.current
  pub answers : Answers room (length t.dst) status out
  pub has_shape : HasShape out

read_into-Answered :
    (room : ℕ) (s : Reader)
    → room ≤ u32_max
    → OpenSound s.log.current
    → Ensures (read_into room) s (λ r t. Answered room r.0 r.1 t) (λ e t. ⊥)
unfolding read_into whole_record gets
read_into-Answered room s small sound =
    Ensures-on_error (read-Delivered room s small sound)
      (λ e t x. record {
        holds = record {
          sound = x.sound;
          answers = failed_read-Answers room e _ t x.told;
          has_shape = failed_read-HasShape e _;
        };
      })
      (λ r t x.
        let counts = set_meta-counts r.meta (record empty { n = r.n }) in
        Ensures-pure _ t (record {
          sound = x.sound;
          answers = (counts.0 ∙ x.all_placed, omega (arith, counts.0, x.fits), counts.1);
          has_shape = set_meta-HasShape r.meta (record empty { n = r.n }) refl refl;
        }))

-- A read through a live handle always returns a status, whatever the files hold and whatever
-- fails. The handle stays live and its reader sound, and the result is filled in: on `Ok` its `n`
-- is the number of bytes placed in the buffer, which has room for them; on `ReadOverflow` the
-- buffer is full and `n` is its size; on `ReadTruncated` no more bytes are announced than were
-- placed; with any other status `n` and `lost` are zero. A time and a count stand in it only where
-- its metadata has them. Only a null buffer of a size that is not zero is refused, and changes
-- nothing. The buffer has no more than `u32::MAX` bytes, and the open segment file, if there is
-- one, is sound.
pub tcslog_read_record-Answered :
    (no_buf : Bool) (room : ℕ) (old : TcslogReadResult) (s : Reader)
    → room ≤ u32_max
    → OpenSound s.log.current
    → Ensures
        (tcslog_read_record no_buf room (some old))
        (some s)
        (λ r o.
          (t : Reader) × (o ≡ some t)
          × (((out : TcslogReadResult) × (r.1 ≡ some out) × Answered room r.0 out t)
              ⊎ ((no_buf ≡ true)
                  × (0 < room)
                  × (r ≡ (TcslogStatus.null_argument, some old))
                  × (t ≡ s))))
        (λ e o. ⊥)
unfolding tcslog_read_record
tcslog_read_record-Answered no_buf room old s small sound =
    Ensures-on_handle (TcslogStatus.null_argument, some old) s
      (Ensures-if (no_buf && not (room == 0)) _ _ s
        (λ null. Ensures-pure _ s (inr (ground arith, ground arith, refl, refl)))
        λ there.
          Ensures-bind (read_into-Answered room s small sound) (λ e t x. x)
            λ r t x. Ensures-pure _ t (inl (r.1, refl, x)))
