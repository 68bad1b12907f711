-- ===== src/Read/Iter.antt =====
-- tcslog/src/read.rs: one round of the loop of `LogReadIter::next`.
use tcslog.Prelude.{
  inl, inr, ◌⊎◌, Bool-cases, ℕ, ◌*◌, ◌≤◌, ◌<◌, ◌≡◌, refl, sym, ap, arith, Bool, true, false, List,
  length, length-take, take, take_all, ltb, if◌then◌else◌,
}
use tcslog.Error.{
  LogError, clock_error, eof, fixed_len_mismatch, invalid_header, invalid_pathname, io_error,
  name_too_long, no_segment_files, path_delimiter_not_allowed, payload_too_large, read_overflow,
  read_truncated, seg_size_too_small, session_end, timer_resolution_zero, timestamp_overflow,
  version_mismatch,
}
use tcslog.Exec.{gets, on_error}
use tcslog.Exec.Post.{Ensures, Ensures-on_error}
use tcslog.Format.{Meta}
use tcslog.Read.{Reader, Reads, ReadResult}
use tcslog.Read.Record.{read}
use tcslog.Read.Sound.{OpenSound}
use tcslog.Read.Total.{Told}
use tcslog.Read.Spend.{OpenPays, ahead}
use tcslog.Read.Spend.Reading.{Nearer, read-Nearer}

abbrev pub iter_buf_len : ℕ
iter_buf_len = 64 * 1024

pub record Record : Type 0 where
  pub meta : Meta
  pub payload : List ℕ
  pub truncated : Bool

-- What a round comes to: a record, another round, or the end.
pub data Round : Type 0 where
  yields : Record → Round
  again stops : Round

-- The front of a record that the buffer holds.
abbrev pub front : ℕ → Reader → Record
front n s = record { meta = s.last_meta; payload = take n s.dst; truncated = true }

-- The arms for errors.
unfoldable pub after_error : LogError → Reader → Round
after_error (read_overflow n) s = if ltb 0 n then yields (front n s) else stops
after_error (read_truncated lost n) s = if ltb 0 n then yields (front n s) else again
after_error session_end s = again
after_error clock_error s = stops
after_error eof s = stops
after_error fixed_len_mismatch s = stops
after_error invalid_header s = stops
after_error invalid_pathname s = stops
after_error (io_error e) s = stops
after_error name_too_long s = stops
after_error no_segment_files s = stops
after_error path_delimiter_not_allowed s = stops
after_error payload_too_large s = stops
after_error seg_size_too_small s = stops
after_error timer_resolution_zero s = stops
after_error timestamp_overflow s = stops
after_error version_mismatch s = stops

unfoldable pub next_round : Reads Round
next_round =
    on_error (read iter_buf_len) (λ e. gets (after_error e))
      (λ r.
        gets (λ s. yields (record { meta = r.meta; payload = take r.n s.dst; truncated = false })))

-- A whole record has all the bytes that were placed, and the front of one some of them.
abbrev pub IsFaithful : Record → Reader → Type 0
IsFaithful r s =
    (length r.payload ≤ iter_buf_len)
    × (r.payload ≡ take (length r.payload) s.dst)
    × (r.truncated ≡ false → r.payload ≡ s.dst)
    × (r.truncated ≡ true → 0 < length r.payload)

abbrev pub Rounded : Round → Reader → Type 0
Rounded (yields r) s = IsFaithful r s
Rounded again s = Unit
Rounded stops s = Unit

taken-IsFaithful :
    (n : ℕ) (s : Reader) → 0 < n → n ≤ iter_buf_len → n ≤ length s.dst → IsFaithful (front n s) s
taken-IsFaithful n s h k l =
    let len : length (take n s.dst) ≡ n = omega (arith, length-take n s.dst) in
    (
      omega (arith, len),
      ap (λ (m : ℕ). take m s.dst) (sym len),
      (λ e. absurd (cc)),
      (λ e. omega (arith, len)),
    )

yields-Rounded :
    (n : ℕ) (r : Round) (s : Reader)
    → Rounded r s
    → n ≤ iter_buf_len
    → n ≤ length s.dst
    → Rounded (if ltb 0 n then yields (front n s) else r) s
yields-Rounded n r s h k l = elim (Bool-cases (ltb 0 n)) [
  | inl e ↦ rw e (taken-IsFaithful n s (ground (arith, e)) k l)
  | inr e ↦ rw e h
]

after_error-Rounded :
    (e : LogError) (s : Reader) → Told iter_buf_len e s → Rounded (after_error e s) s
unfolding after_error
after_error-Rounded (read_overflow n) s h =
    yields-Rounded n stops s tt (omega (arith, h.0)) (omega (arith, h.0, h.1))
after_error-Rounded (read_truncated lost n) s h = yields-Rounded n again s tt h.0 h.1
after_error-Rounded session_end s h = tt
after_error-Rounded clock_error s h = tt
after_error-Rounded eof s h = tt
after_error-Rounded fixed_len_mismatch s h = tt
after_error-Rounded invalid_header s h = tt
after_error-Rounded invalid_pathname s h = tt
after_error-Rounded (io_error e) s h = tt
after_error-Rounded name_too_long s h = tt
after_error-Rounded no_segment_files s h = tt
after_error-Rounded path_delimiter_not_allowed s h = tt
after_error-Rounded payload_too_large s h = tt
after_error-Rounded seg_size_too_small s h = tt
after_error-Rounded timer_resolution_zero s h = tt
after_error-Rounded timestamp_overflow s h = tt
after_error-Rounded version_mismatch s h = tt

-- The open segment file, if there is one, is sound and no longer than its file.
pub record InOrder (s : Reader) : Type 0 where
  pub sound : OpenSound s.log.current
  pub pays : OpenPays s

-- What a round comes to, with less ahead unless it is the last.
pub record Rounds (s : Reader) (r : Round) (t : Reader) : Type 0 where
  pub in_order : InOrder t
  pub rounded : Rounded r t
  pub less : (r ≡ stops) ⊎ (ahead t < ahead s)

after_error-stops : (e : LogError) (s : Reader) → e ≡ eof → after_error e s ≡ stops
unfolding after_error
after_error-stops e s h = rw h refl

read_whole :
    (s t : Reader) (r : ReadResult)
    → Nearer iter_buf_len s r t
    → Rounds s (yields (record { meta = r.meta; payload = take r.n t.dst; truncated = false })) t
read_whole s t r x =
    let len : length (take r.n t.dst) ≡ r.n =
      omega (arith, length-take r.n t.dst, x.delivered.all_placed) in
    record {
      in_order = record { sound = x.delivered.sound; pays = x.pays };
      rounded = (
        omega (arith, len, x.delivered.fits),
        ap (λ (m : ℕ). take m t.dst) (sym len),
        (λ e. take_all r.n t.dst (omega (arith, x.delivered.all_placed))),
        (λ e. absurd cc),
      );
      less = inr x.less;
    }

pub next_round-Rounds : (s : Reader) → InOrder s → Ensures next_round s (Rounds s) (λ e t. ⊥)
unfolding next_round gets
next_round-Rounds s h =
    Ensures-on_error (read-Nearer iter_buf_len s (omega arith) h.sound h.pays)
      (λ e t x. record {
        holds = record {
          in_order = record { sound = x.reported.sound; pays = x.pays };
          rounded = after_error-Rounded e t x.reported.told;
          less = elim x.less [ inl y ↦ inl (after_error-stops e t y) | inr y ↦ inr y ];
        };
      })
      (λ r t x. record { holds = read_whole s t r x })
