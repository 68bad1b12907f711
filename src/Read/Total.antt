-- ===== src/Read/Total.antt =====
-- A read ends, and reports what it placed in the caller's buffer.
use tcslog.Prelude.{
  ℕ, ◌-◌, ◌≤◌, ◌≡◌, refl, ◌∙◌, arith, true, ◌&&◌, Option, none, some, length, ltb, min, u32_max,
}
use tcslog.Error.{LogError, eof, read_truncated, read_overflow}
use tcslog.Exec.{◌>>=◌}
use tcslog.Exec.Post.{
  Ensures, Ensures-pure, Ensures-raise, Ensures-bind, Ensures-on_error, Ensures-gets_bind,
  Ensures-modify_bind, Ensures-if,
}
use tcslog.Format.{Meta}
use tcslog.Read.{Segment, Reader, Start, ReadResult, exhausted, lose_position}
use tcslog.Read.Record.{decode_header, read_payload, read_body, read, is_empty}
use tcslog.Read.Sound.{OpenSound, Holds, Reports}
use tcslog.Read.Filling.{fill-Holds}
use tcslog.Read.Skipping.{skip-Holds}
use tcslog.Read.Heading.{
  AtHeader, decode_header-AtHeader, lose_position-Ensures, resynchronize-AtHeader,
}

-- What a caller with a buffer of `buf_len` bytes is told of a record that it does not get whole.
abbrev pub Told : ℕ → LogError → Reader → Type 0
Told buf_len (read_overflow n) s = (n ≡ buf_len) × (length s.dst ≡ buf_len)
Told buf_len (read_truncated lost n) s = (n ≤ buf_len) × (n ≤ length s.dst)
Told buf_len _ s = Unit

-- What a read that returns has delivered, and how one that fails leaves the reader.
pub record Delivered (buf_len : ℕ) (r : ReadResult) (s : Reader) : Type 0 where
  pub sound : OpenSound s.log.current
  pub all_placed : r.n ≡ length s.dst
  pub fits : r.n ≤ buf_len

pub record Reported (buf_len : ℕ) (e : LogError) (s : Reader) : Type 0 where
  pub sound : OpenSound s.log.current
  pub told : Told buf_len e s

NoPayload-Told : (buf_len : ℕ) (e : LogError) (s : Reader) → Reports 0 e → Told buf_len e s
NoPayload-Told buf_len (read_overflow n) s h = absurd h
NoPayload-Told buf_len (read_truncated lost n) s h = (omega arith, omega arith)
NoPayload-Told buf_len _ s h = tt

Reports-Told :
    (buf_len d : ℕ) (e : LogError) (s : Reader)
    → d ≤ buf_len
    → length s.dst ≡ d
    → Reports d e
    → Told buf_len e s
Reports-Told buf_len d (read_overflow n) s le eq h = absurd h
Reports-Told buf_len d (read_truncated lost n) s le eq h = (omega arith, omega arith)
Reports-Told buf_len d _ s le eq h = tt

read_payload-Delivered :
    (buf_len payload_len : ℕ) (meta : Meta) (s : Reader)
    → buf_len ≤ u32_max
    → OpenSound s.log.current
    → s.cursor.in_payload ≡ true
    → s.cursor.payload_in_buf ≡ 0
    → Ensures (read_payload buf_len payload_len meta) s (Delivered buf_len) (Reported buf_len)
unfolding read_payload
read_payload-Delivered buf_len payload_len meta s small sound phase zero_counted =
    let got : ℕ = min payload_len buf_len in
    let k : ℕ = length s.log.pending in
    let start : Holds true k (length s.dst) s = record {
      sound = sound;
      bounded = omega arith;
      placed = record { phase = phase; placed = refl; counted = omega (arith, zero_counted) };
    } in
    Ensures-bind
      (Ensures-on_error (fill-Holds true k (length s.dst) got s start zero_counted)
        (λ e t x. lose_position-Ensures e t (record {
          sound = tt;
          told =
              Reports-Told buf_len x.reached e _ (omega (arith, x.reached_le))
                x.fails.still.placed.placed x.fails.reports;
        }))
        (λ a t x. Ensures-pure {P = λ _ u. Holds true k got u} a t x))
      (λ e t x. x)
      λ u t x.
        Ensures-if (ltb buf_len payload_len) _ _ t
          (λ longer.
            let full : min got u32_max ≡ buf_len = ground (arith, longer) in
            let length_full : got ≡ buf_len = ground (arith, longer) in
            Ensures-on_error (skip-Holds true k got (payload_len - buf_len) t x)
              (λ e v y. Ensures-modify_bind _ _ v (
                Ensures-raise _ _
                  (record { sound = tt; told = (full, y.still.placed.placed ∙ length_full) })))
              (λ a v y.
                Ensures-raise _ v
                  (record { sound = y.sound; told = (full, y.placed.placed ∙ length_full) })))
          (λ whole. Ensures-pure _ t (record {
            sound = x.sound;
            all_placed = omega (arith, x.placed.placed);
            fits = omega arith;
          }))

-- From any reader whose open segment file, if there is one, is sound, whatever the files hold and
-- whatever operations on them fail, a read into a buffer of `buf_len` bytes, no more than
-- `u32::MAX`, ends, and leaves the reader so again. When it returns, the bytes that it announces
-- are those placed in the buffer. A record that overflows the buffer is announced with the buffer
-- full, and one that is cut short with no more bytes than were placed.
pub read-Delivered :
    (buf_len : ℕ) (s : Reader)
    → buf_len ≤ u32_max
    → OpenSound s.log.current
    → Ensures (read buf_len) s (Delivered buf_len) (Reported buf_len)
unfolding read read_body
read-Delivered buf_len s small sound = Ensures-gets_bind _ _ s (
    Ensures-if (is_empty s.pending && exhausted s.log) _ _ s
      (λ finished.
        Ensures-modify_bind _ _ s (Ensures-raise eof _ (record { sound = tt; told = tt })))
      (λ more. Ensures-modify_bind _ _ s (
        Ensures-modify_bind _ _ _ (
          Ensures-bind
            (resynchronize-AtHeader _ (record { sound = sound; phase = refl; counted = refl }))
            (λ e t x. record { sound = x.0; told = NoPayload-Told buf_len e t x.1 })
            λ start t x. Ensures-gets_bind _ _ t (in_segment start t.log.current t x)))))
  where
    in_segment :
        (start : Start) (o : Option Segment) (t : Reader)
        → AtHeader t
        → Ensures
            (elim o [
              | none ↦ lose_position eof
              | some segment ↦ (decode_header start segment >>= read_body buf_len)
            ])
            t
            (Delivered buf_len)
            (Reported buf_len)
    in_segment start none t x = lose_position-Ensures eof t (record { sound = tt; told = tt })
    in_segment start (some seg) t x =
        Ensures-bind (decode_header-AtHeader start seg t x)
          (λ e v y. record { sound = y.0; told = NoPayload-Told buf_len e v y.1 })
          λ p v y. Ensures-modify_bind _ _ v (
            Ensures-modify_bind _ _ _
              (read_payload-Delivered buf_len p.0 p.1 _ small y.sound refl y.counted))
