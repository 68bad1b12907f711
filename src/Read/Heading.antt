-- ===== src/Read/Heading.antt =====
-- The steps of a read ahead of the payload: resynchronization and the data header.
use tcslog.Prelude.{
  ℕ, suc, ◌≡◌, refl, arith, true, false, not, Option, none, some, length, ltb, ◌==◌, if◌then◌else◌,
}
use tcslog.Error.{LogError}
use tcslog.Exec.{pure, ◌>>◌}
use tcslog.Exec.Post.{
  Ensures, Ensures-pure, Ensures-raise, Ensures-weaken, Ensures-bind, Ensures-on_error,
  Ensures-gets_bind, Ensures-modify_bind, Ensures-if,
}
use tcslog.Bytes.{from_le_bytes}
use tcslog.Format.{Format}
use tcslog.Read.{Segment, Reader, Reads, Start, fresh, recovered, reject_current, lose_position}
use tcslog.Read.Fill
use tcslog.Read.Fill.{settle_payload_len, read_data_header}
use tcslog.Read.Record.{report_lost, resynchronize, decode_header, guarded}
use tcslog.Read.Sound.{OpenSound, Holds, Reports}
use tcslog.Read.Finding.{find_record_start-Begins}
use tcslog.Read.Crossing.{reject_current-Fails}
use tcslog.Read.Filling.{fill-Holds}

-- Before the payload is read the cursor counts none of it.
pub record AtHeader (s : Reader) : Type 0 where
  pub sound : OpenSound s.log.current
  pub phase : s.cursor.in_payload ≡ false
  pub counted : s.cursor.payload_in_buf ≡ 0

-- A step before the payload that fails reports no payload byte.
abbrev pub NoPayload : LogError → Reader → Type 0
NoPayload e s = OpenSound s.log.current × Reports 0 e

AtHeader-Holds : (s : Reader) → AtHeader s → Holds false (length s.log.pending) (length s.dst) s
AtHeader-Holds s h = record {
  sound = h.sound;
  bounded = omega arith;
  placed = record { phase = h.phase; placed = refl; counted = omega (arith, h.counted) };
}

Holds-AtHeader : (k d : ℕ) (s : Reader) → Holds false k d s → AtHeader s
Holds-AtHeader k d s h = record {
  sound = h.sound;
  phase = h.placed.phase;
  counted = omega (arith, h.placed.counted);
}

fill-AtHeader :
    (n : ℕ) (s : Reader) → AtHeader s → Ensures (Fill.fill n) s (λ _ t. AtHeader t) NoPayload
fill-AtHeader n s h =
    Ensures-weaken
      (fill-Holds false (length s.log.pending) (length s.dst) n s (AtHeader-Holds s h) h.counted)
      (λ a t x. Holds-AtHeader _ _ t x) (λ e t x. (x.fails.still.sound, x.fails.reports))

settle-AtHeader :
    (decoded : ℕ) (s : Reader)
    → AtHeader s
    → Ensures (settle_payload_len decoded) s (λ _ t. AtHeader t) NoPayload
unfolding settle_payload_len
settle-AtHeader decoded s h = Ensures-gets_bind _ _ s (agreed s.cursor.implied_payload)
  where
    k : ℕ
    k = suc (length s.log.pending)

    room : Holds false k (length s.dst) s
    room = record { sound = h.sound; bounded = omega arith; placed = (AtHeader-Holds s h).placed }

    agreed :
        (o : Option ℕ)
        → Ensures
            (elim o [
              | none ↦ pure decoded
              | some n ↦ (if not (n == decoded) then reject_current 0 0 else pure decoded)
            ])
            s
            (λ _ t. AtHeader t)
            NoPayload
    agreed none = Ensures-pure decoded s h
    agreed (some n) =
        Ensures-if (not (n == decoded)) _ _ s
          (λ e.
            Ensures-weaken {P = λ _ t. AtHeader t}
              (reject_current-Fails false k (length s.dst) 0 0 s room (omega arith) (omega arith))
              (λ a t x. x) (λ e t x. (x.still.sound, x.reports)))
          (λ e. Ensures-pure decoded s h)

set_total-AtHeader :
    {A : Type 0} (a : A) (total : ℕ) (s : Reader)
    → AtHeader s
    → Ensures (Fill.set_total total >> pure a) s (λ _ t. AtHeader t) NoPayload
set_total-AtHeader a total s h =
    Ensures-modify_bind _ _ s
      (Ensures-pure a _ (record { sound = h.sound; phase = h.phase; counted = h.counted }))

read_data_header-AtHeader :
    (format : Format) (minor : ℕ) (s : Reader)
    → AtHeader s
    → Ensures (read_data_header format minor) s (λ _ t. AtHeader t) NoPayload
unfolding read_data_header
read_data_header-AtHeader (Format.fixed n) minor s h = set_total-AtHeader _ n s h
read_data_header-AtHeader Format.variable_simple minor s h =
    Ensures-bind (fill-AtHeader 4 s h) (λ e t x. x)
      λ u t x. Ensures-gets_bind _ _ t (
        Ensures-bind (settle-AtHeader (from_le_bytes t.dst) t x) (λ e v y. y)
          λ n v y. set_total-AtHeader _ _ v y)
read_data_header-AtHeader Format.variable_ts_rc minor s h =
    Ensures-bind (fill-AtHeader _ s h) (λ e t x. x)
      λ u t x.
        Ensures-gets_bind _ _ t
          (Ensures-bind (settle-AtHeader _ t x) (λ e v y. y) λ n v y. set_total-AtHeader _ _ v y)

-- A guarded step that fails has given up the segment file.
pub lose_position-Ensures :
    {A : Type 0} {P : A → Reader → Type 0} {Q : LogError → Reader → Type 0} (e : LogError)
    (s : Reader)
    → Q e (record s { log = record s.log { resync = true; current = none } })
    → Ensures (lose_position e) s P Q
unfolding lose_position
lose_position-Ensures e s h = Ensures-modify_bind _ _ s (Ensures-raise e _ h)

guarded-NoPayload :
    {A : Type 0} {m : Reads A} {s : Reader} {P : A → Reader → Type 0}
    → Ensures m s P NoPayload
    → Ensures (guarded m) s P NoPayload
guarded-NoPayload h =
    Ensures-on_error h (λ e t x. lose_position-Ensures e t (tt, x.1)) (λ a t x. Ensures-pure a t x)

pub decode_header-AtHeader :
    (start : Start) (seg : Segment) (s : Reader)
    → AtHeader s
    → Ensures (decode_header start seg) s (λ _ t. AtHeader t) NoPayload
unfolding decode_header
decode_header-AtHeader (recovered n) seg s h =
    Ensures-modify_bind _ _ s
      (Ensures-pure _ _ (record { sound = h.sound; phase = h.phase; counted = h.counted }))
decode_header-AtHeader fresh seg s h =
    guarded-NoPayload (read_data_header-AtHeader seg.header.format seg.header.minor s h)

report_lost-AtHeader :
    (start : Start) (s : Reader)
    → AtHeader s
    → Ensures (report_lost start) s (λ _ t. AtHeader t) NoPayload
unfolding report_lost
report_lost-AtHeader start s h = Ensures-gets_bind _ _ s (
    Ensures-if (ltb 0 s.session_start_lost) _ _ s
      (λ some_lost. Ensures-modify_bind _ _ s (Ensures-raise _ _ (h.sound, omega arith)))
      (λ none_lost. Ensures-pure start s h))

pub resynchronize-AtHeader :
    (s : Reader) → AtHeader s → Ensures resynchronize s (λ _ t. AtHeader t) NoPayload
unfolding resynchronize
resynchronize-AtHeader s h = Ensures-gets_bind _ _ s (
    Ensures-if s.resync _ _ s
      (λ armed.
        Ensures-bind
          (guarded-NoPayload (
            Ensures-weaken
              (find_record_start-Begins false (length s.log.pending) (length s.dst) s
                (AtHeader-Holds s h))
              (λ a t x. Holds-AtHeader _ _ t x.still) (λ e t x. (x.still.sound, x.reports))))
          (λ e t x. x)
          λ start t x. Ensures-modify_bind _ _ t (
            report_lost-AtHeader start _
              (record { sound = x.sound; phase = x.phase; counted = x.counted })))
      (λ known. Ensures-pure fresh s h))
