-- ===== src/Read/Crossing.antt =====
-- The step from one segment file into the next ends, and keeps the invariant of a reader.
use tcslog.Prelude.{
  ℕ, suc, ◌≤◌, ◌<◌, ◌≡◌, refl, ◌∙◌, arith, Bool, true, false, ◌&&◌, ◌||◌, Option, none, some,
  length, ltb,
}
use tcslog.Error.{LogError}
use tcslog.Exec.Post.{
  Ensures, Ensures-raise, Ensures-skip, Ensures-on_error, Ensures-gets_bind, Ensures-modify_bind,
  Ensures-if,
}
use tcslog.SegId.{SegId}
use tcslog.SeqId.{SeqId}
use tcslog.Header.{SegmentHeader}
use tcslog.Read.{Segment, Cursor, LogRead, Reader, handed_back, reject_current}
use tcslog.Read.Cross.{
  imply_payload, disagrees, sequence_gap, leave_hint, truncate, check_crossing, is_session_end,
  boundary, arrive, cross,
}
use tcslog.Read.Sound.{IsPlaced, Holds, Fails, most}
use tcslog.Read.Search.{Found, open_next-Found}

-- A crossing that is allowed, or a step of the like: a segment file was taken off the list.
abbrev pub Crossed : Bool → ℕ → ℕ → Unit {0} → Reader → Type 0
Crossed b k d u s = Holds b k d s × (length s.log.pending < k)

pub truncate-Fails :
    {A : Type 0} {P : A → Reader → Type 0} (b : Bool) (k d : ℕ) (s : Reader)
    → Holds b k d s
    → Ensures truncate s P (Fails b k d)
unfolding truncate
truncate-Fails b k d s h =
    Ensures-gets_bind _ _ s (Ensures-raise _ s (record { still = h; reports = h.placed.counted }))

length-handed_back : (l : LogRead) → length (handed_back l).pending ≤ suc (length l.pending)
unfolding handed_back
length-handed_back l = ground arith

pub reject_current-Fails :
    {A : Type 0} {P : A → Reader → Type 0} (b : Bool) (k d lost n : ℕ) (s : Reader)
    → Holds b k d s
    → length s.log.pending < k
    → n ≤ most b d
    → Ensures (reject_current lost n) s P (Fails b k d)
unfolding reject_current handed_back
reject_current-Fails b k d lost n s h room le = Ensures-modify_bind _ _ s (
    Ensures-raise _ _ (record {
      still = record {
        sound = tt;
        bounded = omega (arith, length-handed_back s.log);
        placed = h.placed;
      };
      reports = le;
    }))

disagrees-in_payload :
    (c : Cursor) (h : SegmentHeader) → (disagrees c h).1.in_payload ≡ c.in_payload
unfolding disagrees imply_payload
disagrees-in_payload c h = ground arith

disagrees-payload_in_buf :
    (c : Cursor) (h : SegmentHeader) → (disagrees c h).1.payload_in_buf ≡ c.payload_in_buf
unfolding disagrees imply_payload
disagrees-payload_in_buf c h = ground arith

check_crossing-Crossed :
    (b : Bool) (k d : ℕ) (prev_seq : Option SeqId) (prev_short : Bool) (seg : Segment) (s : Reader)
    → Holds b k d s
    → length s.log.pending < k
    → Ensures (check_crossing prev_seq prev_short seg) s (Crossed b k d) (Fails b k d)
unfolding check_crossing leave_hint
check_crossing-Crossed b k d prev_seq prev_short seg s h room =
    let placed : IsPlaced b d (disagrees s.cursor seg.header).1 s.dst = record {
      phase = disagrees-in_payload s.cursor seg.header ∙ h.placed.phase;
      placed = h.placed.placed;
      counted = rw (disagrees-payload_in_buf s.cursor seg.header) h.placed.counted;
    } in
    Ensures-gets_bind _ _ s (
      Ensures-modify_bind _ _ s (
        Ensures-if
          (((disagrees s.cursor seg.header).0 || prev_short)
            || (sequence_gap prev_seq seg.header.sequence).0)
          _ _ _
          (λ refused. Ensures-modify_bind _ _ _ (
            reject_current-Fails b k d _ s.cursor.payload_in_buf _
              (record { sound = h.sound; bounded = h.bounded; placed = placed }) room
              h.placed.counted))
          (λ allowed.
            Ensures-skip _
              (record { sound = h.sound; bounded = h.bounded; placed = placed }, room))))

arrive-Crossed :
    (b : Bool) (k d : ℕ) (prev_seq : Option SeqId) (prev_short now : Bool)
    (current : Option Segment) (s : Reader)
    → Found b k d now s
    → Ensures (arrive prev_seq prev_short now current) s (Crossed b k d) (Fails b k d)
unfolding arrive
arrive-Crossed b k d prev_seq prev_short false current s h = truncate-Fails b k d s h.still
arrive-Crossed b k d prev_seq prev_short true none s h = truncate-Fails b k d s h.still
arrive-Crossed b k d prev_seq prev_short true (some seg) s h =
    check_crossing-Crossed b k d prev_seq prev_short seg s h.still (h.taken refl)

boundary-Fails :
    (b : Bool) (k d : ℕ) (prev_session : Option SegId) (prev_seq : Option SeqId) (consumed : ℕ)
    (e : LogError) (s : Reader)
    → Fails b k d e s
    → Ensures (boundary prev_session prev_seq consumed e) s (Crossed b k d) (Fails b k d)
unfolding boundary
boundary-Fails b k d prev_session prev_seq consumed e s h =
    Ensures-if (is_session_end e && ltb 0 consumed) _ _ s
      (λ inside. Ensures-modify_bind _ _ s (
        truncate-Fails b k d _
          (record { sound = h.still.sound; bounded = h.still.bounded; placed = h.still.placed })))
      (λ outside. Ensures-raise e s h)

-- In a reader that keeps the invariant a crossing ends, and keeps it.
pub cross-Holds :
    (b : Bool) (k d : ℕ) (s : Reader)
    → Holds b k d s
    → Ensures cross s (Crossed b k d) (Fails b k d)
unfolding cross
cross-Holds b k d s h = Ensures-gets_bind _ _ s (
    Ensures-gets_bind _ _ s (
      Ensures-gets_bind _ _ s (
        Ensures-gets_bind _ _ s (
          Ensures-modify_bind _ _ s (
            Ensures-on_error
              (open_next-Found b k d _
                (record { sound = tt; bounded = h.bounded; placed = h.placed }))
              (λ e t x. boundary-Fails b k d _ _ _ e t x)
              λ now t x.
                Ensures-gets_bind _ _ t (arrive-Crossed b k d _ _ now t.log.current t x))))))
