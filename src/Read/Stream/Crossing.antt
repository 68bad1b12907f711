-- ===== src/Read/Stream/Crossing.antt =====
-- `cross`, from one segment file of a session into the next.
use tcslog.Prelude.{
  ℕ, ◌+◌, ◌^◌, ◌≤◌, ◌<◌, ◌≡◌, refl, ap, ◌∙◌, arith, Bool, true, false, Option, none, some, List, [],
  ◌∷◌, length,
}
use tcslog.Exec.Run.{Runs, skip-Runs, on_error-Runs, gets-Runs, modify-Runs}
use tcslog.SegId.{SegId}
use tcslog.SeqId.{SeqId}
use tcslog.Format.{Format, data_header_len_in}
use tcslog.Read.{Segment, Cursor, Reader, Reads, exhausted}
use tcslog.Read.Cross.{disagrees, check_crossing, arrive, cross}
use tcslog.Read.Spend.Searching.{pending-entered}
use tcslog.Read.Stream.Entering.{entered, unopened, Entry, enter_next}
use tcslog.Read.Stream.{mark, Marked, At}
use tcslog.Read.Stream.Cursor.{Within, no_gap, disagrees_not}
use tcslog.Read.Stream.Opening.{opened_file}

-- A record of the session that is read.
module _ (home : Reader) (session : SegId) (format : Format) (minor : ℕ)
    (works : home.world.outcomes ≡ []) (total header_len limit : ℕ)
    (len_same : data_header_len_in format minor ≡ header_len) (header_le : header_len ≤ total)
    (limit_le : limit ≤ total) (total_lt : total < 2 ^ 64) where
  -- A reader at the place of the stream where `consumed` bytes of the record are behind it.
  pub record InRecord (stream : List Marked) (consumed : ℕ) (s : Reader) : Type 0 where
    pub at : At home session format minor stream s
    pub cursor_within : Within total header_len limit consumed s.cursor

  -- The step `m` leaves the reader in the record, with `dst` placed.
  pub record Steps (m : Reads (Unit {0})) (s : Reader) (stream : List Marked) (consumed : ℕ)
      (dst : List ℕ) : Type 0 where
    pub after : Reader
    pub steps : Runs m s tt after
    pub in_record : InRecord stream consumed after
    pub dst_same : after.dst ≡ dst

  -- A crossing takes a segment file off the pending list.
  pub record Crosses (s : Reader) (stream : List Marked) (consumed : ℕ) : Type 0 where
    pub steps : Steps cross s stream consumed s.dst
    pub fewer : length steps.after.pending < length s.pending

  check_crossing-Runs :
      (o : Option SeqId) (prev_seq : SeqId) (prev_short : Bool) (seg : Segment) (s : Reader)
      (after : Cursor)
      → o ≡ some prev_seq
      → prev_short ≡ false
      → seg.header.sequence ≡ prev_seq + 1
      → seg.header.sequence < 2 ^ 64
      → disagrees s.cursor seg.header ≡ (false, after)
      → Runs (check_crossing o prev_short seg) s tt (record s { cursor = after })
  unfolding check_crossing
  check_crossing-Runs o prev_seq prev_short seg s after e short next lt agree = gets-Runs _ _ (
      modify-Runs _ _
        (rw (e, agree, no_gap prev_seq seg.header.sequence next lt, short) (skip-Runs _)))

  -- A crossing is allowed, and goes on with the stream.
  pub cross-Crosses :
      (x : Marked) (more : List Marked) (consumed : ℕ) (s : Reader)
      → InRecord (x ∷ more) consumed s
      → x.0 ≡ mark total consumed
      → exhausted s.log ≡ true
      → Crosses s (x ∷ more) consumed
  unfolding cross arrive
  cross-Crosses x more consumed s h first e =
      let entry : Entry home session format minor (x ∷ more) h.at.seg.header.sequence s =
        enter_next home session format minor works x more s h.at e in
      let (cursor, agree, within) =
        disagrees_not total header_len limit consumed s.cursor entry.file.header h.cursor_within
          limit_le header_le total_lt (entry.len_same ∙ len_same) (entry.remaining_same ∙ first) in
      let fewer_left : length (entered (opened_file s entry.file) entry.rest (unopened s)).pending
          < length s.pending =
        omega (
          arith,
          ap (λ (l : List SegId). length l) entry.pending_same,
          ap (λ (l : List SegId). length l)
              (pending-entered (opened_file s entry.file)
                (record s.log { current = none; pending = entry.rest })),
        ) in
      record {
        steps = record {
          after = record (entered (opened_file s entry.file) entry.rest (unopened s)) {
            cursor = cursor;
          };
          steps = gets-Runs _ _ (
              gets-Runs _ _ (
                gets-Runs _ _ (
                  gets-Runs _ _ (
                    modify-Runs _ _ (
                      on_error-Runs _ _ entry.opens (
                        gets-Runs _ _ (
                          check_crossing-Runs _ h.at.seg.header.sequence _ _ _ cursor h.at.prev_same
                            entry.not_short entry.sequence_next entry.valid.sequence_u64
                            agree)))))));
          in_record = record { at = entry.arrived cursor; cursor_within = within };
          dst_same = refl;
        };
        fewer = fewer_left;
      }
