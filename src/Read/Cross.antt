-- ===== src/Read/Cross.antt =====
-- tcslog/src/read.rs: `cross`, the step from an exhausted segment file into the next one.
use tcslog.Prelude.{
  ℕ, ◌+◌, ◌-◌, ◌%◌, ◌^◌, Bool, true, false, not, ◌||◌, ◌&&◌, Option, none, some, ltb, ◌==◌,
  if◌then◌else◌,
}
use tcslog.Exec.{raise, gets, skip, on_error, ◌>>=◌, ◌>>◌}
use tcslog.Error.{LogError, read_truncated, session_end}
use tcslog.SegId.{SegId}
use tcslog.SeqId.{SeqId}
use tcslog.Format.{data_header_len_in}
use tcslog.Header.{SegmentHeader, data_len}
use tcslog.Read.{
  Segment, Cursor, Recovery, LogRead, Reads, on_log, on_cursor, set_current, reject_current,
}
use tcslog.Read.Open.{open_next}

-- `a - b` of a `u64` in a build without overflow checks, which Cargo's release profile is.
abbrev wrapping_sub : ℕ → ℕ → ℕ
wrapping_sub a b = (a + 2 ^ 64 - b) % 2 ^ 64

-- Whether the file that was being read is shorter than its header's maximum size implies.
unfoldable pub cut_short : Option Segment → Bool
cut_short none = false
cut_short (some segment) = ltb segment.data_len (data_len segment.header)

-- A crossing inside a data header, where `remaining` fixes the payload length: whether it is
-- rejected, and the length that it implies.
unfoldable pub imply_payload : ℕ → ℕ → Cursor → Bool × Cursor
imply_payload remaining rest cursor =
    let implied = remaining - rest in
    let agreed = record cursor { implied_payload = some implied } in
    if ltb remaining rest then (true, cursor) else elim cursor.implied_payload [
      | none ↦ (false, agreed)
      | some earlier ↦ (if not (earlier == implied) then (true, cursor) else (false, agreed))
    ]

-- Whether `remaining` of the file that was crossed into disagrees with the record in progress.
unfoldable pub disagrees : Cursor → SegmentHeader → Bool × Cursor
disagrees cursor header =
    if cursor.consumed == 0 then (not (header.remaining == 0), cursor) else elim cursor.total [
      | some total ↦ (not (header.remaining == wrapping_sub total cursor.consumed), cursor)
      | none ↦
          imply_payload header.remaining
            (data_header_len_in header.format header.minor - cursor.consumed) cursor
    ]

-- Whether the sequence does not advance by one, and how many segment files it shows to be lost.
unfoldable pub sequence_gap : Option SeqId → SeqId → Bool × ℕ
sequence_gap none seq = (false, 0)
sequence_gap (some prev) seq =
    let expected = (prev + 1) % 2 ^ 64 in
    if seq == expected
    then (false, 0)
    else if ltb expected seq
    then (true, wrapping_sub (wrapping_sub seq prev) 1)
    else (true, 0)

-- The hint that is left for a recovery attempt, where the record's size was known.
unfoldable pub hint : Segment → Cursor → Option Recovery → Option Recovery
hint segment cursor old = elim cursor.total [
  | none ↦ old
  | some total ↦ some (record { segment = segment.id; owed = wrapping_sub total cursor.consumed })
]

unfoldable pub leave_hint : Segment → ℕ → Bool → Cursor → LogRead → LogRead
leave_hint segment lost prev_short cursor l = record l {
  recovery = (if lost == 1 && not prev_short then hint segment cursor l.recovery else l.recovery);
}

-- The end of a record that is cut off where no further segment file can be opened.
unfoldable pub truncate : {A : Type 0} → Reads A
truncate = do n ← gets (λ s. s.cursor.payload_in_buf); raise (read_truncated 0 n)

-- The checks on the file that was crossed into.
unfoldable pub check_crossing : Option SeqId → Bool → Segment → Reads (Unit {0})
check_crossing prev_seq prev_short segment = do
  cursor ← gets (λ s. s.cursor)
  let refused = (disagrees cursor segment.header).0
  let cursor' = (disagrees cursor segment.header).1
  let gap = (sequence_gap prev_seq segment.header.sequence).0
  let lost = (sequence_gap prev_seq segment.header.sequence).1
  on_cursor (λ _. cursor')
  if (refused || prev_short) || gap
      then (do
        on_log (leave_hint segment lost prev_short cursor')
        reject_current lost cursor.payload_in_buf)
      else skip

abbrev pub is_session_end : LogError → Bool
is_session_end session_end = true
is_session_end _ = false

-- What a crossing makes of a search that found no segment file of this session.
unfoldable pub boundary : Option SegId → Option SeqId → ℕ → LogError → Reads (Unit {0})
boundary prev_session prev_seq consumed e =
    if is_session_end e && ltb 0 consumed
    then (do on_log (λ l. record l { session = prev_session; prev_seq = prev_seq }); truncate)
    else raise e

unfoldable pub arrive : Option SeqId → Bool → Bool → Option Segment → Reads (Unit {0})
arrive prev_seq prev_short false current = truncate
arrive prev_seq prev_short true none = truncate
arrive prev_seq prev_short true (some segment) = check_crossing prev_seq prev_short segment

unfoldable pub cross : Reads (Unit {0})
cross = do
  prev_seq ← gets (λ s. s.prev_seq)
  prev_session ← gets (λ s. s.session)
  prev_short ← gets (λ s. cut_short s.current)
  consumed ← gets (λ s. s.cursor.consumed)
  set_current none
  on_error open_next (boundary prev_session prev_seq consumed)
      λ opened. do current ← gets (λ s. s.current); arrive prev_seq prev_short opened current
