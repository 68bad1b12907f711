-- ===== src/Read/Open.antt =====
-- tcslog/src/read.rs: `open_validated`, `open_next`, `recovered_payload_len`, `find_record_start`.
use tcslog.Prelude.{
  ℕ, zero, suc, ◌+◌, ◌-◌, Bool, true, false, not, ◌||◌, Option, none, some, List, [], ◌∷◌, ◌++◌,
  length, ltb, leb, ◌==◌, if◌then◌else◌, u32_max,
}
use tcslog.Exec.{pure, raise, gets, out_of_fuel, on_error, ◌>>=◌, ◌>>◌}
use tcslog.Error.{Result, ok, err, stuck, eof, session_end}
use tcslog.Fs.{open_file, file_len, read_exact, attempt}
use tcslog.SegId.{SegId}
use tcslog.Format.{Format, data_header_len}
use tcslog.Header.{SegmentHeader, segment_file_header_len, from_bytes, data_len}
use tcslog.Names.{build_name}
use tcslog.Read.{
  Segment, Start, fresh, recovered, Recovery, LogRead, Reads, io, on_log, set_current, as_i64,
}

-- The checks on a file whose length is known and whose header could be read.
unfoldable pub validated : SegId → List ℕ → ℕ → Result SegmentHeader → Option Segment
validated id name len (ok header) =
    if not (header.segment_id == id)
    then none
    else if ltb header.max_size len
    then none
    else some (record {
      id = id;
      name = name;
      offset = segment_file_header_len;
      header = header;
      data_len = len - segment_file_header_len;
      pos = 0;
    })
validated id name len (err e) = none
validated id name len stuck = none

unfoldable pub open_validated : SegId → Reads (Option Segment)
open_validated id = do
  name ← gets (λ s. build_name s.prefix id s.suffix)
  on_error (io (open_file name)) (λ _. pure none)
      λ _.
        on_error (io (file_len name)) (λ _. pure none)
          λ len.
            if ltb len segment_file_header_len
            then pure none
            else on_error (io (read_exact name 0 segment_file_header_len)) (λ _. pure none)
                λ bytes. pure (validated id name len (from_bytes bytes))

-- Whether a session is being read that the segment file does not belong to.
abbrev pub foreign : Option SegId → SegmentHeader → Bool
foreign none header = false
foreign (some session) header = not (header.session_id == session)

abbrev is_id : Option SegId → SegId → Bool
is_id none id = false
is_id (some id') id = id' == id

-- Each segment file is counted once, and its header retained where that is asked for.
unfoldable pub count_opened : Segment → LogRead → LogRead
count_opened segment l =
    if is_id l.reopened segment.id then record l { reopened = none } else record l {
      segments_opened = l.segments_opened + 1;
      opened_headers =
          (if l.collect_headers then l.opened_headers ++ segment.header ∷ [] else l.opened_headers);
    }

-- A session's first surviving segment file tells by its sequence how many were lost ahead of it.
unfoldable pub enter_session : Segment → LogRead → LogRead
enter_session segment l = elim l.session [
  | none ↦ record l {
    session = some segment.header.session_id;
    session_start_lost = segment.header.sequence;
  }
  | some session ↦ l
]

-- What is done with the next segment file that can be used.
unfoldable pub accept : SegId → Segment → Reads Bool
accept id segment = do
  session ← gets (λ s. s.session)
  if foreign session segment.header
      then (do
        on_log (λ l. record l {
          pending = id ∷ l.pending;
          session = none;
          prev_seq = none;
          recovery = none;
        })
        raise session_end)
      else (do
        on_log (count_opened segment)
        on_log (enter_session segment)
        on_log (λ l. record l { prev_seq = some segment.header.sequence; current = some segment })
        pure true)

-- The `while let` of `open_next`, over the pending list.
unfoldable pub open_loop : List SegId → Reads Bool
open_loop [] = pure false
open_loop (id ∷ rest) = do
  on_log (λ l. record l { pending = rest })
  found ← open_validated id
  elim found [ none ↦ open_loop rest | some segment ↦ accept id segment ]

unfoldable pub open_next : Reads Bool
open_next = do pending ← gets (λ s. s.pending); open_loop pending

abbrev is_variable_simple : Format → Bool
is_variable_simple (Format.fixed n) = false
is_variable_simple Format.variable_simple = true
is_variable_simple Format.variable_ts_rc = false

unfoldable pub recovered_payload_len : Recovery → SegId → Format → ℕ → ℕ → Option ℕ
recovered_payload_len recovery id format remaining data_section =
    if not (recovery.segment == id) || remaining == 0
    then none
    else if not (is_variable_simple format)
    then none
    else if ltb data_section recovery.owed
    then none
    else if not (data_section - recovery.owed == data_header_len format)
    then none
    else if leb remaining u32_max
    then some remaining
    else none

-- `if let Some(recovery) = recovery`: the payload length, if the attempt succeeds.
abbrev pub try_recovery : Option Recovery → Segment → Option ℕ
try_recovery none segment = none
try_recovery (some recovery) segment =
    recovered_payload_len recovery segment.id segment.header.format segment.header.remaining
      (data_len segment.header)

-- The seek past the tail of a record that began in an earlier file.
unfoldable pub seek_to_record : Segment → Reads Start
seek_to_record segment = do
  io attempt
  set_current (
      some (record segment {
        offset = segment.offset + as_i64 segment.header.remaining;
        pos = segment.header.remaining;
      }))
  pure fresh

-- Where a read may start in a segment file: at the payload of a record whose header was lost, or
-- at the first fresh record; where the file offers neither, the search goes on.
unfoldable pub start_in : Reads Start → Option ℕ → Segment → Reads Start
start_in next (some n) segment = pure (recovered n)
start_in next none segment =
    if leb segment.data_len segment.header.remaining
    then (do set_current none; next)
    else seek_to_record segment

unfoldable pub look_at : Reads Start → Option Recovery → Bool → Option Segment → Reads Start
look_at next recovery false current = raise eof
look_at next recovery true none = raise eof
look_at next recovery true (some segment) = start_in next (try_recovery recovery segment) segment

-- The loop of `find_record_start`. Each round takes a segment file off the pending list.
unfoldable pub find_loop : ℕ → Reads Start
find_loop zero = out_of_fuel
find_loop (suc fuel) = do
  recovery ← gets (λ s. s.recovery)
  on_log (λ l. record l { recovery = none })
  opened ← open_next
  current ← gets (λ s. s.current)
  look_at (find_loop fuel) recovery opened current

unfoldable pub find_record_start : Reads Start
find_record_start = do pending ← gets (λ s. s.pending); find_loop (suc (length pending))
