-- ===== src/Read.antt =====
-- tcslog/src/read.rs: the state of a `LogRead`, its construction and its accessors. The children
-- hold the rest of the file: `Open` the search for a segment file, `Cross` the step from one into
-- the next, `Fill` reading and skipping bytes, `Record` one whole read.
pub mod Open
pub mod Cross
pub mod Fill
pub mod Record
pub mod Accessors
pub mod Sound
pub mod Opening
pub mod Finding
pub mod Search
pub mod Crossing
pub mod Arriving
pub mod Gap
pub mod Skipping
pub mod Filling
pub mod Heading
pub mod Total
pub mod Spend
pub mod Iter
pub mod Next
pub mod Stream
use tcslog.Prelude.{
  ℕ, zero, suc, ◌+◌, ◌-◌, ◌≤◌, ◌≡◌, Bool, true, false, Option, none, some, List, [], ◌∷◌, ◌++◌,
  length, take, drop, leb, if◌then◌else◌, min, i64_max,
}
use tcslog.Exec.{Exec, pure, raise, gets, modify, lift, zoom, ◌>>=◌, ◌>>◌}
use tcslog.Error.{Result, ok, err, stuck, LogError, read_truncated, no_segment_files}
use tcslog.Fs.{Text, World, Io}
use tcslog.SegId.{SegId}
use tcslog.SeqId.{SeqId}
use tcslog.Format.{Format, Meta}
use tcslog.Header.{SegmentHeader}
use tcslog.Names.{check_log_location, scan_segment_ids}

-- `Record` and `ReadResult`; the bytes of the latter stand in the caller's buffer.
pub record ReadResult : Type 0 where
  pub n : ℕ
  pub meta : Meta

-- The segment file open: its name, and how far into the file it is positioned.
pub record Segment : Type 0 where
  pub id : SegId
  pub name : Text
  pub offset : ℕ
  pub header : SegmentHeader
  pub data_len : ℕ
  pub pos : ℕ

pub record Cursor : Type 0 where
  pub consumed : ℕ
  pub total : Option ℕ
  pub implied_payload : Option ℕ
  pub payload_in_buf : ℕ
  pub in_payload : Bool

-- `Cursor::default()`
abbrev pub new_cursor : Cursor
new_cursor = record {
  consumed = 0;
  total = none;
  implied_payload = none;
  payload_in_buf = 0;
  in_payload = false;
}

pub data Start : Type 0 where
  fresh : Start
  recovered : ℕ → Start

pub record Recovery : Type 0 where
  pub segment : SegId
  pub owed : ℕ

-- The two reusable buffers are left out: each is overwritten before it is used.
pub record LogRead : Type 0 where
  pub prefix : Text
  pub suffix : Text
  pub pending : List SegId
  pub current : Option Segment
  pub resync : Bool
  pub session : Option SegId
  pub prev_seq : Option SeqId
  pub session_start_lost : ℕ
  pub segments_opened : ℕ
  pub collect_headers : Bool
  pub opened_headers : List SegmentHeader
  pub reopened : Option SegId
  pub recovery : Option Recovery
  pub last_meta : Meta

-- A reader at work: the `LogRead`, the directory and its clocks, the cursor of the read in
-- progress, and the bytes placed so far at the front of the slice that is being filled.
pub record Reader : Type 0 where
  pub log : LogRead
  pub open log use *
  pub world : World
  pub cursor : Cursor
  pub dst : List ℕ

abbrev pub Reads : Type 0 → Type 0
Reads A = Exec Reader A

abbrev pub io : {A : Type 0} → Io A → Reads A
io m = zoom (λ (s : Reader). s.world) (λ w s. record s { world = w }) m

abbrev pub on_log : (LogRead → LogRead) → Reads (Unit {0})
on_log f = modify (λ s. record s { log = f s.log })

abbrev pub on_cursor : (Cursor → Cursor) → Reads (Unit {0})
on_cursor f = modify (λ s. record s { cursor = f s.cursor })

abbrev pub set_current : Option Segment → Reads (Unit {0})
set_current segment = on_log (λ l. record l { current = segment })

-- `LogRead::new`
unfoldable pub new : Text → Text → Io LogRead
new prefix suffix = do
  w ← gets (λ w. w)
  lift (check_log_location prefix suffix w)
  ids ← scan_segment_ids prefix suffix
  elim ids [
    | [] ↦ raise no_segment_files
    | id ∷ rest ↦ pure (record {
      prefix = prefix;
      suffix = suffix;
      pending = id ∷ rest;
      current = none;
      resync = true;
      session = none;
      prev_seq = none;
      session_start_lost = 0;
      segments_opened = 0;
      collect_headers = false;
      opened_headers = [];
      reopened = none;
      recovery = none;
      last_meta = Meta.variable_simple;
    })
  ]

-- `exhausted`
unfoldable pub exhausted : LogRead → Bool
exhausted l = elim l.current [ none ↦ true | some segment ↦ leb segment.data_len segment.pos ]

-- The current segment file, taken out and handed back to the pending list.
unfoldable pub handed_back : LogRead → LogRead
handed_back l = record l {
  current = none;
  pending = elim l.current [ none ↦ l.pending | some segment ↦ segment.id ∷ l.pending ];
  reopened = elim l.current [ none ↦ l.reopened | some segment ↦ some segment.id ];
}

-- `reject_current`, and the `return Err` that every caller makes of what it returns.
unfoldable pub reject_current : {A : Type 0} → ℕ → ℕ → Reads A
reject_current lost n = do on_log handed_back; raise (read_truncated lost n)

-- `lose_position`, and the `return Err` that every caller makes of what it returns.
unfoldable pub lose_position : {A : Type 0} → LogError → Reads A
lose_position e = do on_log (λ l. record l { resync = true; current = none }); raise e

-- `as_i64`
unfoldable pub as_i64 : ℕ → ℕ
as_i64 count = min count i64_max

-- `current_header`
unfoldable pub current_header : LogRead → Option SegmentHeader
current_header l = elim l.current [ none ↦ none | some segment ↦ some segment.header ]

-- `collect_opened_headers`
unfoldable pub collect_opened_headers : Bool → LogRead → LogRead
collect_opened_headers enable l = record l { collect_headers = enable }

-- `take_opened_headers`: the headers, and the reader without them.
unfoldable pub take_opened_headers : LogRead → List SegmentHeader × LogRead
take_opened_headers l = (l.opened_headers, record l { opened_headers = [] })

-- `take_opened_headers_into` a slice of length `room`: what is placed at its front, and the reader.
unfoldable pub take_opened_headers_into : ℕ → LogRead → List SegmentHeader × LogRead
take_opened_headers_into room l =
    let n = min room (length l.opened_headers) in
    (take n l.opened_headers, record l { opened_headers = drop n l.opened_headers })
