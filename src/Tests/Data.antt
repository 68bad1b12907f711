-- ===== src/Tests/Data.antt =====
-- Two segment files of one session, with a record of three bytes that crosses from one into the
-- other, and what a reader and a writer start from.
use tcslog.Prelude.{refl, [], ◌∷◌, ◌++◌, arith, some, none, true, false}
use tcslog.Fs.{Text, Tick, World}
use tcslog.Format.{Format, Meta}
use tcslog.Header.{SegmentHeader, to_bytes}
use tcslog.Header.RoundTrip.{IsValid}
use tcslog.Names.{build_name}
use tcslog.Read.{LogRead, Reader, Segment, new_cursor}
use tcslog.Read.Sound.{IsSound, Holds}

abbrev pub log_prefix : Text
log_prefix = b'L' ∷ []

abbrev pub log_suffix : Text
log_suffix = b'.' ∷ b't' ∷ []

-- A segment file with room for five bytes of data.
abbrev pub header_1 : SegmentHeader
header_1 = record {
  segment_id = 7;
  session_id = 7;
  max_size = 58;
  remaining = 0;
  format = Format.variable_simple;
  sequence = 0;
  minor = 1;
}

abbrev pub header_2 : SegmentHeader
header_2 = record {
  segment_id = 9;
  session_id = 7;
  max_size = 58;
  remaining = 2;
  format = Format.variable_simple;
  sequence = 1;
  minor = 1;
}

pub header_1-IsValid : IsValid header_1
header_1-IsValid = record {
  segment_id_u64 = omega arith;
  session_id_u64 = omega arith;
  max_size_u32 = omega arith;
  remaining_u64 = omega arith;
  format_usable = tt;
  sequence_u64 = omega arith;
  minor_readable = omega arith;
}

pub header_2-IsValid : IsValid header_2
header_2-IsValid = record {
  segment_id_u64 = omega arith;
  session_id_u64 = omega arith;
  max_size_u32 = omega arith;
  remaining_u64 = omega arith;
  format_usable = tt;
  sequence_u64 = omega arith;
  minor_readable = omega arith;
}

-- A clock that reads nanoseconds.
abbrev pub every_nano : Tick
every_nano = record { nanos = 1; positive = omega arith; small = omega arith }

abbrev pub two_files : World
two_files = record {
  files =
      (build_name log_prefix 7 log_suffix, to_bytes header_1 ++ 3 ∷ 0 ∷ 0 ∷ 0 ∷ b'a' ∷ [])
      ∷ (build_name log_prefix 9 log_suffix, to_bytes header_2 ++ b'b' ∷ b'c' ∷ [])
      ∷ [];
  outcomes = [];
  is_dir = true;
  real = some 1000;
  mono = 5;
  advances = 1 ∷ 2 ∷ 3 ∷ [];
  tick = every_nano;
}

abbrev pub log_of_two : LogRead
log_of_two = record {
  prefix = log_prefix;
  suffix = log_suffix;
  pending = 7 ∷ 9 ∷ [];
  current = none;
  resync = true;
  session = none;
  prev_seq = none;
  session_start_lost = 0;
  segments_opened = 0;
  collect_headers = false;
  opened_headers = [];
  reopened = none;
  recovery = none;
  last_meta = Meta.variable_simple;
}

abbrev pub reader_of_two : Reader
reader_of_two = record { log = log_of_two; world = two_files; cursor = new_cursor; dst = [] }

-- The reader at the beginning of the record's data header.
abbrev pub segment_1 : Segment
segment_1 = record {
  id = 7;
  name = build_name log_prefix 7 log_suffix;
  offset = 53;
  header = header_1;
  data_len = 5;
  pos = 0;
}

abbrev pub reader_at_record : Reader
reader_at_record = record reader_of_two {
  log = record log_of_two {
    pending = 9 ∷ [];
    current = some segment_1;
    resync = false;
    session = some 7;
    prev_seq = some 0;
  };
}

pub segment_1-IsSound : IsSound segment_1
segment_1-IsSound = record { named = refl; fits = omega arith; within = omega arith }

pub reader_at_record-Holds : Holds false 1 0 reader_at_record
reader_at_record-Holds = record {
  sound = segment_1-IsSound;
  bounded = omega arith;
  placed = record { phase = refl; placed = refl; counted = omega arith };
}

pub reader_of_two-Holds : Holds false 2 0 reader_of_two
reader_of_two-Holds = record {
  sound = tt;
  bounded = omega arith;
  placed = record { phase = refl; placed = refl; counted = omega arith };
}
