-- ===== src/Tests/RoundTrip.antt =====
-- Writing two records into an empty directory, and reading them back.
use tcslog.Prelude.{ℕ, ◌≡◌, refl, List, [], ◌∷◌, ◌++◌, some, true, list_eq}
use tcslog.Bytes
use tcslog.Error.{Result, ok, err, stuck}
use tcslog.Exec.{◌>>=◌}
use tcslog.Fs.{
  World, Io, open_file, file_len, read_exact, content, lookup, attempt, draw, append_to, create_new,
  write_all, flush, monotonic,
}
use tcslog.Format.{Format, Meta, data_header_len, from_tag, tag, fixed_len}
use tcslog.SegId
use tcslog.SeqId
use tcslog.Header.{SegmentHeader, to_bytes, from_bytes, check_version, data_len, data_section_len}
use tcslog.Names.{
  build_name, id_from_name, sort, insert, scan_entries, scan_segment_ids, check_log_location,
  has_path_delimiter, chars_count, strip_prefix, strip_suffix,
}
use tcslog.Clock.{stamp, now, now_seg_id, anchor}
use tcslog.Clock
use tcslog.Write.{LogWrite, no_callbacks, room}
use tcslog.Write.Files.{
  create_loop, create_unique_file, header_for, create_segment, start_session, close_and_send, roll,
}
use tcslog.Write.Record.{
  build_data_header, roll_if_full, write_chunk, write_loop, write_bytes, write_bytes_from_header,
  ensure_session, complete, write_record, write,
}
use tcslog.Write.Session.{
  for_each, for_each_segment_file, send_existing, seed_clock, open_session, prepare, drop_log,
}
use tcslog.Write.Session
use tcslog.Read.{new_cursor, ReadResult, exhausted, as_i64}
use tcslog.Read.Open.{
  validated, open_validated, count_opened, enter_session, accept, open_loop, open_next,
  seek_to_record, start_in, look_at, find_loop, find_record_start,
}
use tcslog.Read.Cross.{
  cut_short, imply_payload, disagrees, sequence_gap, leave_hint, check_crossing, boundary, arrive,
  cross,
}
use tcslog.Read.Fill.{
  cross_if_exhausted, fill_from, fill_loop, fill, read_data_header, settle_payload_len, skip_from,
  skip_loop,
}
use tcslog.Read.Fill
use tcslog.Read.Record.{report_lost, resynchronize, decode_header, read_payload, read_body, read}
use tcslog.Read
use tcslog.Tests.Data.{log_prefix, log_suffix, every_nano}

abbrev empty_directory : World
empty_directory = record {
  files = [];
  outcomes = [];
  is_dir = true;
  real = some 1000;
  mono = 5;
  advances = 1 ∷ 2 ∷ 3 ∷ 4 ∷ 5 ∷ [];
  tick = every_nano;
}

-- A record of three bytes in segment files with room for five.
abbrev written : Io (LogWrite (Unit {0}))
written = Session.new no_callbacks 1 log_prefix log_suffix 58 Format.variable_simple tt

abbrev log_written : World
log_written =
    let (r, w) = written empty_directory in
    elim r [
      | ok l ↦
          (write no_callbacks (b'a' ∷ b'b' ∷ b'c' ∷ []) (record { log = l; world = w })).1.world
      | err e ↦ w
      | stuck ↦ w
    ]

abbrev first_header : SegmentHeader
first_header = record {
  segment_id = 1002;
  session_id = 1002;
  max_size = 58;
  remaining = 0;
  format = Format.variable_simple;
  sequence = 0;
  minor = 1;
}

-- The record still owes two bytes when the second file is opened.
abbrev second_header : SegmentHeader
second_header = record first_header { segment_id = 1005; remaining = 2; sequence = 1 }

files_known :
    log_written.files
    ≡ (build_name log_prefix 1005 log_suffix, to_bytes second_header ++ b'b' ∷ b'c' ∷ [])
      ∷ (build_name log_prefix 1002 log_suffix, to_bytes first_header ++ 3 ∷ 0 ∷ 0 ∷ 0 ∷ b'a' ∷ [])
      ∷ []
unfolding Session.new prepare open_session send_existing for_each_segment_file for_each seed_clock
    start_session create_segment create_unique_file create_loop header_for write write_record
    ensure_session roll_if_full write_bytes_from_header write_bytes write_loop write_chunk
    build_data_header complete roll close_and_send room ◌>>=◌ create_new write_all flush append_to
    attempt draw lookup monotonic Clock.new anchor stamp now now_seg_id check_log_location
    has_path_delimiter chars_count scan_segment_ids scan_entries sort build_name SegId.display
    to_bytes tag fixed_len data_header_len SeqId.next list_eq
files_known = refl

-- What a new reader of the directory reads first, and the bytes that it places.
abbrev read_back : Result ReadResult × List ℕ
read_back =
    let (r, w) = Read.new log_prefix log_suffix log_written in
    elim r [
      | ok l ↦
          (let (o, s) = read 8 (record { log = l; world = w; cursor = new_cursor; dst = [] }) in
            (o, s.dst))
      | err e ↦ (err e, [])
      | stuck ↦ (stuck, [])
    ]

read_back_known :
    read_back ≡ (ok (record { n = 3; meta = Meta.variable_simple }), b'a' ∷ b'b' ∷ b'c' ∷ [])
unfolding Session.new prepare open_session send_existing for_each_segment_file for_each seed_clock
    start_session create_segment create_unique_file create_loop header_for write write_record
    ensure_session roll_if_full write_bytes_from_header write_bytes write_loop write_chunk
    build_data_header complete roll close_and_send room ◌>>=◌ create_new write_all flush append_to
    attempt draw lookup monotonic Clock.new anchor stamp now now_seg_id check_log_location
    has_path_delimiter chars_count scan_segment_ids scan_entries sort build_name SegId.display
    to_bytes tag fixed_len data_header_len SeqId.next list_eq read read_body read_payload
    decode_header resynchronize report_lost find_record_start find_loop look_at start_in
    seek_to_record open_next open_loop accept enter_session count_opened open_validated validated
    open_file file_len read_exact content fill fill_loop fill_from cross_if_exhausted cross arrive
    boundary check_crossing cut_short disagrees imply_payload sequence_gap exhausted
    read_data_header settle_payload_len from_bytes check_version data_len data_section_len from_tag
    Fill.skip as_i64 leave_hint Bytes.from_le_bytes Read.new insert id_from_name strip_prefix
    strip_suffix SegId.parse
read_back_known = refl
