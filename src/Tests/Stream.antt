-- ===== src/Tests/Stream.antt =====
-- The record that crosses two segment files is read back from them.
use tcslog.Prelude.{refl, arith, [], ◌∷◌, list_eq}
use tcslog.Bytes
use tcslog.Fs.{lookup}
use tcslog.Format.{Format, Meta}
use tcslog.Header.{data_len, data_section_len, version_minor}
use tcslog.Names.{build_name}
use tcslog.SegId
use tcslog.Read.Stream.{File, Stored}
use tcslog.Read.Stream.Starting.{AtStart}
use tcslog.Read.Stream.Records.{Logged, log_stream, Readable, ReadsAll, read_each-log_stream}
use tcslog.Tests.Data.{header_1, header_2, header_1-IsValid, header_2-IsValid, reader_of_two}

abbrev abc : Logged
abc = record { meta = Meta.variable_simple; payload = b'a' ∷ b'b' ∷ b'c' ∷ [] }

abbrev file_1 : File
file_1 = record { header = header_1; data_section = 3 ∷ 0 ∷ 0 ∷ 0 ∷ b'a' ∷ [] }

abbrev file_2 : File
file_2 = record { header = header_2; data_section = b'b' ∷ b'c' ∷ [] }

file_1-Stored : Stored reader_of_two 7 Format.variable_simple version_minor file_1
unfolding lookup list_eq build_name SegId.display
file_1-Stored = record {
  found = refl;
  valid = header_1-IsValid;
  fits = omega arith;
  session_same = refl;
  format_same = refl;
  minor_same = refl;
}

file_2-Stored : Stored reader_of_two 7 Format.variable_simple version_minor file_2
unfolding lookup list_eq build_name SegId.display
file_2-Stored = record {
  found = refl;
  valid = header_2-IsValid;
  fits = omega arith;
  session_same = refl;
  format_same = refl;
  minor_same = refl;
}

reader_of_two-AtStart :
    AtStart reader_of_two 7 Format.variable_simple version_minor
      (log_stream (abc ∷ []))
      reader_of_two
unfolding Bytes.to_le_bytes data_len data_section_len
reader_of_two-AtStart = record {
  world_same = refl;
  prefix_same = refl;
  suffix_same = refl;
  none_open = refl;
  no_session = refl;
  no_recovery = refl;
  file = file_1;
  files = file_2 ∷ [];
  part = (0, 3) ∷ (6, 0) ∷ (5, 0) ∷ (4, 0) ∷ (3, b'a') ∷ [];
  after = (2, b'b') ∷ (1, b'c') ∷ [];
  pending_same = refl;
  stored = file_1-Stored;
  first = refl;
  nothing_owed = refl;
  some_data = omega arith;
  split = refl;
  part_bytes = refl;
  full = refl;
  chain = ((2, b'b') ∷ (1, b'c') ∷ [], [], refl, refl, file_2-Stored, refl, refl, tt, refl);
}

abc-Readable : Readable Format.variable_simple 4 abc
unfolding Bytes.to_le_bytes
abc-Readable = record {
  fits = record { has_meta = tt; in_range = omega arith };
  some_bytes = omega arith;
  has_room = omega arith;
}

read_each-log_stream_example :
    ReadsAll reader_of_two 7 Format.variable_simple 4 (abc ∷ []) reader_of_two
read_each-log_stream_example =
    read_each-log_stream reader_of_two 7 refl Format.variable_simple 4 (omega arith) abc []
      reader_of_two (abc-Readable, tt) reader_of_two-AtStart
