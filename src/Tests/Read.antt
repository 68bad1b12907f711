-- ===== src/Tests/Read.antt =====
-- Reading the record that crosses two segment files.
use tcslog.Prelude.{◌+◌, ◌-◌, ◌↔◌, u64_max, some, false, list_eq, [], ◌∷◌, ◌≡◌, refl, arith, false}
use tcslog.Error.{ok}
use tcslog.Exec.{◌>>=◌}
use tcslog.Exec.Post.{Ensures}
use tcslog.Fs.{open_file, file_len, read_exact, content, lookup, attempt, draw}
use tcslog.Format.{Meta, data_header_len, from_tag, tag, fixed_len}
use tcslog.SegId
use tcslog.Bytes
use tcslog.Header.{to_bytes, from_bytes, check_version, data_len, data_section_len}
use tcslog.Names.{build_name}
use tcslog.Read.{ReadResult, exhausted, as_i64}
use tcslog.Read.Open.{
  validated, open_validated, count_opened, enter_session, accept, open_loop, open_next,
  seek_to_record, start_in, look_at, find_loop, find_record_start,
}
use tcslog.Read.Cross.{
  cut_short, imply_payload, disagrees, sequence_gap, leave_hint, check_crossing, boundary, arrive,
  cross,
}
use tcslog.Read.Fill.{
  cross_if_exhausted, fill_from, fill_loop, fill, read_data_header, settle_payload_len, skip_from,
  skip_loop,
}
use tcslog.Read.Fill
use tcslog.Read.Record.{report_lost, resynchronize, decode_header, read_payload, read_body, read}
use tcslog.Read.Iter.{InOrder}
use tcslog.Read.Next.{Nexts, next, next-Nexts, Collected, collect, collect-Collected}
use tcslog.Read.Spend.{ahead}
use tcslog.Read.Spend.Reading.{Nearer, Faltered, read-Nearer}
use tcslog.Read.Sound.{Holds, Fails}
use tcslog.Read.Opening.{SameBut, Opened, open_validated-Opened}
use tcslog.Read.Search.{Found, open_next-Found}
use tcslog.Read.Crossing.{Crossed}
use tcslog.Read.Arriving.{let_go, Enters, Returns, cross-Crossed}
use tcslog.Read.Filling.{FailsWithin, fill-Holds}
use tcslog.Read.Gap.{sequence_gap-lost}
use tcslog.Read.Total.{Delivered, Reported, read-Delivered}
use tcslog.Tests.Data.{reader_of_two, reader_of_two-Holds, reader_at_record, reader_at_record-Holds}

abbrev whole : ReadResult
whole = record { n = 3; meta = Meta.variable_simple }

whole_known :
    ((read 4 reader_of_two).0 ≡ ok whole) × ((read 4 reader_of_two).1.dst ≡ b'a' ∷ b'b' ∷ b'c' ∷ [])
unfolding read read_body read_payload decode_header resynchronize report_lost find_record_start
    find_loop look_at start_in seek_to_record open_next open_loop accept enter_session count_opened
    open_validated validated ◌>>=◌ open_file file_len read_exact content lookup attempt draw fill
    fill_loop fill_from cross_if_exhausted cross arrive boundary check_crossing cut_short disagrees
    imply_payload sequence_gap exhausted read_data_header settle_payload_len build_name to_bytes
    from_bytes check_version data_len data_section_len data_header_len from_tag tag fixed_len
    Fill.skip SegId.display as_i64 leave_hint list_eq Bytes.from_le_bytes
whole_known = (refl, refl)

read-Delivered_example : Ensures (read 4) reader_of_two (Delivered 4) (Reported 4)
read-Delivered_example = read-Delivered 4 reader_of_two (omega arith) tt

fill-Holds_example :
    Ensures (fill 7) reader_at_record (λ _ t. Holds false 1 7 t) (FailsWithin false 1 7)
fill-Holds_example = fill-Holds false 1 0 7 reader_at_record reader_at_record-Holds refl

cross-Crossed_example :
    let (r, u) = open_next (let_go reader_at_record) in
    Ensures cross reader_at_record
      (λ a t. Crossed false 1 0 a t × Enters reader_at_record r u t)
      (λ e t. Fails false 1 0 e t × Returns reader_at_record r u t)
cross-Crossed_example = cross-Crossed false 1 0 reader_at_record reader_at_record-Holds

open_next-Found_example : Ensures open_next reader_of_two (Found false 2 0) (Fails false 2 0)
open_next-Found_example = open_next-Found false 2 0 reader_of_two reader_of_two-Holds

open_validated-Opened_example :
    Ensures
      (open_validated 7)
      reader_of_two
      (λ o t. SameBut reader_of_two t × Opened 7 o)
      (λ e t. ⊥)
open_validated-Opened_example = open_validated-Opened 7 reader_of_two

sequence_gap-lost_example :
    ((sequence_gap (some 3) 7).0 ≡ false ↔ 7 ≡ 3 + 1) × ((sequence_gap (some 3) 7).1 ≡ 7 - 3 - 1)
sequence_gap-lost_example = sequence_gap-lost 3 7 (omega arith) (omega arith)

-- After the last position the first one is taken for the next.
sequence_gap_wraps : sequence_gap (some u64_max) 0 ≡ (false, 0)
unfolding sequence_gap
sequence_gap_wraps = refl

-- No file is open at first, so the reader is in order.
reader_of_two-InOrder : InOrder reader_of_two
reader_of_two-InOrder = record { sound = tt; pays = tt }

read-Nearer_example :
    Ensures (read 4) reader_of_two (Nearer 4 reader_of_two) (Faltered 4 reader_of_two)
read-Nearer_example = read-Nearer 4 reader_of_two (omega arith) tt tt

next-Nexts_example : Ensures next reader_of_two (Nexts reader_of_two) (λ e t. ⊥)
next-Nexts_example = next-Nexts reader_of_two reader_of_two-InOrder

collect-Collected_example :
    Ensures collect reader_of_two (Collected (ahead reader_of_two)) (λ e t. ⊥)
collect-Collected_example = collect-Collected reader_of_two reader_of_two-InOrder
