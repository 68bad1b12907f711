-- ===== src/Tests/Gen.antt =====
-- The generator on small specifications.
use tcslog.Prelude.{◌≤◌, ◌≡◌, refl, arith, List, [], ◌∷◌, ◌++◌, length}
use tcslog.Exec.Post.{Ensures}
use tcslog.Format.{Meta}
use tcslog.Decimal.{digits, decimal}
use tcslog.Write.Sound.{stream_of}
use tcslog.Gen.{
  RecordFormatSpec, build_payload, fill_up, pick_target, min_size, max_size, payload_rng_seed,
  create_log, next_u64, xor,
}
use tcslog.Gen.Payload.{length-build_payload}
use tcslog.Gen.Creating.{records, Grown, create_log-Creates}
use tcslog.Gen.Spec.{display, from_str, parsed}
use tcslog.Gen.Printing.{from_str-display}
use tcslog.Tests.Data.{log_prefix, log_suffix, two_files}

abbrev three_to_forty : RecordFormatSpec
three_to_forty = RecordFormatSpec.variable_simple 3 40

length-build_payload_example :
    (3 ≤ length (build_payload three_to_forty 0 payload_rng_seed).0)
    × (length (build_payload three_to_forty 0 payload_rng_seed).0 ≤ 40)
unfolding min_size max_size
length-build_payload_example =
    length-build_payload three_to_forty 0 payload_rng_seed (omega arith) (omega arith)

payload_known :
    (build_payload (RecordFormatSpec.fixed 6) 8 0).0 ≡ b'#' ∷ b'9' ∷ b' ' ∷ b'1' ∷ b'2' ∷ b'3' ∷ []
unfolding build_payload pick_target fill_up decimal digits min_size max_size
payload_known = refl

-- The first value that the generator draws from the seed zero.
next_known : (next_u64 0).0 ≡ 0xe220_a839_7b1d_cdaf
unfolding next_u64 xor
next_known = refl

create_log-Creates_example :
    Ensures
      (create_log 1 log_prefix log_suffix three_to_forty 40 2)
      two_files
      (λ info t.
        (info.message_count ≡ 2)
        × (metas : List Meta) × (length metas ≡ 2)
        × (stream_of t.files
            ≡ stream_of two_files.files ++ records three_to_forty 0 payload_rng_seed metas))
      (λ e t. Grown (stream_of two_files.files) t)
create_log-Creates_example =
    create_log-Creates 1 log_prefix log_suffix three_to_forty 40 2 two_files

from_str-display_example : from_str (λ text. text) (display three_to_forty) ≡ parsed three_to_forty
from_str-display_example =
    from_str-display (λ text. text) (λ text h. refl) three_to_forty (omega arith, omega arith)
