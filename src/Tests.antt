-- ===== src/Tests.antt =====
-- Runs of the library on small logs, and the theorems applied to them.
pub mod Data
pub mod Read
pub mod Header
pub mod Clock
pub mod Names
pub mod Write
pub mod Timestamp
pub mod Stream
pub mod Capi
pub mod Gen
pub mod RoundTrip
use tcslog.Prelude.{
  All, ℕ, ◌+◌, u64_max, List, [], ◌∷◌, ◌++◌, ◌≡◌, refl, arith, ◌≤◌, ◌≢◌, ◌<◌, ◌^◌, true, false,
  length, some, none,
}
use tcslog.Bytes.{IsByte, IsU32, IsU64}
use tcslog.Error.{ok}
use tcslog.Format.{Format, Meta, tag, fixed_len, from_tag, IsUsable, from_tag-tag, from_tag_inv}
use tcslog.SegId.{SegId, parse, display}
use tcslog.SegId.RoundTrip.{parse-display, display-parse}
use tcslog.SeqId.{next, first, next_never_opens}
use tcslog.Header.{SegmentHeader, to_bytes, from_bytes}
use tcslog.Header.RoundTrip.{IsValid, from_bytes-to_bytes, from_bytes-IsValid}
use tcslog.Names.{build_name, id_from_name}
use tcslog.Names.RoundTrip.{id_from_name-build_name, build_name-id_from_name}
use tcslog.Tests.Data.{log_prefix, log_suffix, header_1, header_1-IsValid}

next_never_opens_example : IsU64 (next 3) × (next 3 ≢ first) × (3 < u64_max → next 3 ≡ 3 + 1)
next_never_opens_example = next_never_opens 3 (omega arith)

parse-display_example : parse (display 0x1234_abcd_5678_efab) ≡ ok 0x1234_abcd_5678_efab
parse-display_example = parse-display 0x1234_abcd_5678_efab (omega arith)

display-parse_example : (display 0xa0 ≡ display 0xa0) × IsU64 0xa0
display-parse_example = display-parse (display 0xa0) 0xa0 (parse-display 0xa0 (omega arith))

from_bytes-to_bytes_example : from_bytes (to_bytes header_1 ++ 5 ∷ []) ≡ ok header_1
from_bytes-to_bytes_example = from_bytes-to_bytes header_1 (5 ∷ []) header_1-IsValid

id_from_name-build_name_example :
    id_from_name (build_name log_prefix 7 log_suffix) log_prefix log_suffix ≡ some 7
id_from_name-build_name_example = id_from_name-build_name log_prefix log_suffix 7 (omega arith)

build_name-id_from_name_example :
    (build_name log_prefix 7 log_suffix ≡ build_name log_prefix 7 log_suffix) × IsU64 7
build_name-id_from_name_example =
    build_name-id_from_name log_prefix log_suffix (build_name log_prefix 7 log_suffix) 7
      (id_from_name-build_name log_prefix log_suffix 7 (omega arith))

display_known : display 0x1234_abcd_5678_efab ≡ (
    b'1' ∷ b'2' ∷ b'3' ∷ b'4' ∷ b'-' ∷ b'a' ∷ b'b' ∷ b'c' ∷ b'd' ∷ b'-' ∷ b'5' ∷ b'6' ∷ b'7' ∷ b'8'
    ∷ b'-' ∷ b'e' ∷ b'f' ∷ b'a' ∷ b'b' ∷ [])
unfolding display
display_known = refl

parse_known : parse (display 0x1234_abcd_5678_efab) ≡ ok 0x1234_abcd_5678_efab
unfolding parse display
parse_known = refl
