-- ===== src/Header.antt =====
-- tcslog/src/header.rs: the header that opens a segment file, and its 53 bytes on disk.
pub mod RoundTrip
use tcslog.Prelude.{
  ℕ, zero, suc, ◌+◌, ◌-◌, ◌*◌, ◌/◌, ◌%◌, ◌≡◌, refl, not, Bool, true, false, ◌&&◌, ◌||◌, List, [],
  ◌∷◌, ◌++◌, length, take, drop, get_or, list_eq, ltb, leb, ◌==◌, if◌then◌else◌,
}
use tcslog.Error.{Result, ok, err, ◌>>=◌, invalid_header, version_mismatch}
use tcslog.Bytes
use tcslog.SegId
use tcslog.SegId.{SegId}
use tcslog.SeqId
use tcslog.SeqId.{SeqId}
use tcslog.Format.{Format, tag, fixed_len, from_tag}

abbrev pub segment_file_header_len : ℕ
segment_file_header_len = 53

abbrev pub version_major : ℕ
version_major = 1

abbrev pub version_minor : ℕ
version_minor = 1

abbrev pub version_patch : ℕ
version_patch = 0

-- "tcslogsf"
abbrev pub type_magic : List ℕ
type_magic = b't' ∷ b'c' ∷ b's' ∷ b'l' ∷ b'o' ∷ b'g' ∷ b's' ∷ b'f' ∷ []

abbrev off_type : ℕ
off_type = 0

abbrev off_version : ℕ
off_version = 8

abbrev off_segment_id : ℕ
off_segment_id = 12

abbrev off_session_id : ℕ
off_session_id = 20

abbrev off_max_size : ℕ
off_max_size = 28

abbrev off_remaining : ℕ
off_remaining = 32

abbrev off_format_tag : ℕ
off_format_tag = 40

abbrev off_format_arg : ℕ
off_format_arg = 41

abbrev off_sequence : ℕ
off_sequence = 45

pub record SegmentHeader : Type 0 where
  pub segment_id : SegId
  pub session_id : SegId
  pub max_size : ℕ
  pub remaining : ℕ
  pub format : Format
  pub sequence : SeqId
  pub minor : ℕ

-- `max_size.saturating_sub(SEGMENT_FILE_HEADER_LEN)`
unfoldable pub data_section_len : ℕ → ℕ
data_section_len max_size = max_size - segment_file_header_len

unfoldable pub data_len : SegmentHeader → ℕ
unfolding data_section_len
data_len h = data_section_len h.max_size

-- `u8::try_from(v).unwrap_or(0)`
abbrev to_u8 : ℕ → ℕ
to_u8 v = if ltb v 256 then v else 0

version_bytes : ℕ → List ℕ
version_bytes minor =
    (b'0' + to_u8 (version_major / 10))
    ∷ (b'0' + to_u8 (version_major % 10))
    ∷ (b'0' + to_u8 (minor % 10))
    ∷ (b'0' + to_u8 (version_patch % 10))
    ∷ []

is_ascii_digit : ℕ → Bool
is_ascii_digit b = leb b'0' b && leb b b'9'

-- A field that is not four bytes long is refused, as one with a byte that is no digit.
unfoldable pub check_version : List ℕ → Result ℕ
unfolding is_ascii_digit
check_version (a ∷ b ∷ c ∷ d ∷ []) =
    if is_ascii_digit a && is_ascii_digit b && is_ascii_digit c && is_ascii_digit d
    then (let major = (a - b'0') * 10 + (b - b'0') in
        let minor = c - b'0' in
        if major == version_major && leb minor version_minor
        then ok minor
        else err version_mismatch)
    else err version_mismatch
check_version _ = err version_mismatch

-- `out[off..off + src.len()].copy_from_slice(src)`
abbrev copy_at : ℕ → List ℕ → List ℕ → List ℕ
copy_at off src out = take off out ++ (src ++ drop (off + length src) out)

-- `bytes[off..off + n]`: `take4`, `take8` and the slices.
abbrev slice : ℕ → ℕ → List ℕ → List ℕ
slice n off bytes = take n (drop off bytes)

abbrev zeros : ℕ → List ℕ
zeros zero = []
zeros (suc n) = 0 ∷ zeros n

-- The writes into the zeroed buffer, in the source's order.
unfoldable pub to_bytes : SegmentHeader → List ℕ
unfolding version_bytes SegId.to_le_bytes SeqId.to_le_bytes Bytes.to_le_bytes
to_bytes h =
    let out0 = zeros segment_file_header_len in
    let out1 = copy_at off_type type_magic out0 in
    let out2 = copy_at off_version (version_bytes h.minor) out1 in
    let out3 = copy_at off_segment_id (SegId.to_le_bytes h.segment_id) out2 in
    let out4 = copy_at off_session_id (SegId.to_le_bytes h.session_id) out3 in
    let out5 = copy_at off_max_size (Bytes.to_le_bytes 4 h.max_size) out4 in
    let out6 = copy_at off_remaining (Bytes.to_le_bytes 8 h.remaining) out5 in
    let out7 = copy_at off_format_tag (tag h.format ∷ []) out6 in
    let out8 = copy_at off_format_arg (Bytes.to_le_bytes 4 (fixed_len h.format)) out7 in
    copy_at off_sequence (SeqId.to_le_bytes h.sequence) out8

-- The fields of the decoded header.
abbrev pub decoded : List ℕ → ℕ → Format → SegmentHeader
unfolding SegId.from_le_bytes SeqId.from_le_bytes
decoded bytes minor format = record {
  segment_id = SegId.from_le_bytes (slice 8 off_segment_id bytes);
  session_id = SegId.from_le_bytes (slice 8 off_session_id bytes);
  max_size = Bytes.from_le_bytes (slice 4 off_max_size bytes);
  remaining = Bytes.from_le_bytes (slice 8 off_remaining bytes);
  format = format;
  sequence = SeqId.from_le_bytes (slice 8 off_sequence bytes);
  minor = minor;
}

unfoldable pub from_bytes : List ℕ → Result SegmentHeader
unfolding SegId.from_le_bytes SeqId.from_le_bytes
from_bytes bytes =
    if ltb (length bytes) segment_file_header_len
    then err invalid_header
    else if not (list_eq (slice 8 off_type bytes) type_magic)
    then err invalid_header
    else do
      minor ← check_version (slice 4 off_version bytes)
      let format_tag = get_or bytes off_format_tag 0
      let arg = Bytes.from_le_bytes (slice 4 off_format_arg bytes)
      format ← from_tag format_tag arg
      ok (decoded bytes minor format)
