-- ===== src/Header/RoundTrip.antt =====
-- A header written to disk and read back.
use native.Mathlib.Nat.{pow-le-pow_right, lt_of_lt_of_le}
use tcslog.Prelude.{
  ℕ, zero, suc, ◌^◌, Bool, true, false, not, if◌then◌else◌, ltb, take, drop, get_or, length-take,
  le→ltb_false, ◌≤◌, ◌<◌, ◌≡◌, refl, subst, arith, List, [], ◌∷◌, ◌++◌, length, All, list_eq,
}
use tcslog.Error.{Result, ok, err, stuck, ◌>>=◌, invalid_header}
use tcslog.Bytes
use tcslog.Bytes.{IsByte, IsU32, IsU64, from_le_bytes-to_le_bytes, from_le_bytes-lt}
use tcslog.Format.{
  Format, IsUsable, from_tag, fixed_len, from_tag-tag, from_tag_inv, shortest, from_tag-shortest,
}
use tcslog.Header.{
  slice, off_type, type_magic, decoded, off_format_tag, off_version, off_segment_id, off_session_id,
  off_max_size, off_remaining, off_format_arg, off_sequence, SegmentHeader, segment_file_header_len,
  version_minor, to_bytes, from_bytes, check_version, version_bytes,
}

-- Every field has the width that its place on disk has, and the format is one that a log may use.
pub record IsValid (h : SegmentHeader) : Type 0 where
  pub segment_id_u64 : IsU64 h.segment_id
  pub session_id_u64 : IsU64 h.session_id
  pub max_size_u32 : IsU32 h.max_size
  pub remaining_u64 : IsU64 h.remaining
  pub format_usable : IsUsable h.format
  pub sequence_u64 : IsU64 h.sequence
  pub minor_readable : h.minor ≤ version_minor

-- A header takes 53 bytes on disk.
pub length-to_bytes : (h : SegmentHeader) → length (to_bytes h) ≡ segment_file_header_len
unfolding to_bytes
length-to_bytes h = refl

check_version-version_bytes :
    (minor : ℕ) → minor ≤ version_minor → check_version (version_bytes minor) ≡ ok minor
unfolding check_version version_bytes
check_version-version_bytes minor h = ground arith

fixed_len-lt : (f : Format) → IsUsable f → IsU32 (fixed_len f)
unfolding fixed_len
fixed_len-lt (Format.fixed n) h = h.1
fixed_len-lt Format.variable_simple h = omega arith
fixed_len-lt Format.variable_ts_rc h = omega arith

-- A header with fields in range, a version that is read and a usable format is what is decoded
-- from its bytes, whatever follows them.
pub from_bytes-to_bytes :
    (h : SegmentHeader) (rest : List ℕ) → IsValid h → from_bytes (to_bytes h ++ rest) ≡ ok h
unfolding from_bytes to_bytes list_eq
from_bytes-to_bytes h rest v = rw (
  le→ltb_false (length (to_bytes h ++ rest)) segment_file_header_len (omega arith),
  check_version-version_bytes h.minor v.minor_readable,
  from_le_bytes-to_le_bytes 4 (fixed_len h.format) (fixed_len-lt h.format v.format_usable),
  from_tag-tag h.format v.format_usable,
  from_le_bytes-to_le_bytes 8 h.segment_id v.segment_id_u64,
  from_le_bytes-to_le_bytes 8 h.session_id v.session_id_u64,
  from_le_bytes-to_le_bytes 4 h.max_size v.max_size_u32,
  from_le_bytes-to_le_bytes 8 h.remaining v.remaining_u64,
  from_le_bytes-to_le_bytes 8 h.sequence v.sequence_u64,
)

-- Bytes cut from a list of bytes.
All-take : (n : ℕ) (bytes : List ℕ) → All IsByte bytes → All IsByte (take n bytes)
All-take zero bytes h = tt
All-take (suc n) [] h = tt
All-take (suc n) (b ∷ bytes) h = (h.0, All-take n bytes h.1)

All-drop : (n : ℕ) (bytes : List ℕ) → All IsByte bytes → All IsByte (drop n bytes)
All-drop zero bytes h = h
All-drop (suc n) [] h = tt
All-drop (suc n) (b ∷ bytes) h = All-drop n bytes h.1

from_le_bytes-slice_lt :
    (n off : ℕ) (bytes : List ℕ)
    → All IsByte bytes
    → Bytes.from_le_bytes (slice n off bytes) < 256 ^ n
from_le_bytes-slice_lt n off bytes h =
    let part : List ℕ = slice n off bytes in
    lt_of_lt_of_le (from_le_bytes-lt part (All-take n _ (All-drop off bytes h)))
      (pow-le-pow_right (omega arith) (omega (arith, length-take n (drop off bytes))))

check_version_readable :
    (field : List ℕ) (minor : ℕ) → check_version field ≡ ok minor → minor ≤ version_minor
unfolding check_version
check_version_readable (a ∷ b ∷ c ∷ d ∷ []) minor h = ground arith
check_version_readable _ minor h = cc

chain_inv :
    (short foreign : Bool) (version : Result ℕ) (layout : Result Format)
    (build : ℕ → Format → SegmentHeader) (h : SegmentHeader)
    → (if short
        then err invalid_header
        else if foreign
        then err invalid_header
        else version >>= λ minor. layout >>= λ format. ok (build minor format))
      ≡ ok h
    → (minor : ℕ) × (format : Format) × (version ≡ ok minor)
      × (layout ≡ ok format)
      × (build minor format ≡ h)
chain_inv true _ version layout build h e = cc
chain_inv false true version layout build h e = cc
chain_inv false false (ok minor) (ok format) build h e = (minor, format, refl, refl, cc)
chain_inv false false (ok minor) (err x) build h e = cc
chain_inv false false (ok minor) stuck build h e = cc
chain_inv false false (err x) layout build h e = cc
chain_inv false false stuck layout build h e = cc

-- The parts of a header that is decoded.
from_bytes_inv :
    (bytes : List ℕ) (h : SegmentHeader)
    → from_bytes bytes ≡ ok h
    → (minor : ℕ) × (format : Format) × (check_version (slice 4 off_version bytes) ≡ ok minor)
      × (from_tag
            (get_or bytes off_format_tag 0)
            (Bytes.from_le_bytes (slice 4 off_format_arg bytes))
          ≡ ok format)
      × (decoded bytes minor format ≡ h)
unfolding from_bytes
from_bytes_inv bytes h e =
    chain_inv (ltb (length bytes) segment_file_header_len)
      (not (list_eq (slice 8 off_type bytes) type_magic))
      (check_version (slice 4 off_version bytes))
      (from_tag (get_or bytes off_format_tag 0)
        (Bytes.from_le_bytes (slice 4 off_format_arg bytes)))
      (decoded bytes) h e

-- A header that is decoded, from any list of bytes, has fields of the widths on disk, a version
-- that this build reads and a format that a log may use.
pub from_bytes-IsValid :
    (bytes : List ℕ) (h : SegmentHeader) → All IsByte bytes → from_bytes bytes ≡ ok h → IsValid h
unfolding decoded
from_bytes-IsValid bytes h hb e =
    let (minor, format, em, ef, eh) = from_bytes_inv bytes h e in
    subst IsValid eh (record {
      segment_id_u64 = from_le_bytes-slice_lt 8 off_segment_id bytes hb;
      session_id_u64 = from_le_bytes-slice_lt 8 off_session_id bytes hb;
      max_size_u32 = from_le_bytes-slice_lt 4 off_max_size bytes hb;
      remaining_u64 = from_le_bytes-slice_lt 8 off_remaining bytes hb;
      format_usable =
          (from_tag_inv (get_or bytes off_format_tag 0) _ format
            (from_le_bytes-slice_lt 4 off_format_arg bytes hb) ef).0;
      sequence_u64 = from_le_bytes-slice_lt 8 off_sequence bytes hb;
      minor_readable = check_version_readable (slice 4 off_version bytes) minor em;
    })

-- No record takes no byte in a segment file whose header is decoded.
pub from_bytes-shortest :
    (bytes : List ℕ) (h : SegmentHeader) → from_bytes bytes ≡ ok h → 0 < shortest h.format
unfolding decoded
from_bytes-shortest bytes h e =
    let (minor, format, em, ef, eh) = from_bytes_inv bytes h e in
    subst (λ (x : SegmentHeader). 0 < shortest x.format) eh (from_tag-shortest _ _ format ef)
