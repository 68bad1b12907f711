-- ===== src/Format.antt =====
-- tcslog/src/format.rs: record layouts, their tags in a segment header, and record metadata.
use tcslog.Prelude.{ℕ, ◌+◌, ◌<◌, ◌≡◌, refl, arith, ◌==◌, if◌then◌else◌, ltb, ◌&&◌, ◌^◌, ◌-◌}
use tcslog.Error.{Result, ok, err, invalid_header}
use tcslog.Bytes.{IsU32}

-- `Fixed(n)`, `VariableSimple`, `VariableTsRc`
pub data Format : Type 0 where
  fixed : ℕ → Format
  variable_simple variable_ts_rc : Format

abbrev pub tag_fixed : ℕ
tag_fixed = 0

abbrev pub tag_variable_simple : ℕ
tag_variable_simple = 1

abbrev pub tag_variable_tsrc : ℕ
tag_variable_tsrc = 2

abbrev pub variable_simple_header_len : ℕ
variable_simple_header_len = 4

abbrev pub variable_tsrc_header_len : ℕ
variable_tsrc_header_len = 4 + 8 + 6

abbrev pub variable_tsrc_header_len_1_0 : ℕ
variable_tsrc_header_len_1_0 = 4 + 8 + 4

unfoldable pub tag : Format → ℕ
tag (fixed n) = tag_fixed
tag variable_simple = tag_variable_simple
tag variable_ts_rc = tag_variable_tsrc

unfoldable pub fixed_len : Format → ℕ
fixed_len (fixed n) = n
fixed_len variable_simple = 0
fixed_len variable_ts_rc = 0

unfoldable pub data_header_len : Format → ℕ
data_header_len (fixed n) = 0
data_header_len variable_simple = variable_simple_header_len
data_header_len variable_ts_rc = variable_tsrc_header_len

unfoldable pub data_header_len_in : Format → ℕ → ℕ
unfolding data_header_len
data_header_len_in variable_ts_rc minor =
    if minor == 0 then variable_tsrc_header_len_1_0 else data_header_len variable_ts_rc
data_header_len_in (fixed n) minor = data_header_len (fixed n)
data_header_len_in variable_simple minor = data_header_len variable_simple

unfoldable pub from_tag : ℕ → ℕ → Result Format
from_tag t arg =
    if t == tag_fixed && ltb 0 arg
    then ok (fixed arg)
    else if t == tag_variable_simple
    then ok variable_simple
    else if t == tag_variable_tsrc
    then ok variable_ts_rc
    else err invalid_header

-- The metadata of a record: a timestamp and a record count in `VariableTsRc`, nothing otherwise.
pub data Meta : Type 0 where
  fixed : Meta
  variable_simple : Meta
  variable_ts_rc : ℕ → ℕ → Meta

-- `RECORD_COUNT_MAX` of lib.rs
abbrev pub record_count_max : ℕ
record_count_max = 2 ^ 48 - 1

-- A format that a log may use: the length of a fixed record is a positive `u32`.
abbrev pub IsUsable : Format → Type 0
IsUsable (Format.fixed n) = (0 < n) × IsU32 n
IsUsable Format.variable_simple = Unit
IsUsable Format.variable_ts_rc = Unit

-- The two header fields of a format that a log may use decode to that format.
pub from_tag-tag : (f : Format) → IsUsable f → from_tag (tag f) (fixed_len f) ≡ ok f
unfolding from_tag tag fixed_len
from_tag-tag (Format.fixed n) h = ground (arith, h.0)
from_tag-tag Format.variable_simple h = refl
from_tag-tag Format.variable_ts_rc h = refl

-- What is decoded from the two header fields, the second a `u32`, is a format that a log may use,
-- with that tag.
pub from_tag_inv :
    (t arg : ℕ) (f : Format) → IsU32 arg → from_tag t arg ≡ ok f → IsUsable f × (tag f ≡ t)
unfolding from_tag tag
from_tag_inv t arg (Format.fixed n) ha h = ground arith
from_tag_inv t arg Format.variable_simple ha h = ground arith
from_tag_inv t arg Format.variable_ts_rc ha h = ground arith

-- The fewest bytes that a record of a format takes in a log.
unfoldable pub shortest : Format → ℕ
shortest (Format.fixed n) = n
shortest Format.variable_simple = 4
shortest Format.variable_ts_rc = 1

pub from_tag-shortest : (t arg : ℕ) (f : Format) → from_tag t arg ≡ ok f → 0 < shortest f
unfolding from_tag shortest
from_tag-shortest t arg (Format.fixed n) h = ground arith
from_tag-shortest t arg Format.variable_simple h = omega arith
from_tag-shortest t arg Format.variable_ts_rc h = omega arith
