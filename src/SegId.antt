-- ===== src/SegId.antt =====
-- tcslog/src/segid.rs: the identifier of a segment file, a `u64` of nanoseconds, and its dashed
-- hexadecimal text. A text is the list of its bytes.
pub mod Digits
pub mod Groups
pub mod Ascii
pub mod RoundTrip
use tcslog.Prelude.{
  ℕ, zero, suc, ◌+◌, ◌-◌, ◌*◌, ◌/◌, ◌%◌, ◌^◌, ◌≡◌, refl, true, false, ◌&&◌, Option, none, some,
  List, [], ◌∷◌, ◌++◌, length, ltb, leb, ◌==◌, if◌then◌else◌,
}
use tcslog.Error.{Result, ok, err, invalid_pathname}
use tcslog.Bytes

abbrev pub SegId : Type 0
SegId = ℕ

-- `SegId::STR_LEN`
abbrev pub str_len : ℕ
str_len = 19

unfoldable pub to_le_bytes : SegId → List ℕ
to_le_bytes id = Bytes.to_le_bytes 8 id

unfoldable pub from_le_bytes : List ℕ → SegId
from_le_bytes bytes = Bytes.from_le_bytes bytes

-- The `match` on a byte: a lower-case hexadecimal digit's value.
pub hex_value : ℕ → Option ℕ
hex_value b =
    if leb b'0' b && leb b b'9'
    then some (b - b'0')
    else if leb b'a' b && leb b b'f'
    then some (b - b'a' + 10)
    else none

-- One round of the loop, at position `i`. The low four bits of `value << 4` are zero, so that
-- `| digit` adds the digit.
pub parse_step : ℕ → ℕ → ℕ → Option ℕ
unfolding hex_value
parse_step i value b =
    if i % 5 == 4
    then (if b == b'-' then some value else none)
    else elim (hex_value b) [ none ↦ none | some digit ↦ some (value * 16 % 2 ^ 64 + digit) ]

pub parse_loop : ℕ → ℕ → List ℕ → Result SegId
parse_loop i value [] = ok value
parse_loop i value (b ∷ rest) = elim (parse_step i value b) [
  | none ↦ err invalid_pathname
  | some value' ↦ parse_loop (i + 1) value' rest
]

unfoldable pub parse : List ℕ → Result SegId
unfolding parse_loop parse_step
parse text = if length text == str_len then parse_loop 0 0 text else err invalid_pathname

pub hex_digit : ℕ → ℕ
hex_digit d = if ltb d 10 then b'0' + d else b'a' + (d - 10)

-- `{:04x}` of a number below 2^16.
pub group : ℕ → List ℕ
unfolding hex_digit
group w =
    hex_digit (w / 4096 % 16)
    ∷ hex_digit (w / 256 % 16)
    ∷ hex_digit (w / 16 % 16)
    ∷ hex_digit (w % 16)
    ∷ []

-- `Display`: a shift right and a mask for each group.
unfoldable pub display : SegId → List ℕ
unfolding group
display id =
    group (id / 2 ^ 48 % 2 ^ 16)
    ++ (b'-' ∷ group (id / 2 ^ 32 % 2 ^ 16))
    ++ (b'-' ∷ group (id / 2 ^ 16 % 2 ^ 16))
    ++ (b'-' ∷ group (id % 2 ^ 16))
