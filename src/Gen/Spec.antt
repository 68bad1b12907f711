-- ===== src/Gen/Spec.antt =====
-- tcslog-gen/src/lib.rs: a record format specification as text.
use tcslog.Prelude.{
  ℕ, ◌+◌, ◌-◌, ◌*◌, Bool, true, false, ◌&&◌, Option, none, some, [], ◌∷◌, ◌++◌, ltb, leb, ◌==◌,
  list_eq, if◌then◌else◌, u32_max,
}
use tcslog.Fs.{Text}
use tcslog.Decimal.{decimal}
use tcslog.Gen.{RecordFormatSpec}

-- "fixed", "variable-simple" and "variable-tsrc".
abbrev pub fixed_text : Text
fixed_text = b'f' ∷ b'i' ∷ b'x' ∷ b'e' ∷ b'd' ∷ []

abbrev variable_text : Text
variable_text = b'v' ∷ b'a' ∷ b'r' ∷ b'i' ∷ b'a' ∷ b'b' ∷ b'l' ∷ b'e' ∷ b'-' ∷ []

abbrev pub variable_simple_text : Text
variable_simple_text = variable_text ++ (b's' ∷ b'i' ∷ b'm' ∷ b'p' ∷ b'l' ∷ b'e' ∷ [])

abbrev pub variable_ts_rc_text : Text
variable_ts_rc_text = variable_text ++ (b't' ∷ b's' ∷ b'r' ∷ b'c' ∷ [])

-- One length, or `MIN..MAX`.
abbrev pub range_text : ℕ → ℕ → Text
range_text low high =
    if low == high then decimal low else decimal low ++ (b'.' ∷ b'.' ∷ decimal high)

-- `Display`
unfoldable pub display : RecordFormatSpec → Text
display (RecordFormatSpec.fixed n) = fixed_text ++ (b':' ∷ decimal n)
display (RecordFormatSpec.variable_simple low high) =
    variable_simple_text ++ (b':' ∷ range_text low high)
display (RecordFormatSpec.variable_ts_rc low high) =
    variable_ts_rc_text ++ (b':' ∷ range_text low high)

-- The messages of a `RecordFormatSpecError`, without the text that they quote.
pub data RecordFormatSpecError : Type 0 where
  no_kind unknown_kind length_missing not_a_length zero_length takes_no_range min_exceeds_max :
      RecordFormatSpecError

pub data Parsed {ℓ} (A : Type ℓ) : Type ℓ where
  parsed : A → Parsed A
  refused : RecordFormatSpecError → Parsed A

-- `split_once(':')`
unfoldable pub split_colon : Text → Option (Text × Text)
split_colon [] = none
split_colon (b ∷ rest) =
    if b == b':'
    then some ([], rest)
    else elim (split_colon rest) [ none ↦ none | some (before, after) ↦ some (b ∷ before, after) ]

-- What follows a dot, if one stands at the front.
abbrev pub after_dot : Text → Option Text
after_dot [] = none
after_dot (b ∷ rest) = if b == b'.' then some rest else none

-- `split_once("..")`
unfoldable pub split_dots : Text → Option (Text × Text)
split_dots [] = none
split_dots (b ∷ rest) =
    let later : Option (Text × Text) = elim (split_dots rest) [
      | none ↦ none
      | some (before, after) ↦ some (b ∷ before, after)
    ] in
    if b == b'.'
    then (elim (after_dot rest) [ none ↦ later | some after ↦ some ([], after) ])
    else later

-- `parse::<u32>`: the digits, each a step that may overflow.
unfoldable pub parse_digits : ℕ → Text → Option ℕ
parse_digits acc [] = some acc
parse_digits acc (b ∷ rest) =
    let acc' = acc * 10 + (b - b'0') in
    let later = parse_digits acc' rest in
    if leb b'0' b && (leb b b'9' && leb acc' u32_max) then later else none

unfoldable pub parse_u32 : Text → Option ℕ
parse_u32 [] = none
parse_u32 (b ∷ []) = parse_digits 0 (b ∷ [])
parse_u32 (b ∷ (c ∷ rest)) =
    if b == b'+' then parse_digits 0 (c ∷ rest) else parse_digits 0 (b ∷ (c ∷ rest))

-- `contains("..")`
unfoldable pub contains_dots : Text → Bool
contains_dots text = elim (split_dots text) [ none ↦ false | some parts ↦ true ]

-- `trim` is `str::trim`.
module _ (trim : Text → Text) where
  unfoldable pub parse_len : Text → Parsed ℕ
  parse_len s = elim (trim s) [
    | [] ↦ refused length_missing
    | b ∷ rest ↦ elim (parse_u32 (b ∷ rest)) [ none ↦ refused not_a_length | some n ↦ parsed n ]
  ]

  unfoldable pub parse_range : Text → Parsed (ℕ × ℕ)
  parse_range spec = elim (split_dots spec) [
    | some (low_text, high_text) ↦ elim (parse_len low_text) [
      | refused e ↦ refused e
      | parsed low ↦ elim (parse_len high_text) [
        | refused e ↦ refused e
        | parsed high ↦ (if ltb high low then refused min_exceeds_max else parsed (low, high))
      ]
    ]
    | none ↦ elim (parse_len spec) [ refused e ↦ refused e | parsed n ↦ parsed (n, n) ]
  ]

  unfoldable pub parse_fixed : Text → Parsed RecordFormatSpec
  parse_fixed spec = elim (parse_len spec) [
    | refused e ↦ refused e
    | parsed n ↦
        (if n == 0
          then refused zero_length
          else if contains_dots spec
          then refused takes_no_range
          else parsed (RecordFormatSpec.fixed n))
  ]

  -- `FromStr`
  unfoldable pub from_str : Text → Parsed RecordFormatSpec
  from_str s = elim (split_colon s) [
    | none ↦ refused no_kind
    | some (kind, spec) ↦
        (if list_eq kind fixed_text
          then parse_fixed spec
          else if list_eq kind variable_simple_text
          then elim (parse_range spec) [
            | refused e ↦ refused e
            | parsed (low, high) ↦ parsed (RecordFormatSpec.variable_simple low high)
          ]
          else if list_eq kind variable_ts_rc_text
          then elim (parse_range spec) [
            | refused e ↦ refused e
            | parsed (low, high) ↦ parsed (RecordFormatSpec.variable_ts_rc low high)
          ]
          else refused unknown_kind)
  ]
