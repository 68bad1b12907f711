-- ===== src/Gen/Printing.antt =====
-- A specification that is printed parses to itself.
use tcslog.Prelude.{
  ℕ, zero, suc, ◌+◌, ◌-◌, ◌*◌, ◌/◌, ◌%◌, ◌^◌, ◌≤◌, ◌<◌, ◌≡◌, refl, ap, ◌∙◌, arith, false, inl, inr,
  Bool-cases, none, some, [], ◌∷◌, ◌++◌, All, All-append, length, length-append, ltb, ◌==◌, list_eq,
  u32_max,
}
use native.Mathlib.Nat.{pow-suc}
use tcslog.Fs.{Text}
use tcslog.Decimal.{digits, decimal}
use tcslog.Gen.{RecordFormatSpec}
use tcslog.Gen.Spec.{
  display, range_text, split_colon, split_dots, parse_digits, parse_u32, parsed, parse_len,
  parse_range, contains_dots, parse_fixed, from_str,
}

abbrev pub IsDigit : ℕ → Type 0
IsDigit b = (b'0' ≤ b) × (b ≤ b'9')

digits-IsDigit : (fuel n : ℕ) → All IsDigit (digits fuel n)
unfolding digits
digits-IsDigit zero n = ((omega arith, omega arith), tt)
digits-IsDigit (suc fuel) n = elim (Bool-cases (ltb n 10)) [
  | inl e ↦ rw (digits, e) ((omega arith, ground (arith, e)), tt)
  | inr e ↦
      rw (digits, e)
        (All-append IsDigit (digits fuel (n / 10)) _ (digits-IsDigit fuel (n / 10))
          ((omega arith, omega arith), tt))
]

-- The last digit of a number that does not overflow.
parse_digits-append :
    (acc v : ℕ) (xs : Text) (b : ℕ)
    → parse_digits acc xs ≡ some v
    → IsDigit b
    → v * 10 + (b - b'0') ≤ u32_max
    → parse_digits acc (xs ++ (b ∷ [])) ≡ some (v * 10 + (b - b'0'))
unfolding parse_digits
parse_digits-append acc v [] b h d k = ground (arith, h)
parse_digits-append acc v (x ∷ xs) b h d k =
    ground (arith, parse_digits-append (acc * 10 + (x - b'0')) v xs b)

one_digit : (d : ℕ) → d < 10 → parse_digits 0 ((b'0' + d) ∷ []) ≡ some d
unfolding parse_digits
one_digit d h = ground arith

parse_digits-digits :
    (fuel n : ℕ) → n < 10 ^ suc fuel → n ≤ u32_max → parse_digits 0 (digits fuel n) ≡ some n
unfolding digits
parse_digits-digits zero n h k = one_digit (n % 10) (omega arith) ∙ ap some (omega arith)
parse_digits-digits (suc fuel) n h k = elim (Bool-cases (ltb n 10)) [
  | inl e ↦ rw (digits, e) (one_digit n (ground (arith, e)))
  | inr e ↦
      rw (digits, e)
        (parse_digits-append 0 (n / 10) (digits fuel (n / 10)) (b'0' + n % 10)
            (parse_digits-digits fuel (n / 10) (omega (arith, pow-suc 10 (suc fuel))) (omega arith))
            (omega arith, omega arith) (omega arith)
          ∙ ap some (omega arith))
]

digits_positive : (fuel n : ℕ) → 0 < length (digits fuel n)
unfolding digits
digits_positive zero n = omega arith
digits_positive (suc fuel) n = elim (Bool-cases (ltb n 10)) [
  | inl e ↦ rw (digits, e) (omega arith)
  | inr e ↦
      rw (digits, e) (omega (arith, length-append (digits fuel (n / 10)) ((b'0' + n % 10) ∷ [])))
]

parse_u32_digits : (xs : Text) → All IsDigit xs → 0 < length xs → parse_u32 xs ≡ parse_digits 0 xs
unfolding parse_u32
parse_u32_digits [] h k = absurd (omega arith)
parse_u32_digits (b ∷ []) h k = refl
parse_u32_digits (b ∷ (c ∷ rest)) h k =
    let no_sign : (b == b'+') ≡ false = ground (arith, h.0) in rw no_sign

parse_u32-decimal : (n : ℕ) → n ≤ u32_max → parse_u32 (decimal n) ≡ some n
unfolding decimal
parse_u32-decimal n h =
    parse_u32_digits (digits 19 n) (digits-IsDigit 19 n) (digits_positive 19 n)
    ∙ parse_digits-digits 19 n (omega arith) h

split_dots_digits : (xs : Text) → All IsDigit xs → split_dots xs ≡ none
unfolding split_dots
split_dots_digits [] h = refl
split_dots_digits (b ∷ xs) h =
    let no_dot : (b == b'.') ≡ false = ground (arith, h.0) in
    rw (split_dots, no_dot, split_dots_digits xs h.1)

split_dots-append :
    (xs ys : Text) → All IsDigit xs → split_dots (xs ++ (b'.' ∷ b'.' ∷ ys)) ≡ some (xs, ys)
unfolding split_dots
split_dots-append [] ys h = refl
split_dots-append (b ∷ xs) ys h =
    let no_dot : (b == b'.') ≡ false = ground (arith, h.0) in
    rw (split_dots, no_dot, split_dots-append xs ys h.1)

decimal-IsDigit : (n : ℕ) → All IsDigit (decimal n)
unfolding decimal
decimal-IsDigit n = digits-IsDigit 19 n

decimal_positive : (n : ℕ) → 0 < length (decimal n)
unfolding decimal
decimal_positive n = digits_positive 19 n

module _ (trim : Text → Text) (trims : (text : Text) → All IsDigit text → trim text ≡ text) where
  parse_len_text :
      (xs : Text) (v : ℕ)
      → trim xs ≡ xs
      → 0 < length xs
      → parse_u32 xs ≡ some v
      → parse_len trim xs ≡ parsed v
  unfolding parse_len
  parse_len_text [] v e h k = absurd (omega arith)
  parse_len_text (b ∷ rest) v e h k = rw (parse_len, e, k)

  parse_len-decimal : (n : ℕ) → n ≤ u32_max → parse_len trim (decimal n) ≡ parsed n
  parse_len-decimal n h =
      parse_len_text (decimal n) n (trims (decimal n) (decimal-IsDigit n)) (decimal_positive n)
        (parse_u32-decimal n h)

  parse_range_one : (n : ℕ) → n ≤ u32_max → parse_range trim (decimal n) ≡ parsed (n, n)
  unfolding parse_range
  parse_range_one n h =
      rw (parse_range, split_dots_digits (decimal n) (decimal-IsDigit n), parse_len-decimal n h)

  parse_range_two :
      (low high : ℕ)
      → low ≤ high
      → high ≤ u32_max
      → parse_range trim (decimal low ++ (b'.' ∷ b'.' ∷ decimal high)) ≡ parsed (low, high)
  unfolding parse_range
  parse_range_two low high h k =
      let ordered : ltb high low ≡ false = ground (arith, h) in
      rw (
        parse_range,
        split_dots-append (decimal low) (decimal high) (decimal-IsDigit low),
        parse_len-decimal low (omega (arith, h)),
        parse_len-decimal high k,
        ordered,
      )

  parse_range-range_text :
      (low high : ℕ)
      → low ≤ high
      → high ≤ u32_max
      → parse_range trim (range_text low high) ≡ parsed (low, high)
  parse_range-range_text low high h k = elim (Bool-cases (low == high)) [
    | inl e ↦
        (let same : low ≡ high = ground (arith, e) in
          rw e (parse_range_one low (omega (arith, h)) ∙ ap (λ (n : ℕ). parsed (low, n)) same))
    | inr e ↦ rw e (parse_range_two low high h k)
  ]

  parse_fixed-decimal :
      (n : ℕ)
      → 0 < n
      → n ≤ u32_max
      → parse_fixed trim (decimal n) ≡ parsed (RecordFormatSpec.fixed n)
  unfolding parse_fixed contains_dots
  parse_fixed-decimal n h k =
      let some_bytes : (n == 0) ≡ false = ground (arith, h) in
      rw (
        parse_fixed,
        parse_len-decimal n k,
        some_bytes,
        contains_dots,
        split_dots_digits (decimal n) (decimal-IsDigit n),
      )

  -- A specification that the generator can use.
  abbrev pub IsSpec : RecordFormatSpec → Type 0
  IsSpec (RecordFormatSpec.fixed n) = (0 < n) × (n ≤ u32_max)
  IsSpec (RecordFormatSpec.variable_simple low high) = (low ≤ high) × (high ≤ u32_max)
  IsSpec (RecordFormatSpec.variable_ts_rc low high) = (low ≤ high) × (high ≤ u32_max)

  -- The text that a specification is displayed as parses to it, where its lengths are `u32`s, a
  -- fixed one is not zero and a range is not empty; trimming leaves a text of digits as it is.
  pub from_str-display :
      (spec : RecordFormatSpec) → IsSpec spec → from_str trim (display spec) ≡ parsed spec
  unfolding from_str display split_colon list_eq
  from_str-display (RecordFormatSpec.fixed n) h = rw (parse_fixed-decimal n h.0 h.1)
  from_str-display (RecordFormatSpec.variable_simple low high) h =
      rw (parse_range-range_text low high h.0 h.1)
  from_str-display (RecordFormatSpec.variable_ts_rc low high) h =
      rw (parse_range-range_text low high h.0 h.1)
