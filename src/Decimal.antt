-- ===== src/Decimal.antt =====
-- Numbers as `format!` writes them: in decimal, and padded with zeros to a width.
use tcslog.Prelude.{
  ℕ, zero, suc, ◌+◌, ◌-◌, ◌*◌, ◌/◌, ◌%◌, ◌^◌, ◌≤◌, ◌<◌, ◌≡◌, refl, ap, ◌∙◌, arith, List, [], ◌∷◌,
  ◌++◌, length, length-append, ltb, if◌then◌else◌, inl, inr, Bool-cases,
}
use native.Mathlib.Nat.{pow-suc}

-- The digits of a number, of which there is one at least. A `u64` has 20 at most.
unfoldable pub digits : ℕ → ℕ → List ℕ
digits zero n = (b'0' + n % 10) ∷ []
digits (suc fuel) n =
    let rest = digits fuel (n / 10) in
    if ltb n 10 then (b'0' + n) ∷ [] else rest ++ ((b'0' + n % 10) ∷ [])

-- `{}` of a `u64`.
unfoldable pub decimal : ℕ → List ℕ
unfolding digits
decimal n = digits 19 n

abbrev pub replicate : ℕ → ℕ → List ℕ
replicate zero b = []
replicate (suc n) b = b ∷ replicate n b

-- `{:0w}` of a `u64`.
unfoldable pub padded : ℕ → ℕ → List ℕ
padded w n = replicate (w - length (decimal n)) b'0' ++ decimal n

length-replicate : (n b : ℕ) → length (replicate n b) ≡ n
length-replicate zero b = refl
length-replicate (suc n) b = ap suc (length-replicate n b)

-- The value of a text of digits.
abbrev pub value_from : ℕ → List ℕ → ℕ
value_from acc [] = acc
value_from acc (b ∷ rest) = value_from (acc * 10 + (b - b'0')) rest

abbrev pub value : List ℕ → ℕ
value text = value_from 0 text

value_from-append :
    (acc : ℕ) (xs : List ℕ) (b : ℕ)
    → value_from acc (xs ++ b ∷ []) ≡ value_from acc xs * 10 + (b - b'0')
value_from-append acc [] b = refl
value_from-append acc (x ∷ xs) b = value_from-append (acc * 10 + (x - b'0')) xs b

-- The digits of a number below `10 ^ (fuel + 1)` have its value, and are as few as it needs.
pub value-digits : (fuel n : ℕ) → n < 10 ^ suc fuel → value (digits fuel n) ≡ n
unfolding digits
value-digits zero n h = omega (arith, pow-suc 10 0)
value-digits (suc fuel) n h = elim (Bool-cases (ltb n 10)) [
  | inl e ↦ rw e (omega arith)
  | inr e ↦ rw e (
      value_from-append 0 (digits fuel (n / 10)) (b'0' + n % 10)
      ∙ omega (arith, value-digits fuel (n / 10) (omega (arith, pow-suc 10 (suc fuel)))))
]

length-digits-le : (fuel w n : ℕ) → n < 10 ^ suc w → length (digits fuel n) ≤ suc w
unfolding digits
length-digits-le zero w n h = omega arith
length-digits-le (suc fuel) zero n h = ground (arith, pow-suc 10 0)
length-digits-le (suc fuel) (suc w) n h = elim (Bool-cases (ltb n 10)) [
  | inl e ↦ rw e (omega arith)
  | inr e ↦ rw e (
      omega (
        arith,
        length-append (digits fuel (n / 10)) ((b'0' + n % 10) ∷ []),
        length-digits-le fuel w (n / 10) (omega (arith, pow-suc 10 (suc w))),
      ))
]

-- A number that fits the width takes exactly the width.
pub length-padded : (w n : ℕ) → n < 10 ^ suc w → length (padded (suc w) n) ≡ suc w
unfolding padded decimal
length-padded w n h = omega (
  arith,
  length-append (replicate (suc w - length (decimal n)) b'0') (decimal n),
  length-replicate (suc w - length (decimal n)) b'0',
  length-digits-le 19 w n h,
)

value_from-replicate : (k : ℕ) (xs : List ℕ) → value (replicate k b'0' ++ xs) ≡ value xs
value_from-replicate zero xs = refl
value_from-replicate (suc k) xs = value_from-replicate k xs

-- Padding does not change the value.
pub value-padded : (w n : ℕ) → n < 10 ^ 20 → value (padded w n) ≡ n
unfolding padded decimal
value-padded w n h = value_from-replicate (w - length (decimal n)) (decimal n) ∙ value-digits 19 n h
