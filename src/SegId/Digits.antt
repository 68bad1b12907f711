-- ===== src/SegId/Digits.antt =====
-- Parsing the digits and the dashes that `display` writes.
use tcslog.Prelude.{ℕ, ◌+◌, ◌*◌, ◌%◌, ◌^◌, ◌<◌, ◌≡◌, ◌∙◌, arith, some, List, ◌∷◌, ◌++◌}
use mathlib.Core.Path.{ap₂}
use tcslog.SegId.{hex_value, hex_digit, parse_step, parse_loop, group}

hex_value-hex_digit : (d : ℕ) → d < 16 → hex_value (hex_digit d) ≡ some d
unfolding hex_value hex_digit
hex_value-hex_digit d h = ground arith

pub hex_digit-hex_value : (b d : ℕ) → hex_value b ≡ some d → (hex_digit d ≡ b) × (d < 16)
unfolding hex_value hex_digit
hex_digit-hex_value b d h = ground arith

parse_step_digit :
    (i value d : ℕ)
    → i % 5 < 4
    → d < 16
    → parse_step i value (hex_digit d) ≡ some (value * 16 % 2 ^ 64 + d)
unfolding parse_step
parse_step_digit i value d hi h = rw (hex_value-hex_digit d h) (ground arith)

parse_loop_digit :
    (i value d : ℕ) (rest : List ℕ)
    → i % 5 < 4
    → d < 16
    → parse_loop i value (hex_digit d ∷ rest) ≡ parse_loop (i + 1) (value * 16 % 2 ^ 64 + d) rest
unfolding parse_loop
parse_loop_digit i value d rest hi h = rw (parse_step_digit i value d hi h, parse_loop)

pub parse_loop_dash :
    (i value : ℕ) (rest : List ℕ)
    → i % 5 ≡ 4
    → parse_loop i value (b'-' ∷ rest) ≡ parse_loop (i + 1) value rest
unfolding parse_loop parse_step
parse_loop_dash i value rest hi = ground arith

-- Four digits shift a value by sixteen bits.
pub parse_loop-group :
    (i value w : ℕ) (rest : List ℕ)
    → i % 5 ≡ 0
    → value < 2 ^ 48
    → w < 2 ^ 16
    → parse_loop i value (group w ++ rest) ≡ parse_loop (i + 4) (value * 2 ^ 16 + w) rest
unfolding group
parse_loop-group i value w rest hi hv hw =
    parse_loop_digit i value _ _ (omega arith) (omega arith)
    ∙ parse_loop_digit (i + 1) _ _ _ (omega arith) (omega arith)
    ∙ parse_loop_digit (i + 1 + 1) _ _ _ (omega arith) (omega arith)
    ∙ parse_loop_digit (i + 1 + 1 + 1) _ _ rest (omega arith) (omega arith)
    ∙ ap₂ (λ j v. parse_loop j v rest) (omega arith) (omega arith)
