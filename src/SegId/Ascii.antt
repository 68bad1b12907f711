-- ===== src/SegId/Ascii.antt =====
-- The text of a segment identifier is a C string: ASCII, without a NUL.
use tcslog.Prelude.{ℕ, ◌/◌, ◌%◌, ◌^◌, ◌<◌, arith, List, ◌∷◌, ◌++◌, All, All-append}
use tcslog.SegId.{SegId, hex_digit, group, display}

-- A byte of a C string: not its end, and ASCII.
abbrev pub IsText : ℕ → Type 0
IsText b = (0 < b) × (b < 128)

hex_digit-IsText : (d : ℕ) → d < 16 → IsText (hex_digit d)
unfolding hex_digit
hex_digit-IsText d h = ground arith

group-IsText : (w : ℕ) → All IsText (group w)
unfolding group
group-IsText w = (
  hex_digit-IsText (w / 4096 % 16) (omega arith),
  (
    hex_digit-IsText (w / 256 % 16) (omega arith),
    (hex_digit-IsText (w / 16 % 16) (omega arith), (hex_digit-IsText (w % 16) (omega arith), tt)),
  ),
)

-- A group, a dash and what follows.
dashed-IsText : (w : ℕ) (text : List ℕ) → All IsText text → All IsText (group w ++ (b'-' ∷ text))
dashed-IsText w text h =
    All-append IsText (group w) (b'-' ∷ text) (group-IsText w) ((omega arith, omega arith), h)

pub display-IsText : (id : SegId) → All IsText (display id)
unfolding display
display-IsText id =
    let t4 : List ℕ = group (id % 2 ^ 16) in
    let t3 : List ℕ = group (id / 2 ^ 16 % 2 ^ 16) ++ (b'-' ∷ t4) in
    let t2 : List ℕ = group (id / 2 ^ 32 % 2 ^ 16) ++ (b'-' ∷ t3) in
    dashed-IsText (id / 2 ^ 48 % 2 ^ 16) t2 (
      dashed-IsText (id / 2 ^ 32 % 2 ^ 16) t3
        (dashed-IsText (id / 2 ^ 16 % 2 ^ 16) t4 (group-IsText (id % 2 ^ 16))))
