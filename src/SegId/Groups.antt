-- ===== src/SegId/Groups.antt =====
-- What a text that parses consists of: four groups of four digits, with dashes between them.
use tcslog.Prelude.{
  ℕ, ◌+◌, ◌*◌, ◌/◌, ◌%◌, ◌^◌, ◌<◌, ◌≡◌, refl, sym, ap, ◌∙◌, arith, List, [], ◌∷◌, ◌++◌, length,
  Option-cases, inl, inr,
}
use mathlib.Core.Path.{ap₂}
use tcslog.Error.{ok}
use tcslog.SegId.{SegId, hex_value, hex_digit, parse_step, parse_loop, group, display}
use tcslog.SegId.Digits.{hex_digit-hex_value}

-- A digit that was accepted.
parse_loop_digit_inv :
    (i value b : ℕ) (rest : List ℕ) {id : SegId}
    → i % 5 < 4
    → parse_loop i value (b ∷ rest) ≡ ok id
    → (d : ℕ) × (b ≡ hex_digit d)
      × (d < 16)
      × (parse_loop (i + 1) (value * 16 % 2 ^ 64 + d) rest ≡ ok id)
unfolding parse_loop parse_step
parse_loop_digit_inv i value b rest {id} hi h = elim (Option-cases (hex_value b)) [
  | inl bad ↦ absurd (ground (arith, bad))
  | inr (d, good) ↦ (
    d,
    sym (hex_digit-hex_value b d good).0,
    (hex_digit-hex_value b d good).1,
    ground (arith, good),
  )
]

four_digits :
    (a b c d x y z t : ℕ) (rest : List ℕ)
    → a ≡ hex_digit x
    → b ≡ hex_digit y
    → c ≡ hex_digit z
    → d ≡ hex_digit t
    → x < 16
    → y < 16
    → z < 16
    → t < 16
    → a ∷ b ∷ c ∷ d ∷ rest ≡ group (x * 4096 + y * 256 + z * 16 + t) ++ rest
unfolding group
four_digits a b c d x y z t rest ax by cz dt xl yl zl tl =
    let w : ℕ = x * 4096 + y * 256 + z * 16 + t in
    let p : x ≡ w / 4096 % 16 = omega arith in
    let q : y ≡ w / 256 % 16 = omega arith in
    let r : z ≡ w / 16 % 16 = omega arith in
    let s : t ≡ w % 16 = omega arith in
    cc (ap hex_digit p, ap hex_digit q, ap hex_digit r, ap hex_digit s)

-- A dash that was accepted.
parse_loop_dash_inv :
    (i value n : ℕ) (text : List ℕ) {id : SegId}
    → i % 5 ≡ 4
    → length text ≡ n + 1
    → parse_loop i value text ≡ ok id
    → (rest : List ℕ) × (text ≡ b'-' ∷ rest)
      × (length rest ≡ n)
      × (parse_loop (i + 1) value rest ≡ ok id)
unfolding parse_loop parse_step
parse_loop_dash_inv i value n [] hi hl h = absurd (omega arith)
parse_loop_dash_inv i value n (b ∷ rest) hi hl h = (rest, ground arith, omega arith, ground arith)

-- Four digits that were accepted.
pub parse_loop-group_inv :
    (i value n : ℕ) (text : List ℕ) {id : SegId}
    → i % 5 ≡ 0
    → value < 2 ^ 48
    → length text ≡ n + 4
    → parse_loop i value text ≡ ok id
    → (w : ℕ) × (rest : List ℕ) × (text ≡ group w ++ rest)
      × (length rest ≡ n)
      × (w < 2 ^ 16)
      × (parse_loop (i + 4) (value * 2 ^ 16 + w) rest ≡ ok id)
unfolding group
parse_loop-group_inv i value n [] hi hv hl h = absurd (omega arith)
parse_loop-group_inv i value n (a ∷ []) hi hv hl h = absurd (omega arith)
parse_loop-group_inv i value n (a ∷ b ∷ []) hi hv hl h = absurd (omega arith)
parse_loop-group_inv i value n (a ∷ b ∷ c ∷ []) hi hv hl h = absurd (omega arith)
parse_loop-group_inv i value n (a ∷ b ∷ c ∷ d ∷ rest) hi hv hl h =
    let (x, ax, xl, h1) = parse_loop_digit_inv i value a (b ∷ c ∷ d ∷ rest) (omega arith) h in
    let (y, by, yl, h2) = parse_loop_digit_inv (i + 1) _ b (c ∷ d ∷ rest) (omega arith) h1 in
    let (z, cz, zl, h3) = parse_loop_digit_inv (i + 1 + 1) _ c (d ∷ rest) (omega arith) h2 in
    let (t, dt, tl, h4) = parse_loop_digit_inv (i + 1 + 1 + 1) _ d rest (omega arith) h3 in
    let w : ℕ = x * 4096 + y * 256 + z * 16 + t in
    (
      w,
      rest,
      four_digits a b c d x y z t rest ax by cz dt xl yl zl tl,
      omega arith,
      omega arith,
      sym (ap₂ (λ j v. parse_loop j v rest) (omega arith) (omega arith)) ∙ h4,
    )

-- The groups of a displayed identifier.
pub display_groups :
    (w1 w2 w3 w4 : ℕ)
    → w1 < 2 ^ 16
    → w2 < 2 ^ 16
    → w3 < 2 ^ 16
    → w4 < 2 ^ 16
    → display (((w1 * 2 ^ 16 + w2) * 2 ^ 16 + w3) * 2 ^ 16 + w4)
      ≡ group w1 ++ (b'-' ∷ (group w2 ++ (b'-' ∷ (group w3 ++ (b'-' ∷ group w4)))))
unfolding display
display_groups w1 w2 w3 w4 b1 b2 b3 b4 =
    let id : ℕ = ((w1 * 2 ^ 16 + w2) * 2 ^ 16 + w3) * 2 ^ 16 + w4 in
    let e1 : id / 2 ^ 48 % 2 ^ 16 ≡ w1 = omega arith in
    let e2 : id / 2 ^ 32 % 2 ^ 16 ≡ w2 = omega arith in
    let e3 : id / 2 ^ 16 % 2 ^ 16 ≡ w3 = omega arith in
    let e4 : id % 2 ^ 16 ≡ w4 = omega arith in
    ap₂ (λ x t. group x ++ (b'-' ∷ t)) e1
      (ap₂ (λ x t. group x ++ (b'-' ∷ t)) e2 (ap₂ (λ x t. group x ++ (b'-' ∷ group t)) e3 e4))

end_of_text :
    (v id : ℕ) (text : List ℕ)
    → length text ≡ 0
    → parse_loop 19 v text ≡ ok id
    → (text ≡ []) × (v ≡ id)
unfolding parse_loop
end_of_text v id [] hl h = (refl, cc)
end_of_text v id (b ∷ rest) hl h = absurd (omega arith)

-- A dash and a group that were accepted.
parse_loop_section_inv :
    (i value n : ℕ) (text : List ℕ) {id : SegId}
    → i % 5 ≡ 4
    → value < 2 ^ 48
    → length text ≡ n + 5
    → parse_loop i value text ≡ ok id
    → (w : ℕ) × (rest : List ℕ) × (text ≡ b'-' ∷ (group w ++ rest))
      × (length rest ≡ n)
      × (w < 2 ^ 16)
      × (parse_loop (i + 1 + 4) (value * 2 ^ 16 + w) rest ≡ ok id)
parse_loop_section_inv i value n text hi hv hl h =
    let (t, e, l, p) = parse_loop_dash_inv i value (n + 4) text hi (omega arith) h in
    let (w, rest, e', l', b, q) = parse_loop-group_inv (i + 1) value n t (omega arith) hv l p in
    (w, rest, e ∙ ap (λ x. b'-' ∷ x) e', l', b, q)

-- What is left of a text after three groups, two groups and one group.
last_group :
    (v id : ℕ) (text : List ℕ)
    → v < 2 ^ 48
    → length text ≡ 5
    → parse_loop 14 v text ≡ ok id
    → (w : ℕ) × (text ≡ b'-' ∷ group w) × (w < 2 ^ 16) × (v * 2 ^ 16 + w ≡ id)
unfolding group
last_group v id text hv hl h =
    let (w, rest, e, l, b, p) = parse_loop_section_inv 14 v 0 text refl hv hl h in
    let (none_left, end) = end_of_text (v * 2 ^ 16 + w) id rest l p in
    (w, e ∙ ap (λ x. b'-' ∷ (group w ++ x)) none_left, b, end)

last_two_groups :
    (v id : ℕ) (text : List ℕ)
    → v < 2 ^ 32
    → length text ≡ 10
    → parse_loop 9 v text ≡ ok id
    → (w3 : ℕ) × (w4 : ℕ) × (text ≡ b'-' ∷ (group w3 ++ (b'-' ∷ group w4)))
      × (w3 < 2 ^ 16)
      × (w4 < 2 ^ 16)
      × ((v * 2 ^ 16 + w3) * 2 ^ 16 + w4 ≡ id)
last_two_groups v id text hv hl h =
    let (w, rest, e, l, b, p) = parse_loop_section_inv 9 v 5 text refl (omega arith) hl h in
    let (w4, e', b', q) = last_group (v * 2 ^ 16 + w) id rest (omega (arith, hv, b)) l p in
    (w, w4, e ∙ ap (λ x. b'-' ∷ (group w ++ x)) e', b, b', q)

pub last_three_groups :
    (v id : ℕ) (text : List ℕ)
    → v < 2 ^ 16
    → length text ≡ 15
    → parse_loop 4 v text ≡ ok id
    → (w2 : ℕ) × (w3 : ℕ) × (w4 : ℕ) × (text
        ≡ b'-' ∷ (group w2 ++ (b'-' ∷ (group w3 ++ (b'-' ∷ group w4)))))
      × (w2 < 2 ^ 16)
      × (w3 < 2 ^ 16)
      × (w4 < 2 ^ 16)
      × (((v * 2 ^ 16 + w2) * 2 ^ 16 + w3) * 2 ^ 16 + w4 ≡ id)
last_three_groups v id text hv hl h =
    let (w, rest, e, l, b, p) = parse_loop_section_inv 4 v 10 text refl (omega arith) hl h in
    let (w3, w4, e', b', b'', q) =
      last_two_groups (v * 2 ^ 16 + w) id rest (omega (arith, hv, b)) l p in
    (w, w3, w4, e ∙ ap (λ x. b'-' ∷ (group w ++ x)) e', b, b', b'', q)
