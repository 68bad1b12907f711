-- ===== src/SegId/RoundTrip.antt =====
-- The text of a segment identifier: every identifier has one, and no other text names it.
use tcslog.Prelude.{
  ℕ, ◌+◌, ◌*◌, ◌/◌, ◌%◌, ◌^◌, ◌<◌, ◌≡◌, refl, sym, ap, ◌∙◌, arith, List, [], ◌∷◌, ◌++◌, length,
}
use tcslog.Error.{ok}
use tcslog.Bytes.{IsU64}
use tcslog.SegId.{SegId, parse_loop, parse, group, display, str_len}
use tcslog.SegId.Digits.{parse_loop-group, parse_loop_dash}
use tcslog.SegId.Groups.{display_groups, last_three_groups, parse_loop-group_inv}

pub length-display : (id : SegId) → length (display id) ≡ str_len
unfolding display
length-display id = refl

-- The text that an identifier, a `u64`, is displayed as parses to that identifier.
pub parse-display : (id : SegId) → IsU64 id → parse (display id) ≡ ok id
unfolding parse display
parse-display id h =
    let w1 : ℕ = id / 2 ^ 48 % 2 ^ 16 in
    let v1 : ℕ = 0 * 2 ^ 16 + w1 in
    let v2 : ℕ = v1 * 2 ^ 16 + id / 2 ^ 32 % 2 ^ 16 in
    let v3 : ℕ = v2 * 2 ^ 16 + id / 2 ^ 16 % 2 ^ 16 in
    let t4 : List ℕ = group (id % 2 ^ 16) in
    let t3 : List ℕ = group (id / 2 ^ 16 % 2 ^ 16) ++ (b'-' ∷ t4) in
    let t2 : List ℕ = group (id / 2 ^ 32 % 2 ^ 16) ++ (b'-' ∷ t3) in
    parse_loop-group 0 0 w1 (b'-' ∷ t2) refl (omega arith) (omega arith)
    ∙ parse_loop_dash 4 v1 t2 refl
    ∙ parse_loop-group 5 v1 (id / 2 ^ 32 % 2 ^ 16) (b'-' ∷ t3) refl (omega arith) (omega arith)
    ∙ parse_loop_dash 9 v2 t3 refl
    ∙ parse_loop-group 10 v2 (id / 2 ^ 16 % 2 ^ 16) (b'-' ∷ t4) refl (omega arith) (omega arith)
    ∙ parse_loop_dash 14 v3 t4 refl
    ∙ parse_loop-group 15 v3 (id % 2 ^ 16) [] refl (omega arith) (omega arith)
    ∙ unfold parse_loop in ap ok (omega arith)

display_all_groups :
    (w1 w2 w3 w4 id : ℕ) (text rest : List ℕ)
    → text ≡ group w1 ++ rest
    → rest ≡ b'-' ∷ (group w2 ++ (b'-' ∷ (group w3 ++ (b'-' ∷ group w4))))
    → w1 < 2 ^ 16
    → w2 < 2 ^ 16
    → w3 < 2 ^ 16
    → w4 < 2 ^ 16
    → ((w1 * 2 ^ 16 + w2) * 2 ^ 16 + w3) * 2 ^ 16 + w4 ≡ id
    → (display id ≡ text) × IsU64 id
display_all_groups w1 w2 w3 w4 id text rest e e' b1 b2 b3 b4 q = (
  ap display (sym q)
      ∙ display_groups w1 w2 w3 w4 b1 b2 b3 b4
      ∙ sym (e ∙ ap (λ x. group w1 ++ x) e'),
  omega arith,
)

parsed_length : (text : List ℕ) {id : SegId} → parse text ≡ ok id → length text ≡ 19
unfolding parse
parsed_length text h = ground arith

parsed_loop : (text : List ℕ) {id : SegId} → parse text ≡ ok id → parse_loop 0 0 text ≡ ok id
unfolding parse
parsed_loop text h = ground arith

-- A text that parses is the text of the identifier that it parses to, which is a `u64`.
pub display-parse :
    (text : List ℕ) (id : SegId) → parse text ≡ ok id → (display id ≡ text) × IsU64 id
display-parse text id h =
    let (w, rest, e, l, b, p) =
      parse_loop-group_inv 0 0 15 text refl (omega arith) (parsed_length text h)
        (parsed_loop text h) in
    let p' : parse_loop 4 w rest ≡ ok id = ap (λ v. parse_loop 4 v rest) (omega arith) ∙ p in
    let (w2, w3, w4, e', b2, b3, b4, q) = last_three_groups w id rest b l p' in
    display_all_groups w w2 w3 w4 id text rest e e' b b2 b3 b4 q
