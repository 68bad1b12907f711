-- ===== src/Gen/Payload.antt =====
-- A payload has a length in its range.
use tcslog.Prelude.{
  ℕ, zero, suc, ◌+◌, ◌-◌, ◌%◌, ◌^◌, ◌≤◌, ◌<◌, arith, inl, inr, Bool-cases, List, [], ◌∷◌, ◌++◌,
  length, length-append, length-take, ltb, ◌==◌,
}
use native.Mathlib.Nat.{mod-lt}
use tcslog.Decimal.{decimal}
use tcslog.Gen.{
  RecordFormatSpec, min_size, max_size, next_u64, rec_size_or_zero, pick_target, filler, fill_up,
  build_payload,
}

fill_up-full :
    (fuel target : ℕ) (buf : List ℕ)
    → target ≤ fuel + length buf
    → target ≤ length (fill_up fuel target buf)
unfolding fill_up
fill_up-full zero target buf h = omega arith
fill_up-full (suc fuel) target buf h = elim (Bool-cases (ltb (length buf) target)) [
  | inl more ↦
      rw (fill_up, more)
        (fill_up-full fuel target (buf ++ filler) (omega (arith, length-append buf filler)))
  | inr full ↦ rw (fill_up, full) (ground (arith, full))
]

-- What is drawn from a range stays in it, and nothing wraps around.
drawn_within :
    (low high r : ℕ)
    → low ≤ high
    → high < 2 ^ 32
    → r < (high + 2 ^ 32 - low) % 2 ^ 32 + 1
    → (low ≤ (low + rec_size_or_zero r) % 2 ^ 32) × ((low + rec_size_or_zero r) % 2 ^ 32 ≤ high)
drawn_within low high r h k l = ground arith

pick_target-within :
    (spec : RecordFormatSpec) (rng : ℕ)
    → min_size spec ≤ max_size spec
    → max_size spec < 2 ^ 32
    → (min_size spec ≤ (pick_target spec rng).0) × ((pick_target spec rng).0 ≤ max_size spec)
unfolding pick_target
pick_target-within spec rng h k = elim (Bool-cases (min_size spec == max_size spec)) [
  | inl e ↦ rw (pick_target, e) (omega arith, ground (arith, e))
  | inr e ↦
      rw (pick_target, e)
        (drawn_within (min_size spec) (max_size spec) _ h k (mod-lt (next_u64 rng).0 (omega arith)))
]

-- A payload's length is within the range of the specification, whatever the record's number and the
-- generator's state, where the range is one of `u32`s that is not empty.
pub length-build_payload :
    (spec : RecordFormatSpec) (index rng : ℕ)
    → min_size spec ≤ max_size spec
    → max_size spec < 2 ^ 32
    → (min_size spec ≤ length (build_payload spec index rng).0)
      × (length (build_payload spec index rng).0 ≤ max_size spec)
unfolding build_payload
length-build_payload spec index rng h k =
    let target : ℕ = (pick_target spec rng).0 in
    let buf : List ℕ = b'#' ∷ (decimal ((index + 1) % 2 ^ 64) ++ (b' ' ∷ [])) in
    let within = pick_target-within spec rng h k in
    let full = fill_up-full target target buf (omega arith) in
    let len = length-take target (fill_up target target buf) in
    (omega (arith, within.0, full, len), omega (arith, within.1, len))
