-- ===== src/Write/Widening.antt =====
-- tcslog/src/write.rs: widening the resolution makes naps that are long enough for any clock.
use tcslog.Prelude.{ℕ, zero, suc, ◌*◌, ◌≤◌, ◌<◌, arith, Bool, true, false, u64_max}
use native.Mathlib.Decide.{dec_le}
use tcslog.Fs.{Tick}
use tcslog.Clock.{nap_for, widened}

-- A resolution that `j` doublings bring up to the greatest `u64`.
abbrev pub Within : ℕ → ℕ → Type 0
Within zero resolution = u64_max ≤ resolution
Within (suc j) resolution = Within j (2 * resolution)

pub Within-mono : (j : ℕ) {r r' : ℕ} → r ≤ r' → Within j r → Within j r'
Within-mono zero le h = omega (arith, le, h)
Within-mono (suc j) le h = Within-mono j (omega (arith, le)) h

pub Within-u64_max : (j : ℕ) {r : ℕ} → u64_max ≤ r → Within j r
Within-u64_max zero le = le
Within-u64_max (suc j) le = Within-u64_max j (omega (arith, le))

-- Widening leaves one doubling less to do.
pub Within-widened : (j r : ℕ) → Within (suc j) r → Within j (widened r true)
unfolding widened
Within-widened j r h = elim (dec_le u64_max (2 * r)) [
  | yes le ↦ Within-u64_max j (ground (arith, le))
  | no more ↦ Within-mono j (ground (arith, more)) h
]

pub Within-widened_once : (j r : ℕ) (again : Bool) → Within j r → Within j (widened r again)
unfolding widened
Within-widened_once j r false h = h
Within-widened_once j r true h = Within-widened j r (Within-mono j (omega arith) h)

pub widened-pos : (r : ℕ) (again : Bool) → 0 < r → 0 < widened r again
unfolding widened
widened-pos r false h = h
widened-pos r true h = ground (arith, h)

-- At the coarsest resolution a nap is no shorter than a tick.
pub nap_for-long : (tick : Tick) (r : ℕ) → u64_max ≤ r → tick.nanos ≤ nap_for r
unfolding nap_for
nap_for-long tick r le = ground (arith, le, tick.small)

-- 64 doublings bring any resolution up to the greatest `u64`.
pub widest : Within 64 1
widest = omega arith
