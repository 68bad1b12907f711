-- ===== src/Fs/Ticks.antt =====
-- What a nap does to a monotonic clock that moves by ticks.
use tcslog.Prelude.{ℕ, ◌≤◌, ◌<◌, arith}
use native.Mathlib.Nat.{mod-lt}
use tcslog.Fs.{Tick, whole_ticks}

-- A nap of a tick or more moves the reading.
pub whole_ticks-pos : (tick : Tick) (nap : ℕ) → tick.nanos ≤ nap → 0 < whole_ticks tick nap
unfolding whole_ticks
whole_ticks-pos tick nap le = omega (arith, le, mod-lt nap tick.positive)
