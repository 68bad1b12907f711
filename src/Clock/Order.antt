-- ===== src/Clock/Order.antt =====
-- The times that a clock mints.
use tcslog.Prelude.{ℕ, ◌*◌, ◌≤◌, ◌<◌, ◌≡◌, arith, u64_max, saturating_mul}
use tcslog.Exec.{◌>>=◌}
use tcslog.Error.{ok}
use tcslog.Fs.{World, monotonic, whole_ticks, sleep}
use tcslog.Fs.Ticks.{whole_ticks-pos}
use tcslog.SegId.{SegId}
use tcslog.Clock.{Clock, stamp, now, advance_past, nap_for}

-- A time that is read later is no earlier, and both are below all ones.
pub now_monotone :
    (c : Clock) (w : World) {t t' : ℕ}
    → (now c w).0 ≡ ok t
    → (now c (now c w).1).0 ≡ ok t'
    → (t ≤ t') × (t' < u64_max)
unfolding now stamp monotonic ◌>>=◌
now_monotone c w h k = ground arith

-- A clock that is not ahead of the monotonic one and that mints a time, and mints another after
-- the nap that a collision calls for, mints a later one, where the monotonic clock ticks at least
-- once in every two times the resolution.
pub now_after_nap :
    (c : Clock) (w : World) (resolution : ℕ) {t t' : ℕ}
    → w.tick.nanos ≤ 2 * resolution
    → c.mono ≤ w.mono
    → (now c w).0 ≡ ok t
    → (now c (sleep (nap_for resolution) (now c w).1).1).0 ≡ ok t'
    → t < t'
unfolding now stamp monotonic sleep nap_for ◌>>=◌
now_after_nap c w resolution enough le h k =
    let long : w.tick.nanos ≤ saturating_mul u64_max resolution 2 =
      ground (arith, enough, w.tick.small) in
    let moves : 0 < whole_ticks w.tick (saturating_mul u64_max resolution 2) =
      whole_ticks-pos w.tick _ long in
    ground (arith, moves)

-- Once a clock that is not ahead of the monotonic one has been advanced past an identifier, every
-- time that it mints is later than it.
pub now-advance_past :
    (id : SegId) (c c' : Clock) (w w' : World) {t : ℕ}
    → c.mono ≤ w.mono
    → advance_past id c w ≡ (ok c', w')
    → (now c' w').0 ≡ ok t
    → id < t
unfolding advance_past now stamp monotonic ◌>>=◌
now-advance_past id c c' w w' le h k = ground arith
