-- ===== src/Tests/Clock.antt =====
-- A clock read twice, across a nap, and after it was advanced.
use tcslog.Prelude.{◌<◌, ◌≤◌, refl, arith, u64_max}
use tcslog.Exec.{◌>>=◌}
use tcslog.Fs.{World, monotonic, whole_ticks, sleep}
use tcslog.Clock.{Clock, stamp, now, advance_past, nap_for}
use tcslog.Clock.Order.{now_monotone, now_after_nap, now-advance_past}
use tcslog.Tests.Data.{two_files}

abbrev clock_100 : Clock
clock_100 = record { delta = 100; mono = 5 }

abbrev clock_500 : Clock
clock_500 = record { delta = 500; mono = 5 }

now_monotone_example : (101 ≤ 103) × (103 < u64_max)
unfolding now stamp monotonic ◌>>=◌
now_monotone_example = now_monotone clock_100 two_files refl refl

-- A clock that ticks every two nanoseconds.
abbrev coarse : World
coarse = record two_files {
  tick = record { nanos = 2; positive = omega arith; small = omega arith };
}

now_after_nap_example : 101 < 105
unfolding now stamp monotonic sleep whole_ticks nap_for ◌>>=◌
now_after_nap_example = now_after_nap clock_100 coarse 1 (omega arith) (omega arith) refl refl

now-advance_past_example : 500 < 503
unfolding advance_past now stamp monotonic ◌>>=◌
now-advance_past_example =
    now-advance_past 500 clock_100 clock_500 two_files (advance_past 500 clock_100 two_files).1
      (omega arith) refl refl
