-- ===== src/Clock.antt =====
-- `Clock`, `nap_for` and `widened` of tcslog/src/write.rs.
pub mod Order
use tcslog.Prelude.{
  ℕ, zero, suc, ◌+◌, ◌-◌, ◌*◌, ◌≤◌, ◌<◌, ◌≡◌, Bool, true, false, Option, none, some, List, ltb, leb,
  ◌==◌, if◌then◌else◌, u64_max, saturating_mul, min,
}
use tcslog.Exec.{Exec, pure, raise, gets, modify, lift, ◌>>=◌, ◌>>◌}
use tcslog.Error.{Result, ok, err, clock_error, timestamp_overflow}
use tcslog.Fs.{World, Io, monotonic}
use tcslog.SegId.{SegId}

-- Nanoseconds from the UNIX epoch to the monotonic reading that they are paired with.
pub record Clock : Type 0 where
  pub delta : ℕ
  pub mono : ℕ

-- `Duration::from_nanos(resolution.saturating_mul(2))`
unfoldable pub nap_for : ℕ → ℕ
nap_for resolution = saturating_mul u64_max resolution 2

unfoldable pub widened : ℕ → Bool → ℕ
widened resolution collided_before =
    if collided_before then saturating_mul u64_max resolution 2 else resolution

-- A count of nanoseconds that is no `u64`, or all ones, is refused.
unfoldable pub stamp : ℕ → Result ℕ
stamp ns = if ltb ns u64_max then ok ns else err timestamp_overflow

unfoldable pub anchor : ℕ → ℕ → Io Clock
anchor since_epoch mono = do
  delta ← lift (stamp since_epoch)
  if delta == 0 then raise clock_error else pure (record { delta = delta; mono = mono })

-- The real-time clock is read first.
unfoldable pub new : Io Clock
new = do
  since_epoch ← gets (λ w. w.real)
  elim since_epoch [ none ↦ raise clock_error | some t ↦ (do m ← monotonic; anchor t m) ]

unfoldable pub now : Clock → Io ℕ
now clock = do m ← monotonic; lift (stamp (clock.delta + (m - clock.mono)))

unfoldable pub now_seg_id : Clock → Io SegId
now_seg_id clock = now clock

unfoldable pub advance_past : SegId → Clock → Io Clock
advance_past id clock = do
  lift (stamp (id + 1))
  t ← now clock
  if leb t id
      then (do
        delta ← lift (stamp (clock.delta + (id - t) + 1))
        pure (record clock { delta = delta }))
      else pure clock
