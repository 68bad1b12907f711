-- ===== src/Read/Skipping.antt =====
-- Passing over bytes of a record across segment files ends.
use tcslog.Prelude.{
  ℕ, zero, suc, ◌+◌, ◌-◌, ◌≤◌, ◌≡◌, refl, ap, subst, arith, Bool, Option, none, some, length, min,
}
use native.Mathlib.Nat.{le_of_eq}
use tcslog.Exec.Post.{
  Ensures, Ensures-weaken, Ensures-skip, Ensures-bind, Ensures-gets_bind, Ensures-modify_bind,
}
use tcslog.Fs.Ends.{attempt_ends}
use tcslog.Read.{Segment, LogRead, Reader, Reads}
use tcslog.Read.Fill.{
  cross_if_exhausted, count_bytes, fill_from, fill_loop, fill, skip_from, skip_loop,
}
use tcslog.Read.Fill
use tcslog.Read.Sound.{IsSound, OpenSound, Holds, Fails, IsIo-Reports}
use tcslog.Read.Opening.{io_ensures}
use tcslog.Read.Search.{Holds-same}
use tcslog.Read.Crossing.{truncate-Fails}
use tcslog.Read.Filling.{Ready, cross_if_exhausted-Ready, progress, weaken_bound}

abbrev Skips : Bool → ℕ → (ℕ → Reads (Unit {0})) → Type 0
Skips b fuel next =
    (k d left : ℕ) (s : Reader)
    → Holds b k d s
    → left + k ≤ fuel
    → Ensures (next left) s (λ _ t. Holds b k d t) (Fails b k d)

skip_from-Holds :
    (b : Bool) (k d left fuel : ℕ) (next : ℕ → Reads (Unit {0})) (o : Option Segment) (s : Reader)
    → Ready b k d tt s
    → s.log.current ≡ o
    → suc left + k ≤ suc fuel
    → Skips b fuel next
    → Ensures (skip_from next (suc left) o) s (λ _ t. Holds b k d t) (Fails b k d)
unfolding skip_from
skip_from-Holds b k d left fuel next none s h e room go = truncate-Fails b k d s h.holds
skip_from-Holds b k d left fuel next (some seg) s h e room go =
    let sound : IsSound seg = subst OpenSound e h.holds.sound in
    let n : ℕ = min (seg.data_len - seg.pos) (suc left) in
    let j : ℕ = length s.log.pending in
    Ensures-bind (io_ensures _ s (attempt_ends s.world))
      (λ x t y. record {
        still = Holds-same b k d s t y.0 h.holds;
        reports = IsIo-Reports _ x t.world y.1;
      })
      λ u t y.
        let kept : Holds b k d t = Holds-same b k d s t y.0 h.holds in
        Ensures-modify_bind _ _ t (
          Ensures-weaken
            (go j d (suc left - n) _
              (record {
                sound = record {
                  named = sound.named;
                  fits = sound.fits;
                  within = omega (arith, sound.within);
                };
                bounded = le_of_eq (ap (λ (l : LogRead). length l.pending) y.0.log_same);
                placed = record {
                  phase = kept.placed.phase;
                  placed = kept.placed.placed;
                  counted = kept.placed.counted;
                };
              })
              (progress s.log seg left j k fuel e h.ready h.holds.bounded room))
            (λ a v x. weaken_bound b j k d d v h.holds.bounded refl x)
            (λ x v z. record {
              still = weaken_bound b j k d d v h.holds.bounded refl z.still;
              reports = z.reports;
            }))

skip_loop-Holds : (b : Bool) (fuel : ℕ) → Skips b fuel (skip_loop (suc fuel))
unfolding skip_loop
skip_loop-Holds b fuel k d zero s h room = Ensures-skip s h
skip_loop-Holds b zero k d (suc left) s h room = absurd (omega arith)
skip_loop-Holds b (suc fuel) k d (suc left) s h room =
    Ensures-bind (cross_if_exhausted-Ready b k d s h) (λ x t y. y)
      λ u t y. Ensures-gets_bind _ _ t (
        skip_from-Holds b k d left fuel (skip_loop (suc fuel)) t.log.current t y refl room
          (skip_loop-Holds b fuel))

-- In a reader that keeps the invariant, passing over `n` bytes ends: with the invariant kept and
-- nothing more placed, or with an error that reports no more bytes than stand in the buffer.
pub skip-Holds :
    (b : Bool) (k d n : ℕ) (s : Reader)
    → Holds b k d s
    → Ensures (Fill.skip n) s (λ _ t. Holds b k d t) (Fails b k d)
unfolding Fill.skip
skip-Holds b k d n s h =
    let j : ℕ = length s.log.pending in
    Ensures-gets_bind _ _ s (
      Ensures-weaken
        (skip_loop-Holds b (n + j) j d n s
          (record { sound = h.sound; bounded = le_of_eq refl; placed = h.placed }) (omega arith))
        (λ a t x. weaken_bound b j k d d t h.bounded refl x)
        (λ x t y. record {
          still = weaken_bound b j k d d t h.bounded refl y.still;
          reports = y.reports;
        }))
