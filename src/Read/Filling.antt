-- ===== src/Read/Filling.antt =====
-- Reading and passing over the bytes of a record ends, whatever segment files it crosses.
use tcslog.Prelude.{
  ℕ, zero, suc, ◌+◌, ◌-◌, ◌≤◌, ◌<◌, ◌≡◌, refl, sym, ap, subst, ◌∙◌, arith, Bool, true, false,
  Option, none, some, List, [], ◌++◌, length, length-append, leb, min, Bool-cases, inl, inr,
}
use native.Mathlib.Nat.{le_of_eq}
use tcslog.Error.{LogError}
use tcslog.Exec.Post.{
  Ensures, Ensures-weaken, Ensures-skip, Ensures-bind, Ensures-gets_bind, Ensures-modify_bind,
  Ensures-if,
}
use tcslog.Fs.Ends.{read_exact-length}
use tcslog.Read.{Segment, Cursor, LogRead, Reader, Reads, exhausted}
use tcslog.Read.Fill.{cross_if_exhausted, count_bytes, fill_from, fill_loop, fill}
use tcslog.Read.Sound.{IsSound, OpenSound, IsPlaced, Holds, Fails, IsIo-Reports}
use tcslog.Read.Opening.{io_ensures}
use tcslog.Read.Search.{Holds-same}
use tcslog.Read.Crossing.{truncate-Fails, cross-Holds}

-- After `cross_if_exhausted` there are bytes to read, or a segment file was taken off the list.
pub record Ready (b : Bool) (k d : ℕ) (u : Unit {0}) (s : Reader) : Type 0 where
  pub holds : Holds b k d s
  pub ready : exhausted s.log ≡ true → length s.log.pending < k

pub cross_if_exhausted-Ready :
    (b : Bool) (k d : ℕ) (s : Reader)
    → Holds b k d s
    → Ensures cross_if_exhausted s (Ready b k d) (Fails b k d)
unfolding cross_if_exhausted
cross_if_exhausted-Ready b k d s h = Ensures-gets_bind _ _ s (
    Ensures-if (exhausted s.log) _ _ s
      (λ done.
        Ensures-weaken (cross-Holds b k d s h) (λ a t x. record { holds = x.0; ready = λ _. x.1 })
          (λ e t x. x))
      (λ more. Ensures-skip s (record { holds = h; ready = λ e. absurd (cc (sym more ∙ e)) })))

-- Bytes that were read are placed.
IsPlaced-advance :
    (b : Bool) (d n : ℕ) (c : Cursor) (dst bytes : List ℕ)
    → IsPlaced b d c dst
    → length bytes ≡ n
    → IsPlaced b (d + n) (count_bytes (length bytes) c) (dst ++ bytes)
IsPlaced-advance true d n c dst bytes h e = record {
  phase = h.phase;
  placed = omega (arith, length-append dst bytes, h.placed);
  counted = rw h.phase (omega (arith, h.counted));
}
IsPlaced-advance false d n c dst bytes h e = record {
  phase = h.phase;
  placed = omega (arith, length-append dst bytes, h.placed);
  counted = rw h.phase h.counted;
}

open_exhausted :
    (l : LogRead) (seg : Segment) → l.current ≡ some seg → exhausted l ≡ leb seg.data_len seg.pos
unfolding exhausted
open_exhausted l seg e = rw e

pub not_exhausted :
    (l : LogRead) (seg : Segment)
    → l.current ≡ some seg
    → exhausted l ≡ false
    → seg.pos < seg.data_len
not_exhausted l seg e more =
    let f : leb seg.data_len seg.pos ≡ false = sym (open_exhausted l seg e) ∙ more in
    ground (arith, f)

-- How a step fails that places up to `m` bytes.
pub record FailsWithin (b : Bool) (k m : ℕ) (e : LogError) (s : Reader) : Type 0 where
  pub reached : ℕ
  pub reached_le : reached ≤ m
  pub fails : Fails b k reached e s

pub weaken_bound :
    (b : Bool) (j k d d' : ℕ) (s : Reader) → j ≤ k → d ≡ d' → Holds b j d s → Holds b k d' s
weaken_bound b j k d d' s le e h =
    subst (λ (n : ℕ). Holds b k n s) e
      (record { sound = h.sound; bounded = omega (arith, h.bounded); placed = h.placed })

weaken_fails :
    (b : Bool) (j k m m' : ℕ) (e : LogError) (s : Reader)
    → j ≤ k
    → m ≤ m'
    → FailsWithin b j m e s
    → FailsWithin b k m' e s
weaken_fails b j k m m' e s le le' h = record {
  reached = h.reached;
  reached_le = omega (arith, h.reached_le);
  fails = record {
    still = weaken_bound b j k h.reached h.reached s le refl h.fails.still;
    reports = h.fails.reports;
  };
}

pub within :
    (b : Bool) (k d m : ℕ) (e : LogError) (s : Reader)
    → d ≤ m
    → Fails b k d e s
    → FailsWithin b k m e s
within b k d m e s le h = record { reached = d; reached_le = le; fails = h }

-- A round takes a byte, or a segment file was taken off the list before it.
pub progress :
    (l : LogRead) (seg : Segment) (left j k fuel : ℕ)
    → l.current ≡ some seg
    → (exhausted l ≡ true → j < k)
    → j ≤ k
    → suc left + k ≤ suc fuel
    → (suc left - min (seg.data_len - seg.pos) (suc left)) + j ≤ fuel
progress l seg left j k fuel e ready le room = elim (Bool-cases (exhausted l)) [
  | inl done ↦ omega (arith, ready done)
  | inr more ↦ omega (arith, not_exhausted l seg e more)
]

-- Enough fuel for what is left, and a continuation that keeps its promise with less.
abbrev Fills : Bool → ℕ → ℕ → (ℕ → Reads (Unit {0})) → Type 0
Fills b fuel m next =
    (k d left : ℕ) (s : Reader)
    → Holds b k d s
    → left + k ≤ fuel
    → d + left ≡ m
    → Ensures (next left) s (λ _ t. Holds b k m t) (FailsWithin b k m)

fill_from-Holds :
    (b : Bool) (k d left fuel : ℕ) (next : ℕ → Reads (Unit {0})) (o : Option Segment) (s : Reader)
    → Ready b k d tt s
    → s.log.current ≡ o
    → suc left + k ≤ suc fuel
    → Fills b fuel (d + suc left) next
    → Ensures
        (fill_from next (suc left) o)
        s
        (λ _ t. Holds b k (d + suc left) t)
        (FailsWithin b k (d + suc left))
unfolding fill_from
fill_from-Holds b k d left fuel next none s h e room go =
    Ensures-weaken (truncate-Fails {P = λ _ t. ⊥} b k d s h.holds) (λ a t x. absurd x)
      (λ x t y. within b k d (d + suc left) x t (omega arith) y)
fill_from-Holds b k d left fuel next (some seg) s h e room go =
    let sound : IsSound seg = subst OpenSound e h.holds.sound in
    let n : ℕ = min (seg.data_len - seg.pos) (suc left) in
    let j : ℕ = length s.log.pending in
    Ensures-bind (io_ensures _ s (read_exact-length seg.name seg.offset n s.world))
      (λ x t y. within b k d _ x t (omega arith) (record {
        still = Holds-same b k d s t y.0 h.holds;
        reports = IsIo-Reports _ x t.world y.1;
      }))
      λ bytes t y.
        let kept : Holds b k d t = Holds-same b k d s t y.0 h.holds in
        Ensures-modify_bind _ _ t (
          Ensures-weaken
            (go j (d + n) (suc left - n) _
              (record {
                sound = record {
                  named = sound.named;
                  fits = sound.fits;
                  within = omega (arith, y.1, sound.within);
                };
                bounded = le_of_eq (ap (λ (l : LogRead). length l.pending) y.0.log_same);
                placed = IsPlaced-advance b d n t.cursor t.dst bytes kept.placed y.1;
              })
              (progress s.log seg left j k fuel e h.ready h.holds.bounded room) (omega arith))
            (λ a u x. weaken_bound b j k _ _ u h.holds.bounded refl x)
            (λ x u z. weaken_fails b j k _ _ x u h.holds.bounded (omega arith) z))

fill_loop-Holds : (b : Bool) (fuel m : ℕ) → Fills b fuel m (fill_loop (suc fuel))
unfolding fill_loop
fill_loop-Holds b fuel m k d zero s h room e =
    Ensures-skip s (weaken_bound b k k d m s (omega arith) (omega arith) h)
fill_loop-Holds b zero m k d (suc left) s h room e = absurd (omega arith)
fill_loop-Holds b (suc fuel) m k d (suc left) s h room e =
    Ensures-bind (cross_if_exhausted-Ready b k d s h) (λ x t y. within b k d m x t (omega arith) y)
      λ u t y. Ensures-gets_bind _ _ t (
        subst
          (λ (n : ℕ).
            Ensures (fill_from (fill_loop (suc fuel)) (suc left) t.log.current) t
              (λ _ v. Holds b k n v) (FailsWithin b k n))
          e
          (fill_from-Holds b k d left fuel (fill_loop (suc fuel)) t.log.current t y refl room
            (fill_loop-Holds b fuel (d + suc left))))

-- In a reader that keeps the invariant and whose cursor counts no payload byte yet, reading `n`
-- bytes ends: with `n` bytes placed and the invariant kept, or with an error that reports no more
-- bytes than were placed and keeps it too.
pub fill-Holds :
    (b : Bool) (k d n : ℕ) (s : Reader)
    → Holds b k d s
    → s.cursor.payload_in_buf ≡ 0
    → Ensures (fill n) s (λ _ t. Holds b k n t) (FailsWithin b k n)
unfolding fill
fill-Holds b k d n s h e =
    let j : ℕ = length s.log.pending in
    let start : Reader = record s { dst = [] } in
    Ensures-modify_bind _ _ s (
      Ensures-gets_bind _ _ start (
        Ensures-weaken
          (fill_loop-Holds b (n + j) n j 0 n start
            (record {
              sound = h.sound;
              bounded = le_of_eq refl;
              placed = record { phase = h.placed.phase; placed = refl; counted = omega (arith, e) };
            })
            (omega arith) (omega arith))
          (λ a t x. weaken_bound b j k n n t h.bounded refl x)
          (λ x t y. weaken_fails b j k n n x t h.bounded (omega arith) y)))
