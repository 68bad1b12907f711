-- ===== src/Read/Finding.antt =====
-- The search for a record to start at ends.
use tcslog.Prelude.{
  ℕ, zero, suc, ◌≤◌, ◌<◌, u32_max, ◌≡◌, refl, sym, subst, arith, Bool, true, false, Option, none,
  some, List, length, leb,
}
use tcslog.Exec.Post.{
  Ensures, Ensures-pure, Ensures-raise, Ensures-weaken, Ensures-bind, Ensures-gets_bind,
  Ensures-modify_bind, Ensures-if,
}
use tcslog.Fs.Ends.{attempt_ends}
use tcslog.SegId.{SegId}
use tcslog.Read.{Segment, LogRead, Reader, Reads, Recovery, Start, fresh, recovered}
use tcslog.Read.Open.{
  recovered_payload_len, try_recovery, seek_to_record, start_in, look_at, find_loop,
  find_record_start,
}
use tcslog.Read.Sound.{IsSound, OpenSound, Holds, Fails, IsIo-Reports}
use tcslog.Read.Opening.{io_ensures}
use tcslog.Read.Search.{IsOpen, Found, Holds-same, open_next-Found}

-- Where a record starts in the segment file that is open: past the bytes that `remaining` counts,
-- with some data left, or, for a recovered one, at the start of the file, where `remaining` counts
-- its whole payload.
abbrev pub StartsAt : Start → Option Segment → Type 0
StartsAt start none = ⊥
StartsAt fresh (some seg) = (seg.pos ≡ seg.header.remaining) × (seg.pos < seg.data_len)
StartsAt (recovered n) (some seg) =
    (seg.pos ≡ 0) × (n ≡ seg.header.remaining) × (0 < n) × (n ≤ u32_max)

-- A search for a record that ends: with the invariant, and a segment file open that was taken off
-- the list and in which a record starts.
pub record Begins (b : Bool) (k d : ℕ) (start : Start) (s : Reader) : Type 0 where
  pub still : Holds b k d s
  pub taken : length s.log.pending < k
  pub starts : StartsAt start s.log.current

try_recovery-remaining :
    (recovery : Option Recovery) (seg : Segment) {n : ℕ}
    → try_recovery recovery seg ≡ some n
    → (n ≡ seg.header.remaining) × (0 < n) × (n ≤ u32_max)
unfolding recovered_payload_len
try_recovery-remaining none seg e = absurd (cc e)
try_recovery-remaining (some recovery) seg e = ground (arith, e)

start_in-Begins :
    (b : Bool) (k d : ℕ) (next : Reads Start) (o : Option ℕ) (seg : Segment) (s : Reader)
    → Holds b k d s
    → length s.log.pending < k
    → s.log.current ≡ some seg
    → IsSound seg
    → seg.pos ≡ 0
    → ((n : ℕ) → o ≡ some n → (n ≡ seg.header.remaining) × (0 < n) × (n ≤ u32_max))
    → ((t : Reader)
        → t.log.pending ≡ s.log.pending
        → Holds b k d t
        → Ensures next t (Begins b k d) (Fails b k d))
    → Ensures (start_in next o seg) s (Begins b k d) (Fails b k d)
unfolding start_in seek_to_record
start_in-Begins b k d next (some n) seg s h room there sound at_start given go =
    let g : (n ≡ seg.header.remaining) × (0 < n) × (n ≤ u32_max) = given n refl in
    Ensures-pure _ s (record {
      still = h;
      taken = room;
      starts = subst (StartsAt (recovered n)) (sym there) (at_start, g.0, g.1, g.2);
    })
start_in-Begins b k d next none seg s h room there sound at_start given go =
    Ensures-if (leb seg.data_len seg.header.remaining) _ _ s
      (λ tail.
        Ensures-modify_bind _ _ s
          (go _ refl (record { sound = tt; bounded = h.bounded; placed = h.placed })))
      λ inside.
        Ensures-bind (io_ensures _ s (attempt_ends s.world))
          (λ e t x. record {
            still = Holds-same b k d s t x.0 h;
            reports = IsIo-Reports _ e t.world x.1;
          })
          λ a t x.
            let h' : Holds b k d t = Holds-same b k d s t x.0 h in
            Ensures-modify_bind _ _ t (
              Ensures-pure _ _ (record {
                still = record {
                  sound = record { named = sound.named; fits = sound.fits; within = ground arith };
                  bounded = h'.bounded;
                  placed = h'.placed;
                };
                taken = subst (λ (l : LogRead). length l.pending < k) (sym x.0.log_same) room;
                starts = (refl, ground arith);
              }))

look_at-Begins :
    (b : Bool) (k d : ℕ) (next : Reads Start) (recovery : Option Recovery) (now : Bool)
    (o : Option Segment) (s : Reader)
    → Found b k d now s
    → s.log.current ≡ o
    → ((t : Reader)
        → length t.log.pending < k
        → Holds b k d t
        → Ensures next t (Begins b k d) (Fails b k d))
    → Ensures (look_at next recovery now o) s (Begins b k d) (Fails b k d)
unfolding look_at
look_at-Begins b k d next recovery false o s h e go =
    Ensures-raise _ s (record { still = h.still; reports = tt })
look_at-Begins b k d next recovery true none s h e go =
    Ensures-raise _ s (record { still = h.still; reports = tt })
look_at-Begins b k d next recovery true (some seg) s h e go =
    start_in-Begins b k d next (try_recovery recovery seg) seg s h.still (h.taken refl) e
      (subst OpenSound e h.still.sound) (subst IsOpen e (h.open_there refl))
      (λ n. try_recovery-remaining recovery seg)
      λ t same h'. go t (subst (λ (l : List SegId). length l < k) (sym same) (h.taken refl)) h'

find_loop-Begins :
    (b : Bool) (k d : ℕ) (s : Reader)
    → Holds b k d s
    → Ensures (find_loop (suc k)) s (Begins b k d) (Fails b k d)
unfolding find_loop
find_loop-Begins b zero d s h = Ensures-gets_bind _ _ s (
    Ensures-modify_bind _ _ s (
      Ensures-bind
        (open_next-Found b zero d _
          (record { sound = h.sound; bounded = h.bounded; placed = h.placed }))
        (λ e t x. x)
        λ now t x. Ensures-gets_bind _ _ t (
          look_at-Begins b zero d _ _ now t.log.current t x refl
            λ u lt h'. absurd (omega (arith, lt)))))
find_loop-Begins b (suc k) d s h = Ensures-gets_bind _ _ s (
    Ensures-modify_bind _ _ s (
      Ensures-bind
        (open_next-Found b (suc k) d _
          (record { sound = h.sound; bounded = h.bounded; placed = h.placed }))
        (λ e t x. x)
        λ now t x. Ensures-gets_bind _ _ t (
          look_at-Begins b (suc k) d _ _ now t.log.current t x refl λ u lt h'.
            Ensures-weaken
              (find_loop-Begins b k d u
                (record { sound = h'.sound; bounded = omega (arith, lt); placed = h'.placed }))
              (λ a v y. record {
                still = record {
                  sound = y.still.sound;
                  bounded = omega (arith, y.still.bounded);
                  placed = y.still.placed;
                };
                taken = omega (arith, y.taken);
                starts = y.starts;
              })
              (λ e v y. record {
                still = record {
                  sound = y.still.sound;
                  bounded = omega (arith, y.still.bounded);
                  placed = y.still.placed;
                };
                reports = y.reports;
              }))))

pub find_record_start-Begins :
    (b : Bool) (k d : ℕ) (s : Reader)
    → Holds b k d s
    → Ensures find_record_start s (Begins b k d) (Fails b k d)
unfolding find_record_start
find_record_start-Begins b k d s h =
    let n : ℕ = length s.log.pending in
    Ensures-gets_bind _ _ s (
      Ensures-weaken
        (find_loop-Begins b n d s
          (record { sound = h.sound; bounded = omega arith; placed = h.placed }))
        (λ a v y. record {
          still = record {
            sound = y.still.sound;
            bounded = omega (arith, y.still.bounded, h.bounded);
            placed = y.still.placed;
          };
          taken = omega (arith, y.taken, h.bounded);
          starts = y.starts;
        })
        (λ e v y. record {
          still = record {
            sound = y.still.sound;
            bounded = omega (arith, y.still.bounded, h.bounded);
            placed = y.still.placed;
          };
          reports = y.reports;
        }))
