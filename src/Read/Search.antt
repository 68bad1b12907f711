-- ===== src/Read/Search.antt =====
-- The search for a segment file ends, and what it opens can be read.
use tcslog.Prelude.{
  ℕ, ◌≤◌, ◌<◌, ◌≡◌, refl, sym, ap, subst, ◌∙◌, arith, Bool, true, false, Option, none, some, List,
  [], ◌∷◌, length,
}
use mathlib.Core.Path.{subst₂}
use tcslog.Exec.Post.{
  Ensures, Ensures-pure, Ensures-raise, Ensures-bind, Ensures-gets_bind, Ensures-modify_bind,
  Ensures-if,
}
use tcslog.SegId.{SegId}
use tcslog.Read.{Segment, LogRead, Reader}
use tcslog.Read.Open.{foreign, count_opened, enter_session, accept, open_loop, open_next}
use tcslog.Read.Sound.{IsSound, OpenSound, IsPlaced, Holds, Fails}
use tcslog.Read.Opening.{Opened, SameBut, open_validated-Opened}

pending-count_opened : (seg : Segment) (l : LogRead) → (count_opened seg l).pending ≡ l.pending
unfolding count_opened
pending-count_opened seg l = ground arith

pending-enter_session : (seg : Segment) (l : LogRead) → (enter_session seg l).pending ≡ l.pending
unfolding enter_session
pending-enter_session seg l = ground arith

-- A segment file is open, at the start of its data section.
abbrev pub IsOpen : Option Segment → Type 0
IsOpen none = ⊥
IsOpen (some seg) = seg.pos ≡ 0

-- A result of the search: a segment file is open, at its start, that was taken off the list, or none
-- is left.
pub record Found (b : Bool) (k d : ℕ) (open_now : Bool) (s : Reader) : Type 0 where
  pub still : Holds b k d s
  pub taken : open_now ≡ true → length s.log.pending < k
  pub open_there : open_now ≡ true → IsOpen s.log.current
  pub none_left : open_now ≡ false → s.log.pending ≡ []

accept-Found :
    (b : Bool) (k d : ℕ) (id : SegId) (seg : Segment) (s : Reader)
    → Holds b k d s
    → length s.log.pending < k
    → IsSound seg
    → seg.pos ≡ 0
    → Ensures (accept id seg) s (Found b k d) (Fails b k d)
unfolding accept
accept-Found b k d id seg s h room sound at_start = Ensures-gets_bind _ _ s (
    Ensures-if (foreign s.session seg.header) _ _ s
      (λ other. Ensures-modify_bind _ _ s (
        Ensures-raise _ _ (record {
          still = record { sound = h.sound; bounded = room; placed = h.placed };
          reports = tt;
        })))
      λ own. Ensures-modify_bind _ _ s (
        Ensures-modify_bind _ _ _ (
          Ensures-modify_bind _ _ _ (
            Ensures-pure true _ (
              let same : (enter_session seg (count_opened seg s.log)).pending ≡ s.log.pending =
                pending-enter_session seg (count_opened seg s.log)
                ∙ pending-count_opened seg s.log in
              record {
                still = record {
                  sound = sound;
                  bounded = rw same (omega (arith, room));
                  placed = h.placed;
                };
                taken = λ _. rw same room;
                open_there = λ _. at_start;
                none_left = λ e. absurd (cc e);
              })))))

pub Holds-same : (b : Bool) (k d : ℕ) (s t : Reader) → SameBut s t → Holds b k d s → Holds b k d t
Holds-same b k d s t e h = record {
  sound = subst (λ (l : LogRead). OpenSound l.current) (sym e.log_same) h.sound;
  bounded = subst (λ (l : LogRead). length l.pending ≤ k) (sym e.log_same) h.bounded;
  placed = subst₂ (IsPlaced b d) (sym e.cursor_same) (sym e.dst_same) h.placed;
}

tried-Found :
    (b : Bool) (k d : ℕ) (id : SegId) (rest : List SegId) (o : Option Segment) (t : Reader)
    → Holds b k d t
    → length t.log.pending < k
    → Opened id o
    → Ensures (open_loop rest) t (Found b k d) (Fails b k d)
    → Ensures
        (elim o [ none ↦ open_loop rest | some seg ↦ accept id seg ])
        t
        (Found b k d)
        (Fails b k d)
tried-Found b k d id rest none t h room x next = next
tried-Found b k d id rest (some seg) t h room x next = accept-Found b k d id seg t h room x.0 x.2

open_loop-Found :
    (b : Bool) (k d : ℕ) (ids : List SegId) (s : Reader)
    → Holds b k d s
    → length ids ≤ k
    → s.log.pending ≡ ids
    → Ensures (open_loop ids) s (Found b k d) (Fails b k d)
unfolding open_loop
open_loop-Found b k d [] s h room same = Ensures-pure false s (record {
  still = h;
  taken = λ e. absurd (cc e);
  open_there = λ e. absurd (cc e);
  none_left = λ _. same;
})
open_loop-Found b k d (id ∷ rest) s h room same =
    let popped : Reader = record s { log = record s.log { pending = rest } } in
    let h' : Holds b k d popped = record {
      sound = h.sound;
      bounded = omega (arith, room);
      placed = h.placed;
    } in
    Ensures-modify_bind _ _ s (
      Ensures-bind (open_validated-Opened id popped) (λ e t x. absurd x)
        λ o t p.
          let left : t.log.pending ≡ rest = ap (λ (l : LogRead). l.pending) (p.0.log_same) in
          tried-Found b k d id rest o t (Holds-same b k d popped t p.0 h')
            (subst (λ (l : List SegId). length l < k) (sym left) (omega (arith, room))) p.1
            (open_loop-Found b k d rest t (Holds-same b k d popped t p.0 h') (omega (arith, room))
              left))

-- In a reader that keeps the invariant, the search for the next segment file ends: with one open,
-- which is sound and was taken off the pending list, with none left, or with an error that keeps
-- the invariant.
pub open_next-Found :
    (b : Bool) (k d : ℕ) (s : Reader)
    → Holds b k d s
    → Ensures open_next s (Found b k d) (Fails b k d)
unfolding open_next
open_next-Found b k d s h =
    Ensures-gets_bind _ _ s (open_loop-Found b k d s.log.pending s h h.bounded refl)
