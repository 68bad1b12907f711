-- ===== src/Read/Spend/Middle.antt =====
-- The measure of a reader in the middle of a record, and what changes it there.
use tcslog.Prelude.{ℕ, ◌+◌, ◌-◌, ◌≤◌, ◌≡◌, ap, sym, subst, arith, Option, none, some, inr, ◌⊎◌}
use mathlib.Core.Path.{subst₂}
use tcslog.Error.{LogError}
use tcslog.Exec.Partial.{Keeps, Keeps-skip, Keeps-gets_bind, Keeps-if, Keeps-weaken}
use tcslog.Read.{Segment, Cursor, LogRead, Reader, exhausted}
use tcslog.Read.Fill.{cross_if_exhausted}
use tcslog.Read.Spend.{Gone, backlog, unread, held, in_session, cost, Pays, Kept, reframe}
use tcslog.Read.Spend.Opening.{Same}
use tcslog.Read.Spend.Searching.{Kept-Same}
use tcslog.Read.Spend.Finding.{Taken-cost}
use tcslog.Read.Spend.Crossing.{cross-Taken}

-- In the middle of a record, with a segment file open and no more than `k` pending. What a crossing
-- implies for the payload was implied by a segment file that was taken off the list since.
pub record Mid (r : Reader) (k : ℕ) (s : Reader) : Type 0 where
  pub kept : Kept r s
  pub is_open : 2 ≤ unread s.current
  pub room : backlog r s.pending ≤ k
  pub implied : (s.cursor.implied_payload ≡ none) ⊎ (held r s.current + backlog r s.pending ≤ k)

pub cost-Same : (r s t : Reader) → Same s t → cost r t ≡ cost r s
cost-Same r s t h =
    ap (λ (l : LogRead). backlog r l.pending + in_session l.session + unread l.current)
      h.but.log_same

pub Mid-Same : (r : Reader) (k : ℕ) (s t : Reader) → Same s t → Mid r k s → Mid r k t
Mid-Same r k s t h m = record {
  kept = Kept-Same r s t h m.kept;
  is_open = subst (λ (l : LogRead). 2 ≤ unread l.current) (sym h.but.log_same) m.is_open;
  room = subst (λ (l : LogRead). backlog r l.pending ≤ k) (sym h.but.log_same) m.room;
  implied =
      subst₂
        (λ (l : LogRead) (c : Cursor).
          (c.implied_payload ≡ none) ⊎ (held r l.current + backlog r l.pending ≤ k))
        (sym h.but.log_same) (sym h.but.cursor_same) m.implied;
}

pub Mid-Gone : (r : Reader) (k : ℕ) (e : LogError) (s : Reader) → Mid r k s → Gone r (cost r s) e s
Mid-Gone r k e s m = record { framed = m.kept.framed; spent = (omega (arith, m.is_open)) }

-- A step that has `n` bytes less ahead of it than `m`.
abbrev pub Consumed : Reader → ℕ → ℕ → ℕ → Reader → Type 0
Consumed r k m n t = Mid r k t × (cost r t + n ≤ m)

pub cross_if_exhausted-Mid :
    (r : Reader) (k : ℕ) (s : Reader)
    → Mid r k s
    → Keeps cross_if_exhausted s (λ _ t. Consumed r k (cost r s) 0 t) (Gone r (cost r s))
unfolding cross_if_exhausted
cross_if_exhausted-Mid r k s m = Keeps-gets_bind _ _ s (
    Keeps-if (exhausted s.log) _ _ s
      (λ done.
        Keeps-weaken (cross-Taken r s m.kept m.is_open)
          (λ a t x. (
            record {
              kept = x.kept;
              is_open = x.is_open;
              room = omega (arith, x.held_le, m.room);
              implied = inr (omega (arith, x.held_le, m.room));
            },
            omega (arith, Taken-cost r (backlog r s.pending) t x),
          ))
          (λ e t x. x))
      (λ more. Keeps-skip s (m, omega arith)))

-- The step from `s` to `t` has moved the open segment file's read position on by `n` bytes.
pub record Moved (seg moved : Segment) (n : ℕ) (s t : Reader) : Type 0 where
  pub data_len_same : moved.data_len ≡ seg.data_len
  pub pos_moved : moved.pos ≡ seg.pos + n
  pub id_same : moved.id ≡ seg.id
  pub header_same : moved.header ≡ seg.header
  pub log_moved : t.log ≡ record s.log { current = some moved }
  pub files_same : t.world.files ≡ s.world.files
  pub implied_same : t.cursor.implied_payload ≡ s.cursor.implied_payload

pub Moved-cost :
    (r : Reader) (seg moved : Segment) (n : ℕ) (s t : Reader)
    → Moved seg moved n s t
    → s.current ≡ some seg
    → n ≤ seg.data_len - seg.pos
    → cost r t + n ≡ cost r s
unfolding unread
Moved-cost r seg moved n s t h e le =
    rw (h.log_moved, e) (omega (arith, h.data_len_same, h.pos_moved, le))

pub Moved-Mid :
    (r : Reader) (k : ℕ) (seg moved : Segment) (n : ℕ) (s t : Reader)
    → Moved seg moved n s t
    → s.current ≡ some seg
    → Mid r k s
    → Mid r k t
unfolding unread held
Moved-Mid r k seg moved n s t h e m =
    let pays : Pays r (some seg) = subst (Pays r) e m.kept.pays in
    record {
      kept = record {
        framed =
            reframe m.kept.framed h.files_same (ap (λ (l : LogRead). l.prefix) h.log_moved)
              (ap (λ (l : LogRead). l.suffix) h.log_moved);
        pays = rw (h.log_moved, h.data_len_same, h.id_same, h.header_same) pays;
      };
      is_open = rw h.log_moved (omega arith);
      room = rw h.log_moved m.room;
      implied =
          rw (h.log_moved, h.implied_same, h.id_same)
            (subst
              (λ (o : Option Segment).
                (s.cursor.implied_payload ≡ none) ⊎ (held r o + backlog r s.pending ≤ k))
              e m.implied);
    }
