-- ===== src/Read/Spend/Filling.antt =====
-- The measure of a reader across `fill` and `skip`.
use tcslog.Prelude.{
  ℕ, zero, suc, ◌+◌, ◌-◌, ◌≤◌, ◌≡◌, refl, ap, subst, arith, Option, none, some, length, min,
}
use tcslog.Error.{LogError}
use tcslog.Exec.Post.{Ensures-both}
use tcslog.Exec.Partial.{
  Keeps, Keeps-skip, Keeps-bind, Keeps-gets_bind, Keeps-modify_bind, Keeps-Ensures, Keeps-weaken,
  Keeps-out_of_fuel,
}
use tcslog.Fs.Ends.{read_exact-length}
use tcslog.Fs.Frame.{attempt-Unchanged, read_exact-Unchanged}
use tcslog.Read.{Segment, Cursor, LogRead, Reader, Reads, as_i64}
use tcslog.Read.Fill
use tcslog.Read.Fill.{
  cross_if_exhausted, count_bytes, fill_from, fill_loop, fill, skip_from, skip_loop,
}
use tcslog.Read.Opening.{io_ensures}
use tcslog.Read.Spend.{Gone, weaken-Gone, cost, reframe}
use tcslog.Read.Spend.Opening.{Same, io-Same}
use tcslog.Read.Spend.Crossing.{truncate-Gone}
use tcslog.Read.Spend.Middle.{
  Mid, cost-Same, Mid-Same, Mid-Gone, Consumed, cross_if_exhausted-Mid, Moved, Moved-cost,
  Moved-Mid,
}

abbrev moved_on : Segment → ℕ → Segment
moved_on seg n = record seg { offset = seg.offset + n; pos = seg.pos + n }

abbrev passed_over : Segment → ℕ → Segment
passed_over seg n = record seg { offset = seg.offset + as_i64 n; pos = seg.pos + n }

module _ (r : Reader) (k : ℕ) where
  abbrev Steps : (ℕ → Reads (Unit {0})) → Type 0
  Steps next =
      (left : ℕ) (s : Reader)
      → Mid r k s
      → Keeps (next left) s (λ _ t. Consumed r k (cost r s) left t) (Gone r (cost r s))

  -- A round that has moved on by `n` bytes, and the rounds after it.
  after_move :
      (next : ℕ → Reads (Unit {0})) (seg moved : Segment) (n left : ℕ) (s t : Reader)
      → Steps next
      → Mid r k s
      → s.current ≡ some seg
      → n ≤ seg.data_len - seg.pos
      → n ≤ left
      → Moved seg moved n s t
      → Keeps (next (left - n)) t (λ _ u. Consumed r k (cost r s) left u) (Gone r (cost r s))
  after_move next seg moved n left s t go m e le le' h =
      let same_cost : cost r t + n ≡ cost r s = Moved-cost r seg moved n s t h e le in
      Keeps-weaken (go (left - n) t (Moved-Mid r k seg moved n s t h e m))
        (λ a u x. (x.0, omega (arith, x.1, same_cost)))
        (λ x u y. weaken-Gone r (cost r t) (cost r s) x u (omega (arith, same_cost)) y)

  -- Nothing but the world has changed when an operation on the file fails.
  failed_io : (x : LogError) (s t : Reader) → Same s t → Mid r k s → Gone r (cost r s) x t
  failed_io x s t e m =
      subst (λ (c : ℕ). Gone r c x t) (cost-Same r s t e) (Mid-Gone r k x t (Mid-Same r k s t e m))

  fill_from-Mid :
      (next : ℕ → Reads (Unit {0})) (left : ℕ) (o : Option Segment) (s : Reader)
      → Steps next
      → Mid r k s
      → s.current ≡ o
      → Keeps (fill_from next left o) s (λ _ t. Consumed r k (cost r s) left t) (Gone r (cost r s))
  unfolding fill_from
  fill_from-Mid next left none s go m e =
      truncate-Gone r (cost r s) s m.kept.framed (omega (arith, m.is_open))
  fill_from-Mid next left (some seg) s go m e =
      let n : ℕ = min (seg.data_len - seg.pos) left in
      Keeps-bind
        (Keeps-Ensures (
          Ensures-both (io-Same _ s (read_exact-Unchanged seg.name seg.offset n s.world))
            (io_ensures _ s (read_exact-length seg.name seg.offset n s.world))))
        (λ x t y. failed_io x s t y.0 m)
        λ bytes t y. Keeps-modify_bind _ _ t (
          after_move next seg (moved_on seg (length bytes)) n left s _ go m e (omega arith)
            (omega arith)
            (record {
              data_len_same = refl;
              pos_moved = ap (λ (i : ℕ). seg.pos + i) y.1.1;
              id_same = refl;
              header_same = refl;
              log_moved =
                  ap (λ (l : LogRead). record l { current = some (moved_on seg (length bytes)) })
                    y.0.but.log_same;
              files_same = y.0.files_same;
              implied_same = ap (λ (c : Cursor). c.implied_payload) y.0.but.cursor_same;
            }))

  skip_from-Mid :
      (next : ℕ → Reads (Unit {0})) (left : ℕ) (o : Option Segment) (s : Reader)
      → Steps next
      → Mid r k s
      → s.current ≡ o
      → Keeps (skip_from next left o) s (λ _ t. Consumed r k (cost r s) left t) (Gone r (cost r s))
  unfolding skip_from
  skip_from-Mid next left none s go m e =
      truncate-Gone r (cost r s) s m.kept.framed (omega (arith, m.is_open))
  skip_from-Mid next left (some seg) s go m e =
      let n : ℕ = min (seg.data_len - seg.pos) left in
      Keeps-bind (Keeps-Ensures (io-Same _ s (attempt-Unchanged s.world)))
        (λ x t y. failed_io x s t y m)
        λ a t y. Keeps-modify_bind _ _ t (
          after_move next seg (passed_over seg n) n left s _ go m e (omega arith) (omega arith)
            (record {
              data_len_same = refl;
              pos_moved = refl;
              id_same = refl;
              header_same = refl;
              log_moved =
                  ap (λ (l : LogRead). record l { current = some (passed_over seg n) })
                    y.but.log_same;
              files_same = y.files_same;
              implied_same = ap (λ (c : Cursor). c.implied_payload) y.but.cursor_same;
            }))

  -- Once there are bytes to read.
  crossed_first :
      (m : Reads (Unit {0})) (left : ℕ) (s t : Reader)
      → cost r t + 0 ≤ cost r s
      → Keeps m t (λ _ u. Consumed r k (cost r t) left u) (Gone r (cost r t))
      → Keeps m t (λ _ u. Consumed r k (cost r s) left u) (Gone r (cost r s))
  crossed_first m left s t le h =
      Keeps-weaken h (λ a u x. (x.0, omega (arith, x.1)))
        (λ x u y. weaken-Gone r (cost r t) (cost r s) x u (omega (arith, le)) y)

  fill_loop-Mid : (fuel : ℕ) → Steps (fill_loop fuel)
  unfolding fill_loop
  fill_loop-Mid fuel zero s m = Keeps-skip s (m, omega arith)
  fill_loop-Mid zero (suc left) s m = Keeps-out_of_fuel s
  fill_loop-Mid (suc fuel) (suc left) s m =
      Keeps-bind (cross_if_exhausted-Mid r k s m) (λ x t y. y)
        λ u t y. Keeps-gets_bind _ _ t (
          crossed_first _ (suc left) s t y.1
            (fill_from-Mid (fill_loop fuel) (suc left) t.current t (fill_loop-Mid fuel) y.0 refl))

  skip_loop-Mid : (fuel : ℕ) → Steps (skip_loop fuel)
  unfolding skip_loop
  skip_loop-Mid fuel zero s m = Keeps-skip s (m, omega arith)
  skip_loop-Mid zero (suc left) s m = Keeps-out_of_fuel s
  skip_loop-Mid (suc fuel) (suc left) s m =
      Keeps-bind (cross_if_exhausted-Mid r k s m) (λ x t y. y)
        λ u t y. Keeps-gets_bind _ _ t (
          crossed_first _ (suc left) s t y.1
            (skip_from-Mid (skip_loop fuel) (suc left) t.current t (skip_loop-Mid fuel) y.0 refl))

  -- Every byte that is read is one less to come, and where reading fails less is left once the
  -- segment file is given up.
  pub fill-Mid : Steps Fill.fill
  unfolding Fill.fill
  fill-Mid n s m = Keeps-modify_bind _ _ s (
      Keeps-gets_bind _ _ _ (
        fill_loop-Mid _ n _ (record {
          kept = record { framed = reframe m.kept.framed refl refl refl; pays = m.kept.pays };
          is_open = m.is_open;
          room = m.room;
          implied = m.implied;
        })))

  -- The same of bytes that are passed over.
  pub skip-Mid : Steps Fill.skip
  unfolding Fill.skip
  skip-Mid n s m = Keeps-gets_bind _ _ s (skip_loop-Mid _ n s m)
