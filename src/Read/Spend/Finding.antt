-- ===== src/Read/Spend/Finding.antt =====
-- The measure of a reader across `find_record_start`.
use tcslog.Prelude.{
  ℕ, zero, suc, ◌+◌, ◌≤◌, ◌<◌, ◌≡◌, refl, sym, subst, ◌∙◌, arith, Bool, true, false, Option, none,
  some, inl, inr, ◌⊎◌, leb,
}
use tcslog.Error.{LogError, eof}
use tcslog.Exec.Partial.{
  Keeps, Keeps-pure, Keeps-raise, Keeps-bind, Keeps-gets_bind, Keeps-modify_bind, Keeps-if,
  Keeps-Ensures, Keeps-weaken, Keeps-out_of_fuel,
}
use tcslog.Fs.Frame.{attempt-Unchanged}
use tcslog.SegId.{SegId}
use tcslog.Read.{Segment, Cursor, LogRead, Reader, Reads, Recovery, Start}
use tcslog.Read.Open.{try_recovery, seek_to_record, start_in, look_at, find_loop, find_record_start}
use tcslog.Read.Spend.{
  weight, backlog, unread, held, in_session, in_session_le, left_over, cost, Framed, Pays, Kept,
  unread-held, reframe,
}
use tcslog.Read.Spend.Opening.{Same, io-Same}
use tcslog.Read.Spend.Searching.{Sought, Ended, Kept-Same, open_next-Sought}

-- A segment file is open that was taken off a backlog of `k`.
pub record Taken (r : Reader) (k : ℕ) (t : Reader) : Type 0 where
  pub kept : Kept r t
  pub held_le : held r t.current + backlog r t.pending ≤ k
  pub is_open : 2 ≤ unread t.current

-- A step that fails has come to the end of the log, or leaves less than `n` once the segment file
-- is given up.
pub record Missed (r : Reader) (n : ℕ) (e : LogError) (t : Reader) : Type 0 where
  pub framed : Framed r t
  pub spent : (e ≡ eof) ⊎ (left_over r t < n)

-- The same, with the cursor as it was.
pub record Begun (r : Reader) (k : ℕ) (cursor : Cursor) (t : Reader) : Type 0 where
  pub taken : Taken r k t
  pub cursor_same : t.cursor ≡ cursor

pub weaken-Missed :
    (r : Reader) (m n : ℕ) (e : LogError) (t : Reader) → m ≤ n → Missed r m e t → Missed r n e t
weaken-Missed r m n e t le h = record {
  framed = h.framed;
  spent = elim h.spent [ inl x ↦ inl x | inr x ↦ inr (omega (arith, x)) ];
}

pub Taken-cost : (r : Reader) (k : ℕ) (t : Reader) → Taken r k t → cost r t < k
Taken-cost r k t h =
    omega (arith, h.held_le, unread-held r t.current h.kept.pays h.is_open, in_session_le t.session)

Taken-Same : (r : Reader) (k : ℕ) (s t : Reader) → Same s t → Taken r k s → Taken r k t
Taken-Same r k s t e h = record {
  kept = Kept-Same r s t e h.kept;
  held_le =
      subst (λ (l : LogRead). held r l.current + backlog r l.pending ≤ k) (sym e.but.log_same)
        h.held_le;
  is_open = subst (λ (l : LogRead). 2 ≤ unread l.current) (sym e.but.log_same) h.is_open;
}

Taken-Missed :
    (r : Reader) (k n : ℕ) (e : LogError) (t : Reader) → k ≤ n → Taken r k t → Missed r n e t
Taken-Missed r k n e t le h = record {
  framed = h.kept.framed;
  spent = inr (omega (arith, Taken-cost r k t h));
}

module _ (r : Reader) (k n : ℕ) (cursor : Cursor) (le : k ≤ n) where
  start_in-Taken :
      (next : Reads Start) (o : Option ℕ) (seg : Segment) (s : Reader)
      → Begun r k cursor s
      → s.current ≡ some seg
      → ((t : Reader)
          → Kept r t
          → t.cursor ≡ cursor
          → 4 + backlog r t.pending ≤ k
          → Keeps next t (λ _ u. Begun r k cursor u) (Missed r n))
      → Keeps (start_in next o seg) s (λ _ u. Begun r k cursor u) (Missed r n)
  unfolding start_in seek_to_record held unread
  start_in-Taken next (some x) seg s h e go = Keeps-pure _ s h
  start_in-Taken next none seg s b e go =
      let h : Taken r k s = b.taken in
      let held' : held r (some seg) + backlog r s.pending ≤ k =
        subst (λ (o : Option Segment). held r o + backlog r s.pending ≤ k) e h.held_le in
      let pays : Pays r (some seg) = subst (Pays r) e h.kept.pays in
      Keeps-if (leb seg.data_len seg.header.remaining) _ _ s
        (λ tail. Keeps-modify_bind _ _ s (
          go _ (record { framed = reframe h.kept.framed refl refl refl; pays = tt }) b.cursor_same
            (omega (arith, held'))))
        λ inside.
          Keeps-bind (Keeps-Ensures (io-Same _ s (attempt-Unchanged s.world)))
            (λ x t y. Taken-Missed r k n x t le (Taken-Same r k s t y h))
            λ a t y.
              let h' : Taken r k t = Taken-Same r k s t y h in
              Keeps-modify_bind _ _ t (
                Keeps-pure _ _ (record {
                  cursor_same = y.but.cursor_same ∙ b.cursor_same;
                  taken = record {
                    kept = record { framed = reframe h'.kept.framed refl refl refl; pays = pays };
                    held_le =
                        subst (λ (l : LogRead). weight r seg.id + backlog r l.pending ≤ k)
                          (sym y.but.log_same) held';
                    is_open = omega arith;
                  };
                }))

  look_at-Taken :
      (next : Reads Start) (recovery : Option Recovery) (now : Bool) (o : Option Segment)
      (session : Option SegId) (current : Option Segment) (s : Reader)
      → Sought r k session current cursor now s
      → s.current ≡ o
      → ((t : Reader)
          → Kept r t
          → t.cursor ≡ cursor
          → 4 + backlog r t.pending ≤ k
          → Keeps next t (λ _ u. Begun r k cursor u) (Missed r n))
      → Keeps (look_at next recovery now o) s (λ _ u. Begun r k cursor u) (Missed r n)
  unfolding look_at
  look_at-Taken next recovery false o session current s h e go =
      Keeps-raise _ s (record { framed = h.kept.framed; spent = inl refl })
  look_at-Taken next recovery true none session current s h e go =
      Keeps-raise _ s (record { framed = h.kept.framed; spent = inl refl })
  look_at-Taken next recovery true (some seg) session current s h e go =
      start_in-Taken next (try_recovery recovery seg) seg s
        (record {
          cursor_same = h.cursor_same;
          taken = record { kept = h.kept; held_le = (h.taken refl).0; is_open = (h.taken refl).1 };
        })
        e go

Ended-Missed :
    (r : Reader) (k : ℕ) (session : Option SegId) (current : Option Segment) (e : LogError)
    (t : Reader)
    → Ended r k session current e t
    → Missed r (k + in_session session) e t
Ended-Missed r k session current e t h = record {
  framed = h.framed;
  spent = inr (omega (arith, h.less));
}

find_loop-Taken :
    (r : Reader) (fuel : ℕ) (s : Reader)
    → Kept r s
    → Keeps
        (find_loop fuel)
        s
        (λ _ t. Begun r (backlog r s.pending) s.cursor t)
        (Missed r (backlog r s.pending + in_session s.session))
unfolding find_loop
find_loop-Taken r zero s h = Keeps-out_of_fuel s
find_loop-Taken r (suc fuel) s h =
    let k : ℕ = backlog r s.pending in
    Keeps-gets_bind _ _ s (
      Keeps-modify_bind _ _ s (
        Keeps-bind
          (open_next-Sought r _
            (record { framed = reframe h.framed refl refl refl; pays = h.pays }))
          (λ e t x. Ended-Missed r k s.session _ e t x)
          λ now t x. Keeps-gets_bind _ _ t (
            look_at-Taken r k (k + in_session s.session) s.cursor (omega arith) _ _ now t.current
              s.session _ t x refl
              λ u kept same less.
                Keeps-weaken (find_loop-Taken r fuel u kept)
                  (λ a v y. record {
                    taken = record {
                      kept = y.taken.kept;
                      held_le = omega (arith, y.taken.held_le, less);
                      is_open = y.taken.is_open;
                    };
                    cursor_same = y.cursor_same ∙ same;
                  })
                  (λ e v y.
                    weaken-Missed r _ _ e v (omega (arith, in_session_le u.session, less)) y))))

-- The search for a record to start at takes a segment file off the pending list and leaves the
-- cursor, and one that fails
-- leaves less than there was, or has come to the end of the log.
pub find_record_start-Taken :
    (r s : Reader)
    → Kept r s
    → Keeps find_record_start s
        (λ _ t. Begun r (backlog r s.pending) s.cursor t)
        (Missed r (backlog r s.pending + in_session s.session))
unfolding find_record_start
find_record_start-Taken r s h = Keeps-gets_bind _ _ s (find_loop-Taken r _ s h)
