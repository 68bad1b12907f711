-- ===== src/Read/Spend/Crossing.antt =====
-- The measure of a reader across `cross`.
use tcslog.Prelude.{
  ℕ, ◌+◌, ◌≤◌, ◌<◌, ◌≡◌, refl, ap, arith, Bool, true, false, ◌&&◌, ◌||◌, Option, none, some, ◌∷◌,
  ltb,
}
use tcslog.Error.{LogError}
use tcslog.Exec.Partial.{
  Keeps, Keeps-raise, Keeps-skip, Keeps-on_error, Keeps-gets_bind, Keeps-modify_bind, Keeps-if,
}
use tcslog.SegId.{SegId}
use tcslog.SeqId.{SeqId}
use tcslog.Read.{Segment, Cursor, LogRead, Reader, handed_back, reject_current}
use tcslog.Read.Cross.{
  disagrees, sequence_gap, leave_hint, truncate, check_crossing, is_session_end, boundary, arrive,
  cross,
}
use tcslog.Read.Spend.{
  Gone, backlog, unread, held, in_session, in_session_le, left_over, cost, Framed, Kept, reframe,
}
use tcslog.Read.Spend.Searching.{Sought, Ended, open_next-Sought}
use tcslog.Read.Spend.Finding.{Taken}

backlog-handed_back :
    (r : Reader) (l : LogRead)
    → backlog r (handed_back l).pending ≡ held r l.current + backlog r l.pending
unfolding handed_back backlog held
backlog-handed_back r l = back l.current
  where
    back :
        (o : Option Segment)
        → backlog r (elim o [ none ↦ l.pending | some seg ↦ seg.id ∷ l.pending ])
          ≡ held r o + backlog r l.pending
    back none = omega arith
    back (some seg) = refl

module _ (r : Reader) (n : ℕ) where
  pub truncate-Gone :
      {A : Type 0} {P : A → Reader → Type 0} (s : Reader)
      → Framed r s
      → left_over r s < n
      → Keeps truncate s P (Gone r n)
  unfolding truncate
  truncate-Gone s f lt = Keeps-gets_bind _ _ s (Keeps-raise _ s (record { framed = f; spent = lt }))

  -- A segment file that is handed back costs no more than the backlog that it was taken off.
  pub reject_current-Gone :
      {A : Type 0} {P : A → Reader → Type 0} (lost m : ℕ) (s : Reader)
      → Framed r s
      → held r s.current + backlog r s.pending + 1 < n
      → Keeps (reject_current lost m) s P (Gone r n)
  unfolding reject_current handed_back
  reject_current-Gone lost m s f lt = Keeps-modify_bind _ _ s (
      Keeps-raise _ _ (record {
        framed = reframe f refl refl refl;
        spent = (omega (arith, backlog-handed_back r s.log, in_session_le s.session));
      }))

  check_crossing-Taken :
      (k : ℕ) (prev_seq : Option SeqId) (prev_short : Bool) (seg : Segment) (s : Reader)
      → k + 1 < n
      → Taken r k s
      → Keeps (check_crossing prev_seq prev_short seg) s (λ _ t. Taken r k t) (Gone r n)
  unfolding check_crossing leave_hint
  check_crossing-Taken k prev_seq prev_short seg s lt h =
      let framed : Framed r s = h.kept.framed in
      Keeps-gets_bind _ _ s (
        Keeps-modify_bind _ _ s (
          Keeps-if
            (((disagrees s.cursor seg.header).0 || prev_short)
              || (sequence_gap prev_seq seg.header.sequence).0)
            _ _ _
            (λ refused. Keeps-modify_bind _ _ _ (
              reject_current-Gone _ _ _ (reframe framed refl refl refl) (omega (arith, h.held_le))))
            (λ allowed. Keeps-skip _ (record {
              kept = record { framed = reframe framed refl refl refl; pays = h.kept.pays };
              held_le = h.held_le;
              is_open = h.is_open;
            }))))

  arrive-Taken :
      (k : ℕ) (prev_seq : Option SeqId) (prev_short now : Bool) (current : Option Segment)
      (session : Option SegId) (cursor : Cursor) (s : Reader)
      → k + in_session session + 1 < n
      → k + 1 < n
      → Sought r k session none cursor now s
      → Keeps (arrive prev_seq prev_short now current) s (λ _ t. Taken r k t) (Gone r n)
  unfolding arrive
  arrive-Taken k prev_seq prev_short false current session cursor s lt lt' h =
      truncate-Gone s h.kept.framed
        (omega (arith, (h.none_left refl).0, ap in_session (h.none_left refl).1))
  arrive-Taken k prev_seq prev_short true none session cursor s lt lt' h =
      truncate-Gone s h.kept.framed (omega (arith, (h.taken refl).0, in_session_le s.session))
  arrive-Taken k prev_seq prev_short true (some seg) session cursor s lt lt' h =
      check_crossing-Taken k prev_seq prev_short seg s lt'
        (record { kept = h.kept; held_le = (h.taken refl).0; is_open = (h.taken refl).1 })

  boundary-Gone :
      {P : Unit {0} → Reader → Type 0} (k : ℕ) (session : Option SegId) (prev_seq : Option SeqId)
      (consumed : ℕ) (e : LogError) (s : Reader)
      → k + in_session session + 1 < n
      → Ended r k session none e s
      → Keeps (boundary session prev_seq consumed e) s P (Gone r n)
  unfolding boundary
  boundary-Gone k session prev_seq consumed e s lt h =
      Keeps-if (is_session_end e && ltb 0 consumed) _ _ s
        (λ inside. Keeps-modify_bind _ _ s (
          truncate-Gone _ (reframe h.framed refl refl refl)
            (omega (arith, h.less, in_session_le session))))
        (λ outside. Keeps-raise e s (record { framed = h.framed; spent = (omega (arith, h.less)) }))

-- From an open segment file a crossing takes the next one off the pending list, or it fails and
-- leaves less than there was.
pub cross-Taken :
    (r s : Reader)
    → Kept r s
    → 2 ≤ unread s.current
    → Keeps cross s (λ _ t. Taken r (backlog r s.pending) t) (Gone r (cost r s))
unfolding cross
cross-Taken r s h is_open =
    let k : ℕ = backlog r s.pending in
    Keeps-gets_bind _ _ s (
      Keeps-gets_bind _ _ s (
        Keeps-gets_bind _ _ s (
          Keeps-gets_bind _ _ s (
            Keeps-modify_bind _ _ s (
              Keeps-on_error
                (open_next-Sought r _
                  (record { framed = reframe h.framed refl refl refl; pays = tt }))
                (λ e t x. boundary-Gone r (cost r s) k s.session _ _ e t (omega (arith, is_open)) x)
                λ now t x. Keeps-gets_bind _ _ t (
                  arrive-Taken r (cost r s) k _ _ now t.current s.session s.cursor t
                    (omega (arith, is_open)) (omega (arith, is_open)) x))))))
