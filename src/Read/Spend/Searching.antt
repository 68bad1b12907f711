-- ===== src/Read/Spend/Searching.antt =====
-- The measure of a reader across `open_next`.
use tcslog.Prelude.{
  ℕ, suc, ◌+◌, ◌≤◌, ◌≡◌, refl, ap, sym, subst, ◌∙◌, arith, Bool, true, false, Option, none, some,
  List, [], ◌∷◌,
}
use mathlib.Core.Path.{subst₂}
use native.Mathlib.Nat.{le_of_eq}
use tcslog.Error.{LogError}
use tcslog.Exec.Partial.{
  Keeps, Keeps-pure, Keeps-raise, Keeps-bind, Keeps-gets_bind, Keeps-modify_bind, Keeps-if,
  Keeps-Ensures,
}
use tcslog.SegId.{SegId}
use tcslog.Header.{SegmentHeader}
use tcslog.Read.{Segment, Cursor, LogRead, Reader}
use tcslog.Read.Open.{foreign, count_opened, enter_session, accept, open_loop, open_next}
use tcslog.Read.Spend.{weight, backlog, unread, held, in_session, Framed, Pays, Kept, size-Framed}
use tcslog.Read.Spend.Opening.{Same, Same-Framed, Fresh, open_validated-Fresh}

-- A search that ends with a segment file open, or with none left, from a backlog of `k`.
pub record Sought (r : Reader) (k : ℕ) (session : Option SegId) (current : Option Segment)
    (cursor : Cursor) (now : Bool) (t : Reader) : Type 0 where
  pub kept : Kept r t
  pub cursor_same : t.cursor ≡ cursor
  pub taken : now ≡ true → (held r t.current + backlog r t.pending ≤ k) × (2 ≤ unread t.current)
  pub none_left :
      now ≡ false → (backlog r t.pending ≤ k) × (t.session ≡ session) × (t.current ≡ current)

-- A search that comes to another session.
pub record Ended (r : Reader) (k : ℕ) (session : Option SegId) (current : Option Segment)
    (e : LogError) (t : Reader) : Type 0 where
  pub framed : Framed r t
  pub less : backlog r t.pending + suc (in_session t.session) ≤ k + in_session session
  pub current_same : t.current ≡ current

pub pending-entered :
    (seg : Segment) (l : LogRead) → (enter_session seg (count_opened seg l)).pending ≡ l.pending
unfolding enter_session count_opened
pending-entered seg l = ground arith

pub prefix-entered :
    (seg : Segment) (l : LogRead) → (enter_session seg (count_opened seg l)).prefix ≡ l.prefix
unfolding enter_session count_opened
prefix-entered seg l = ground arith

pub suffix-entered :
    (seg : Segment) (l : LogRead) → (enter_session seg (count_opened seg l)).suffix ≡ l.suffix
unfolding enter_session count_opened
suffix-entered seg l = ground arith

foreign-in_session :
    (session : Option SegId) (h : SegmentHeader) → foreign session h ≡ true → in_session session ≡ 1
unfolding in_session
foreign-in_session none h e = absurd (cc e)
foreign-in_session (some id) h e = refl

accept-Sought :
    (r : Reader) (k : ℕ) (id : SegId) (seg : Segment) (s : Reader)
    → Framed r s
    → weight r id + backlog r s.pending ≤ k
    → seg.id ≡ id
    → Pays r (some seg)
    → Keeps
        (accept id seg)
        s
        (Sought r k s.session s.current s.cursor)
        (Ended r k s.session s.current)
unfolding accept backlog unread held in_session
accept-Sought r k id seg s f le same pays = Keeps-gets_bind _ _ s (
    Keeps-if (foreign s.session seg.header) _ _ s
      (λ other. Keeps-modify_bind _ _ s (
        Keeps-raise _ _ (record {
          framed = record {
            files_same = f.files_same;
            prefix_same = f.prefix_same;
            suffix_same = f.suffix_same;
          };
          less = omega (arith, le, foreign-in_session s.session seg.header other);
          current_same = refl;
        })))
      λ own. Keeps-modify_bind _ _ s (
        Keeps-modify_bind _ _ _ (
          Keeps-modify_bind _ _ _ (
            Keeps-pure true _ (record {
              kept = record {
                framed = record {
                  files_same = f.files_same;
                  prefix_same = prefix-entered seg s.log ∙ f.prefix_same;
                  suffix_same = suffix-entered seg s.log ∙ f.suffix_same;
                };
                pays = pays;
              };
              cursor_same = refl;
              taken = λ _. (rw (pending-entered seg s.log, same) le, omega arith);
              none_left = λ e. absurd (cc e);
            })))))

Fresh-Framed :
    (r s : Reader) (id : SegId) (o : Option Segment) → Framed r s → Fresh s id o → Fresh r id o
Fresh-Framed r s id none f h = tt
Fresh-Framed r s id (some seg) f h =
    (h.0, h.1, (omega (arith, h.2.0, size-Framed r s seg.id f), h.2.1))

Pays-Same : (r : Reader) (s t : Reader) → Same s t → Pays r s.current → Pays r t.current
Pays-Same r s t h p = subst (λ (l : LogRead). Pays r l.current) (sym h.but.log_same) p

pub Kept-Same : (r s t : Reader) → Same s t → Kept r s → Kept r t
Kept-Same r s t h k = record { framed = Same-Framed h k.framed; pays = Pays-Same r s t h k.pays }

module _ (r : Reader) (k : ℕ) (session : Option SegId) (current : Option Segment)
    (cursor : Cursor) where
  tried-Sought :
      (id : SegId) (rest : List SegId) (o : Option Segment) (t : Reader)
      → Framed r t
      → t.session ≡ session
      → t.current ≡ current
      → t.cursor ≡ cursor
      → weight r id + backlog r t.pending ≤ k
      → Fresh r id o
      → Keeps (open_loop rest) t (Sought r k session current cursor) (Ended r k session current)
      → Keeps
          (elim o [ none ↦ open_loop rest | some seg ↦ accept id seg ])
          t
          (Sought r k session current cursor)
          (Ended r k session current)
  tried-Sought id rest none t f e e' e'' le x next = next
  tried-Sought id rest (some seg) t f e e' e'' le x next =
      subst
        (λ (x : Cursor).
          Keeps (accept id seg) t (Sought r k session current x) (Ended r k session current))
        e''
        (subst₂
          (λ (o : Option SegId) (c : Option Segment).
            Keeps (accept id seg) t (Sought r k o c t.cursor) (Ended r k o c))
          e e' (accept-Sought r k id seg t f le x.0 x.2))

  open_loop-Sought :
      (ids : List SegId) (s : Reader)
      → Kept r s
      → s.session ≡ session
      → s.current ≡ current
      → s.cursor ≡ cursor
      → s.pending ≡ ids
      → backlog r ids ≤ k
      → Keeps (open_loop ids) s (Sought r k session current cursor) (Ended r k session current)
  unfolding open_loop backlog
  open_loop-Sought [] s h e e' e'' same le = Keeps-pure false s (record {
    kept = h;
    cursor_same = e'';
    taken = λ x. absurd (cc x);
    none_left = λ _. (rw same le, e, e');
  })
  open_loop-Sought (id ∷ rest) s h e e' e'' same le =
      let popped : Reader = record s { log = record s.log { pending = rest } } in
      let framed : Framed r popped = record {
        files_same = h.framed.files_same;
        prefix_same = h.framed.prefix_same;
        suffix_same = h.framed.suffix_same;
      } in
      Keeps-modify_bind _ _ s (
        Keeps-bind (Keeps-Ensures (open_validated-Fresh id popped)) (λ x t y. absurd y)
          λ o t y.
            let left : t.log.pending ≡ rest = ap (λ (l : LogRead). l.pending) y.0.but.log_same in
            let session' : t.log.session ≡ session =
              ap (λ (l : LogRead). l.session) y.0.but.log_same ∙ e in
            let current' : t.log.current ≡ current =
              ap (λ (l : LogRead). l.current) y.0.but.log_same ∙ e' in
            tried-Sought id rest o t (Same-Framed y.0 framed) session' current'
              (y.0.but.cursor_same ∙ e'') (rw left le) (Fresh-Framed r popped id o framed y.1)
              (open_loop-Sought rest t
                (Kept-Same r popped t y.0 (record { framed = framed; pays = h.pays })) session'
                current' (y.0.but.cursor_same ∙ e'') left (omega (arith, le))))

-- From a reader that has only files as the reader `r` has them, the search for the next segment
-- file takes one off the pending list, or ends with none left or with the session left.
pub open_next-Sought :
    (r s : Reader)
    → Kept r s
    → Keeps open_next s
        (Sought r (backlog r s.pending) s.session s.current s.cursor)
        (Ended r (backlog r s.pending) s.session s.current)
unfolding open_next
open_next-Sought r s h = Keeps-gets_bind _ _ s (
    open_loop-Sought r (backlog r s.pending) s.session s.current s.cursor s.pending s h refl refl
      refl refl (le_of_eq refl))
