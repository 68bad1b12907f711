-- ===== src/Read/Arriving.antt =====
-- What a crossing makes of the segment file that the search for the next one opened.
use tcslog.Prelude.{
  ℕ, ◌≡◌, refl, sym, subst, Bool, true, false, ◌||◌, ◌&&◌, Option, none, some, ◌∷◌, ltb,
}
use tcslog.Error.{Result, ok, err, stuck, LogError}
use tcslog.Exec.Post.{Ensures}
use tcslog.Exec.Partial.{
  Keeps, Keeps-raise, Keeps-skip, Keeps-on_error, Keeps-gets_bind, Keeps-modify_bind, Keeps-if,
  Keeps-known, Ensures-Keeps,
}
use tcslog.Exec.{gets, ◌>>=◌}
use tcslog.Read.{Segment, LogRead, Reader, handed_back, reject_current}
use tcslog.Read.Open.{open_next}
use tcslog.Read.Cross.{
  cut_short, disagrees, sequence_gap, leave_hint, truncate, check_crossing, is_session_end,
  boundary, arrive, cross,
}
use tcslog.Read.Sound.{Holds, Fails}
use tcslog.Read.Crossing.{Crossed, cross-Holds}

-- The reader in which the search for the next segment file begins.
abbrev pub let_go : Reader → Reader
let_go s = record s { log = record s.log { current = none } }

-- Whether a reader that was in `s` refuses a segment file that the search opened in `u`: its
-- `remaining` disagrees with the record in progress, the file before it was cut short, or its
-- sequence does not follow.
abbrev pub is_refused : Reader → Reader → Segment → Bool
is_refused s u seg =
    ((disagrees u.cursor seg.header).0 || cut_short s.log.current)
    || (sequence_gap s.log.prev_seq seg.header.sequence).0

-- Within a segment file that is not refused: the log is as the search left it.
abbrev pub EntersFile : Reader → Reader → Reader → Option Segment → Type 0
EntersFile s u t none = ⊥
EntersFile s u t (some seg) = (is_refused s u seg ≡ false) × (t.log ≡ u.log)

abbrev pub Enters : Reader → Result Bool → Reader → Reader → Type 0
Enters s (ok true) u t = EntersFile s u t u.log.current
Enters s (ok false) u t = ⊥
Enters s (err e) u t = ⊥
Enters s stuck u t = ⊥

-- A segment file that is refused is back at the head of the pending list, marked as reopened, and
-- no file is open.
abbrev pub ReturnsFile : Reader → Reader → Reader → Option Segment → Type 0
ReturnsFile s u t none = t.log.pending ≡ u.log.pending
ReturnsFile s u t (some seg) =
    (is_refused s u seg ≡ true)
    × (t.log.pending ≡ seg.id ∷ u.log.pending)
    × (t.log.current ≡ none)
    × (t.log.reopened ≡ some seg.id)

-- Where the search opened no file, the pending list is as it left it.
abbrev pub Returns : Reader → Result Bool → Reader → Reader → Type 0
Returns s (ok true) u t = ReturnsFile s u t u.log.current
Returns s (ok false) u t = t.log.pending ≡ u.log.pending
Returns s (err e) u t = t.log.pending ≡ u.log.pending
Returns s stuck u t = t.log.pending ≡ u.log.pending

truncate-pending :
    {A : Type 0} {P : A → Reader → Type 0} (u : Reader)
    → Keeps truncate u P (λ e t. t.log.pending ≡ u.log.pending)
unfolding truncate
truncate-pending u = Keeps-gets_bind _ _ u (Keeps-raise _ u refl)

handed_back-some :
    (l : LogRead) (seg : Segment)
    → l.current ≡ some seg
    → ((handed_back l).pending ≡ seg.id ∷ l.pending)
      × ((handed_back l).current ≡ none)
      × ((handed_back l).reopened ≡ some seg.id)
unfolding handed_back
handed_back-some l seg e = rw e (refl, refl, refl)

returned : {A B C D : Type 0} → A → B × C × D → A × B × C × D
returned a h = (a, h.0, h.1, h.2)

check_crossing-Keeps :
    (s u : Reader) (seg : Segment)
    → u.log.current ≡ some seg
    → Keeps
        (check_crossing s.log.prev_seq (cut_short s.log.current) seg)
        u
        (λ _ t. EntersFile s u t (some seg))
        (λ e t. ReturnsFile s u t (some seg))
unfolding check_crossing leave_hint reject_current
check_crossing-Keeps s u seg there = Keeps-gets_bind _ _ u (
    Keeps-modify_bind _ _ u (
      Keeps-if (is_refused s u seg) _ _ _
        (λ refused. Keeps-modify_bind _ _ _ (
          Keeps-modify_bind _ _ _
            (Keeps-raise _ _ (returned refused (handed_back-some _ seg there)))))
        (λ allowed. Keeps-skip _ (allowed, refl))))

arrive_file-Keeps :
    (s u : Reader) (o : Option Segment)
    → u.log.current ≡ o
    → Keeps
        (arrive s.log.prev_seq (cut_short s.log.current) true o)
        u
        (λ _ t. EntersFile s u t o)
        (λ e t. ReturnsFile s u t o)
unfolding arrive
arrive_file-Keeps s u none e = truncate-pending u
arrive_file-Keeps s u (some seg) e = check_crossing-Keeps s u seg e

arrive-Keeps :
    (s u : Reader) (now : Bool)
    → Keeps
        (arrive s.log.prev_seq (cut_short s.log.current) now u.log.current)
        u
        (λ _ t. Enters s (ok now) u t)
        (λ e t. Returns s (ok now) u t)
unfolding arrive
arrive-Keeps s u false = truncate-pending u
arrive-Keeps s u true = arrive_file-Keeps s u u.log.current refl

boundary-Keeps :
    (s u : Reader) (e : LogError) (consumed : ℕ)
    → Keeps
        (boundary s.log.session s.log.prev_seq consumed e)
        u
        (λ _ t. Enters s (err e) u t)
        (λ e' t. Returns s (err e) u t)
unfolding boundary
boundary-Keeps s u e consumed =
    Keeps-if (is_session_end e && ltb 0 consumed) _ _ u
      (λ inside. Keeps-modify_bind _ _ u (truncate-pending _)) (λ outside. Keeps-raise e u refl)

cross-Keeps :
    (s : Reader)
    → let (r, u) = open_next (let_go s) in
      Keeps cross s (λ _ t. Enters s r u t) (λ e t. Returns s r u t)
unfolding cross
cross-Keeps s = Keeps-gets_bind _ _ s (
    Keeps-gets_bind _ _ s (
      Keeps-gets_bind _ _ s (
        Keeps-gets_bind _ _ s (
          Keeps-modify_bind _ _ s (
            Keeps-on_error (Keeps-known open_next (let_go s))
              (λ e t x.
                subst
                  (λ (p : Result Bool × Reader).
                    Keeps (boundary s.log.session s.log.prev_seq s.cursor.consumed e) t
                      (λ _ v. Enters s p.0 p.1 v) (λ _ v. Returns s p.0 p.1 v))
                  (sym x) (boundary-Keeps s t e s.cursor.consumed))
              λ now t x.
                subst
                  (λ (p : Result Bool × Reader).
                    Keeps
                      (gets (λ v. v.log.current)
                        >>= arrive s.log.prev_seq (cut_short s.log.current) now)
                      t (λ _ v. Enters s p.0 p.1 v) (λ _ v. Returns s p.0 p.1 v))
                  (sym x) (Keeps-gets_bind _ _ t (arrive-Keeps s t now)))))))

-- In a reader that keeps the invariant a crossing ends. A crossing that is allowed keeps the
-- invariant, has taken a segment file off the pending list, and leaves the log as the search for
-- the next file left it, with a file open that is not refused. An error keeps the invariant, with no
-- more segment files pending than before: where the search opened a file, that file is refused and
-- handed back to the head of the pending list, marked as reopened, and none is open; where it
-- opened none, the pending list is as the search left it. A file is refused if its `remaining`
-- disagrees with the record in progress, the file before it was cut short, or its sequence does
-- not follow.
pub cross-Crossed :
    (b : Bool) (k d : ℕ) (s : Reader)
    → Holds b k d s
    → let (r, u) = open_next (let_go s) in
      Ensures cross s
        (λ a t. Crossed b k d a t × Enters s r u t)
        (λ e t. Fails b k d e t × Returns s r u t)
cross-Crossed b k d s h = Ensures-Keeps (cross-Holds b k d s h) (cross-Keeps s)
