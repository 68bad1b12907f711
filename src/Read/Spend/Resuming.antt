-- ===== src/Read/Spend/Resuming.antt =====
-- The measure of a reader across `resynchronize` and `decode_header`.
use tcslog.Prelude.{
  ℕ, ◌+◌, ◌≤◌, ◌<◌, ◌≡◌, refl, ap, subst, ◌∙◌, arith, false, none, some, inl, inr, ◌⊎◌, ltb,
}
use native.Mathlib.Nat.{le_of_eq}
use tcslog.Error.{LogError, eof}
use tcslog.Exec.Partial.{
  Keeps, Keeps-pure, Keeps-raise, Keeps-weaken, Keeps-bind, Keeps-on_error, Keeps-gets_bind,
  Keeps-modify_bind, Keeps-if,
}
use tcslog.Read.{Segment, Cursor, Reader, Reads, Start, fresh, recovered, lose_position}
use tcslog.Read.Record.{report_lost, resynchronize, decode_header, guarded}
use tcslog.Read.Spend.{Gone, backlog, unread, left_over, cost, Framed, Pays, Kept, reframe}
use tcslog.Read.Spend.Finding.{Taken-cost, Missed, weaken-Missed, find_record_start-Taken}
use tcslog.Read.Spend.Middle.{Mid}
use tcslog.Read.Spend.Heading.{read_data_header-Headed}

-- How a read fails: at the end of the log, or with less ahead of it than `n`.
pub record Failed (r : Reader) (n : ℕ) (e : LogError) (t : Reader) : Type 0 where
  pub kept : Kept r t
  pub spent : (e ≡ eof) ⊎ (cost r t < n)

pub lose_position-Failed :
    {A : Type 0} {P : A → Reader → Type 0} (r : Reader) (n : ℕ) (e : LogError) (s : Reader)
    → Framed r s
    → (e ≡ eof) ⊎ (left_over r s < n)
    → Keeps (lose_position e) s P (Failed r n)
unfolding lose_position unread
lose_position-Failed r n e s f spent = Keeps-modify_bind _ _ s (
    Keeps-raise e _ (record {
      kept = record { framed = reframe f refl refl refl; pays = tt };
      spent = elim spent [ inl x ↦ inl x | inr x ↦ inr (omega (arith, x)) ];
    }))

pub guarded-Failed :
    {A : Type 0} {m : Reads A} {s : Reader} {P : A → Reader → Type 0} (r : Reader) (n : ℕ)
    → Keeps m s P (Gone r n)
    → Keeps (guarded m) s P (Failed r n)
guarded-Failed r n h =
    Keeps-on_error h (λ e t x. lose_position-Failed r n e t x.framed (inr x.spent))
      (λ a t x. Keeps-pure a t x)

guarded_search :
    {A : Type 0} {m : Reads A} {s : Reader} {P : A → Reader → Type 0} (r : Reader) (n : ℕ)
    → Keeps m s P (Missed r n)
    → Keeps (guarded m) s P (Failed r n)
guarded_search r n h =
    Keeps-on_error h (λ e t x. lose_position-Failed r n e t x.framed x.spent)
      (λ a t x. Keeps-pure a t x)

abbrev late : Start → ℕ
late fresh = 0
late (recovered n) = 1

-- Where the read goes on, with no more than `n` ahead of it.
pub record Resumed (r : Reader) (n : ℕ) (start : Start) (t : Reader) : Type 0 where
  pub mid : Mid r (backlog r t.pending) t
  pub in_time : cost r t + late start ≤ n

report_lost-Resumed :
    (r : Reader) (n : ℕ) (start : Start) (s : Reader)
    → Mid r (backlog r s.pending) s
    → cost r s < n
    → Keeps (report_lost start) s (Resumed r n) (Failed r n)
unfolding report_lost
report_lost-Resumed r n start s m lt = Keeps-gets_bind _ _ s (
    Keeps-if (ltb 0 s.session_start_lost) _ _ s
      (λ some_lost. Keeps-modify_bind _ _ s (
        Keeps-raise _ _ (record {
          kept = record { framed = reframe m.kept.framed refl refl refl; pays = m.kept.pays };
          spent = inr lt;
        })))
      (λ none_lost. Keeps-pure start s (record { mid = m; in_time = in_time start })))
  where
    in_time : (start : Start) → cost r s + late start ≤ n
    in_time fresh = omega (arith, lt)
    in_time (recovered i) = omega (arith, lt)

pub resynchronize-Resumed :
    (r s : Reader)
    → Kept r s
    → (s.resync ≡ false → 2 ≤ unread s.current)
    → s.cursor.implied_payload ≡ none
    → Keeps resynchronize s (Resumed r (cost r s)) (Failed r (cost r s))
unfolding resynchronize
resynchronize-Resumed r s h known calm =
    let k : ℕ = backlog r s.pending in
    Keeps-gets_bind _ _ s (
      Keeps-if s.resync _ _ s
        (λ armed.
          Keeps-bind
            (guarded_search r (cost r s) (
              Keeps-weaken (find_record_start-Taken r s h) (λ a t x. x)
                (λ e t x. weaken-Missed r _ (cost r s) e t (omega arith) x)))
            (λ e t x. x)
            λ start t x. Keeps-modify_bind _ _ t (
              report_lost-Resumed r (cost r s) start _
                (record {
                  kept = record {
                    framed = reframe x.taken.kept.framed refl refl refl;
                    pays = x.taken.kept.pays;
                  };
                  is_open = x.taken.is_open;
                  room = le_of_eq refl;
                  implied = inl (ap (λ (c : Cursor). c.implied_payload) x.cursor_same ∙ calm);
                })
                (omega (arith, Taken-cost r k t x.taken))))
        (λ now. Keeps-pure fresh s (record {
          mid = record { kept = h; is_open = known now; room = le_of_eq refl; implied = inl calm };
          in_time = omega arith;
        })))

pub decode_header-Headed :
    (r : Reader) (k n : ℕ) (start : Start) (seg : Segment) (s : Reader)
    → Mid r k s
    → k + 1 < cost r s
    → cost r s + late start ≤ n
    → s.current ≡ some seg
    → Keeps
        (decode_header start seg)
        s
        (λ p t. Mid r k t × (cost r t ≤ n) × (cost r t < n + p.0))
        (Failed r n)
unfolding decode_header
decode_header-Headed r k n (recovered i) seg s m room in_time e = Keeps-modify_bind _ _ s (
    Keeps-pure _ _ (
      record {
        kept = record { framed = reframe m.kept.framed refl refl refl; pays = m.kept.pays };
        is_open = m.is_open;
        room = m.room;
        implied = m.implied;
      },
      omega (arith, in_time),
      omega (arith, in_time),
    ))
decode_header-Headed r k n fresh seg s m room in_time e =
    let pays : Pays r (some seg) = subst (Pays r) e m.kept.pays in
    Keeps-weaken
      (guarded-Failed r (cost r s) (
        read_data_header-Headed r k (cost r s) room seg.header.format seg.header.minor s m
          (le_of_eq refl) pays.1))
      (λ p t x. (x.0, omega (arith, x.1, in_time), omega (arith, x.2, in_time)))
      (λ x t y. record {
        kept = y.kept;
        spent = elim y.spent [ inl z ↦ inl z | inr z ↦ inr (omega (arith, z, in_time)) ];
      })
