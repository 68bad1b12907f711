-- ===== src/Read/Next.antt =====
-- tcslog/src/read.rs: `LogReadIter::next`, and `collect` of all that the iterator yields.
use tcslog.Prelude.{
  ℕ, zero, suc, ◌≤◌, ◌<◌, ◌≡◌, refl, arith, Option, none, some, List, [], ◌∷◌, length, All, inl,
  inr, ◌⊎◌,
}
use tcslog.Exec.{pure, gets, out_of_fuel, ◌>>=◌}
use tcslog.Exec.Post.{Ensures, Ensures-pure, Ensures-weaken, Ensures-bind, Ensures-gets_bind}
use tcslog.Read.{Reader, Reads}
use tcslog.Read.Iter.{
  iter_buf_len, Record, Round, yields, again, stops, next_round, IsFaithful, InOrder, Rounds,
  next_round-Rounds,
}
use tcslog.Read.Spend.{ahead}

-- What the loop does with a round.
unfoldable pub act_on : Reads (Option Record) → Round → Reads (Option Record)
act_on next (yields r) = pure (some r)
act_on next again = next
act_on next stops = pure none

-- The `loop` of `next`. Each round has less ahead than the one before.
unfoldable pub next_loop : ℕ → Reads (Option Record)
next_loop zero = out_of_fuel
next_loop (suc fuel) = do round ← next_round; act_on (next_loop fuel) round

unfoldable pub next : Reads (Option Record)
next = do n ← gets ahead; next_loop (suc n)

-- `collect`, which calls `next` until it returns `None`.
unfoldable pub add_record : Reads (List Record) → Option Record → Reads (List Record)
add_record more none = pure []
add_record more (some r) = do rs ← more; pure (r ∷ rs)

unfoldable pub collect_loop : ℕ → Reads (List Record)
collect_loop zero = out_of_fuel
collect_loop (suc fuel) = do found ← next; add_record (collect_loop fuel) found

unfoldable pub collect : Reads (List Record)
collect = do n ← gets ahead; collect_loop (suc n)

abbrev pub Faithful : Option Record → Reader → Type 0
Faithful none t = Unit
Faithful (some r) t = IsFaithful r t

-- What a call of `next` comes to: a record of what the buffer holds, with less ahead, or the end.
pub record Nexts (s : Reader) (o : Option Record) (t : Reader) : Type 0 where
  pub in_order : InOrder t
  pub faithful : Faithful o t
  pub less : (o ≡ none) ⊎ (ahead t < ahead s)

act_on-Nexts :
    (fuel : ℕ) (s t : Reader) (r : Round)
    → ahead s ≤ fuel
    → Rounds s r t
    → ((u : Reader) → InOrder u → ahead u < fuel → Ensures (next_loop fuel) u (Nexts u) (λ e v. ⊥))
    → Ensures (act_on (next_loop fuel) r) t (Nexts s) (λ e v. ⊥)
unfolding act_on
act_on-Nexts fuel s t (yields r) le x go = Ensures-pure (some r) t (record {
  in_order = x.in_order;
  faithful = x.rounded;
  less = inr (elim x.less [ inl y ↦ absurd cc | inr y ↦ y ]);
})
act_on-Nexts fuel s t again le x go =
    let lt : ahead t < ahead s = elim x.less [ inl y ↦ absurd cc | inr y ↦ y ] in
    Ensures-weaken (go t x.in_order (omega (arith, lt)))
      (λ o u y. record {
        in_order = y.in_order;
        faithful = y.faithful;
        less = elim y.less [ inl z ↦ inl z | inr z ↦ inr (omega (arith, z, lt)) ];
      })
      (λ e u y. y)
act_on-Nexts fuel s t stops le x go =
    Ensures-pure none t (record { in_order = x.in_order; faithful = tt; less = inl refl })

next_loop-Nexts :
    (fuel : ℕ) (s : Reader)
    → InOrder s
    → ahead s < fuel
    → Ensures (next_loop fuel) s (Nexts s) (λ e t. ⊥)
unfolding next_loop
next_loop-Nexts zero s h lt = absurd (omega (arith, lt))
next_loop-Nexts (suc fuel) s h lt =
    Ensures-bind (next_round-Rounds s h) (λ e t x. x)
      λ r t x. act_on-Nexts fuel s t r (omega (arith, lt)) x (next_loop-Nexts fuel)

-- From any reader whose open segment file, if there is one, is sound and no longer than its file,
-- whatever the files hold and whatever operations on them fail, a call of `next` ends and leaves
-- the reader so again. It returns a record that the buffer holds, with strictly less ahead of the
-- reader than before, or it returns none.
pub next-Nexts : (s : Reader) → InOrder s → Ensures next s (Nexts s) (λ e t. ⊥)
unfolding next
next-Nexts s h = Ensures-gets_bind _ _ s (next_loop-Nexts (suc (ahead s)) s h (omega arith))

-- The records that were yielded: each fits the iterator's buffer, and there are no more than `n`.
pub record Collected (n : ℕ) (rs : List Record) (t : Reader) : Type 0 where
  pub in_order : InOrder t
  pub fitting : All (λ (r : Record). length r.payload ≤ iter_buf_len) rs
  pub number : length rs ≤ n

add_record-Collected :
    (fuel : ℕ) (s t : Reader) (o : Option Record)
    → ahead s ≤ fuel
    → Nexts s o t
    → ((u : Reader)
        → InOrder u
        → ahead u < fuel
        → Ensures (collect_loop fuel) u (Collected (ahead u)) (λ e v. ⊥))
    → Ensures (add_record (collect_loop fuel) o) t (Collected (ahead s)) (λ e v. ⊥)
unfolding add_record
add_record-Collected fuel s t none le x go =
    Ensures-pure [] t (record { in_order = x.in_order; fitting = tt; number = omega arith })
add_record-Collected fuel s t (some r) le x go =
    let lt : ahead t < ahead s = elim x.less [ inl y ↦ absurd cc | inr y ↦ y ] in
    Ensures-bind (go t x.in_order (omega (arith, lt))) (λ e u y. y)
      λ rs u y. Ensures-pure (r ∷ rs) u (record {
        in_order = y.in_order;
        fitting = (x.faithful.0, y.fitting);
        number = omega (arith, y.number, lt);
      })

collect_loop-Collected :
    (fuel : ℕ) (s : Reader)
    → InOrder s
    → ahead s < fuel
    → Ensures (collect_loop fuel) s (Collected (ahead s)) (λ e t. ⊥)
unfolding collect_loop
collect_loop-Collected zero s h lt = absurd (omega (arith, lt))
collect_loop-Collected (suc fuel) s h lt =
    Ensures-bind (next-Nexts s h) (λ e t x. x)
      λ o t x. add_record-Collected fuel s t o (omega (arith, lt)) x (collect_loop-Collected fuel)

-- From any reader whose open segment file, if there is one, is sound and no longer than its file,
-- whatever the files hold and whatever operations on them fail, the iterator comes to an end. It
-- yields no more records than the measure of what the reader has ahead, none with more payload
-- than the iterator's buffer holds, and leaves the reader as it was found in these respects.
pub collect-Collected :
    (s : Reader) → InOrder s → Ensures collect s (Collected (ahead s)) (λ e t. ⊥)
unfolding collect
collect-Collected s h =
    Ensures-gets_bind _ _ s (collect_loop-Collected (suc (ahead s)) s h (omega arith))
