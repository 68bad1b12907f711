-- ===== src/Exec/Post.antt =====
-- Total correctness of steps: what holds when a step returns, what holds when it returns an error,
-- and that it never runs out of fuel. One rule for each way to build a step.
use tcslog.Prelude.{Bool, true, false, if◌then◌else◌, ◌≡◌, refl}
use tcslog.Error.{Result, ok, err, stuck, LogError}
use tcslog.Exec.{Exec, pure, raise, gets, modify, skip, zoom, on_error, ◌>>=◌, continue}

module _ {S A : Type 0} where
  abbrev pub Post : Result A → S → (A → S → Type 0) → (LogError → S → Type 0) → Type 0
  Post (ok a) s P Q = P a s
  Post (err e) s P Q = Q e s
  Post stuck s P Q = ⊥

  -- The step `m` from the state `s` returns with `P` or fails with `Q`.
  pub record Ensures (m : Exec S A) (s : S) (P : A → S → Type 0) (Q : LogError → S → Type 0)
      : Type 0 where
    pub holds : Post (m s).0 (m s).1 P Q

  module _ {P : A → S → Type 0} {Q : LogError → S → Type 0} where
    pub Ensures-pure : (a : A) (s : S) → P a s → Ensures (pure a) s P Q
    unfolding pure
    Ensures-pure a s h = record { holds = h }

    pub Ensures-raise : (e : LogError) (s : S) → Q e s → Ensures (raise e) s P Q
    unfolding raise
    Ensures-raise e s h = record { holds = h }

  Post-weaken :
      {P P' : A → S → Type 0} {Q Q' : LogError → S → Type 0} (r : Result A) (s : S)
      → Post r s P Q
      → ((a : A) (t : S) → P a t → P' a t)
      → ((e : LogError) (t : S) → Q e t → Q' e t)
      → Post r s P' Q'
  Post-weaken (ok a) s h p q = p a s h
  Post-weaken (err e) s h p q = q e s h
  Post-weaken stuck s h p q = h

  pub Ensures-weaken :
      {P P' : A → S → Type 0} {Q Q' : LogError → S → Type 0} {m : Exec S A} {s : S}
      → Ensures m s P Q
      → ((a : A) (t : S) → P a t → P' a t)
      → ((e : LogError) (t : S) → Q e t → Q' e t)
      → Ensures m s P' Q'
  Ensures-weaken {m = m} {s = s} h p q = record { holds = Post-weaken (m s).0 (m s).1 h.holds p q }

module _ {S : Type 0} {P : Unit {0} → S → Type 0} {Q : LogError → S → Type 0} where
  pub Ensures-skip : (s : S) → P tt s → Ensures skip s P Q
  unfolding skip
  Ensures-skip s h = record { holds = h }

  pub Ensures-modify : (f : S → S) (s : S) → P tt (f s) → Ensures (modify f) s P Q
  unfolding modify
  Ensures-modify f s h = record { holds = h }

module _ {S A B : Type 0} where
  Post-continue :
      {P : A → S → Type 0} {Q : LogError → S → Type 0} {P' : B → S → Type 0}
      {Q' : LogError → S → Type 0} (handler : LogError → Exec S B) (f : A → Exec S B) (r : Result A)
      (s : S)
      → Post r s P Q
      → ((e : LogError) (t : S) → Q e t → Ensures (handler e) t P' Q')
      → ((a : A) (t : S) → P a t → Ensures (f a) t P' Q')
      → Post (continue r handler f s).0 (continue r handler f s).1 P' Q'
  Post-continue handler f (ok a) s h q p = (p a s h).holds
  Post-continue handler f (err e) s h q p = (q e s h).holds
  Post-continue handler f stuck s h q p = h

  module _ {P : A → S → Type 0} {Q : LogError → S → Type 0} {P' : B → S → Type 0}
      {Q' : LogError → S → Type 0} where
    pub Ensures-on_error :
        {m : Exec S A} {handler : LogError → Exec S B} {f : A → Exec S B} {s : S}
        → Ensures m s P Q
        → ((e : LogError) (t : S) → Q e t → Ensures (handler e) t P' Q')
        → ((a : A) (t : S) → P a t → Ensures (f a) t P' Q')
        → Ensures (on_error m handler f) s P' Q'
    unfolding on_error
    Ensures-on_error {m} {handler} {f} {s} h q p = record {
      holds = Post-continue handler f (m s).0 (m s).1 h.holds q p;
    }

    -- An error of the first step is the error of the whole.
    pub Ensures-bind :
        {m : Exec S A} {f : A → Exec S B} {s : S}
        → Ensures m s P Q
        → ((e : LogError) (t : S) → Q e t → Q' e t)
        → ((a : A) (t : S) → P a t → Ensures (f a) t P' Q')
        → Ensures (m >>= f) s P' Q'
    unfolding ◌>>=◌
    Ensures-bind {m} {f} {s} h q p = record {
      holds =
          Post-continue (λ e t. (err e, t)) f (m s).0 (m s).1 h.holds
            (λ e t k. record { holds = q e t k }) p;
    }

  module _ {P : B → S → Type 0} {Q : LogError → S → Type 0} where
    pub Ensures-gets_bind :
        (g : S → A) (f : A → Exec S B) (s : S)
        → Ensures (f (g s)) s P Q
        → Ensures (gets g >>= f) s P Q
    unfolding ◌>>=◌
    Ensures-gets_bind g f s h = record { holds = h.holds }

module _ {S B : Type 0} {P : B → S → Type 0} {Q : LogError → S → Type 0} where
  pub Ensures-modify_bind :
      (g : S → S) (f : Unit {0} → Exec S B) (s : S)
      → Ensures (f tt) (g s) P Q
      → Ensures (modify g >>= f) s P Q
  unfolding ◌>>=◌
  Ensures-modify_bind g f s h = record { holds = h.holds }

  pub Ensures-if :
      (b : Bool) (m n : Exec S B) (s : S)
      → (b ≡ true → Ensures m s P Q)
      → (b ≡ false → Ensures n s P Q)
      → Ensures (if b then m else n) s P Q
  Ensures-if true m n s h k = h refl
  Ensures-if false m n s h k = k refl

module _ {S T A : Type 0} (P : A → T → Type 0) (Q : LogError → T → Type 0) (P' : A → S → Type 0)
    (Q' : LogError → S → Type 0) (put : T → S → S) where
  Post-zoom :
      (s : S) (r : Result A) (t : T)
      → Post r t P Q
      → ((a : A) (u : T) → P a u → P' a (put u s))
      → ((e : LogError) (u : T) → Q e u → Q' e (put u s))
      → Post r (put t s) P' Q'
  Post-zoom s (ok a) t h p q = p a t h
  Post-zoom s (err e) t h p q = q e t h
  Post-zoom s stuck t h p q = h

module _ {S T A : Type 0} {P : A → T → Type 0} {Q : LogError → T → Type 0} {P' : A → S → Type 0}
    {Q' : LogError → S → Type 0} where
  -- A step on a part of the state leaves the rest as `put` does.
  pub Ensures-zoom :
      (get : S → T) (put : T → S → S) {m : Exec T A} (s : S)
      → Ensures m (get s) P Q
      → ((a : A) (u : T) → P a u → P' a (put u s))
      → ((e : LogError) (u : T) → Q e u → Q' e (put u s))
      → Ensures (zoom get put m) s P' Q'
  unfolding zoom
  Ensures-zoom get put {m} s h p q = record {
    holds = Post-zoom P Q P' Q' put s (m (get s)).0 (m (get s)).1 h.holds p q;
  }

module _ {S A : Type 0} (P P' : A → S → Type 0) (Q Q' : LogError → S → Type 0) where
  Post-both :
      (r : Result A) (s : S)
      → Post r s P Q
      → Post r s P' Q'
      → Post r s (λ a t. P a t × P' a t) (λ e t. Q e t × Q' e t)
  Post-both (ok a) s h k = (h, k)
  Post-both (err e) s h k = (h, k)
  Post-both stuck s h k = h

-- Two facts about one step.
pub Ensures-both :
    {S A : Type 0} {P P' : A → S → Type 0} {Q Q' : LogError → S → Type 0} {m : Exec S A} {s : S}
    → Ensures m s P Q
    → Ensures m s P' Q'
    → Ensures m s (λ a t. P a t × P' a t) (λ e t. Q e t × Q' e t)
Ensures-both {P = P} {P' = P'} {Q = Q} {Q' = Q'} {m = m} {s = s} h k = record {
  holds = Post-both P P' Q Q' (m s).0 (m s).1 h.holds k.holds;
}
