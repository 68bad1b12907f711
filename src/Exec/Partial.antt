-- ===== src/Exec/Partial.antt =====
-- Partial correctness of steps: what holds when a step returns and what holds when it returns an
-- error, with nothing said of fuel. A step that `Ensures` shows to end has both kinds of fact.
use tcslog.Prelude.{Bool, true, false, if◌then◌else◌, ◌≡◌, refl}
use tcslog.Error.{Result, ok, err, stuck, LogError}
use tcslog.Exec.{Exec, pure, raise, gets, modify, skip, out_of_fuel, on_error, ◌>>=◌, continue}
use tcslog.Exec.Post.{Post, Ensures}

module _ {S A : Type 0} where
  abbrev pub Left : Result A → S → (A → S → Type 0) → (LogError → S → Type 0) → Type 0
  Left (ok a) s P Q = P a s
  Left (err e) s P Q = Q e s
  Left stuck s P Q = Unit

  -- Where the step `m` from the state `s` returns, it does so with `P`; where it fails, with `Q`.
  pub record Keeps (m : Exec S A) (s : S) (P : A → S → Type 0) (Q : LogError → S → Type 0)
      : Type 0 where
    pub holds : Left (m s).0 (m s).1 P Q

  module _ {P : A → S → Type 0} {Q : LogError → S → Type 0} where
    pub Keeps-pure : (a : A) (s : S) → P a s → Keeps (pure a) s P Q
    unfolding pure
    Keeps-pure a s h = record { holds = h }

    pub Keeps-raise : (e : LogError) (s : S) → Q e s → Keeps (raise e) s P Q
    unfolding raise
    Keeps-raise e s h = record { holds = h }

    pub Keeps-out_of_fuel : (s : S) → Keeps out_of_fuel s P Q
    unfolding out_of_fuel
    Keeps-out_of_fuel s = record { holds = tt }

  Left-weaken :
      {P P' : A → S → Type 0} {Q Q' : LogError → S → Type 0} (r : Result A) (s : S)
      → Left r s P Q
      → ((a : A) (t : S) → P a t → P' a t)
      → ((e : LogError) (t : S) → Q e t → Q' e t)
      → Left r s P' Q'
  Left-weaken (ok a) s h p q = p a s h
  Left-weaken (err e) s h p q = q e s h
  Left-weaken stuck s h p q = h

  pub Keeps-weaken :
      {P P' : A → S → Type 0} {Q Q' : LogError → S → Type 0} {m : Exec S A} {s : S}
      → Keeps m s P Q
      → ((a : A) (t : S) → P a t → P' a t)
      → ((e : LogError) (t : S) → Q e t → Q' e t)
      → Keeps m s P' Q'
  Keeps-weaken {m = m} {s = s} h p q = record { holds = Left-weaken (m s).0 (m s).1 h.holds p q }

module _ {S : Type 0} {P : Unit {0} → S → Type 0} {Q : LogError → S → Type 0} where
  pub Keeps-skip : (s : S) → P tt s → Keeps skip s P Q
  unfolding skip
  Keeps-skip s h = record { holds = h }

module _ {S A B : Type 0} where
  Left-continue :
      {P : A → S → Type 0} {Q : LogError → S → Type 0} {P' : B → S → Type 0}
      {Q' : LogError → S → Type 0} (handler : LogError → Exec S B) (f : A → Exec S B) (r : Result A)
      (s : S)
      → Left r s P Q
      → ((e : LogError) (t : S) → Q e t → Keeps (handler e) t P' Q')
      → ((a : A) (t : S) → P a t → Keeps (f a) t P' Q')
      → Left (continue r handler f s).0 (continue r handler f s).1 P' Q'
  Left-continue handler f (ok a) s h q p = (p a s h).holds
  Left-continue handler f (err e) s h q p = (q e s h).holds
  Left-continue handler f stuck s h q p = tt

  module _ {P : A → S → Type 0} {Q : LogError → S → Type 0} {P' : B → S → Type 0}
      {Q' : LogError → S → Type 0} where
    pub Keeps-on_error :
        {m : Exec S A} {handler : LogError → Exec S B} {f : A → Exec S B} {s : S}
        → Keeps m s P Q
        → ((e : LogError) (t : S) → Q e t → Keeps (handler e) t P' Q')
        → ((a : A) (t : S) → P a t → Keeps (f a) t P' Q')
        → Keeps (on_error m handler f) s P' Q'
    unfolding on_error
    Keeps-on_error {m} {handler} {f} {s} h q p = record {
      holds = Left-continue handler f (m s).0 (m s).1 h.holds q p;
    }

    -- An error of the first step is the error of the whole.
    pub Keeps-bind :
        {m : Exec S A} {f : A → Exec S B} {s : S}
        → Keeps m s P Q
        → ((e : LogError) (t : S) → Q e t → Q' e t)
        → ((a : A) (t : S) → P a t → Keeps (f a) t P' Q')
        → Keeps (m >>= f) s P' Q'
    unfolding ◌>>=◌
    Keeps-bind {m} {f} {s} h q p = record {
      holds =
          Left-continue (λ e t. (err e, t)) f (m s).0 (m s).1 h.holds
            (λ e t k. record { holds = q e t k }) p;
    }

  module _ {P : B → S → Type 0} {Q : LogError → S → Type 0} where
    pub Keeps-gets_bind :
        (g : S → A) (f : A → Exec S B) (s : S) → Keeps (f (g s)) s P Q → Keeps (gets g >>= f) s P Q
    unfolding ◌>>=◌
    Keeps-gets_bind g f s h = record { holds = h.holds }

module _ {S B : Type 0} {P : B → S → Type 0} {Q : LogError → S → Type 0} where
  pub Keeps-modify_bind :
      (g : S → S) (f : Unit {0} → Exec S B) (s : S)
      → Keeps (f tt) (g s) P Q
      → Keeps (modify g >>= f) s P Q
  unfolding ◌>>=◌
  Keeps-modify_bind g f s h = record { holds = h.holds }

  pub Keeps-if :
      (b : Bool) (m n : Exec S B) (s : S)
      → (b ≡ true → Keeps m s P Q)
      → (b ≡ false → Keeps n s P Q)
      → Keeps (if b then m else n) s P Q
  Keeps-if true m n s h k = h refl
  Keeps-if false m n s h k = k refl

module _ {S A : Type 0} (P : A → S → Type 0) (Q : LogError → S → Type 0) where
  Left-Post : (r : Result A) (s : S) → Post r s P Q → Left r s P Q
  Left-Post (ok a) s h = h
  Left-Post (err e) s h = h
  Left-Post stuck s h = tt

pub Keeps-Ensures :
    {S A : Type 0} {P : A → S → Type 0} {Q : LogError → S → Type 0} {m : Exec S A} {s : S}
    → Ensures m s P Q
    → Keeps m s P Q
Keeps-Ensures {P = P} {Q = Q} {m = m} {s = s} h = record {
  holds = Left-Post P Q (m s).0 (m s).1 h.holds;
}

module _ {S A : Type 0} (P P' : A → S → Type 0) (Q Q' : LogError → S → Type 0) where
  Post-Left :
      (r : Result A) (s : S)
      → Post r s P Q
      → Left r s P' Q'
      → Post r s (λ a t. P a t × P' a t) (λ e t. Q e t × Q' e t)
  Post-Left (ok a) s h k = (h, k)
  Post-Left (err e) s h k = (h, k)
  Post-Left stuck s h k = h

-- A step that ends, and what is known of it where it does.
pub Ensures-Keeps :
    {S A : Type 0} {P P' : A → S → Type 0} {Q Q' : LogError → S → Type 0} {m : Exec S A} {s : S}
    → Ensures m s P Q
    → Keeps m s P' Q'
    → Ensures m s (λ a t. P a t × P' a t) (λ e t. Q e t × Q' e t)
Ensures-Keeps {P = P} {P' = P'} {Q = Q} {Q' = Q'} {m = m} {s = s} h k = record {
  holds = Post-Left P P' Q Q' (m s).0 (m s).1 h.holds k.holds;
}

module _ {S A : Type 0} (m : Exec S A) (s : S) where
  Left-known :
      (r : Result A) (t : S)
      → m s ≡ (r, t)
      → Left r t (λ a u. m s ≡ (ok a, u)) (λ e u. m s ≡ (err e, u))
  Left-known (ok a) t h = h
  Left-known (err e) t h = h
  Left-known stuck t h = tt

  -- What a step returns is what it returns: a later step can speak of it.
  pub Keeps-known : Keeps m s (λ a t. m s ≡ (ok a, t)) (λ e t. m s ≡ (err e, t))
  Keeps-known = record { holds = Left-known (m s).0 (m s).1 refl }

  Left-state : (r : Result A) (t : S) → Left r t (λ a u. u ≡ t) (λ e u. u ≡ t)
  Left-state (ok a) t = refl
  Left-state (err e) t = refl
  Left-state stuck t = tt

  -- A step leaves the state that it leaves, whether it returns or fails.
  pub Keeps-state : Keeps m s (λ a t. t ≡ (m s).1) (λ e t. t ≡ (m s).1)
  Keeps-state = record { holds = Left-state (m s).0 (m s).1 }

  Left-any : (r : Result A) (t : S) → Left r t (λ a u. Unit {0}) (λ e u. Unit {0})
  Left-any (ok a) t = tt
  Left-any (err e) t = tt
  Left-any stuck t = tt

  pub Keeps-any : Keeps m s (λ a t. Unit {0}) (λ e t. Unit {0})
  Keeps-any = record { holds = Left-any (m s).0 (m s).1 }
