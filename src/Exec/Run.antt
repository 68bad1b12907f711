-- ===== src/Exec/Run.antt =====
-- Steps whose result is known: what they return, and the state that they leave.
use tcslog.Prelude.{Bool, true, false, if◌then◌else◌, ◌≡◌, refl}
use tcslog.Error.{ok, LogError}
use tcslog.Exec.{Exec, pure, gets, modify, skip, zoom, on_error, ◌>>=◌}

-- The step `m` from the state `s` returns `a` and leaves `t`.
pub record Runs {S A : Type 0} (m : Exec S A) (s : S) (a : A) (t : S) : Type 0 where
  pub runs : m s ≡ (ok a, t)

module _ {S A : Type 0} where
  pub pure-Runs : (a : A) (s : S) → Runs (pure a) s a s
  unfolding pure
  pure-Runs a s = record { runs = refl }

module _ {S : Type 0} where
  pub skip-Runs : (s : S) → Runs skip s tt s
  unfolding skip
  skip-Runs s = record { runs = refl }

module _ {S A B : Type 0} where
  pub bind-Runs :
      {m : Exec S A} (f : A → Exec S B) {s t u : S} {a : A} {b : B}
      → Runs m s a t
      → Runs (f a) t b u
      → Runs (m >>= f) s b u
  unfolding ◌>>=◌ on_error
  bind-Runs f h k = record { runs = rw h.runs k.runs }

  pub on_error-Runs :
      {m : Exec S A} (handler : LogError → Exec S B) (f : A → Exec S B) {s t u : S} {a : A} {b : B}
      → Runs m s a t
      → Runs (f a) t b u
      → Runs (on_error m handler f) s b u
  unfolding on_error
  on_error-Runs handler f h k = record { runs = rw h.runs k.runs }

  pub gets-Runs :
      (g : S → A) (f : A → Exec S B) {s t : S} {b : B}
      → Runs (f (g s)) s b t
      → Runs (gets g >>= f) s b t
  unfolding ◌>>=◌
  gets-Runs g f h = record { runs = h.runs }

module _ {S B : Type 0} where
  pub modify-Runs :
      (g : S → S) (f : Unit {0} → Exec S B) {s t : S} {b : B}
      → Runs (f tt) (g s) b t
      → Runs (modify g >>= f) s b t
  unfolding ◌>>=◌
  modify-Runs g f h = record { runs = h.runs }

  pub then-Runs :
      (c : Bool) (m n : Exec S B) {s t : S} {b : B}
      → c ≡ true
      → Runs m s b t
      → Runs (if c then m else n) s b t
  then-Runs c m n e h = rw e h

  pub else-Runs :
      (c : Bool) (m n : Exec S B) {s t : S} {b : B}
      → c ≡ false
      → Runs n s b t
      → Runs (if c then m else n) s b t
  else-Runs c m n e h = rw e h

pub zoom-Runs :
    {S T A : Type 0} (get : S → T) (put : T → S → S) {m : Exec T A} {s : S} {a : A} {t : T}
    → Runs m (get s) a t
    → Runs (zoom get put m) s a (put t s)
unfolding zoom
zoom-Runs get put h = record { runs = rw h.runs refl }
