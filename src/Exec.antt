-- ===== src/Exec.antt =====
-- Code that changes a state and may return an error. What was written before an error stays
-- written, so the state comes back beside the error too.
pub mod Post
pub mod Partial
pub mod Run
use tcslog.Error.{Result, ok, err, stuck, LogError}

abbrev pub Exec : Type 0 → Type 0 → Type 0
Exec S A = S → Result A × S

module _ {S A : Type 0} where
  unfoldable pub pure : A → Exec S A
  pure a s = (ok a, s)

  unfoldable pub raise : LogError → Exec S A
  raise e s = (err e, s)

  unfoldable pub out_of_fuel : Exec S A
  out_of_fuel s = (stuck, s)

  -- A value of `Result` as a step: `?` on what does not touch the state.
  unfoldable pub lift : Result A → Exec S A
  lift r s = (r, s)

  unfoldable pub gets : (S → A) → Exec S A
  gets f s = (ok (f s), s)

module _ {S : Type 0} where
  unfoldable pub modify : (S → S) → Exec S (Unit {0})
  modify f s = (ok tt, f s)

  unfoldable pub skip : Exec S (Unit {0})
  skip s = (ok tt, s)

-- A step on a part of the state.
unfoldable pub zoom : {S T A : Type 0} → (S → T) → (T → S → S) → Exec T A → Exec S A
zoom get put m s = let (r, t) = m (get s) in (r, put t s)

module _ {S A B : Type 0} where
  abbrev pub continue : Result A → (LogError → Exec S B) → (A → Exec S B) → Exec S B
  continue (ok a) handler f s = f a s
  continue (err e) handler f s = handler e s
  continue stuck handler f s = (stuck, s)

  -- `match` on the result of a step, the error included.
  unfoldable pub on_error : Exec S A → (LogError → Exec S B) → (A → Exec S B) → Exec S B
  unfolding pure raise out_of_fuel lift gets modify skip zoom
  on_error m handler f s = let (r, s') = m s in continue r handler f s'

  infixl 5 ◌>>=◌ ◌>>◌
  -- A line that unfolds this unfolds every other step too.
  unfoldable pub ◌>>=◌ : Exec S A → (A → Exec S B) → Exec S B
  unfolding on_error
  m >>= f = on_error m raise f

  abbrev pub ◌>>◌ : Exec S A → Exec S B → Exec S B
  m >> n = m >>= λ _. n
