-- ===== src/Write/Steps.antt =====
-- Rules of total correctness for the steps of a writer: an operation on the world, and a callback.
use tcslog.Prelude.{◌≡◌, refl, subst}
use tcslog.Error.{LogError}
use tcslog.Exec.{Exec, raise, on_error, ◌>>=◌}
use tcslog.Exec.Post.{Ensures, Ensures-raise, Ensures-on_error, Ensures-zoom}
use tcslog.Fs.{World, Io}
use tcslog.Write.{Writer, Writes, io, call}

-- A state that differs from `s` in its world alone.
abbrev InWorld : {H A : Type 0} → Writer H → (A → World → Type 0) → A → Writer H → Type 0
InWorld s P a t = (w : World) × (record s { world = w } ≡ t) × P a w

module _ {H A B : Type 0} {P : A → World → Type 0} {Q : LogError → World → Type 0}
    {P' : B → Writer H → Type 0} {Q' : LogError → Writer H → Type 0} where
  -- An operation on the world, and what is made of its result.
  pub Ensures-io :
      {m : Io A} {handler : LogError → Writes H B} {f : A → Writes H B} (s : Writer H)
      → Ensures m s.world P Q
      → ((e : LogError) (w : World) → Q e w → Ensures (handler e) (record s { world = w }) P' Q')
      → ((a : A) (w : World) → P a w → Ensures (f a) (record s { world = w }) P' Q')
      → Ensures (on_error (io m) handler f) s P' Q'
  Ensures-io {handler = handler} {f = f} s h k l =
      Ensures-on_error
        (Ensures-zoom {P' = InWorld s P} {Q' = InWorld s Q} _ _ s h (λ a w p. (w, refl, p))
          (λ e w q. (w, refl, q)))
        (λ e t x. subst (λ (u : Writer H). Ensures (handler e) u P' Q') x.1 (k e x.0 x.2))
        (λ a t x. subst (λ (u : Writer H). Ensures (f a) u P' Q') x.1 (l a x.0 x.2))

  pub Ensures-io_bind :
      {m : Io A} {f : A → Writes H B} (s : Writer H)
      → Ensures m s.world P Q
      → ((e : LogError) (w : World) → Q e w → Q' e (record s { world = w }))
      → ((a : A) (w : World) → P a w → Ensures (f a) (record s { world = w }) P' Q')
      → Ensures (io m >>= f) s P' Q'
  unfolding ◌>>=◌
  Ensures-io_bind s h k l = record {
    holds = (Ensures-io {handler = raise} s h (λ e w q. Ensures-raise e _ (k e w q)) l).holds;
  }

-- A state that differs from `s` in what a callback may change.
abbrev pub called : {H : Type 0} → Writer H → H × World → Writer H
called s p = record s { log = record s.log { handler = p.0 }; world = p.1 }

abbrev InCall : {H A : Type 0} → Writer H → (A → H × World → Type 0) → A → Writer H → Type 0
InCall {H = H} s P a t = (p : H × World) × (called s p ≡ t) × P a p

module _ {H A B : Type 0} {P : A → H × World → Type 0} {Q : LogError → H × World → Type 0}
    {P' : B → Writer H → Type 0} {Q' : LogError → Writer H → Type 0} where
  pub Ensures-call :
      {m : Exec (H × World) A} {handler : LogError → Writes H B} {f : A → Writes H B} (s : Writer H)
      → Ensures m (s.log.handler, s.world) P Q
      → ((e : LogError) (p : H × World) → Q e p → Ensures (handler e) (called s p) P' Q')
      → ((a : A) (p : H × World) → P a p → Ensures (f a) (called s p) P' Q')
      → Ensures (on_error (call m) handler f) s P' Q'
  Ensures-call {handler = handler} {f = f} s h k l =
      Ensures-on_error
        (Ensures-zoom {P' = InCall s P} {Q' = InCall s Q} _ _ s h (λ a p x. (p, refl, x))
          (λ e p x. (p, refl, x)))
        (λ e t x. subst (λ (u : Writer H). Ensures (handler e) u P' Q') x.1 (k e x.0 x.2))
        (λ a t x. subst (λ (u : Writer H). Ensures (f a) u P' Q') x.1 (l a x.0 x.2))

module _ {H A : Type 0} {P : A → H × World → Type 0} {Q : LogError → H × World → Type 0}
    {P' : A → Writer H → Type 0} {Q' : LogError → Writer H → Type 0} where
  pub Ensures-call_last :
      {m : Exec (H × World) A} (s : Writer H)
      → Ensures m (s.log.handler, s.world) P Q
      → ((e : LogError) (p : H × World) → Q e p → Q' e (called s p))
      → ((a : A) (p : H × World) → P a p → P' a (called s p))
      → Ensures (call m) s P' Q'
  Ensures-call_last s h k l = Ensures-zoom _ _ s h l k
