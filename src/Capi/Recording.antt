-- ===== src/Capi/Recording.antt =====
-- A record written through the C interface, and a log opened through it.
use tcslog.Prelude.{ℕ, ◌≡◌, refl, Option, some, List, length, ◌⊎◌}
use tcslog.Error.{LogError, Result, ok, err, stuck}
use tcslog.Exec.{Exec}
use tcslog.Exec.Post.{Post, Ensures}
use tcslog.Format.{Format}
use tcslog.Write.{Writer}
use tcslog.Write.Sound.{stream_of, Fails}
use tcslog.Write.Building.{Written}
use tcslog.Write.Accepting.{IsAcceptable, IsRefusal}
use tcslog.Capi.Status.{TcslogStatus}
use tcslog.Capi.{status_only, on_handle}
use tcslog.Capi.Strings.{assign}

Post-on_handle :
    {S A : Type 0} (P : A → S → Type 0) (r : Result A) (t : S)
    → Post r t P (λ e u. ⊥)
    → Post r (some t) (λ a o. (u : S) × (o ≡ some u) × P a u) (λ e o. ⊥)
Post-on_handle P (ok a) t h = (t, refl, h)
Post-on_handle P (err e) t h = h
Post-on_handle P stuck t h = h

-- What a call on a live handle ensures, the handle being live after it. It never fails: an error
-- is a status.
pub Ensures-on_handle :
    {S A : Type 0} {P : A → S → Type 0} (on_null : A) {m : Exec S A} (s : S)
    → Ensures m s P (λ e t. ⊥)
    → Ensures (on_handle on_null m) (some s) (λ a o. (t : S) × (o ≡ some t) × P a t) (λ e o. ⊥)
unfolding on_handle
Ensures-on_handle {P = P} on_null {m} s h = record {
  holds = Post-on_handle P (m s).0 (m s).1 h.holds;
}

-- A status and what `written` points to, after a record of the payload `msg` was given to the writer
-- `s`: the record is in the log, with its length; or an error of a payload that the log takes, which
-- lost nothing; or the log refused the payload, and nothing has changed.
abbrev pub Recorded :
    {H : Type 0}
    → ℕ
    → Format
    → Writer H
    → List ℕ
    → Option ℕ
    → TcslogStatus × Option ℕ
    → Writer H
    → Type 0
Recorded size f s msg written (status, written') t =
    ((total : ℕ) × (status ≡ TcslogStatus.ok)
      × (written' ≡ assign written total)
      × IsAcceptable s.log.format (length msg)
      × Written size f (stream_of s.world.files) msg total t)
    ⊎ ((e : LogError) × (status ≡ status_only e)
        × (written' ≡ written)
        × IsAcceptable s.log.format (length msg)
        × Fails size f (stream_of s.world.files) e t)
    ⊎ ((e : LogError) × (status ≡ status_only e)
        × (written' ≡ written)
        × IsRefusal s.log.format (length msg) e
        × (t ≡ s))

-- A call that was refused before it reached the log: nothing has changed.
abbrev pub Refused :
    {H : Type 0} → Option ℕ → Writer H → TcslogStatus × Option ℕ → Writer H → Type 0
Refused written s (status, written') t =
    ((status ≡ TcslogStatus.null_argument) ⊎ (status ≡ TcslogStatus.payload_too_large))
    × (written' ≡ written)
    × (t ≡ s)
