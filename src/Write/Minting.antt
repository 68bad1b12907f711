-- ===== src/Write/Minting.antt =====
-- One attempt to name a segment file: a reading of the clock, and the creation of a file.
use tcslog.Prelude.{ℕ, ◌+◌, ◌-◌, ◌≤◌, ◌<◌, ◌≡◌, arith, [], ◌∷◌, true, false, u64_max}
use tcslog.Error.{LogError, io_error, already_exists, timestamp_overflow}
use tcslog.Exec.{◌>>=◌}
use tcslog.Exec.Post.{Ensures}
use tcslog.SegId.{SegId}
use tcslog.Fs.{Text, World, attempt, draw, exists_file, create_new, monotonic}
use tcslog.Clock.{Clock, stamp, now, now_seg_id}
use tcslog.Write.Files.{is_collision}

-- What a clock reads, without the time that passes until it is read.
abbrev pub reading : Clock → World → ℕ
reading c w = c.delta + (w.mono - c.mono)

-- What ends the loop with an error: the clock, or an I/O error that is no collision.
abbrev pub EndsNaming : LogError → Type 0
EndsNaming (io_error already_exists) = ⊥
EndsNaming (io_error e) = Unit
EndsNaming timestamp_overflow = Unit
EndsNaming _ = ⊥

pub record Minted (c : Clock) (w : World) (id : SegId) (t : World) : Type 0 where
  pub files_same : t.files ≡ w.files
  pub mono_up : w.mono ≤ t.mono
  pub is_reading : id ≡ reading c t
  pub below : id < u64_max

pub now_seg_id-Minted :
    (c : Clock) (w : World)
    → Ensures
        (now_seg_id c)
        w
        (Minted c w)
        (λ e t. EndsNaming e × (w.mono ≤ t.mono) × (t.files ≡ w.files))
unfolding now_seg_id now stamp monotonic ◌>>=◌
now_seg_id-Minted c w = record { holds = ground arith }

-- An attempt to create a file: a new one, or an error, a collision only where the name is taken.
pub record Created (name : Text) (w t : World) : Type 0 where
  pub was_free : exists_file name w.files ≡ false
  pub now_there : t.files ≡ (name, []) ∷ w.files
  pub mono_same : t.mono ≡ w.mono

pub record NotCreated (name : Text) (w : World) (e : LogError) (t : World) : Type 0 where
  pub files_same : t.files ≡ w.files
  pub mono_same : t.mono ≡ w.mono
  pub taken : is_collision e ≡ true → exists_file name w.files ≡ true
  pub ends : is_collision e ≡ false → EndsNaming e

pub create_new-Created :
    (name : Text) (w : World)
    → Ensures (create_new name) w (λ _ t. Created name w t) (NotCreated name w)
unfolding create_new attempt draw ◌>>=◌
create_new-Created name w = record { holds = ground arith }
