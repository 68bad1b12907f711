-- ===== src/Fs/Frame.antt =====
-- The operations on the file system that a reader uses change no file.
use tcslog.Prelude.{ℕ, ◌≡◌, arith, length, leb, take, drop}
use tcslog.Exec.{◌>>=◌}
use tcslog.Exec.Post.{
  Ensures, Ensures-bind, Ensures-gets_bind, Ensures-if, Ensures-pure, Ensures-raise,
}
use tcslog.Fs.{Text, World, draw, attempt, open_file, file_len, read_exact, content}

abbrev pub Unchanged : {A : Type 0} → World → A → World → Type 0
Unchanged w a t = t.files ≡ w.files

pub attempt-Unchanged : (w : World) → Ensures attempt w (Unchanged w) (Unchanged w)
unfolding attempt draw
attempt-Unchanged w = record { holds = ground arith }

pub open_file-Unchanged :
    (name : Text) (w : World) → Ensures (open_file name) w (Unchanged w) (Unchanged w)
unfolding open_file attempt draw ◌>>=◌
open_file-Unchanged name w = record { holds = ground arith }

-- The length that is told is that of the file.
pub file_len-Unchanged :
    (name : Text) (w : World)
    → Ensures
        (file_len name)
        w
        (λ n t. Unchanged w n t × (n ≡ length (content name w)))
        (Unchanged w)
unfolding file_len attempt draw ◌>>=◌ content
file_len-Unchanged name w = record { holds = ground arith }

pub read_exact-Unchanged :
    (name : Text) (off n : ℕ) (w : World)
    → Ensures (read_exact name off n) w (Unchanged w) (Unchanged w)
unfolding read_exact
read_exact-Unchanged name off n w =
    Ensures-bind (attempt-Unchanged w) (λ e t h. h)
      λ a t h. Ensures-gets_bind _ _ t (
        Ensures-if (leb n (length (take n (drop off (content name t))))) _ _ t
          (λ e. Ensures-pure _ t h) (λ e. Ensures-raise _ t h))
