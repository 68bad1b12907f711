-- ===== src/Fs/Ends.antt =====
-- Every operation on the file system returns or fails, and what one that returns has done.
use tcslog.Prelude.{ℕ, ◌≡◌, arith, List, length, leb, leb→le, length-take, take, drop}
use tcslog.Error.{LogError, io_error}
use tcslog.Exec.{◌>>=◌}
use tcslog.Exec.Post.{
  Ensures, Ensures-bind, Ensures-gets_bind, Ensures-if, Ensures-pure, Ensures-raise,
}
use tcslog.Fs.{Text, World, draw, attempt, open_file, file_len, read_exact, content}

abbrev pub Any : {A : Type 0} → A → World → Type 0
Any a w = Unit

-- The only errors of the file system are I/O errors.
abbrev pub IsIo : LogError → World → Type 0
IsIo (io_error e) w = Unit
IsIo _ w = ⊥

pub attempt_ends : (w : World) → Ensures attempt w Any IsIo
unfolding attempt draw
attempt_ends w = record { holds = ground arith }

pub open_file_ends : (name : Text) (w : World) → Ensures (open_file name) w Any IsIo
unfolding open_file attempt draw ◌>>=◌
open_file_ends name w = record { holds = ground arith }

pub file_len_ends : (name : Text) (w : World) → Ensures (file_len name) w Any IsIo
unfolding file_len attempt draw ◌>>=◌
file_len_ends name w = record { holds = ground arith }

-- A read that returns has read as many bytes as it was asked for.
pub read_exact-length :
    (name : Text) (off n : ℕ) (w : World)
    → Ensures (read_exact name off n) w (λ bytes t. length bytes ≡ n) IsIo
unfolding read_exact
read_exact-length name off n w =
    Ensures-bind (attempt_ends w) (λ e t h. h)
      λ a t h.
        let bytes : List ℕ = take n (drop off (content name t)) in
        Ensures-gets_bind _ _ t (
          Ensures-if (leb n (length bytes)) _ _ t
            (λ e.
              Ensures-pure bytes t (
                omega
                  (arith, leb→le n (length bytes) e, length-take n (drop off (content name t)))))
            (λ e. Ensures-raise _ t tt))
