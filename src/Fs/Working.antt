-- ===== src/Fs/Working.antt =====
-- The operations on the file system where every one of them works.
use tcslog.Prelude.{ℕ, ◌≤◌, ◌≡◌, refl, some, List, [], length, le→leb, take, drop}
use tcslog.Exec.{◌>>=◌}
use tcslog.Exec.Run.{Runs}
use tcslog.Fs.{Text, World, draw, attempt, open_file, file_len, read_exact, content, lookup}

module _ (w : World) (works : w.outcomes ≡ []) where
  pub attempt-Runs : Runs attempt w tt w
  unfolding attempt draw
  attempt-Runs = record { runs = rw works refl }

  pub open_file-Runs :
      (name : Text) (bytes : List ℕ)
      → lookup name w.files ≡ some bytes
      → Runs (open_file name) w tt w
  unfolding open_file attempt draw ◌>>=◌
  open_file-Runs name bytes e = record { runs = rw (works, e) refl }

  pub file_len-Runs : (name : Text) → Runs (file_len name) w (length (content name w)) w
  unfolding file_len attempt draw ◌>>=◌
  file_len-Runs name = record { runs = rw works refl }

  pub read_exact-Runs :
      (name : Text) (off n : ℕ)
      → n ≤ length (take n (drop off (content name w)))
      → Runs (read_exact name off n) w (take n (drop off (content name w))) w
  unfolding read_exact attempt draw ◌>>=◌ content
  read_exact-Runs name off n le = record {
    runs = rw (works, le→leb n (length (take n (drop off (content name w)))) le) refl;
  }
