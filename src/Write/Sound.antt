-- ===== src/Write/Sound.antt =====
-- The invariant of a writer, and the stream of bytes that stands in the data sections of its files.
use tcslog.Prelude.{
  ℕ, ◌+◌, ◌≤◌, ◌<◌, ◌≡◌, ap, arith, Option, none, some, List, [], ◌∷◌, ◌++◌, length, take, drop,
  list_eq_refl,
}
use tcslog.Error.{Result, ok, err, LogError, io_error, other}
use tcslog.Exec.Post.{Ensures, Post}
use tcslog.Fs.{Text, World, write_all, flush, attempt, draw, append_to, Outcome, works, fails}
use tcslog.Format.{Format}
use tcslog.Header.{segment_file_header_len}
use tcslog.Write.{WriteCallbacks, Current, LogWrite, Writer}

-- The data sections of the files, oldest first: the directory lists the newest file first.
abbrev pub stream_of : List (Text × List ℕ) → List ℕ
stream_of [] = []
stream_of ((name, content) ∷ rest) = stream_of rest ++ drop segment_file_header_len content

-- The open segment file is the newest, it holds a header and as much data as is counted, and it is
-- no longer than a segment file may be.
abbrev pub Front : ℕ → Option Current → List (Text × List ℕ) → Type 0
Front size none files = Unit
Front size (some file) [] = ⊥
Front size (some file) ((name, content) ∷ rest) =
    (file.name ≡ name)
    × (length content ≡ segment_file_header_len + file.data_written)
    × (file.data_written + segment_file_header_len ≤ size)

-- What a callback may do: anything to the state that it keeps, while time passes. It leaves the
-- files as they are.
pub record Kept (w v : World) : Type 0 where
  pub files_same : v.files ≡ w.files
  pub later : w.mono ≤ v.mono

pub record IsQuiet {H : Type 0} (cb : WriteCallbacks H) : Type 0 where
  pub sends :
      (name : Text) (h : H) (w : World)
      → Ensures (cb.send name) (h, w) (λ u p. Kept w p.1) (λ e p. Kept w p.1)
  pub completes :
      (name : Text) (h : H) (w : World)
      → Ensures (cb.record_complete name) (h, w) (λ u p. Kept w p.1) (λ e p. Kept w p.1)

module _ {H : Type 0} where
  -- Of a log whose segment files have `size` bytes at most and whose records are laid out as `f`.
  pub record IsRunning (size : ℕ) (f : Format) (l : LogWrite H) (w : World) : Type 0 where
    pub sized : l.seg_size_max ≡ size
    pub formatted : l.format ≡ f
    pub ticking : 0 < l.timer_resolution
    pub paired : l.clock.mono ≤ w.mono
    pub front : Front size l.current w.files

  -- The record in progress lacks `left` bytes, and the files hold the stream.
  pub record Owes (size : ℕ) (f : Format) (left : ℕ) (stream : List ℕ) (s : Writer H) : Type 0 where
    pub running : IsRunning size f s.log s.world
    pub owed : s.log.record_bytes_left ≡ left
    pub written : stream_of s.world.files ≡ stream

  -- After an error the writer still runs, and nothing that was written is lost.
  pub record Fails (size : ℕ) (f : Format) (stream : List ℕ) (e : LogError) (s : Writer H)
      : Type 0 where
    pub running : IsRunning size f s.log s.world
    pub extra : List ℕ
    pub kept : stream_of s.world.files ≡ stream ++ extra

pub append_to-front :
    (name content bytes : List ℕ) (rest : List (Text × List ℕ))
    → append_to name bytes ((name, content) ∷ rest) ≡ (name, content ++ bytes) ∷ rest
unfolding append_to
append_to-front name content bytes rest = rw (list_eq_refl name)

-- What a write does: it appends the bytes, or it fails and has appended some of them.
pub record Wrote (name bytes : List ℕ) (w t : World) : Type 0 where
  pub files_now : t.files ≡ append_to name bytes w.files
  pub mono_same : t.mono ≡ w.mono

pub record WroteSome (name bytes : List ℕ) (w : World) (e : LogError) (t : World) : Type 0 where
  pub count : ℕ
  pub files_now : t.files ≡ append_to name (take count bytes) w.files
  pub mono_same : t.mono ≡ w.mono

draw-Kept : (w : World) → ((draw w).1.files ≡ w.files) × ((draw w).1.mono ≡ w.mono)
unfolding draw
draw-Kept w = ground arith

pub write_all-Wrote :
    (name bytes : List ℕ) (w : World)
    → Ensures (write_all name bytes) w (λ u t. Wrote name bytes w t) (WroteSome name bytes w)
unfolding write_all
write_all-Wrote name bytes w = record {
  holds = outcome (draw w).0 (draw w).1 (draw-Kept w).0 (draw-Kept w).1;
}
  where
    ended : Outcome → World → Result (Unit {0}) × World
    ended o w' = elim o [
      | works ↦ (ok tt, record w' { files = append_to name bytes w'.files })
      | fails k ↦
          (err (io_error (other k)), record w' { files = append_to name (take k bytes) w'.files })
    ]

    outcome :
        (o : Outcome) (v : World)
        → v.files ≡ w.files
        → v.mono ≡ w.mono
        → Post (ended o v).0 (ended o v).1 (λ u t. Wrote name bytes w t) (WroteSome name bytes w)
    outcome works v same mono = record {
      files_now = ap (append_to name bytes) same;
      mono_same = mono;
    }
    outcome (fails k) v same mono = record {
      count = k;
      files_now = ap (append_to name (take k bytes)) same;
      mono_same = mono;
    }

pub flush-Kept :
    (name : Text) (w : World) → Ensures (flush name) w (λ u t. Kept w t) (λ e t. Kept w t)
unfolding flush attempt draw
flush-Kept name w = record { holds = ground arith }
