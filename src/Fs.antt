-- ===== src/Fs.antt =====
-- What the library uses of `std::fs` and `std::time`: a directory of files, operations on it that
-- may fail, and two clocks. Which operation fails, and how time passes, is not the library's
-- choice: a world carries the outcomes of the operations to come, and every theorem holds for all.
pub mod Ends
pub mod Frame
pub mod Ticks
pub mod Working
use tcslog.Prelude.{
  ℕ, zero, suc, ◌+◌, ◌-◌, ◌%◌, ◌≤◌, ◌<◌, ◌≡◌, List, [], ◌∷◌, ◌++◌, length, take, drop, Bool, true,
  false, Option, none, some, list_eq, if◌then◌else◌, leb, u64_max,
}
use tcslog.Exec.{Exec, pure, raise, gets, modify, skip, ◌>>=◌, ◌>>◌}
use tcslog.Error.{
  Result, ok, err, IoError, io_error, already_exists, not_found, unexpected_eof, other,
}

-- A file name, a path component or any other text: its bytes.
abbrev pub Text : Type 0
Text = List ℕ

-- What becomes of one operation: it works, or it fails, a write after some of its bytes.
pub data Outcome : Type 0 where
  works : Outcome
  fails : ℕ → Outcome

-- How coarse the monotonic clock is: its reading moves by whole ticks. A tick is no longer than the
-- longest nap that a `u64` of nanoseconds can ask for.
pub record Tick : Type 0 where
  pub nanos : ℕ
  pub positive : 0 < nanos
  pub small : nanos ≤ u64_max

pub record World : Type 0 where
  -- the files of the log's directory, in the order in which it lists them
  pub files : List (Text × List ℕ)
  -- the outcomes of the operations to come; all work once the list has run out
  pub outcomes : List Outcome
  -- whether the path that the log was given names a directory
  pub is_dir : Bool
  -- how far the real-time clock reads past the UNIX epoch, if it does not read before it
  pub real : Option ℕ
  -- the monotonic clock, and by how much it advances before each reading to come
  pub mono : ℕ
  pub advances : List ℕ
  pub tick : Tick

abbrev pub Io : Type 0 → Type 0
Io A = Exec World A

-- The next outcome, and the world after it.
unfoldable pub draw : World → Outcome × World
draw w = elim w.outcomes [ [] ↦ (works, w) | o ∷ rest ↦ (o, record w { outcomes = rest }) ]

-- An operation that does nothing but work or fail.
unfoldable pub attempt : Io (Unit {0})
unfolding draw
attempt w =
    let (o, w') = draw w in
    elim o [ works ↦ (ok tt, w') | fails e ↦ (err (io_error (other e)), w') ]

unfoldable pub lookup : Text → List (Text × List ℕ) → Option (List ℕ)
lookup name [] = none
lookup name ((n, content) ∷ rest) = if list_eq name n then some content else lookup name rest

unfoldable pub append_to : Text → List ℕ → List (Text × List ℕ) → List (Text × List ℕ)
append_to name bytes [] = []
append_to name bytes ((n, content) ∷ rest) =
    if list_eq name n
    then (n, content ++ bytes) ∷ rest
    else (n, content) ∷ append_to name bytes rest

unfoldable pub remove : Text → List (Text × List ℕ) → List (Text × List ℕ)
remove name [] = []
remove name ((n, content) ∷ rest) = if list_eq name n then rest else (n, content) ∷ remove name rest

-- `File::open`
unfoldable pub open_file : Text → Io (Unit {0})
open_file name = do
  attempt
  found ← gets (λ w. lookup name w.files)
  elim found [ none ↦ raise (io_error not_found) | some _ ↦ skip ]

-- What an open file holds. The library's reader does not change a file, and a file that is open
-- stays readable whatever becomes of its name.
unfoldable pub content : Text → World → List ℕ
unfolding lookup
content name w = elim (lookup name w.files) [ none ↦ [] | some bytes ↦ bytes ]

-- `file.metadata()?.len()`
unfoldable pub file_len : Text → Io ℕ
file_len name = do attempt; gets (λ w. length (content name w))

-- `read_exact` of `n` bytes from the offset `off` of an open file.
unfoldable pub read_exact : Text → ℕ → ℕ → Io (List ℕ)
read_exact name off n = do
  attempt
  bytes ← gets (λ w. take n (drop off (content name w)))
  if leb n (length bytes) then pure bytes else raise (io_error unexpected_eof)

abbrev pub exists_file : Text → List (Text × List ℕ) → Bool
exists_file name files = elim (lookup name files) [ none ↦ false | some _ ↦ true ]

-- `OpenOptions::new().write(true).create_new(true).open(path)`
unfoldable pub create_new : Text → Io (Unit {0})
create_new name = do
  attempt
  taken ← gets (λ w. exists_file name w.files)
  if taken
      then raise (io_error already_exists)
      else modify (λ w. record w { files = (name, []) ∷ w.files })

-- `write_all` at the end of an open file. A write that fails may have written some of the bytes.
unfoldable pub write_all : Text → List ℕ → Io (Unit {0})
write_all name bytes w =
    let (o, w') = draw w in
    elim o [
      | works ↦ (ok tt, record w' { files = append_to name bytes w'.files })
      | fails k ↦
          (err (io_error (other k)), record w' { files = append_to name (take k bytes) w'.files })
    ]

-- `flush`; a `File` has no buffer of its own.
unfoldable pub flush : Text → Io (Unit {0})
flush name = attempt

-- `fs::remove_file`
unfoldable pub remove_file : Text → Io (Unit {0})
remove_file name = do
  attempt
  there ← gets (λ w. exists_file name w.files)
  if there
      then modify (λ w. record w { files = remove name w.files })
      else raise (io_error not_found)

abbrev first_or_zero : List ℕ → ℕ
first_or_zero [] = 0
first_or_zero (a ∷ rest) = a

-- `Instant::now()`: the monotonic clock, which has advanced since it was last read.
unfoldable pub monotonic : Io ℕ
monotonic w =
    let m = w.mono + first_or_zero w.advances in
    (ok m, record w { mono = m; advances = drop 1 w.advances })

-- How far a nap moves the reading at least: by the whole ticks in it, so that a nap shorter than a
-- tick may leave the reading where it was.
unfoldable pub whole_ticks : Tick → ℕ → ℕ
whole_ticks tick nap = nap - nap % tick.nanos

-- `thread::sleep`, which lasts at least as long as it is asked to.
unfoldable pub sleep : ℕ → Io (Unit {0})
sleep nap = modify (λ w. record w { mono = w.mono + whole_ticks w.tick nap })
