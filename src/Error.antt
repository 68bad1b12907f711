-- ===== src/Error.antt =====
-- tcslog/src/error.rs: the errors of the crate, and the result type of its fallible operations.
use tcslog.Prelude.{ℕ}

-- What the library tells apart of a `std::io::Error`: its kind, or some other failure.
pub data IoError : Type 0 where
  already_exists not_found unexpected_eof : IoError
  other : ℕ → IoError

pub data LogError : Type 0 where
  clock_error eof fixed_len_mismatch invalid_header invalid_pathname : LogError
  io_error : IoError → LogError
  name_too_long no_segment_files path_delimiter_not_allowed payload_too_large : LogError
  read_overflow : ℕ → LogError
  read_truncated : ℕ → ℕ → LogError
  seg_size_too_small session_end timer_resolution_zero timestamp_overflow version_mismatch :
      LogError

-- `stuck` is no Rust value: a loop of the model ran out of fuel.
pub data Result {ℓ} (A : Type ℓ) : Type ℓ where
  ok : A → Result A
  err : LogError → Result A
  stuck : Result A

infixl 5 ◌>>=◌
abbrev pub ◌>>=◌ {ℓ κ} : {B : Type κ} {A : Type ℓ} → Result A → (A → Result B) → Result B
stuck >>= next = stuck
err failure >>= next = err failure
ok value >>= next = next value
