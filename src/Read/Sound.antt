-- ===== src/Read/Sound.antt =====
-- The invariant of a reader at work.
use tcslog.Error.{LogError, io_error, read_truncated, read_overflow}
use tcslog.Fs.{World}
use tcslog.Fs.Ends.{IsIo}
use tcslog.Prelude.{Bool, true, false, ℕ, ◌+◌, ◌≤◌, ◌≡◌, Option, none, some, List, length}
use tcslog.Header.{segment_file_header_len}
use tcslog.Read.{Segment, Reader, Cursor}

-- An open segment file is the one that its header and its name name, no longer than its header
-- allows, and the read position lies within its data section.
pub record IsSound (seg : Segment) : Type 0 where
  pub named : seg.header.segment_id ≡ seg.id
  pub fits : seg.data_len + segment_file_header_len ≤ seg.header.max_size
  pub within : seg.pos ≤ seg.data_len

abbrev pub OpenSound : Option Segment → Type 0
OpenSound none = Unit
OpenSound (some seg) = IsSound seg

-- How many bytes of the record's payload stand in the slice, which holds none of them while a data
-- header is read.
abbrev pub most : Bool → ℕ → ℕ
most true d = d
most false d = 0

-- `d` bytes stand at the front of the slice that is being filled, and the cursor counts no more
-- payload bytes than stand there.
pub record IsPlaced (in_payload : Bool) (d : ℕ) (cursor : Cursor) (dst : List ℕ) : Type 0 where
  pub phase : cursor.in_payload ≡ in_payload
  pub placed : length dst ≡ d
  pub counted : cursor.payload_in_buf ≤ most in_payload d

-- With at most `k` segment files still to be opened.
pub record Holds (b : Bool) (k d : ℕ) (s : Reader) : Type 0 where
  pub sound : OpenSound s.log.current
  pub bounded : length s.log.pending ≤ k
  pub placed : IsPlaced b d s.cursor s.dst

-- A truncated read reports no more bytes than `n`.
abbrev pub Reports : ℕ → LogError → Type 0
Reports n (read_truncated lost m) = m ≤ n
Reports n (read_overflow m) = ⊥
Reports n _ = Unit

-- What holds when a step of a read fails.
pub record Fails (b : Bool) (k d : ℕ) (e : LogError) (s : Reader) : Type 0 where
  pub still : Holds b k d s
  pub reports : Reports (most b d) e

pub IsIo-Reports : (n : ℕ) (e : LogError) (w : World) → IsIo e w → Reports n e
IsIo-Reports n (io_error x) w h = tt
IsIo-Reports n _ w h = absurd h
