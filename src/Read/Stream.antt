-- ===== src/Read/Stream.antt =====
-- A session's data section bytes as one stream across its segment files, and a reader somewhere in
-- it. Each byte is marked with what the record that it belongs to still owes where it begins: 0 at
-- the first byte of a record. A segment file's header has the mark of the first byte after it.
pub mod Opening
pub mod Cursor
pub mod Entering
pub mod Crossing
pub mod Marks
pub mod Taking
pub mod Filling
pub mod Heading
pub mod Decoding
pub mod Starting
pub mod Body
pub mod Reading
pub mod Records
use tcslog.Prelude.{
  ℕ, zero, suc, ◌+◌, ◌-◌, ◌≤◌, ◌≡◌, false, Option, none, some, List, [], ◌∷◌, ◌++◌, length, drop,
}
use tcslog.Fs.{lookup}
use tcslog.SegId.{SegId}
use tcslog.SeqId.{SeqId}
use tcslog.Format.{Format}
use tcslog.Header.{SegmentHeader, segment_file_header_len, to_bytes, data_len}
use tcslog.Header.RoundTrip.{IsValid}
use tcslog.Names.{build_name}
use tcslog.Read.{Segment, Reader}

-- A byte after its mark.
abbrev pub Marked : Type 0
Marked = ℕ × ℕ

-- What a record of `total` bytes owes once `consumed` of them are behind: nothing at its start.
abbrev pub mark : ℕ → ℕ → ℕ
mark total zero = 0
mark total (suc consumed) = total - suc consumed

-- The bytes of a record of `total` bytes, from the one after `consumed` of them.
abbrev pub marked : ℕ → ℕ → List ℕ → List Marked
marked total consumed [] = []
marked total consumed (b ∷ bs) = (mark total consumed, b) ∷ marked total (suc consumed) bs

abbrev pub bytes_of : List Marked → List ℕ
bytes_of [] = []
bytes_of ((m, b) ∷ rest) = b ∷ bytes_of rest

abbrev pub first_mark : List Marked → ℕ
first_mark [] = 0
first_mark ((m, b) ∷ rest) = m

-- A segment file: its header and its data section.
pub record File : Type 0 where
  pub header : SegmentHeader
  pub data_section : List ℕ

abbrev pub ids_of : List File → List SegId
ids_of [] = []
ids_of (file ∷ rest) = file.header.segment_id ∷ ids_of rest

-- Every segment file but the last of a session is as long as its header's maximum size.
abbrev pub Full : List ℕ → SegmentHeader → List File → Type 0
Full section header [] = Unit
Full section header (file ∷ rest) = length section ≡ data_len header

module _ (home : Reader) (session : SegId) (format : Format) (minor : ℕ) where
  -- The file stands in the directory, and belongs to the session.
  pub record Stored (file : File) : Type 0 where
    pub found :
        lookup (build_name home.prefix file.header.segment_id home.suffix) home.world.files
        ≡ some (to_bytes file.header ++ file.data_section)
    pub valid : IsValid file.header
    pub fits : segment_file_header_len + length file.data_section ≤ file.header.max_size
    pub session_same : file.header.session_id ≡ session
    pub format_same : file.header.format ≡ format
    pub minor_same : file.header.minor ≡ minor

  -- The files that follow one of that sequence hold that stream.
  abbrev pub Chain : SeqId → List Marked → List File → Type 0
  Chain seq stream [] = stream ≡ []
  Chain seq stream (file ∷ rest) =
      (part : List Marked) × (after : List Marked) × (stream ≡ part ++ after)
      × (bytes_of part ≡ file.data_section)
      × Stored file
      × (file.header.sequence ≡ seq + 1)
      × (file.header.remaining ≡ first_mark stream)
      × Full file.data_section file.header rest
      × Chain file.header.sequence after rest

  -- What does not change while the records of the session are read.
  pub record Settled (s : Reader) : Type 0 where
    pub world_same : s.world ≡ home.world
    pub prefix_same : s.prefix ≡ home.prefix
    pub suffix_same : s.suffix ≡ home.suffix
    pub session_now : s.session ≡ some session
    pub position_known : s.resync ≡ false

  -- The open segment file, and those after it, hold the stream from the read position on.
  pub record Holding (stream : List Marked) (seg : Segment) (pending : List SegId) : Type 0 where
    pub file : File
    pub files : List File
    pub part : List Marked
    pub after : List Marked
    pub stored : Stored file
    pub header_same : seg.header ≡ file.header
    pub name_same : seg.name ≡ build_name home.prefix file.header.segment_id home.suffix
    pub offset_same : seg.offset ≡ segment_file_header_len + seg.pos
    pub data_len_same : seg.data_len ≡ length file.data_section
    pub within : seg.pos ≤ length file.data_section
    pub pending_same : pending ≡ ids_of files
    pub split : stream ≡ part ++ after
    pub part_bytes : bytes_of part ≡ drop seg.pos file.data_section
    pub full : Full file.data_section file.header files
    pub chain : Chain file.header.sequence after files

  -- A reader at that place of the stream.
  pub record At (stream : List Marked) (s : Reader) : Type 0 where
    pub settled : Settled s
    pub seg : Segment
    pub current_same : s.current ≡ some seg
    pub prev_same : s.prev_seq ≡ some seg.header.sequence
    pub holding : Holding stream seg s.pending
