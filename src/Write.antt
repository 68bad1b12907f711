-- ===== src/Write.antt =====
-- tcslog/src/write.rs: the callbacks, the state of a `LogWrite`, and its accessors. The children
-- hold the rest of the file: `Files` the segment files, `Record` one record, `Session` the life of
-- a log.
pub mod Files
pub mod Record
pub mod Session
pub mod Widening
pub mod Retrying
pub mod Accessors
pub mod Steps
pub mod Sound
pub mod Creating
pub mod Segments
pub mod Appending
pub mod Building
pub mod Writing
pub mod Accepting
pub mod Scanning
pub mod Opening
pub mod Clearing
pub mod Closing
pub mod Count
pub mod Minting
pub mod Naming
use tcslog.Prelude.{
  ℕ, zero, suc, ◌+◌, ◌-◌, Bool, true, false, Option, none, some, List, [], ◌∷◌, if◌then◌else◌,
}
use tcslog.Exec.{Exec, pure, raise, gets, modify, skip, zoom, ◌>>=◌, ◌>>◌}
use tcslog.Error.{Result, LogError}
use tcslog.Fs.{Text, World, Io}
use tcslog.SegId.{SegId}
use tcslog.SeqId.{SeqId}
use tcslog.Format.{Format, Meta}
use tcslog.Header.{segment_file_header_len}
use tcslog.Clock.{Clock}

-- The caller's code, over the state `H` that it keeps: it may change the directory, and it may
-- fail. A file is named; `record_complete` is lent the file that is open.
pub record WriteCallbacks (H : Type 0) : Type 0 where
  pub record_complete : Text → Exec (H × World) (Unit {0})
  pub send : Text → Exec (H × World) (Unit {0})
  pub timer_resolution_adjusted : ℕ → H → H

-- `impl WriteCallbacks for ()`, with the trait's defaults. What is printed is left out.
abbrev pub no_callbacks : WriteCallbacks (Unit {0})
no_callbacks = record {
  record_complete = λ name. skip;
  send = λ name. skip;
  timer_resolution_adjusted = λ resolution h. h;
}

pub record Current : Type 0 where
  pub id : SegId
  pub name : Text
  pub data_written : ℕ

-- The reusable name and path buffers are left out: each is overwritten before it is used.
pub record LogWrite (H : Type 0) : Type 0 where
  pub prefix : Text
  pub suffix : Text
  pub seg_size_max : ℕ
  pub format : Format
  pub handler : H
  pub timer_resolution : ℕ
  pub clock : Clock
  pub current : Option Current
  pub session_id : SegId
  pub sequence : SeqId
  pub record_count : ℕ
  pub record_bytes_left : ℕ
  pub last_meta : Meta
  pub header_buf : List ℕ

pub record Writer (H : Type 0) : Type 0 where
  pub log : LogWrite H
  pub open log use *
  pub world : World

abbrev pub Writes : Type 0 → Type 0 → Type 0
Writes H A = Exec (Writer H) A

module _ {H : Type 0} where
  abbrev pub io : {A : Type 0} → Io A → Writes H A
  io m = zoom (λ (s : Writer H). s.world) (λ w s. record s { world = w }) m

  abbrev pub on_log : (LogWrite H → LogWrite H) → Writes H (Unit {0})
  on_log f = modify (λ s. record s { log = f s.log })

  -- A callback, which is lent the handler.
  abbrev pub call : {A : Type 0} → Exec (H × World) A → Writes H A
  call m =
      zoom (λ (s : Writer H). (s.handler, s.world))
        (λ p s. record s { log = record s.log { handler = p.0 }; world = p.1 }) m

  -- `room`
  unfoldable pub room : LogWrite H → ℕ
  room l = elim l.current [
    | none ↦ 0
    | some current ↦ l.seg_size_max - segment_file_header_len - current.data_written
  ]

  -- `current_segment_id`
  unfoldable pub current_segment_id : LogWrite H → SegId
  current_segment_id l = elim l.current [ none ↦ l.session_id | some current ↦ current.id ]
