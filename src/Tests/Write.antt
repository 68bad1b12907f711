-- ===== src/Tests/Write.antt =====
-- A writer in a directory that holds two segment files already.
use tcslog.Prelude.{ℕ, ◌-◌, ◌≡◌, refl, list_eq, arith, List, [], ◌∷◌, ◌++◌, none, some}
use tcslog.Exec.{skip, ◌>>=◌}
use tcslog.Error.{ok}
use tcslog.SegId
use tcslog.Clock.{now_seg_id, now, stamp, nap_for, widened}
use tcslog.Exec.Post.{Ensures}
use tcslog.Fs.{Text, monotonic, create_new, attempt, draw, lookup, sleep, whole_ticks}
use tcslog.Header.{to_bytes}
use tcslog.Names.{build_name}
use tcslog.Format.{Format, Meta}
use tcslog.Write.{Writer, no_callbacks}
use tcslog.Write.Files.{create_unique_file, create_loop, note_collision}
use tcslog.Write.Retrying.{Named, Unnamed}
use tcslog.Write.Naming.{create_unique_file-Named}
use tcslog.Write.Record.{write, write_bytes}
use tcslog.Write.Session
use tcslog.Write.Session.{clear, drop_log}
use tcslog.Write.Sound.{stream_of, IsQuiet, IsRunning, Owes, Fails}
use tcslog.Write.Appending.{write_bytes-Appends}
use tcslog.Write.Building.{Written}
use tcslog.Write.Writing.{write-Written}
use tcslog.Write.Opening.{Opened, NotOpened, new-Opened}
use tcslog.Write.Closing.{after_drop, drop_log-Closed}
use tcslog.Write.Clearing.{Clears, clear-Clears}
use tcslog.Tests.Data.{log_prefix, log_suffix, two_files, header_1}

-- The clock reads a time at which the directory holds a name already.
abbrev writer_at_7 : Writer (Unit {0})
writer_at_7 = record {
  log = record {
    prefix = log_prefix;
    suffix = log_suffix;
    seg_size_max = 58;
    format = Format.variable_simple;
    handler = tt;
    timer_resolution = 1;
    clock = record { delta = 6; mono = 5 };
    current = none;
    session_id = 0;
    sequence = 0;
    record_count = 0;
    record_bytes_left = 0;
    last_meta = Meta.variable_simple;
    header_buf = [];
  };
  world = two_files;
}

-- The same at a clock that ticks every eight nanoseconds: the name is tried three times.
abbrev coarse_writer : Writer (Unit {0})
coarse_writer = record {
  log = record writer_at_7.log { clock = record { delta = 7; mono = 5 } };
  world = record two_files {
    advances = [];
    tick = record { nanos = 8; positive = omega arith; small = omega arith };
  };
}

coarse_known :
    ((create_unique_file no_callbacks coarse_writer).0
      ≡ ok (15, build_name log_prefix 15 log_suffix))
    × ((create_unique_file no_callbacks coarse_writer).1.log.timer_resolution ≡ 4)
unfolding create_unique_file create_loop note_collision ◌>>=◌ now_seg_id now stamp monotonic
    create_new attempt draw lookup list_eq sleep whole_ticks nap_for widened build_name
    SegId.display
coarse_known = (refl, refl)

create_unique_file-Named_example :
    Ensures
      (create_unique_file no_callbacks)
      coarse_writer
      (Named no_callbacks coarse_writer.log 5 two_files.files)
      (Unnamed no_callbacks coarse_writer.log 5 two_files.files)
create_unique_file-Named_example =
    create_unique_file-Named no_callbacks coarse_writer (omega arith) (omega arith)

pub no_callbacks-IsQuiet : IsQuiet no_callbacks
unfolding skip
no_callbacks-IsQuiet = record {
  sends = λ name h w. record { holds = record { files_same = refl; later = omega arith } };
  completes = λ name h w. record { holds = record { files_same = refl; later = omega arith } };
}

-- A writer with a segment file open that has room for two more bytes.
abbrev pub open_files : List (Text × List ℕ)
open_files =
    (build_name log_prefix 7 log_suffix, to_bytes header_1 ++ 1 ∷ 0 ∷ 0 ∷ [])
    ∷ (build_name log_prefix 6 log_suffix, to_bytes header_1)
    ∷ []

abbrev pub open_writer : Writer (Unit {0})
open_writer = record {
  log = record writer_at_7.log {
    current = some (record { id = 7; name = build_name log_prefix 7 log_suffix; data_written = 3 });
    record_bytes_left = 4;
  };
  world = record two_files { files = open_files };
}

pub open_writer-IsRunning : IsRunning 58 Format.variable_simple open_writer.log open_writer.world
unfolding to_bytes
open_writer-IsRunning = record {
  sized = refl;
  formatted = refl;
  ticking = omega arith;
  paired = omega arith;
  front = (refl, refl, omega arith);
}

write-Written_example :
    Ensures
      (write no_callbacks (b'a' ∷ b'b' ∷ []))
      open_writer
      (Written 58 Format.variable_simple (stream_of open_files) (b'a' ∷ b'b' ∷ []))
      (Fails 58 Format.variable_simple (stream_of open_files))
write-Written_example =
    write-Written no_callbacks 58 Format.variable_simple (b'a' ∷ b'b' ∷ []) open_writer
      (omega arith) no_callbacks-IsQuiet open_writer-IsRunning

write_bytes-Appends_example :
    Ensures
      (write_bytes no_callbacks (b'a' ∷ b'b' ∷ b'c' ∷ []))
      open_writer
      (λ u t.
        Owes 58 Format.variable_simple
          (4 - 3)
          (stream_of open_files ++ (b'a' ∷ b'b' ∷ b'c' ∷ []))
          t)
      (Fails 58 Format.variable_simple (stream_of open_files))
write_bytes-Appends_example =
    write_bytes-Appends no_callbacks 58 Format.variable_simple (omega arith) no_callbacks-IsQuiet 4
      (stream_of open_files) (b'a' ∷ b'b' ∷ b'c' ∷ []) open_writer
      (record { running = open_writer-IsRunning; owed = refl; written = refl }) (omega arith)

new-Opened_example :
    Ensures
      (Session.new no_callbacks 1 log_prefix log_suffix 58 Format.variable_simple tt)
      two_files
      (Opened 58 Format.variable_simple two_files)
      (NotOpened two_files)
new-Opened_example =
    new-Opened no_callbacks 1 log_prefix log_suffix 58 Format.variable_simple tt two_files
      no_callbacks-IsQuiet

drop_log-Closed_example :
    Ensures
      (drop_log no_callbacks)
      open_writer
      (λ u t.
        (t ≡ after_drop no_callbacks open_writer.log.current open_writer)
        × (t.log.current ≡ none)
        × (stream_of t.world.files ≡ stream_of open_files))
      (λ e t. ⊥)
drop_log-Closed_example =
    drop_log-Closed no_callbacks 58 Format.variable_simple open_writer (omega arith)
      no_callbacks-IsQuiet open_writer-IsRunning

-- Another file of the directory.
abbrev other_name : Text
other_name = b'x' ∷ []

abbrev with_other : Writer (Unit {0})
with_other = record open_writer {
  world = record two_files {
    files = (other_name, []) ∷ (build_name log_prefix 7 log_suffix, []) ∷ [];
  };
}

clear-Clears_example :
    Ensures
      (clear no_callbacks)
      with_other
      (λ u t. Clears no_callbacks other_name with_other t)
      (λ e t. t.log ≡ record with_other.log { current = none; record_bytes_left = 0 })
unfolding build_name
clear-Clears_example = clear-Clears no_callbacks other_name with_other (ground arith)
