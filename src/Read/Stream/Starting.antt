-- ===== src/Read/Stream/Starting.antt =====
-- `find_record_start`, from a reader that has just been made.
use tcslog.Prelude.{
  ℕ, ◌+◌, ◌<◌, ◌≡◌, refl, ap, sym, subst, ◌∙◌, arith, true, false, Option, none, some, List, [],
  ◌∷◌, ◌++◌, length, drop, ltb, leb,
}
use tcslog.Exec.Run.{
  Runs, pure-Runs, bind-Runs, on_error-Runs, gets-Runs, modify-Runs, then-Runs, else-Runs,
  zoom-Runs,
}
use tcslog.Fs.{Text, World}
use tcslog.Fs.Working.{attempt-Runs}
use tcslog.SegId.{SegId}
use tcslog.Format.{Format}
use tcslog.Names.{build_name}
use tcslog.Read.{Segment, Recovery, fresh, LogRead, Reader, as_i64}
use tcslog.Read.Open.{
  count_opened, enter_session, try_recovery, seek_to_record, start_in, look_at, find_loop,
  find_record_start,
}
use tcslog.Read.Record.{resynchronize, report_lost}
use tcslog.Read.Spend.Searching.{pending-entered, prefix-entered, suffix-entered}
use tcslog.Read.Stream.{Marked, bytes_of, File, ids_of, Full, Stored, Chain, At}
use tcslog.Read.Stream.Opening.{opened_file}
use tcslog.Read.Stream.Entering.{entered, open_next-Runs}

-- A reader ahead of a session, whose first segment file begins with a record.
pub record AtStart (home : Reader) (session : SegId) (format : Format) (minor : ℕ)
    (stream : List Marked) (s : Reader) : Type 0 where
  pub world_same : s.world ≡ home.world
  pub prefix_same : s.prefix ≡ home.prefix
  pub suffix_same : s.suffix ≡ home.suffix
  pub none_open : s.current ≡ none
  pub no_session : s.session ≡ none
  pub no_recovery : s.recovery ≡ none
  pub file : File
  pub files : List File
  pub part : List Marked
  pub after : List Marked
  pub pending_same : s.pending ≡ file.header.segment_id ∷ ids_of files
  pub stored : Stored home session format minor file
  pub first : file.header.sequence ≡ 0
  pub nothing_owed : file.header.remaining ≡ 0
  pub some_data : 0 < length file.data_section
  pub split : stream ≡ part ++ after
  pub part_bytes : bytes_of part ≡ file.data_section
  pub full : Full file.data_section file.header files
  pub chain : Chain home session format minor file.header.sequence after files

session_entered :
    (seg : Segment) (l : LogRead)
    → l.session ≡ none
    → (enter_session seg (count_opened seg l)).session ≡ some seg.header.session_id
unfolding enter_session count_opened
session_entered seg l e = ground (arith, e)

lost_entered :
    (seg : Segment) (l : LogRead)
    → l.session ≡ none
    → (enter_session seg (count_opened seg l)).session_start_lost ≡ seg.header.sequence
unfolding enter_session count_opened
lost_entered seg l e = ground (arith, e)

-- The reader once the first record is found.
abbrev found : Reader → File → List SegId → Reader
found s file rest =
    let seg : Segment = opened_file s file in
    let t : Reader = entered seg rest (record s { log = record s.log { recovery = none } }) in
    record t {
      log = record t.log {
        current = some (record seg {
          offset = seg.offset + as_i64 file.header.remaining;
          pos = file.header.remaining;
        });
      };
    }

module _ (home : Reader) (session : SegId) (format : Format) (minor : ℕ)
    (works : home.world.outcomes ≡ []) (stream : List Marked) (s : Reader)
    (h : AtStart home session format minor stream s) where
  find_record_start-Runs : Runs find_record_start s fresh (found s h.file (ids_of h.files))
  unfolding find_record_start find_loop look_at start_in seek_to_record
  find_record_start-Runs =
      let works' : s.world.outcomes ≡ [] = ap (λ (w : World). w.outcomes) h.world_same ∙ works in
      let inside : leb (length h.file.data_section) h.file.header.remaining ≡ false =
        ground (arith, h.nothing_owed, h.some_data) in
      gets-Runs _ _ (
        gets-Runs _ _ (
          modify-Runs _ _ (
            bind-Runs _
              (open_next-Runs (record s { log = record s.log { recovery = none } }) h.file
                (ids_of h.files) works' h.pending_same
                (rw (h.prefix_same, h.suffix_same, h.world_same) h.stored.found) h.stored.valid
                h.stored.fits (rw h.no_session refl))
              (gets-Runs _ _ (
                subst
                  (λ (o : Option Recovery).
                    Runs
                      (start_in (find_loop (length s.pending))
                        (try_recovery o (opened_file s h.file)) (opened_file s h.file))
                      (entered (opened_file s h.file) (ids_of h.files)
                        (record s { log = record s.log { recovery = none } }))
                      fresh (found s h.file (ids_of h.files)))
                  (sym h.no_recovery)
                  (else-Runs _ _ _ inside (
                    bind-Runs _ (zoom-Runs _ _ (attempt-Runs _ works'))
                      (modify-Runs _ _ (pure-Runs _ _)))))))))

  -- The reader that goes on from there.
  abbrev started : Reader
  started =
      let t : Reader = found s h.file (ids_of h.files) in
      record t { log = record t.log { resync = false } }

  resynchronize-Runs : s.resync ≡ true → Runs resynchronize s fresh started
  unfolding resynchronize report_lost
  resynchronize-Runs armed =
      let seg : Segment = opened_file s h.file in
      let l : LogRead = record s.log { recovery = none; pending = ids_of h.files } in
      let lost : (enter_session seg (count_opened seg l)).session_start_lost ≡ 0 =
        lost_entered seg l h.no_session ∙ h.first in
      let none_lost : ltb 0 (enter_session seg (count_opened seg l)).session_start_lost ≡ false =
        ground (arith, lost) in
      gets-Runs _ _ (
        then-Runs _ _ _ armed (
          bind-Runs _ (on_error-Runs _ _ find_record_start-Runs (pure-Runs _ _)) (
            modify-Runs _ _ (gets-Runs _ _ (else-Runs _ _ _ none_lost (pure-Runs fresh started))))))

  started-At : At home session format minor stream started
  unfolding as_i64
  started-At =
      let seg : Segment = opened_file s h.file in
      let l : LogRead = record s.log { recovery = none; pending = ids_of h.files } in
      record {
        settled = record {
          world_same = h.world_same;
          prefix_same = prefix-entered seg l ∙ h.prefix_same;
          suffix_same = suffix-entered seg l ∙ h.suffix_same;
          session_now =
              session_entered seg l h.no_session
              ∙ ap (λ (id : SegId). some id) h.stored.session_same;
          position_known = refl;
        };
        seg = _;
        current_same = refl;
        prev_same = refl;
        holding = record {
          file = h.file;
          files = h.files;
          part = h.part;
          after = h.after;
          stored = h.stored;
          header_same = refl;
          name_same =
              ap (λ (p : Text). build_name p h.file.header.segment_id s.suffix) h.prefix_same
              ∙ ap (λ (p : Text). build_name home.prefix h.file.header.segment_id p) h.suffix_same;
          offset_same = omega (arith, h.nothing_owed);
          data_len_same = refl;
          within = omega (arith, h.nothing_owed);
          pending_same = pending-entered seg l;
          split = h.split;
          part_bytes =
              h.part_bytes ∙ ap (λ (k : ℕ). drop k h.file.data_section) (sym h.nothing_owed);
          full = h.full;
          chain = h.chain;
        };
      }

  -- The search for a record leaves the reader at the beginning of the stream.
  pub resynchronize-At :
      s.resync ≡ true
      → (t : Reader) × Runs resynchronize s fresh t
        × At home session format minor stream t
        × (t.cursor ≡ s.cursor)
  resynchronize-At armed = (started, resynchronize-Runs armed, started-At, refl)
