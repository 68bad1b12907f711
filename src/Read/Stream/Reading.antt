-- ===== src/Read/Stream/Reading.antt =====
-- `read`, at the beginning of a record.
use tcslog.Prelude.{
  ℕ, ◌≤◌, ◌<◌, ◌≡◌, refl, ap, sym, subst, ◌∙◌, arith, true, false, ◌&&◌, Option, none, some, List,
  [], ◌∷◌, ◌++◌, length, u32_max, Bool, Bool-cases, inl, inr, if◌then◌else◌,
}
use tcslog.Error.{eof}
use tcslog.Exec.{◌>>=◌}
use tcslog.Exec.Run.{Runs, pure-Runs, bind-Runs, gets-Runs, modify-Runs, else-Runs}
use tcslog.Format.{Format, Meta}
use tcslog.SegId.{SegId}
use tcslog.Header.{version_minor}
use tcslog.Read.{Segment, new_cursor, fresh, Reader, ReadResult, exhausted, lose_position}
use tcslog.Read.Record.{is_empty, is_none, resynchronize, decode_header, read_body, read}
use tcslog.Read.Stream.{marked, Marked, At}
use tcslog.Read.Stream.Entering.{Entry, enter_next}
use tcslog.Read.Stream.Taking.{At-same}
use tcslog.Read.Stream.Body.{body_read}
use tcslog.Read.Stream.Starting.{AtStart, resynchronize-At}
use tcslog.Read.Stream.Heading.{Fits}
use tcslog.Write.Building.{encoded}

and_false : (b : Bool) → (b && false) ≡ false
and_false true = refl
and_false false = refl

-- The reader as `read` begins.
abbrev readied : Reader → Reader
readied s = record s {
  log = record s.log { resync = (if is_none s.current then true else s.resync) };
  cursor = new_cursor;
}

-- A record has been read whole: its payload stands in the buffer, and the reader is after it.
pub record ReadsWhole (home : Reader) (session : SegId) (format : Format) (buf_len : ℕ)
    (meta : Meta) (msg : List ℕ) (more : List Marked) (s : Reader) : Type 0 where
  pub after : Reader
  pub reads : Runs (read buf_len) s (record { n = length msg; meta = meta }) after
  pub placed : after.dst ≡ msg
  pub at : At home session format version_minor more after

module _ (home : Reader) (session : SegId) (works : home.world.outcomes ≡ [])
    (format : Format) where
  -- Where a byte is still to come, the reader has not finished.
  not_finished :
      (x : Marked) (more : List Marked) (s : Reader)
      → At home session format version_minor (x ∷ more) s
      → (is_empty s.pending && exhausted s.log) ≡ false
  not_finished x more s h = elim (Bool-cases (exhausted s.log)) [
    | inr some_left ↦ rw some_left (and_false (is_empty s.pending))
    | inl done ↦
        let entry : Entry home session format version_minor (x ∷ more) h.seg.header.sequence s =
          enter_next home session format version_minor works x more s h done in
        rw (entry.pending_same) refl
  ]

  begins :
      (total : ℕ) (bytes : List ℕ) (more : List Marked) (s : Reader)
      → 0 < length bytes
      → At home session format version_minor (marked total 0 bytes ++ more) s
      → (is_empty s.pending && exhausted s.log) ≡ false
  begins total [] more s h at = absurd (omega (arith, h))
  begins total (b ∷ bytes) more s h at = not_finished (0, b) (marked total 1 bytes ++ more) s at

module _ (home : Reader) (session : SegId) (works : home.world.outcomes ≡ []) (format : Format)
    (more : List Marked) where
  -- The read once the search for the record has left the reader at `t`.
  read_from :
      (buf_len : ℕ) (meta : Meta) (msg : List ℕ) (s t : Reader)
      → Fits format meta msg
      → length msg ≤ buf_len
      → buf_len ≤ u32_max
      → (is_empty s.pending && exhausted s.log) ≡ false
      → Runs resynchronize (readied s) fresh t
      → At home session format version_minor
          (marked (length (encoded meta msg)) 0 (encoded meta msg) ++ more)
          t
      → t.cursor ≡ new_cursor
      → ReadsWhole home session format buf_len meta msg more s
  unfolding read
  read_from buf_len meta msg s t fits le small going resumes at calm =
      let (u, reads, placed, at') =
        body_read home session works format more buf_len meta msg t fits le small at calm in
      record {
        after = u;
        reads = gets-Runs _ _ (
            else-Runs _ _ _ going (
              modify-Runs _ _ (
                modify-Runs _ _ (
                  bind-Runs _ resumes (
                    gets-Runs _ _ (
                      subst
                        (λ (o : Option Segment).
                          Runs {A = ReadResult}
                            (elim o [
                              | none ↦ lose_position eof
                              | some segment ↦ (decode_header fresh segment >>= read_body buf_len)
                            ])
                            t (record { n = length msg; meta = meta }) u)
                        (sym at.current_same) reads))))));
        placed = placed;
        at = at';
      }

  -- A reader at the beginning of a record reads it whole.
  pub read-ReadsWhole :
      (buf_len : ℕ) (meta : Meta) (msg : List ℕ) (s : Reader)
      → Fits format meta msg
      → 0 < length (encoded meta msg)
      → length msg ≤ buf_len
      → buf_len ≤ u32_max
      → At home session format version_minor
          (marked (length (encoded meta msg)) 0 (encoded meta msg) ++ more)
          s
      → ReadsWhole home session format buf_len meta msg more s
  unfolding resynchronize
  read-ReadsWhole buf_len meta msg s fits some_bytes le small at =
      let known : (if is_none s.current then true else s.resync) ≡ false =
        rw at.current_same at.settled.position_known in
      let same : record (readied s).log { last_meta = s.last_meta } ≡ s.log =
        ap (λ (b : Bool). record s.log { resync = b }) (known ∙ sym at.settled.position_known) in
      read_from buf_len meta msg s (readied s) fits le small
        (begins home session works format _ (encoded meta msg) more s some_bytes at)
        (gets-Runs _ _ (else-Runs _ _ _ known (pure-Runs fresh (readied s))))
        (At-same home session format version_minor _ s (readied s) refl same refl at) refl

  -- So does one that has just been made.
  pub read_first-ReadsWhole :
      (buf_len : ℕ) (meta : Meta) (msg : List ℕ) (s : Reader)
      → Fits format meta msg
      → length msg ≤ buf_len
      → buf_len ≤ u32_max
      → AtStart home session format version_minor
          (marked (length (encoded meta msg)) 0 (encoded meta msg) ++ more)
          s
      → ReadsWhole home session format buf_len meta msg more s
  read_first-ReadsWhole buf_len meta msg s fits le small h =
      let ready : AtStart home session format version_minor
          (marked (length (encoded meta msg)) 0 (encoded meta msg) ++ more) (readied s) =
        record {
          world_same = h.world_same;
          prefix_same = h.prefix_same;
          suffix_same = h.suffix_same;
          none_open = h.none_open;
          no_session = h.no_session;
          no_recovery = h.no_recovery;
          file = h.file;
          files = h.files;
          part = h.part;
          after = h.after;
          pending_same = h.pending_same;
          stored = h.stored;
          first = h.first;
          nothing_owed = h.nothing_owed;
          some_data = h.some_data;
          split = h.split;
          part_bytes = h.part_bytes;
          full = h.full;
          chain = h.chain;
        } in
      let (t, resumes, at, calm) =
        resynchronize-At home session format version_minor works _ (readied s) ready
          (rw h.none_open refl) in
      read_from buf_len meta msg s t fits le small (rw h.pending_same refl) resumes at calm
