-- ===== src/Read/Stream/Records.antt =====
-- Reads of all the records of a session, one after the other.
use tcslog.Prelude.{
  ℕ, zero, suc, ◌≤◌, ◌<◌, ◌≡◌, ap, subst, ◌∙◌, arith, List, [], ◌∷◌, ◌++◌, length, take, take_all,
  All, u32_max,
}
use tcslog.Exec.{pure, gets, ◌>>=◌}
use tcslog.Exec.Run.{Runs, pure-Runs, bind-Runs, gets-Runs}
use tcslog.Format.{Format, Meta}
use tcslog.SegId.{SegId}
use tcslog.Header.{version_minor}
use tcslog.Read.{Reader, Reads}
use tcslog.Read.Record.{read}
use tcslog.Read.Stream.{marked, Marked, At}
use tcslog.Read.Stream.Heading.{Fits}
use tcslog.Read.Stream.Starting.{AtStart}
use tcslog.Read.Stream.Reading.{ReadsWhole, read-ReadsWhole, read_first-ReadsWhole}
use tcslog.Write.Building.{encoded}

-- A record as the writer is given it, with the metadata that the writer reports.
pub record Logged : Type 0 where
  pub meta : Meta
  pub payload : List ℕ

-- The stream of the records.
abbrev pub log_stream : List Logged → List Marked
log_stream [] = []
log_stream (r ∷ rs) =
    marked (length (encoded r.meta r.payload)) 0 (encoded r.meta r.payload) ++ log_stream rs

-- `n` reads into a buffer of `buf_len` bytes, each of whose results is copied out.
unfoldable pub read_each : ℕ → ℕ → Reads (List Logged)
read_each buf_len zero = pure []
read_each buf_len (suc n) = do
  result ← read buf_len
  placed ← gets (λ s. s.dst)
  rest ← read_each buf_len n
  pure (record { meta = result.meta; payload = take result.n placed } ∷ rest)

-- A record that a log of the format may hold, and the buffer.
pub record Readable (format : Format) (buf_len : ℕ) (r : Logged) : Type 0 where
  pub fits : Fits format r.meta r.payload
  pub some_bytes : 0 < length (encoded r.meta r.payload)
  pub has_room : length r.payload ≤ buf_len

-- Reading so many records returns them all, and leaves the reader at the end of the session.
pub record ReadsAll (home : Reader) (session : SegId) (format : Format) (buf_len : ℕ)
    (rs : List Logged) (s : Reader) : Type 0 where
  pub after : Reader
  pub reads : Runs (read_each buf_len (length rs)) s rs after
  pub at_end : At home session format version_minor [] after

module _ (home : Reader) (session : SegId) (works : home.world.outcomes ≡ []) (format : Format)
    (buf_len : ℕ) (small : buf_len ≤ u32_max) where
  -- One record has been read, and the rest after it.
  and_rest :
      (r : Logged) (rs : List Logged) (s : Reader)
      (h : ReadsWhole home session format buf_len r.meta r.payload (log_stream rs) s) (t : Reader)
      → Runs (read_each buf_len (length rs)) h.after rs t
      → Runs (read_each buf_len (length (r ∷ rs))) s (r ∷ rs) t
  unfolding read_each
  and_rest r rs s h t rest =
      let copied : take (length r.payload) h.after.dst ≡ r.payload =
        ap (λ (l : List ℕ). take (length r.payload) l) h.placed
        ∙ take_all (length r.payload) r.payload (omega arith) in
      bind-Runs _ h.reads (
        gets-Runs _ _ (
          bind-Runs _ rest (
            subst
              (λ (l : List ℕ).
                Runs {A = List Logged}
                  (pure
                    (record { meta = r.meta; payload = take (length r.payload) h.after.dst } ∷ rs))
                  t (record { meta = r.meta; payload = l } ∷ rs) t)
              copied (pure-Runs _ t))))

  read_each-At :
      (rs : List Logged) (s : Reader)
      → All (Readable format buf_len) rs
      → At home session format version_minor (log_stream rs) s
      → ReadsAll home session format buf_len rs s
  unfolding read_each
  read_each-At [] s ok at = record { after = s; reads = pure-Runs [] s; at_end = at }
  read_each-At (r ∷ rs) s ok at =
      let h : ReadsWhole home session format buf_len r.meta r.payload (log_stream rs) s =
        read-ReadsWhole home session works format (log_stream rs) buf_len r.meta r.payload s
          ok.0.fits ok.0.some_bytes ok.0.has_room small at in
      let rest : ReadsAll home session format buf_len rs h.after =
        read_each-At rs h.after ok.1 h.at in
      record {
        after = rest.after;
        reads = and_rest r rs s h rest.after rest.reads;
        at_end = rest.at_end;
      }

  -- Take a log of one session, whose segment files hold the records that were encoded into its
  -- stream: the first file begins with a record, has some data and the first sequence, each header
  -- owes what the record at its place of the stream owes, has the current minor version and the next
  -- sequence, and each file but the last is full. Where every operation on the files works, a reader
  -- that has just been made gives the records back, in order and byte for byte, whatever segment
  -- files each is spread over. The records, one at least, are of the session's format, none takes
  -- no byte, and each fits the buffer of no more than `u32::MAX` bytes.
  pub read_each-log_stream :
      (r : Logged) (rs : List Logged) (s : Reader)
      → All (Readable format buf_len) (r ∷ rs)
      → AtStart home session format version_minor (log_stream (r ∷ rs)) s
      → ReadsAll home session format buf_len (r ∷ rs) s
  read_each-log_stream r rs s ok at =
      let h : ReadsWhole home session format buf_len r.meta r.payload (log_stream rs) s =
        read_first-ReadsWhole home session works format (log_stream rs) buf_len r.meta r.payload s
          ok.0.fits ok.0.has_room small at in
      let rest : ReadsAll home session format buf_len rs h.after =
        read_each-At rs h.after ok.1 h.at in
      record {
        after = rest.after;
        reads = and_rest r rs s h rest.after rest.reads;
        at_end = rest.at_end;
      }
