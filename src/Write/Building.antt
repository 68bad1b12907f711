-- ===== src/Write/Building.antt =====
-- A session that is ready for a record, and the data header of the record.
use tcslog.Prelude.{
  ℕ, ◌+◌, ◌<◌, ◌≡◌, refl, sym, ap, subst, ◌∙◌, arith, Option, none, some, List, [], ◌++◌, Bool,
  ◌&&◌, length, take, if◌then◌else◌, leb, ltb, u32_max,
}
use tcslog.Exec.{pure, gets, skip, ◌>>=◌, ◌>>◌}
use tcslog.Exec.Post.{
  Ensures, Ensures-pure, Ensures-raise, Ensures-skip, Ensures-bind, Ensures-gets_bind,
  Ensures-modify_bind, Ensures-weaken, Ensures-if,
}
use tcslog.Bytes.{to_le_bytes}
use tcslog.Fs.{Text, World, monotonic}
use tcslog.Format.{Format, Meta, data_header_len, record_count_max}
use tcslog.Header.{segment_file_header_len}
use tcslog.Clock.{Clock, now, stamp}
use tcslog.Write.{WriteCallbacks, Current, Writer, io, on_log}
use tcslog.Write.Files.{start_session, close_and_send}
use tcslog.Write.Record.{is_ts_rc, build_data_header, ensure_session}
use tcslog.Write.Steps.{Ensures-io_bind}
use tcslog.Write.Sound.{stream_of, Front, Kept, IsQuiet, Owes, Fails}
use tcslog.Write.Creating.{Closed}
use tcslog.Write.Segments.{closed, close_and_send-Closed, start_session-Ready}
use tcslog.Write.Appending.{Owes-Fails}

-- The data header of a record of `n` bytes: its length, then its time and its count.
abbrev pub header_bytes : Meta → ℕ → List ℕ
header_bytes Meta.fixed n = []
header_bytes Meta.variable_simple n = to_le_bytes 4 n
header_bytes (Meta.variable_ts_rc ts rc) n =
    to_le_bytes 4 n ++ (to_le_bytes 8 ts ++ take 6 (to_le_bytes 8 rc))

-- The metadata that a record of each format has.
abbrev pub HasMeta : Format → Meta → Type 0
HasMeta (Format.fixed n) Meta.fixed = Unit
HasMeta Format.variable_simple Meta.variable_simple = Unit
HasMeta Format.variable_ts_rc (Meta.variable_ts_rc ts rc) = Unit
HasMeta _ _ = ⊥

-- The bytes of a record: its data header and its payload.
abbrev pub encoded : Meta → List ℕ → List ℕ
encoded meta msg = header_bytes meta (length msg) ++ msg

-- What a write that returns has done: the record stands at the end of the stream, with the metadata
-- that the log reports, and the log owes nothing.
pub record Written {H : Type 0} (size : ℕ) (f : Format) (stream msg : List ℕ) (total : ℕ)
    (s : Writer H) : Type 0 where
  pub owes : Owes size f 0 (stream ++ encoded s.log.last_meta msg) s
  pub has_meta : HasMeta f s.log.last_meta
  pub counted : total ≡ data_header_len f + length msg

now-Kept : (c : Clock) (w : World) → Ensures (now c) w (λ ts t. Kept w t) (λ e t. Kept w t)
unfolding now stamp monotonic ◌>>=◌
now-Kept c w = record { holds = ground arith }

module _ {H : Type 0} (cb : WriteCallbacks H) (size : ℕ) (f : Format)
    (roomy : segment_file_header_len < size) (quiet : IsQuiet cb) where
  pub ensure_session-Owes :
      (left : ℕ) (stream : List ℕ) (s : Writer H)
      → Owes size f left stream s
      → Ensures
          (ensure_session cb)
          s
          (λ u t. (now_left : ℕ) × Owes size f now_left stream t)
          (Fails size f stream)
  unfolding ensure_session
  ensure_session-Owes left stream s h =
      Ensures-gets_bind _ _ s (Ensures-gets_bind _ _ s (begun s.log.current refl))
    where
      used_up : Bool
      used_up = is_ts_rc s.log.format && leb record_count_max s.log.record_count

      started :
          (left : ℕ) (t : Writer H)
          → Closed cb size f roomy left stream t
          → Ensures
              (start_session cb)
              t
              (λ u t. (now_left : ℕ) × Owes size f now_left stream t)
              (Fails size f stream)
      started left t c =
          Ensures-weaken (start_session-Ready cb size f roomy quiet left stream t c)
            (λ u v x. (0, x.owes)) (λ e v x. x)

      begun :
          (o : Option Current)
          → s.log.current ≡ o
          → Ensures
              (elim o [
                | none ↦ start_session cb
                | some file ↦ (if used_up then (do close_and_send cb; start_session cb) else skip)
              ])
              s
              (λ u t. (now_left : ℕ) × Owes size f now_left stream t)
              (Fails size f stream)
      begun none shut = started left s (record { owes = h; shut = shut })
      begun (some file) is_open =
          Ensures-if used_up _ _ s
            (λ e.
              Ensures-bind
                (close_and_send-Closed cb size f roomy quiet left stream s
                  (closed cb size f roomy left stream s h))
                (λ e t c. Owes-Fails cb size f roomy quiet left stream e t c.owes)
                λ u t c. started left t c)
            (λ e. Ensures-skip s (left, h))

  -- A data header that has been built: it stands at the front of the buffer.
  pub record Built (stream : List ℕ) (n : ℕ) (p : ℕ × Meta) (s : Writer H) : Type 0 where
    pub left : ℕ
    pub owes : Owes size f left stream s
    pub has_meta : HasMeta f p.1
    pub bytes : take p.0 s.log.header_buf ≡ header_bytes p.1 n
    pub len : length (header_bytes p.1 n) ≡ data_header_len f

  -- What a step leaves that changes no field of which the invariant speaks.
  same_state :
      (left : ℕ) (stream : List ℕ) (s : Writer H) (buf : List ℕ) (count : ℕ) (w : World)
      → Owes size f left stream s
      → Kept s.world w
      → Owes size f left stream
          (record s { log = record s.log { header_buf = buf; record_count = count }; world = w })
  same_state left stream s buf count w h k = record {
    running = record {
      sized = h.running.sized;
      formatted = h.running.formatted;
      ticking = h.running.ticking;
      paired = omega (arith, h.running.paired, k.later);
      front =
          subst (λ (fs : List (Text × List ℕ)). Front size s.log.current fs) (sym k.files_same)
            h.running.front;
    };
    owed = h.owed;
    written = ap stream_of k.files_same ∙ h.written;
  }

  pub build_data_header-Built :
      (left n : ℕ) (stream : List ℕ) (s : Writer H)
      → Owes size f left stream s
      → Ensures (build_data_header cb n) s (Built stream n) (Fails size f stream)
  unfolding build_data_header to_le_bytes data_header_len
  build_data_header-Built left n stream s h = Ensures-gets_bind _ _ s (
      Ensures-if (ltb u32_max n) _ _ s
        (λ long. Ensures-raise _ s (Owes-Fails cb size f roomy quiet left stream _ s h))
        (λ fits. built s.log.format (sym h.running.formatted)))
    where
      same : Kept s.world s.world
      same = record { files_same = refl; later = omega arith }

      built :
          (g : Format)
          → f ≡ g
          → Ensures
              (elim g [
                | Format.fixed _ ↦ pure (0, Meta.fixed)
                | Format.variable_simple ↦ (do
                  on_log (λ l. record l { header_buf = to_le_bytes 4 n })
                  pure (4, Meta.variable_simple))
                | Format.variable_ts_rc ↦ (do
                  clock ← gets (λ s. s.clock)
                  ts ← io (now clock)
                  on_log (λ l. record l { record_count = l.record_count + 1 })
                  rc ← gets (λ s. s.record_count)
                  on_log (λ l. record l {
                    header_buf = to_le_bytes 4 n ++ (to_le_bytes 8 ts ++ take 6 (to_le_bytes 8 rc));
                  })
                  pure (18, Meta.variable_ts_rc ts rc))
              ])
              s
              (Built stream n)
              (Fails size f stream)
      built (Format.fixed k) e = Ensures-pure _ s (record {
        left = left;
        owes = h;
        has_meta = subst (λ (g : Format). HasMeta g Meta.fixed) (sym e) tt;
        bytes = refl;
        len = subst (λ (g : Format). 0 ≡ data_header_len g) (sym e) refl;
      })
      built Format.variable_simple e = Ensures-modify_bind _ _ s (
          Ensures-pure _ _ (record {
            left = left;
            owes = same_state left stream s _ _ s.world h same;
            has_meta = subst (λ (g : Format). HasMeta g Meta.variable_simple) (sym e) tt;
            bytes = refl;
            len = subst (λ (g : Format). 4 ≡ data_header_len g) (sym e) refl;
          }))
      built Format.variable_ts_rc e = Ensures-gets_bind _ _ s (
          Ensures-io_bind s (now-Kept s.log.clock s.world)
            (λ e w k.
              Owes-Fails cb size f roomy quiet left stream e _ (same_state left stream s _ _ w h k))
            λ ts w k. Ensures-modify_bind _ _ _ (
              Ensures-gets_bind _ _ _ (
                Ensures-modify_bind _ _ _ (
                  Ensures-pure _ _ (record {
                    left = left;
                    owes = same_state left stream s _ _ w h k;
                    has_meta =
                        subst
                          (λ (g : Format).
                            HasMeta g (Meta.variable_ts_rc ts (s.log.record_count + 1)))
                          (sym e) tt;
                    bytes = refl;
                    len = subst (λ (g : Format). 18 ≡ data_header_len g) (sym e) refl;
                  })))))
