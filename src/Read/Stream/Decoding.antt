-- ===== src/Read/Stream/Decoding.antt =====
-- `read_data_header`, for each format.
use tcslog.Prelude.{
  ℕ, ◌+◌, ◌-◌, ◌^◌, ◌<◌, ◌≡◌, refl, ap, subst, ◌∙◌, arith, some, List, [], ◌++◌, length,
  length-append, take, drop,
}
use tcslog.Exec.{pure, ◌>>◌}
use tcslog.Exec.Run.{Runs, pure-Runs, bind-Runs, gets-Runs, modify-Runs}
use tcslog.Bytes.{to_le_bytes, from_le_bytes, from_le_bytes-to_le_bytes, length-to_le_bytes}
use tcslog.Format.{Format, Meta, data_header_len, data_header_len_in}
use tcslog.SegId.{SegId}
use tcslog.Header.{version_minor}
use tcslog.Read.{new_cursor, Reader}
use tcslog.Read.Fill.{fill, set_total, settle_payload_len, read_data_header}
use tcslog.Read.Stream.Cursor.{Within}
use tcslog.Read.Stream.{marked, Marked, At}
use tcslog.Read.Stream.Heading.{
  Fits, settle-Runs, header_bytes-len, ts_rc_parts, Headed, finish, fill_header,
}
use tcslog.Write.Building.{header_bytes, encoded}

total_set :
    (p : ℕ × Meta) (k total : ℕ) (t : Reader)
    → k ≡ total
    → Runs
        (set_total k >> pure p)
        t
        p
        (record t { cursor = record t.cursor { total = some total } })
total_set p k total t e =
    subst
      (λ (n : ℕ).
        Runs (set_total k >> pure p) t p (record t { cursor = record t.cursor { total = some n } }))
      e (modify-Runs _ _ (pure-Runs p _))

settled :
    (total header_len limit c decoded n : ℕ) (s : Reader)
    → Within total header_len limit c s.cursor
    → decoded ≡ n
    → n ≡ total - header_len
    → Runs (settle_payload_len decoded) s n s
settled total header_len limit c decoded n s w e same =
    subst (λ (k : ℕ). Runs (settle_payload_len decoded) s k s) e
      (settle-Runs total header_len limit c decoded s w (e ∙ same))

module _ (home : Reader) (session : SegId) (works : home.world.outcomes ≡ []) (msg : List ℕ)
    (more : List Marked) where
  -- At the beginning of an encoded record its data header is decoded, and the reader is left at its
  -- payload.
  pub read_data_header-Headed :
      (format : Format) (meta : Meta) (s : Reader)
      → Fits format meta msg
      → length (encoded meta msg) < 2 ^ 64
      → At home session format version_minor
          (marked (length (encoded meta msg)) 0 (encoded meta msg) ++ more)
          s
      → s.cursor ≡ new_cursor
      → Headed home session format meta msg more
          (length (encoded meta msg))
          (length (header_bytes meta (length msg)))
          s
  unfolding read_data_header data_header_len_in data_header_len
  read_data_header-Headed (Format.fixed n) Meta.fixed s fits lt at fresh =
      finish home session works msg more (Format.fixed n) Meta.fixed (length msg) 0 s s
        (omega arith) at (rw fresh refl) (rw fresh tt)
        (subst
          (λ (k : ℕ).
            Runs (read_data_header (Format.fixed k) version_minor) s (length msg, Meta.fixed)
              (record s { cursor = record s.cursor { total = some (length msg) } }))
          fits.in_range (modify-Runs _ _ (pure-Runs _ _)))
  read_data_header-Headed Format.variable_simple Meta.variable_simple s fits lt at fresh =
      let bytes : List ℕ = to_le_bytes 4 (length msg) in
      let total : ℕ = length (bytes ++ msg) in
      let four : length bytes ≡ 4 = length-to_le_bytes 4 (length msg) in
      let sum : total ≡ length bytes + length msg = length-append bytes msg in
      let (t, fills, at', within, dst) =
        fill_header home session works msg more Format.variable_simple bytes total s at fresh sum lt
          four in
      let decoded : from_le_bytes t.dst ≡ length msg =
        ap from_le_bytes dst ∙ from_le_bytes-to_le_bytes 4 (length msg) fits.in_range in
      finish home session works msg more Format.variable_simple Meta.variable_simple total
        (length bytes) s t (omega (arith, sum)) at' within.consumed_same within.agreed
        (bind-Runs _ (subst (λ (k : ℕ). Runs (fill k) s tt t) four fills) (
          gets-Runs _ _ (
            bind-Runs _
              (settled total (length bytes) (length bytes) (length bytes) (from_le_bytes t.dst)
                (length msg) t within decoded (omega (arith, sum)))
              (total_set (length msg, Meta.variable_simple) (4 + length msg) total t
                (omega (arith, sum, four))))))
  read_data_header-Headed Format.variable_ts_rc (Meta.variable_ts_rc ts rc) s fits lt at fresh =
      let meta : Meta = Meta.variable_ts_rc ts rc in
      let bytes : List ℕ = header_bytes meta (length msg) in
      let total : ℕ = length (bytes ++ msg) in
      let len : length bytes ≡ 18 =
        header_bytes-len Format.variable_ts_rc meta (length msg) fits.has_meta in
      let sum : total ≡ length bytes + length msg = length-append bytes msg in
      let (t, fills, at', within, dst) =
        fill_header home session works msg more Format.variable_ts_rc bytes total s at fresh sum lt
          len in
      let (n_same, ts_same, rc_same) =
        ts_rc_parts (length msg) ts rc fits.in_range.0 fits.in_range.1 fits.in_range.2 in
      let decoded : from_le_bytes (take 4 t.dst) ≡ length msg =
        ap (λ (l : List ℕ). from_le_bytes (take 4 l)) dst ∙ n_same in
      let stamped : from_le_bytes (take 8 (drop 4 t.dst)) ≡ ts =
        ap (λ (l : List ℕ). from_le_bytes (take 8 (drop 4 l))) dst ∙ ts_same in
      let counted : from_le_bytes (drop 12 t.dst) ≡ rc =
        ap (λ (l : List ℕ). from_le_bytes (drop 12 l)) dst ∙ rc_same in
      finish home session works msg more Format.variable_ts_rc meta total (length bytes) s t
        (omega (arith, sum)) at' within.consumed_same within.agreed
        (bind-Runs _ (subst (λ (k : ℕ). Runs (fill k) s tt t) len fills) (
          gets-Runs _ _ (
            bind-Runs _
              (settled total (length bytes) (length bytes) (length bytes)
                (from_le_bytes (take 4 t.dst)) (length msg) t within decoded (omega (arith, sum)))
              (subst
                (λ (m : Meta).
                  Runs {A = ℕ × Meta}
                    (set_total (18 + length msg)
                      >> pure (
                        length msg,
                        Meta.variable_ts_rc (from_le_bytes (take 8 (drop 4 t.dst)))
                            (from_le_bytes (drop 12 t.dst)),
                      ))
                    t (length msg, m)
                    (record t { cursor = record t.cursor { total = some total } }))
                (ap (λ (k : ℕ). Meta.variable_ts_rc k (from_le_bytes (drop 12 t.dst))) stamped
                  ∙ ap (λ (k : ℕ). Meta.variable_ts_rc ts k) counted)
                (total_set _ (18 + length msg) total t (omega (arith, sum, len)))))))
  read_data_header-Headed (Format.fixed n) Meta.variable_simple s fits lt at fresh =
      absurd fits.has_meta
  read_data_header-Headed (Format.fixed n) (Meta.variable_ts_rc ts rc) s fits lt at fresh =
      absurd fits.has_meta
  read_data_header-Headed Format.variable_simple Meta.fixed s fits lt at fresh =
      absurd fits.has_meta
  read_data_header-Headed Format.variable_simple (Meta.variable_ts_rc ts rc) s fits lt at fresh =
      absurd fits.has_meta
  read_data_header-Headed Format.variable_ts_rc Meta.fixed s fits lt at fresh = absurd fits.has_meta
  read_data_header-Headed Format.variable_ts_rc Meta.variable_simple s fits lt at fresh =
      absurd fits.has_meta
