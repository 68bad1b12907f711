-- ===== src/Read/Stream/Body.antt =====
-- `decode_header` and `read_payload`, at the beginning of a record.
use tcslog.Prelude.{
  ℕ, ◌+◌, ◌^◌, ◌≤◌, ◌<◌, ◌≡◌, refl, ap, sym, subst, ◌∙◌, arith, true, List, [], ◌++◌, length, min,
  u32_max, le→ltb_false, length-append,
}
use tcslog.Exec.{pure, ◌>>=◌}
use tcslog.Exec.Run.{Runs, pure-Runs, bind-Runs, on_error-Runs, modify-Runs, else-Runs}
use tcslog.Format.{Format, Meta, data_header_len, data_header_len_in}
use tcslog.SegId.{SegId}
use tcslog.Header.{SegmentHeader, version_minor}
use tcslog.Read.{Segment, new_cursor, fresh, Reader, ReadResult}
use tcslog.Read.Record.{decode_header, read_payload, read_body}
use tcslog.Read.Fill.{fill, read_data_header}
use tcslog.Read.Stream.{marked, Marked, Stored, At}
use tcslog.Read.Stream.Cursor.{Within}
use tcslog.Read.Stream.Taking.{At-same}
use tcslog.Read.Stream.Filling.{fill-To}
use tcslog.Read.Stream.Heading.{Fits, header_bytes-len, Headed}
use tcslog.Read.Stream.Decoding.{read_data_header-Headed}
use tcslog.Write.Building.{header_bytes, encoded}

header_short : (format : Format) → data_header_len_in format version_minor ≤ 18
unfolding data_header_len_in data_header_len
header_short (Format.fixed n) = omega arith
header_short Format.variable_simple = omega arith
header_short Format.variable_ts_rc = omega arith

module _ (home : Reader) (session : SegId) (works : home.world.outcomes ≡ []) (format : Format)
    (more : List Marked) where
  -- The payload is read into a buffer that has room for it.
  payload_read :
      (buf_len : ℕ) (meta : Meta) (msg : List ℕ) (total header_len : ℕ) (s : Reader)
      → length msg ≤ buf_len
      → buf_len ≤ u32_max
      → total ≡ header_len + length msg
      → total < 2 ^ 64
      → data_header_len_in format version_minor ≡ header_len
      → At home session format version_minor (marked total header_len msg ++ more) s
      → Within total header_len total header_len s.cursor
      → (t : Reader) × Runs
          (read_payload buf_len (length msg) meta)
          s
          (record { n = length msg; meta = meta })
          t
        × (t.dst ≡ msg)
        × At home session format version_minor more t
  unfolding read_payload
  payload_read buf_len meta msg total header_len s le small sum lt len at within =
      let got =
        fill-To home session format version_minor works total header_len total len
          (omega (arith, sum)) (omega arith) lt msg header_len more s
          (record { at = at; cursor_within = within }) (omega (arith, sum)) in
      let whole : min (length msg) buf_len ≡ length msg = omega (arith, le) in
      let told : min (min (length msg) buf_len) u32_max ≡ length msg = omega (arith, le, small) in
      (
        got.after,
        bind-Runs _
            (on_error-Runs _ _
              (subst (λ (k : ℕ). Runs (fill k) s tt got.after) (sym whole) got.steps)
              (pure-Runs tt got.after))
            (else-Runs _ _ _ (le→ltb_false buf_len (length msg) le) (
              subst
                (λ (k : ℕ).
                  Runs {A = ReadResult}
                    (pure (record { n = min (min (length msg) buf_len) u32_max; meta = meta }))
                    got.after (record { n = k; meta = meta }) got.after)
                told (pure-Runs _ got.after))),
        got.dst_same,
        got.in_record.at,
      )

  -- The data header of the record at the read position is decoded.
  header_decoded :
      (seg : Segment) (meta : Meta) (msg : List ℕ) (s : Reader)
      → Fits format meta msg
      → length (encoded meta msg) < 2 ^ 64
      → At home session format version_minor
          (marked (length (encoded meta msg)) 0 (encoded meta msg) ++ more)
          s
      → s.cursor ≡ new_cursor
      → seg.header.format ≡ format
      → seg.header.minor ≡ version_minor
      → (t : Reader) × Runs (decode_header fresh seg) s (length msg, meta) t
        × At home session format version_minor
            (marked (length (encoded meta msg)) (length (header_bytes meta (length msg))) msg
              ++ more)
            t
        × Within
            (length (encoded meta msg))
            (length (header_bytes meta (length msg)))
            (length (encoded meta msg))
            (length (header_bytes meta (length msg)))
            t.cursor
  unfolding decode_header
  header_decoded seg meta msg s fits lt at fresh_cursor f m =
      let h : Headed home session format meta msg more (length (encoded meta msg))
          (length (header_bytes meta (length msg))) s =
        read_data_header-Headed home session works msg more format meta s fits lt at fresh_cursor in
      (
        h.after,
        on_error-Runs _ _
            (subst
              (λ (k : ℕ). Runs (read_data_header seg.header.format k) s (length msg, meta) h.after)
              (sym m)
              (subst
                (λ (g : Format).
                  Runs (read_data_header g version_minor) s (length msg, meta) h.after)
                (sym f) h.decodes))
            (pure-Runs _ h.after),
        h.at,
        h.within,
      )

  -- What follows the search for the record.
  pub body_read :
      (buf_len : ℕ) (meta : Meta) (msg : List ℕ) (s : Reader)
      → Fits format meta msg
      → length msg ≤ buf_len
      → buf_len ≤ u32_max
      → (at : At home session format version_minor
          (marked (length (encoded meta msg)) 0 (encoded meta msg) ++ more)
          s)
      → s.cursor ≡ new_cursor
      → (t : Reader) × Runs
          (decode_header fresh at.seg >>= read_body buf_len)
          s
          (record { n = length msg; meta = meta })
          t
        × (t.dst ≡ msg)
        × At home session format version_minor more t
  unfolding read_body
  body_read buf_len meta msg s fits le small at fresh_cursor =
      let total : ℕ = length (encoded meta msg) in
      let header_len : ℕ = length (header_bytes meta (length msg)) in
      let stored : Stored home session format version_minor at.holding.file = at.holding.stored in
      let sum : total ≡ header_len + length msg =
        length-append (header_bytes meta (length msg)) msg in
      let len : header_len ≡ data_header_len_in format version_minor =
        header_bytes-len format meta (length msg) fits.has_meta in
      let lt : total < 2 ^ 64 = omega (arith, sum, len, header_short format, le, small) in
      let (t, decodes, at', within) =
        header_decoded at.seg meta msg s fits lt at fresh_cursor
          (ap (λ (h : SegmentHeader). h.format) at.holding.header_same ∙ stored.format_same)
          (ap (λ (h : SegmentHeader). h.minor) at.holding.header_same ∙ stored.minor_same) in
      let start : Reader = record t {
        log = record t.log { last_meta = meta };
        cursor = record t.cursor { in_payload = true };
      } in
      let (u, reads, placed, at'') =
        payload_read buf_len meta msg total header_len start le small sum lt (sym len)
          (At-same home session format version_minor _ t start refl refl refl at')
          (record {
            consumed_same = within.consumed_same;
            within = within.within;
            knows = within.knows;
            agreed = within.agreed;
          }) in
      (u, bind-Runs _ decodes (modify-Runs _ _ (modify-Runs _ _ reads)), placed, at'')
