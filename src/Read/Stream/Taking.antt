-- ===== src/Read/Stream/Taking.antt =====
-- The bytes that stand in the open segment file, and the place after them.
use tcslog.Prelude.{
  ℕ, ◌+◌, ◌-◌, ◌≤◌, ◌≡◌, refl, ap, sym, subst, ◌∙◌, arith, some, List, ◌++◌, length, take, drop,
  drop-append, drop-drop, drop_past, length-drop,
}
use tcslog.Fs.{Text, World, content}
use tcslog.Format.{Format}
use tcslog.Header.{to_bytes}
use tcslog.Header.RoundTrip.{length-to_bytes}
use tcslog.SegId.{SegId}
use tcslog.Read.{Segment, LogRead, Reader}
use tcslog.Read.Fill.{count_bytes}
use tcslog.Read.Stream.{marked, Marked, bytes_of, Holding, At}
use tcslog.Read.Stream.Marks.{
  bytes_of-append, bytes_of-marked, length-bytes_of, bytes_of-drop, take-append_le,
}
use tcslog.Read.Stream.Opening.{content_found}

-- The open segment file, read on by the bytes.
abbrev pub filled : Segment → List ℕ → Reader → Reader
filled seg bytes s = record s {
  log = record s.log {
    current =
        some (record seg { offset = seg.offset + length bytes; pos = seg.pos + length bytes });
  };
  cursor = count_bytes (length bytes) s.cursor;
  dst = s.dst ++ bytes;
}

module _ (home : Reader) (session : SegId) (format : Format) (minor : ℕ) where
  -- A place of the stream is one of the log's state, apart from the metadata of its last record.
  pub At-same :
      (stream : List Marked) (s t : Reader)
      → t.world ≡ s.world
      → record t.log { last_meta = s.last_meta } ≡ s.log
      → t.pending ≡ s.pending
      → At home session format minor stream s
      → At home session format minor stream t
  At-same stream s t e f g h = record {
    settled = record {
      world_same = e ∙ h.settled.world_same;
      prefix_same = ap (λ (l : LogRead). l.prefix) f ∙ h.settled.prefix_same;
      suffix_same = ap (λ (l : LogRead). l.suffix) f ∙ h.settled.suffix_same;
      session_now = ap (λ (l : LogRead). l.session) f ∙ h.settled.session_now;
      position_known = ap (λ (l : LogRead). l.resync) f ∙ h.settled.position_known;
    };
    seg = h.seg;
    current_same = ap (λ (l : LogRead). l.current) f ∙ h.current_same;
    prev_same = ap (λ (l : LogRead). l.prev_seq) f ∙ h.prev_same;
    holding =
        subst (λ (ids : List SegId). Holding home session format minor stream h.seg ids) (sym g)
          h.holding;
  }

  -- What is left of the open segment file.
  pub part_length :
      (stream : List Marked) (s : Reader) (h : At home session format minor stream s)
      → length h.holding.part ≡ h.seg.data_len - h.seg.pos
  part_length stream s h =
      let g : Holding home session format minor stream h.seg s.pending = h.holding in
      omega (
        arith,
        length-bytes_of g.part,
        ap (λ (l : List ℕ). length l) g.part_bytes,
        length-drop h.seg.pos g.file.data_section,
        g.data_len_same,
      )

  pub filled-At :
      (stream : List Marked) (s : Reader) (h : At home session format minor stream s)
      (bytes : List ℕ)
      → length bytes ≤ h.seg.data_len - h.seg.pos
      → At home session format minor (drop (length bytes) stream) (filled h.seg bytes s)
  filled-At stream s h bytes le =
      let g : Holding home session format minor stream h.seg s.pending = h.holding in
      let n : ℕ = length bytes in
      let inside : n ≤ length g.part = omega (arith, le, part_length stream s h) in
      record {
        settled = record {
          world_same = h.settled.world_same;
          prefix_same = h.settled.prefix_same;
          suffix_same = h.settled.suffix_same;
          session_now = h.settled.session_now;
          position_known = h.settled.position_known;
        };
        seg = record h.seg { offset = h.seg.offset + n; pos = h.seg.pos + n };
        current_same = refl;
        prev_same = h.prev_same;
        holding = record {
          file = g.file;
          files = g.files;
          part = drop n g.part;
          after = g.after;
          stored = g.stored;
          header_same = g.header_same;
          name_same = g.name_same;
          offset_same = omega (arith, g.offset_same);
          data_len_same = g.data_len_same;
          within = omega (arith, le, g.data_len_same, g.within);
          pending_same = g.pending_same;
          split = ap (λ (l : List Marked). drop n l) g.split ∙ drop-append n g.part g.after inside;
          part_bytes =
              bytes_of-drop n g.part
              ∙ ap (λ (l : List ℕ). drop n l) g.part_bytes
              ∙ drop-drop n h.seg.pos g.file.data_section;
          full = g.full;
          chain = g.chain;
        };
      }

  -- The bytes that stand in the open segment file are the next of the stream.
  pub next_bytes :
      (bs : List ℕ) (total c n : ℕ) (more : List Marked) (s : Reader)
      (h : At home session format minor (marked total c bs ++ more) s)
      → n ≤ h.seg.data_len - h.seg.pos
      → n ≤ length bs
      → take n (drop h.seg.offset (content h.seg.name s.world)) ≡ take n bs
  next_bytes bs total c n more s h le le' =
      let g : Holding home session format minor (marked total c bs ++ more) h.seg s.pending =
        h.holding in
      let section : List ℕ = g.file.data_section in
      let whole : content h.seg.name s.world ≡ to_bytes g.file.header ++ section =
        ap (λ (w : World). content h.seg.name w) h.settled.world_same
        ∙ ap (λ (name : Text). content name home.world) g.name_same
        ∙ content_found _ _ home.world g.stored.found in
      let placed : drop h.seg.offset (content h.seg.name s.world) ≡ bytes_of g.part =
        ap (λ (l : List ℕ). drop h.seg.offset l) whole
        ∙ ap (λ (k : ℕ). drop k (to_bytes g.file.header ++ section))
            (g.offset_same ∙ ap (λ (k : ℕ). k + h.seg.pos) (sym (length-to_bytes g.file.header)))
        ∙ drop_past (to_bytes g.file.header) section h.seg.pos
        ∙ sym g.part_bytes in
      let inside : n ≤ length (bytes_of g.part) =
        omega (arith, le, part_length _ s h, length-bytes_of g.part) in
      let same : bytes_of g.part ++ bytes_of g.after ≡ bs ++ bytes_of more =
        sym (bytes_of-append g.part g.after)
        ∙ ap bytes_of (sym g.split)
        ∙ bytes_of-append (marked total c bs) more
        ∙ ap (λ (l : List ℕ). l ++ bytes_of more) (bytes_of-marked total c bs) in
      ap (λ (l : List ℕ). take n l) placed
      ∙ sym (take-append_le n (bytes_of g.part) (bytes_of g.after) inside)
      ∙ ap (λ (l : List ℕ). take n l) same
      ∙ take-append_le n bs (bytes_of more) le'
