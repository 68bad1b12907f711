-- ===== src/Read/Stream/Entering.antt =====
-- `open_next`, where the stream goes on in another segment file.
use tcslog.Prelude.{
  ℕ, ◌+◌, ◌≤◌, ◌≡◌, refl, ap, sym, subst, ◌∙◌, arith, true, false, Option, none, some, List, [],
  ◌∷◌, ◌++◌, length, leb, le→ltb_false, drop_all, ◌==◌,
}
use tcslog.Exec.Run.{Runs, pure-Runs, bind-Runs, gets-Runs, modify-Runs, else-Runs}
use tcslog.Fs.{Text, World, lookup}
use tcslog.SegId.{SegId}
use tcslog.SeqId.{SeqId}
use tcslog.Format.{Format, data_header_len_in}
use tcslog.Header.{SegmentHeader, segment_file_header_len, to_bytes, data_len}
use tcslog.Header.RoundTrip.{IsValid}
use tcslog.Names.{build_name}
use tcslog.Read.{Segment, Cursor, LogRead, Reader, exhausted}
use tcslog.Read.Open.{foreign, count_opened, enter_session, accept, open_loop, open_next}
use tcslog.Read.Cross.{cut_short}
use tcslog.Read.Spend.Searching.{pending-entered, prefix-entered, suffix-entered}
use tcslog.Read.Stream.{
  Marked, bytes_of, first_mark, File, ids_of, Full, Stored, Chain, Settled, Holding, At,
}
use tcslog.Read.Stream.Opening.{opened_file, open_validated-Runs}

-- A segment file has been taken off the list and is read.
abbrev pub entered : Segment → List SegId → Reader → Reader
entered seg rest s = record s {
  log = record (enter_session seg (count_opened seg (record s.log { pending = rest }))) {
    prev_seq = some seg.header.sequence;
    current = some seg;
  };
}

abbrev pub unopened : Reader → Reader
unopened s = record s { log = record s.log { current = none } }

pub open_next-Runs :
    (s : Reader) (file : File) (rest : List SegId)
    → s.world.outcomes ≡ []
    → s.pending ≡ file.header.segment_id ∷ rest
    → lookup (build_name s.prefix file.header.segment_id s.suffix) s.world.files
      ≡ some (to_bytes file.header ++ file.data_section)
    → IsValid file.header
    → segment_file_header_len + length file.data_section ≤ file.header.max_size
    → foreign s.session file.header ≡ false
    → Runs open_next s true (entered (opened_file s file) rest s)
unfolding open_next open_loop accept
open_next-Runs s file rest works same found valid fits own = gets-Runs _ _ (
    subst (λ (ids : List SegId). Runs (open_loop ids) s true (entered (opened_file s file) rest s))
      (sym same)
      (modify-Runs _ _ (
        bind-Runs _ (open_validated-Runs _ file works found valid fits) (
          gets-Runs _ _ (
            else-Runs _ _ _ own
              (modify-Runs _ _ (modify-Runs _ _ (modify-Runs _ _ (pure-Runs _ _)))))))))

resync-entered :
    (seg : Segment) (l : LogRead) → (enter_session seg (count_opened seg l)).resync ≡ l.resync
unfolding enter_session count_opened
resync-entered seg l = ground arith

session-entered :
    (seg : Segment) (l : LogRead) (session : SegId)
    → l.session ≡ some session
    → (enter_session seg (count_opened seg l)).session ≡ some session
unfolding enter_session count_opened
session-entered seg l session e = ground (arith, e)

foreign_not :
    (o : Option SegId) (session : SegId) (h : SegmentHeader)
    → o ≡ some session
    → h.session_id ≡ session
    → foreign o h ≡ false
foreign_not o session h e f =
    let same : (h.session_id == session) ≡ true = ground (arith, f) in rw (e, same) refl

no_bytes : (part : List Marked) → bytes_of part ≡ [] → part ≡ []
no_bytes [] e = refl
no_bytes ((m, b) ∷ part) e = absurd (cc e)

module _ (home : Reader) (session : SegId) (format : Format) (minor : ℕ) where
  -- Nothing is left of an exhausted segment file: the stream goes on in those after it.
  exhausted_part :
      (stream : List Marked) (s : Reader) (h : At home session format minor stream s)
      → exhausted s.log ≡ true
      → stream ≡ h.holding.after
  unfolding exhausted
  exhausted_part stream s h e =
      let g : Holding home session format minor stream h.seg s.pending = h.holding in
      let done : leb h.seg.data_len h.seg.pos ≡ true =
        subst
          (λ (o : Option Segment).
            (elim o [ none ↦ true | some seg ↦ leb seg.data_len seg.pos ]) ≡ true)
          h.current_same e in
      let nothing : bytes_of g.part ≡ [] =
        g.part_bytes
        ∙ drop_all h.seg.pos g.file.data_section (ground (arith, done, g.data_len_same)) in
      g.split ∙ ap (λ (l : List Marked). l ++ g.after) (no_bytes g.part nothing)

  -- The segment file that the stream goes on in, and a reader that has entered it.
  pub record Entry (stream : List Marked) (seq : SeqId) (s : Reader) : Type 0 where
    pub file : File
    pub rest : List SegId
    pub remaining_same : file.header.remaining ≡ first_mark stream
    pub sequence_next : file.header.sequence ≡ seq + 1
    pub valid : IsValid file.header
    pub pending_same : s.pending ≡ file.header.segment_id ∷ rest
    pub not_short : cut_short s.current ≡ false
    pub len_same :
        data_header_len_in file.header.format file.header.minor ≡ data_header_len_in format minor
    pub opens : Runs open_next (unopened s) true (entered (opened_file s file) rest (unopened s))
    pub arrived :
        (cursor : Cursor)
        → At home session format minor stream
            (record (entered (opened_file s file) rest (unopened s)) { cursor = cursor })

  full_not_short :
      (o : Option Segment) (seg : Segment)
      → o ≡ some seg
      → seg.data_len ≡ data_len seg.header
      → cut_short o ≡ false
  unfolding cut_short
  full_not_short o seg e f =
      rw e (le→ltb_false seg.data_len (data_len seg.header) (omega (arith, f)))

  module _ (works : home.world.outcomes ≡ []) where
    arrived-At :
        (stream : List Marked) (s : Reader) (file : File) (files : List File)
        (part after : List Marked) (cursor : Cursor)
        → Settled home session format minor s
        → stream ≡ part ++ after
        → bytes_of part ≡ file.data_section
        → Stored home session format minor file
        → Full file.data_section file.header files
        → Chain home session format minor file.header.sequence after files
        → At home session format minor stream
            (record (entered (opened_file s file) (ids_of files) (unopened s)) { cursor = cursor })
    arrived-At stream s file files part after cursor settled split same stored full chain =
        let seg : Segment = opened_file s file in
        let l : LogRead = record s.log { current = none; pending = ids_of files } in
        record {
          settled = record {
            world_same = settled.world_same;
            prefix_same = prefix-entered seg l ∙ settled.prefix_same;
            suffix_same = suffix-entered seg l ∙ settled.suffix_same;
            session_now = session-entered seg l session settled.session_now;
            position_known = resync-entered seg l ∙ settled.position_known;
          };
          seg = seg;
          current_same = refl;
          prev_same = refl;
          holding = record {
            file = file;
            files = files;
            part = part;
            after = after;
            stored = stored;
            header_same = refl;
            name_same =
                ap (λ (p : Text). build_name p file.header.segment_id s.suffix) settled.prefix_same
                ∙ ap (λ (p : Text). build_name home.prefix file.header.segment_id p)
                    settled.suffix_same;
            offset_same = omega arith;
            data_len_same = refl;
            within = omega arith;
            pending_same = pending-entered seg l;
            split = split;
            part_bytes = same;
            full = full;
            chain = chain;
          };
        }

    -- Where a byte is still to come, a segment file is pending.
    pub enter_next :
        (x : Marked) (more : List Marked) (s : Reader)
        (h : At home session format minor (x ∷ more) s)
        → exhausted s.log ≡ true
        → Entry (x ∷ more) h.seg.header.sequence s
    enter_next x more s h e =
        from h.holding.files h.holding.pending_same h.holding.full h.holding.chain
      where
        left : x ∷ more ≡ h.holding.after
        left = exhausted_part (x ∷ more) s h e

        from :
            (files : List File)
            → s.pending ≡ ids_of files
            → Full h.holding.file.data_section h.holding.file.header files
            → Chain home session format minor h.holding.file.header.sequence h.holding.after files
            → Entry (x ∷ more) h.seg.header.sequence s
        from [] pending full chain = absurd (cc (left ∙ chain))
        from (file ∷ files) pending full
              (part, after, split, same, stored, next, rem, full', chain) =
            record {
              file = file;
              rest = ids_of files;
              remaining_same = rem ∙ ap first_mark (sym left);
              sequence_next =
                  next ∙ ap (λ (hd : SegmentHeader). hd.sequence + 1) (sym h.holding.header_same);
              valid = stored.valid;
              pending_same = pending;
              not_short =
                  full_not_short s.current h.seg h.current_same
                    (h.holding.data_len_same ∙ full ∙ ap data_len (sym h.holding.header_same));
              len_same =
                  ap (λ (f : Format). data_header_len_in f file.header.minor) stored.format_same
                  ∙ ap (λ (m : ℕ). data_header_len_in format m) stored.minor_same;
              opens =
                  open_next-Runs (unopened s) file (ids_of files)
                    (ap (λ (w : World). w.outcomes) h.settled.world_same ∙ works) pending
                    (rw (h.settled.prefix_same, h.settled.suffix_same, h.settled.world_same)
                      stored.found)
                    stored.valid stored.fits
                    (foreign_not s.session session file.header h.settled.session_now
                      stored.session_same);
              arrived = λ cursor.
                  arrived-At (x ∷ more) s file files part after cursor h.settled (left ∙ split) same
                    stored full' chain;
            }
