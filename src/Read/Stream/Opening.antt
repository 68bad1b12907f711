-- ===== src/Read/Stream/Opening.antt =====
-- Opening the segment files of a session that is read, where every operation works.
use tcslog.Prelude.{
  ℕ, ◌+◌, ◌-◌, ◌≤◌, ◌≡◌, refl, ap, sym, subst, ◌∙◌, arith, Option, some, List, [], ◌++◌, length,
  take, append-nil, length-take, take-append_length, length-append, true, ◌==◌, le→ltb_false,
}
use tcslog.Error.{Result, ok}
use tcslog.Exec.{pure}
use tcslog.Exec.Run.{Runs, pure-Runs, on_error-Runs, gets-Runs, else-Runs, zoom-Runs}
use tcslog.Fs.{Text, World, content, lookup}
use tcslog.Fs.Working.{open_file-Runs, file_len-Runs, read_exact-Runs}
use tcslog.SegId.{SegId}
use tcslog.Header.{SegmentHeader, segment_file_header_len, to_bytes, from_bytes}
use tcslog.Header.RoundTrip.{IsValid, length-to_bytes, from_bytes-to_bytes}
use tcslog.Names.{build_name}
use tcslog.Read.{Segment, Reader}
use tcslog.Read.Open.{validated, open_validated}
use tcslog.Read.Stream.{File}

-- The segment file as it is opened.
abbrev pub opened_file : Reader → File → Segment
opened_file home file = record {
  id = file.header.segment_id;
  name = build_name home.prefix file.header.segment_id home.suffix;
  offset = segment_file_header_len;
  header = file.header;
  data_len = length file.data_section;
  pos = 0;
}

validated_file :
    (home : Reader) (file : File)
    → segment_file_header_len + length file.data_section ≤ file.header.max_size
    → validated file.header.segment_id
        (build_name home.prefix file.header.segment_id home.suffix)
        (segment_file_header_len + length file.data_section)
        (ok file.header)
      ≡ some (opened_file home file)
unfolding validated
validated_file home file fits =
    let id : SegId = file.header.segment_id in
    let size : ℕ = segment_file_header_len + length file.data_section in
    let same : (id == id) ≡ true = ground arith in
    let rest : size - segment_file_header_len ≡ length file.data_section = omega arith in
    rw (same, le→ltb_false file.header.max_size size fits, rest) refl

pub content_found :
    (name : Text) (bytes : List ℕ) (w : World)
    → lookup name w.files ≡ some bytes
    → content name w ≡ bytes
unfolding content
content_found name bytes w h = rw (content, h) refl

front_of :
    (h : SegmentHeader) (section : List ℕ)
    → take segment_file_header_len (to_bytes h ++ section) ≡ to_bytes h
front_of h section =
    take-append_length segment_file_header_len (to_bytes h) section (length-to_bytes h)

-- A segment file that stands in the directory is opened, and nothing else happens.
pub open_validated-Runs :
    (s : Reader) (file : File)
    → s.world.outcomes ≡ []
    → lookup (build_name s.prefix file.header.segment_id s.suffix) s.world.files
      ≡ some (to_bytes file.header ++ file.data_section)
    → IsValid file.header
    → segment_file_header_len + length file.data_section ≤ file.header.max_size
    → Runs (open_validated file.header.segment_id) s (some (opened_file s file)) s
unfolding open_validated
open_validated-Runs s file works found valid fits =
    let h : SegmentHeader = file.header in
    let id : SegId = h.segment_id in
    let name : Text = build_name s.prefix id s.suffix in
    let whole : List ℕ = to_bytes h ++ file.data_section in
    let held : content name s.world ≡ whole = content_found name whole s.world found in
    let size : length (content name s.world) ≡ segment_file_header_len + length file.data_section =
      ap (λ (l : List ℕ). length l) held
      ∙ length-append (to_bytes h) file.data_section
      ∙ ap (λ (n : ℕ). n + length file.data_section) (length-to_bytes h) in
    let front : take segment_file_header_len (content name s.world) ≡ to_bytes h =
      ap (λ (l : List ℕ). take segment_file_header_len l) held ∙ front_of h file.data_section in
    let decoded : from_bytes (take segment_file_header_len (content name s.world)) ≡ ok h =
      ap from_bytes (front ∙ sym (append-nil (to_bytes h))) ∙ from_bytes-to_bytes h [] valid in
    gets-Runs _ _ (
      on_error-Runs _ _ (zoom-Runs _ _ (open_file-Runs s.world works name whole found)) (
        on_error-Runs _ _ (zoom-Runs _ _ (file_len-Runs s.world works name)) (
          else-Runs _ _ _
            (le→ltb_false (length (content name s.world)) segment_file_header_len
              (omega (arith, size)))
            (on_error-Runs _ _
              (zoom-Runs _ _ (
                read_exact-Runs s.world works name 0 segment_file_header_len (
                  omega (arith, length-take segment_file_header_len (content name s.world), size))))
              (subst (λ (o : Option Segment). Runs (pure o) s (some (opened_file s file)) s)
                (sym (
                  ap
                    (λ (r : Result SegmentHeader).
                      validated id name (length (content name s.world)) r)
                    decoded
                  ∙ ap (λ (n : ℕ). validated id name n (ok h)) size
                  ∙ validated_file s file fits))
                (pure-Runs _ s))))))
