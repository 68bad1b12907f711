-- ===== src/Capi/Rendering.antt =====
-- Text rendered into a caller's buffer: it fits whole, with its NUL, or nothing is written.
use tcslog.Prelude.{
  ℕ, ◌+◌, ◌^◌, ◌≤◌, ◌<◌, ◌≡◌, refl, ap, subst, ◌∙◌, arith, Bool, true, false, Option, some, List,
  [], ◌∷◌, ◌++◌, append_assoc, append-nil, length, length-append, length-drop, drop,
  take-append_length, drop_past, drop-drop, All, leb, ltb, ◌==◌,
}
use tcslog.Fs.{Text}
use tcslog.Bytes.{IsU64}
use tcslog.SegId.{SegId, display}
use tcslog.SegId.Ascii.{IsText, display-IsText}
use tcslog.SegId.RoundTrip.{length-display, parse-display}
use tcslog.Timestamp.{write_timestamp, format_timestamp}
use tcslog.Timestamp.Text.{length-format_timestamp}
use tcslog.Capi.Status.{TcslogStatus}
use tcslog.Capi.{as_str}
use tcslog.Capi.Strings.{
  write_str, write_pieces, set_nul, render_into, c_string, tcslog_seg_id_format,
  tcslog_format_timestamp, tcslog_seg_id_parse,
}

-- The text that pieces make up.
abbrev pub joined : List Text → Text
joined [] = []
joined (s ∷ rest) = s ++ joined rest

write_str-append :
    (s front back : List ℕ)
    → length s ≤ length back
    → write_str s (record { buf = front ++ back; len = length front })
      ≡ some (record { buf = (front ++ s) ++ drop (length s) back; len = length (front ++ s) })
unfolding write_str
write_str-append s front back h =
    let fits : leb (length front + length s) (length (front ++ back)) ≡ true =
      ground (arith, length-append front back) in
    rw (
      fits,
      take-append_length (length front) front back refl,
      drop_past front back (length s),
      length-append front s,
      append_assoc front s (drop (length s) back),
    )

write_pieces-append :
    (pieces : List Text) (front back : List ℕ)
    → length (joined pieces) ≤ length back
    → write_pieces pieces (record { buf = front ++ back; len = length front }) ≡ (
      true,
      record {
        buf = (front ++ joined pieces) ++ drop (length (joined pieces)) back;
        len = length (front ++ joined pieces);
      },
    )
unfolding write_pieces
write_pieces-append [] front back h = rw (append-nil front)
write_pieces-append (s ∷ rest) front back h =
    let short : length (s ++ joined rest) ≡ length s + length (joined rest) =
      length-append s (joined rest) in
    rw (
      write_pieces,
      write_str-append s front back (omega (arith, short)),
      write_pieces-append rest (front ++ s) (drop (length s) back)
          (omega (arith, short, length-drop (length s) back)),
      append_assoc front s (joined rest),
      drop-drop (length (joined rest)) (length s) back,
      short,
    )

set_nul-append :
    (text rest : List ℕ) → set_nul (length text) (text ++ rest) ≡ text ++ (0 ∷ drop 1 rest)
unfolding set_nul
set_nul-append text rest =
    rw (take-append_length (length text) text rest refl, drop_past text rest 1)

-- A buffer too short for a text of the declared length and its NUL is left alone; else the text and
-- the NUL stand at its front, and the rest of it is what it was.
render_into-joined :
    (pieces : List Text) (buf : List ℕ)
    → length (joined pieces) < length buf
    → render_into (some buf) (length (joined pieces)) pieces
      ≡ (TcslogStatus.ok, some (joined pieces ++ (0 ∷ drop (length (joined pieces) + 1) buf)))
unfolding render_into
render_into-joined pieces buf h =
    let roomy : leb (length buf) (length (joined pieces)) ≡ false = ground arith in
    let ended : ltb (length (joined pieces))
          (length (joined pieces ++ drop (length (joined pieces)) buf))
        ≡ true =
      ground (
        arith,
        length-append (joined pieces) (drop (length (joined pieces)) buf),
        length-drop (length (joined pieces)) buf,
      ) in
    rw (
      roomy,
      write_pieces-append pieces [] buf (omega arith),
      ended,
      set_nul-append (joined pieces) (drop (length (joined pieces)) buf),
      drop-drop 1 (length (joined pieces)) buf,
    )

render_into_short :
    (pieces : List Text) (buf : List ℕ) (len : ℕ)
    → length buf ≤ len
    → render_into (some buf) len pieces ≡ (TcslogStatus.buffer_too_small, some buf)
unfolding render_into
render_into_short pieces buf len h =
    let short : leb (length buf) len ≡ true = ground arith in rw short

c_string-append_nul : (text rest : List ℕ) → All IsText text → c_string (text ++ (0 ∷ rest)) ≡ text
unfolding c_string
c_string-append_nul [] rest h = refl
c_string-append_nul (b ∷ text) rest h =
    let more : (b == 0) ≡ false = ground (arith, h.0) in
    rw (c_string, more, c_string-append_nul text rest h.1)

-- What a rendering into a buffer does to it.
abbrev pub rendered : Text → List ℕ → TcslogStatus × Option (List ℕ)
rendered text buf = (TcslogStatus.ok, some (text ++ (0 ∷ drop (length text + 1) buf)))

tcslog_seg_id_format-rendered :
    (pieces_of : Text → List Text) (id : SegId) (buf : List ℕ)
    → ((text : Text) → joined (pieces_of text) ≡ text)
    → 19 < length buf
    → tcslog_seg_id_format pieces_of id (some buf) ≡ rendered (display id) buf
unfolding tcslog_seg_id_format
tcslog_seg_id_format-rendered pieces_of id buf whole roomy =
    let pieces : List Text = pieces_of (display id) in
    let same : joined pieces ≡ display id = whole (display id) in
    let len : length (joined pieces) ≡ 19 = ap length same ∙ length-display id in
    subst (λ (n : ℕ). render_into (some buf) n pieces ≡ rendered (display id) buf) len
      (render_into-joined pieces buf (omega (arith, len)) ∙ ap (λ (t : Text). rendered t buf) same)

-- A segment identifier, a `u64`, that is rendered into a buffer and parsed as a C string from
-- there is the identifier again, where the buffer has room for 20 bytes; a smaller one is refused
-- and left as it is. However the text is cut into pieces when it is written, the pieces make up
-- the text, and ASCII text is UTF-8.
pub tcslog_seg_id_parse-format :
    (pieces_of : Text → List Text) (is_utf8 : Text → Bool) (id : SegId) (buf : List ℕ) (out : ℕ)
    → ((text : Text) → joined (pieces_of text) ≡ text)
    → ((text : Text) → All IsText text → is_utf8 text ≡ true)
    → IsU64 id
    → (19 < length buf
        → (filled : List ℕ) × (tcslog_seg_id_format pieces_of id (some buf)
            ≡ (TcslogStatus.ok, some filled))
          × (tcslog_seg_id_parse is_utf8 (some (c_string filled)) (some out)
              ≡ (TcslogStatus.ok, some id)))
      × (length buf ≤ 19
          → tcslog_seg_id_format pieces_of id (some buf)
            ≡ (TcslogStatus.buffer_too_small, some buf))
unfolding tcslog_seg_id_format tcslog_seg_id_parse as_str
tcslog_seg_id_parse-format pieces_of is_utf8 id buf out whole ascii h = (
  λ roomy. (
    display id ++ (0 ∷ drop (length (display id) + 1) buf),
    tcslog_seg_id_format-rendered pieces_of id buf whole roomy,
    rw (
      c_string-append_nul (display id) (drop (length (display id) + 1) buf) (display-IsText id),
      tcslog_seg_id_parse,
      as_str,
      ascii (display id) (display-IsText id),
      parse-display id h,
    ),
  ),
  λ short. render_into_short (pieces_of (display id)) buf 19 short,
)

-- A timestamp, a `u64`, is rendered whole with its NUL into a buffer that has room for 31 bytes,
-- which is what its fixed length asks for, and the rest of the buffer is what it was; a smaller
-- buffer is refused and left as it is. However the text is cut into pieces, the pieces make up the
-- text.
pub tcslog_format_timestamp-rendered :
    (pieces_of : Text → List Text) (ts : ℕ) (buf : List ℕ)
    → ((text : Text) → joined (pieces_of text) ≡ text)
    → ts < 2 ^ 64
    → (30 < length buf
        → tcslog_format_timestamp pieces_of ts (some buf) ≡ rendered (format_timestamp ts) buf)
      × (length buf ≤ 30
          → tcslog_format_timestamp pieces_of ts (some buf)
            ≡ (TcslogStatus.buffer_too_small, some buf))
unfolding tcslog_format_timestamp format_timestamp
tcslog_format_timestamp-rendered pieces_of ts buf whole h =
    let pieces : List Text = pieces_of (write_timestamp ts) in
    let same : joined pieces ≡ write_timestamp ts = whole (write_timestamp ts) in
    let len : length (joined pieces) ≡ 30 = ap length same ∙ length-format_timestamp ts h in
    (
      λ roomy.
          subst (λ (n : ℕ). render_into (some buf) n pieces ≡ rendered (write_timestamp ts) buf) len
            (render_into-joined pieces buf (omega (arith, len))
              ∙ ap (λ (t : Text). rendered t buf) same),
      λ short. render_into_short pieces buf 30 short,
    )
