-- ===== src/Capi/Strings.antt =====
-- tcslog-c/src/lib.rs: the calls that render text into a caller's buffer or parse it.
use tcslog.Prelude.{
  ℕ, ◌+◌, Bool, true, false, Option, none, some, List, [], ◌∷◌, ◌++◌, length, take, drop, ◌==◌, leb,
  ltb, if◌then◌else◌,
}
use tcslog.Error.{ok, err, stuck}
use tcslog.Fs.{Text}
use tcslog.SegId
use tcslog.SegId.{SegId, display}
use tcslog.Timestamp.{write_timestamp}
use tcslog.Header.{segment_file_header_len, version_major, version_minor, version_patch}
use tcslog.Capi.Status.{TcslogStatus}
use tcslog.Capi.{value, refused, as_str, status_only}

abbrev pub tcslog_seg_id_str_len : ℕ
tcslog_seg_id_str_len = 19

abbrev pub tcslog_timestamp_str_len : ℕ
tcslog_timestamp_str_len = 30

pub record SliceWriter : Type 0 where
  pub buf : List ℕ
  pub len : ℕ

-- `write_str`: none is the error.
unfoldable pub write_str : Text → SliceWriter → Option SliceWriter
write_str s w =
    let end = w.len + length s in
    if leb end (length w.buf)
    then some (record { buf = take w.len w.buf ++ (s ++ drop end w.buf); len = end })
    else none

-- What a rendering does: `write_str` for each of its pieces, up to the first error.
unfoldable pub write_pieces : List Text → SliceWriter → Bool × SliceWriter
write_pieces [] w = (true, w)
write_pieces (s ∷ rest) w = elim (write_str s w) [
  | none ↦ (false, w)
  | some w' ↦ write_pieces rest w'
]

-- `dst[end] = 0`
unfoldable pub set_nul : ℕ → List ℕ → List ℕ
set_nul end buf = take end buf ++ (0 ∷ drop (end + 1) buf)

-- The caller's buffer, null or its bytes; the status and the buffer after it. Where the text fills
-- the buffer there is no byte for the NUL, and the index is a panic, which every caller catches.
unfoldable pub render_into : Option (List ℕ) → ℕ → List Text → TcslogStatus × Option (List ℕ)
render_into none len pieces = (TcslogStatus.null_argument, none)
render_into (some buf) len pieces =
    if leb (length buf) len
    then (TcslogStatus.buffer_too_small, some buf)
    else let (fits, w) = write_pieces pieces (record { buf = buf; len = 0 }) in
      if fits
      then (if ltb w.len (length w.buf)
          then (TcslogStatus.ok, some (set_nul w.len w.buf))
          else (TcslogStatus.panic, some w.buf))
      else (TcslogStatus.buffer_too_small, some w.buf)

-- An out-parameter: null, or what it points to, which a call replaces.
abbrev pub assign {ℓ} : {A : Type ℓ} → Option A → A → Option A
assign none a = none
assign (some old) a = some a

unfoldable pub tcslog_format_version :
    Option ℕ → Option ℕ → Option ℕ → Option ℕ × Option ℕ × Option ℕ
tcslog_format_version major minor patch =
    (assign major version_major, assign minor version_minor, assign patch version_patch)

unfoldable pub tcslog_segment_file_header_len : ℕ
tcslog_segment_file_header_len = segment_file_header_len

-- How `write!` cuts its text into pieces is the standard library's to say: the parameter
-- `pieces_of`.
unfoldable pub tcslog_seg_id_format :
    (Text → List Text) → SegId → Option (List ℕ) → TcslogStatus × Option (List ℕ)
tcslog_seg_id_format pieces_of id buf =
    render_into buf tcslog_seg_id_str_len (pieces_of (display id))

unfoldable pub tcslog_format_timestamp :
    (Text → List Text) → ℕ → Option (List ℕ) → TcslogStatus × Option (List ℕ)
tcslog_format_timestamp pieces_of ts buf =
    render_into buf tcslog_timestamp_str_len (pieces_of (write_timestamp ts))

-- `parse` is never stuck, and the arm for it is never taken.
unfoldable pub tcslog_seg_id_parse :
    (Text → Bool) → Option Text → Option ℕ → TcslogStatus × Option ℕ
tcslog_seg_id_parse is_utf8 text none = (TcslogStatus.null_argument, none)
tcslog_seg_id_parse is_utf8 text (some out) = elim (as_str is_utf8 text) [
  | refused status ↦ (status, some out)
  | value t ↦ elim (SegId.parse t) [
    | ok id ↦ (TcslogStatus.ok, some id)
    | err e ↦ (status_only e, some out)
    | stuck ↦ (TcslogStatus.panic, some out)
  ]
]

-- A C string in a buffer: its bytes up to the first NUL.
unfoldable pub c_string : List ℕ → Text
c_string [] = []
c_string (b ∷ rest) = if b == 0 then [] else b ∷ c_string rest
