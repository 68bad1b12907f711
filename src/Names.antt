-- ===== src/Names.antt =====
-- tcslog/src/util.rs: the checks on a log's location, segment file names, and the directory scan.
pub mod RoundTrip
pub mod Scan
use tcslog.Prelude.{
  ℕ, zero, suc, ◌+◌, ◌-◌, ◌/◌, ◌≡◌, refl, Bool, true, false, not, ◌||◌, ◌&&◌, Option, none, some,
  List, [], ◌∷◌, ◌++◌, length, take, drop, list_eq, ltb, leb, ◌==◌, if◌then◌else◌,
}
use tcslog.Error.{
  Result, ok, err, stuck, invalid_pathname, name_too_long, path_delimiter_not_allowed,
}
use tcslog.Exec.{pure, gets, ◌>>=◌, ◌>>◌}
use tcslog.SegId
use tcslog.SegId.{SegId, str_len}
use tcslog.Fs.{Text, World, Io, attempt}

abbrev pub prefix_suffix_max_chars : ℕ
prefix_suffix_max_chars = 16

-- `std::path::is_separator`, on Unix. A separator is one byte, which is part of no other character.
abbrev is_separator : ℕ → Bool
is_separator c = c == b'/'

unfoldable pub has_path_delimiter : Text → Bool
has_path_delimiter [] = false
has_path_delimiter (c ∷ rest) =
    (c == b'/' || (c == 92 || is_separator c)) || has_path_delimiter rest

-- `text.chars().count()`: the bytes that begin a character, of the form other than 10xxxxxx.
unfoldable pub chars_count : Text → ℕ
chars_count [] = 0
chars_count (c ∷ rest) = (if c / 64 == 2 then 0 else 1) + chars_count rest

unfoldable pub check_log_location : Text → Text → World → Result (Unit {0})
check_log_location prefix suffix w =
    if has_path_delimiter prefix || has_path_delimiter suffix
    then err path_delimiter_not_allowed
    else if ltb prefix_suffix_max_chars (chars_count prefix)
        || ltb prefix_suffix_max_chars (chars_count suffix)
    then err name_too_long
    else if not w.is_dir
    then err invalid_pathname
    else ok tt

-- The buffer is overwritten, so the name does not depend on what it held.
unfoldable pub build_name : Text → SegId → Text → Text
build_name prefix id suffix = prefix ++ (SegId.display id ++ suffix)

-- `strip_prefix` and `strip_suffix` of `str`
unfoldable pub strip_prefix : Text → Text → Option Text
strip_prefix prefix name =
    if list_eq (take (length prefix) name) prefix then some (drop (length prefix) name) else none

unfoldable pub strip_suffix : Text → Text → Option Text
strip_suffix suffix name =
    let cut = length name - length suffix in
    if list_eq (drop cut name) suffix then some (take cut name) else none

-- `.ok()`
abbrev to_option : Result SegId → Option SegId
to_option (ok id) = some id
to_option (err e) = none
to_option stuck = none

unfoldable pub id_from_name : Text → Text → Text → Option SegId
unfolding strip_prefix strip_suffix
id_from_name name prefix suffix =
    if not (length name == length prefix + str_len + length suffix)
    then none
    else elim (strip_prefix prefix name) [
      | none ↦ none
      | some rest ↦ (elim (strip_suffix suffix rest) [
        | none ↦ none
        | some body ↦ to_option (SegId.parse body)
      ])
    ]

-- `sort_unstable` of identifiers.
unfoldable pub insert : SegId → List SegId → List SegId
insert id [] = id ∷ []
insert id (x ∷ xs) = if leb id x then id ∷ (x ∷ xs) else x ∷ insert id xs

unfoldable pub sort : List SegId → List SegId
unfolding insert
sort [] = []
sort (x ∷ xs) = insert x (sort xs)

-- The loop over the entries of the directory, each of which may fail to be read. A name that is no
-- UTF-8 text is passed over; none of those is the name of a segment file.
unfoldable pub scan_entries : Text → Text → List (Text × List ℕ) → Io (List SegId)
scan_entries prefix suffix [] = pure []
scan_entries prefix suffix ((name, _) ∷ rest) = do
  attempt
  ids ← scan_entries prefix suffix rest
  elim (id_from_name name prefix suffix) [ none ↦ pure ids | some id ↦ pure (id ∷ ids) ]

unfoldable pub scan_segment_ids : Text → Text → Io (List SegId)
scan_segment_ids prefix suffix = do
  attempt
  entries ← gets (λ w. w.files)
  ids ← scan_entries prefix suffix entries
  pure (sort ids)
