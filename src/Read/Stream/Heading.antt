-- ===== src/Read/Stream/Heading.antt =====
-- The data header that the writer puts ahead of a record, and the steps of the reader that decode it.
use tcslog.Prelude.{
  ℕ, ◌+◌, ◌-◌, ◌^◌, ◌≤◌, ◌<◌, ◌≡◌, refl, ap, sym, subst, ◌∙◌, arith, false, not, Option, none, some,
  List, [], ◌++◌, length, take, drop, append_assoc, ◌==◌, if◌then◌else◌,
}
use tcslog.Exec.{pure}
use tcslog.Exec.Run.{Runs, pure-Runs, gets-Runs, else-Runs}
use tcslog.Bytes.{to_le_bytes, from_le_bytes, from_le_bytes-to_le_bytes}
use tcslog.Format.{Format, Meta, data_header_len, data_header_len_in}
use tcslog.SegId.{SegId}
use tcslog.Header.{version_minor}
use tcslog.Read.{new_cursor, Reader, reject_current}
use tcslog.Read.Fill.{fill, settle_payload_len, read_data_header}
use tcslog.Read.Stream.{marked, Marked, At}
use tcslog.Read.Stream.Cursor.{Agreed, Within}
use tcslog.Read.Stream.Marks.{marked-append}
use tcslog.Read.Stream.Taking.{At-same}
use tcslog.Read.Stream.Filling.{fill-To}
use tcslog.Write.Building.{header_bytes, HasMeta}

-- What is stored in the widths of the data header.
abbrev pub InRange : Format → Meta → List ℕ → Type 0
InRange (Format.fixed n) meta msg = length msg ≡ n
InRange Format.variable_simple meta msg = length msg < 2 ^ 32
InRange Format.variable_ts_rc (Meta.variable_ts_rc ts rc) msg =
    (length msg < 2 ^ 32) × (ts < 2 ^ 64) × (rc < 2 ^ 48)
InRange Format.variable_ts_rc _ msg = ⊥

-- A record that a log of that format may hold.
pub record Fits (format : Format) (meta : Meta) (msg : List ℕ) : Type 0 where
  pub has_meta : HasMeta format meta
  pub in_range : InRange format meta msg

-- A settled payload length is the one that was decoded.
pub settle-Runs :
    (total header_len limit c decoded : ℕ) (s : Reader)
    → Within total header_len limit c s.cursor
    → decoded ≡ total - header_len
    → Runs (settle_payload_len decoded) s decoded s
unfolding settle_payload_len
settle-Runs total header_len limit c decoded s w same =
    gets-Runs _ _ (settled s.cursor.implied_payload w.agreed)
  where
    settled :
        (o : Option ℕ)
        → Agreed (total - header_len) o
        → Runs
            (elim o [
              | none ↦ pure decoded
              | some n ↦ (if not (n == decoded) then reject_current 0 0 else pure decoded)
            ])
            s
            decoded
            s
    settled none x = pure-Runs decoded s
    settled (some n) x =
        let agree : not (n == decoded) ≡ false = ground (arith, x, same) in
        else-Runs _ _ _ agree (pure-Runs decoded s)

-- The data header has as many bytes as its format tells.
pub header_bytes-len :
    (format : Format) (meta : Meta) (n : ℕ)
    → HasMeta format meta
    → length (header_bytes meta n) ≡ data_header_len_in format version_minor
unfolding data_header_len_in data_header_len to_le_bytes
header_bytes-len (Format.fixed k) Meta.fixed n h = refl
header_bytes-len Format.variable_simple Meta.variable_simple n h = refl
header_bytes-len Format.variable_ts_rc (Meta.variable_ts_rc ts rc) n h = refl
header_bytes-len (Format.fixed k) Meta.variable_simple n h = absurd h
header_bytes-len (Format.fixed k) (Meta.variable_ts_rc ts rc) n h = absurd h
header_bytes-len Format.variable_simple Meta.fixed n h = absurd h
header_bytes-len Format.variable_simple (Meta.variable_ts_rc ts rc) n h = absurd h
header_bytes-len Format.variable_ts_rc Meta.fixed n h = absurd h
header_bytes-len Format.variable_ts_rc Meta.variable_simple n h = absurd h

-- The three parts of the longest data header.
pub ts_rc_parts :
    (n ts rc : ℕ)
    → n < 2 ^ 32
    → ts < 2 ^ 64
    → rc < 2 ^ 48
    → (from_le_bytes (take 4 (header_bytes (Meta.variable_ts_rc ts rc) n)) ≡ n)
      × (from_le_bytes (take 8 (drop 4 (header_bytes (Meta.variable_ts_rc ts rc) n))) ≡ ts)
      × (from_le_bytes (drop 12 (header_bytes (Meta.variable_ts_rc ts rc) n)) ≡ rc)
unfolding to_le_bytes
ts_rc_parts n ts rc h k l = (
  from_le_bytes-to_le_bytes 4 n h,
  from_le_bytes-to_le_bytes 8 ts k,
  from_le_bytes-to_le_bytes 6 rc l,
)

-- A reader that has decoded the data header of a record of `total` bytes.
pub record Headed (home : Reader) (session : SegId) (format : Format) (meta : Meta) (msg : List ℕ)
    (more : List Marked) (total header_len : ℕ) (s : Reader) : Type 0 where
  pub after : Reader
  pub decodes : Runs (read_data_header format version_minor) s (length msg, meta) after
  pub at : At home session format version_minor (marked total header_len msg ++ more) after
  pub within : Within total header_len total header_len after.cursor

module _ (home : Reader) (session : SegId) (works : home.world.outcomes ≡ []) (msg : List ℕ)
    (more : List Marked) where
  -- The total is set once the header has been read.
  pub finish :
      (format : Format) (meta : Meta) (total header_len : ℕ) (s t : Reader)
      → header_len ≤ total
      → At home session format version_minor (marked total header_len msg ++ more) t
      → t.cursor.consumed ≡ header_len
      → Agreed (total - header_len) t.cursor.implied_payload
      → Runs
          (read_data_header format version_minor)
          s
          (length msg, meta)
          (record t { cursor = record t.cursor { total = some total } })
      → Headed home session format meta msg more total header_len s
  finish format meta total header_len s t le at consumed agreed decodes = record {
    after = record t { cursor = record t.cursor { total = some total } };
    decodes = decodes;
    at = At-same home session format version_minor _ t _ refl refl refl at;
    within = record {
      consumed_same = consumed;
      within = le;
      knows = (refl, refl);
      agreed = agreed;
    };
  }

  -- The data header's bytes are read.
  pub fill_header :
      (format : Format) (bytes : List ℕ) (total : ℕ) (s : Reader)
      → At home session format version_minor (marked total 0 (bytes ++ msg) ++ more) s
      → s.cursor ≡ new_cursor
      → total ≡ length bytes + length msg
      → total < 2 ^ 64
      → length bytes ≡ data_header_len_in format version_minor
      → (t : Reader) × Runs (fill (length bytes)) s tt t
        × At home session format version_minor (marked total (length bytes) msg ++ more) t
        × Within total (length bytes) (length bytes) (length bytes) t.cursor
        × (t.dst ≡ bytes)
  fill_header format bytes total s at fresh same lt len =
      let le : length bytes ≤ total = omega (arith, same) in
      let split : marked total 0 (bytes ++ msg) ++ more
          ≡ marked total 0 bytes ++ (marked total (length bytes) msg ++ more) =
        ap (λ (l : List Marked). l ++ more)
          (marked-append total 0 bytes msg
            ∙ ap (λ (k : ℕ). marked total 0 bytes ++ marked total k msg)
                (let e : 0 + length bytes ≡ length bytes = omega arith in e))
        ∙ append_assoc (marked total 0 bytes) (marked total (length bytes) msg) more in
      let got =
        fill-To home session format version_minor works total (length bytes) (length bytes)
          (sym len) le le lt bytes 0 (marked total (length bytes) msg ++ more) s
          (record {
            at = subst (λ (l : List Marked). At home session format version_minor l s) split at;
            cursor_within =
                rw fresh (record {
                  consumed_same = refl;
                  within = omega arith;
                  knows = refl;
                  agreed = tt;
                });
          })
          (omega arith) in
      (
        got.after,
        got.steps,
        got.in_record.at,
        subst (λ (c : ℕ). Within total (length bytes) (length bytes) c got.after.cursor)
            (let e : 0 + length bytes ≡ length bytes = omega arith in e)
            got.in_record.cursor_within,
        got.dst_same,
      )
