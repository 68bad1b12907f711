-- ===== src/Gen.antt =====
-- tcslog-gen/src/lib.rs: the generator of test logs. What is printed is left out.
pub mod Payload
pub mod Creating
pub mod Spec
pub mod Printing
use tcslog.Prelude.{
  ℕ, zero, suc, ◌+◌, ◌-◌, ◌*◌, ◌/◌, ◌%◌, ◌^◌, List, [], ◌∷◌, ◌++◌, length, take, leb, ltb, ◌==◌,
  if◌then◌else◌, u32_max, saturating_add,
}
use tcslog.Exec.{pure, raise, on_error, ◌>>=◌, ◌>>◌}
use tcslog.Fs.{Text, Io}
use tcslog.Format.{Format}
use tcslog.Header.{segment_file_header_len}
use tcslog.Names.{build_name}
use tcslog.Decimal.{decimal}
use tcslog.Write.{WriteCallbacks, LogWrite, Writes, no_callbacks}
use tcslog.Write.Accessors.{session_id}
use tcslog.Write.Record.{write}
use tcslog.Write.Session
use tcslog.Write.Session.{drop_log}

pub data RecordFormatSpec : Type 0 where
  fixed : ℕ → RecordFormatSpec
  variable_simple : ℕ → ℕ → RecordFormatSpec
  variable_ts_rc : ℕ → ℕ → RecordFormatSpec

unfoldable pub format : RecordFormatSpec → Format
format (RecordFormatSpec.fixed n) = Format.fixed n
format (RecordFormatSpec.variable_simple low high) = Format.variable_simple
format (RecordFormatSpec.variable_ts_rc low high) = Format.variable_ts_rc

unfoldable pub min_size : RecordFormatSpec → ℕ
min_size (RecordFormatSpec.fixed n) = n
min_size (RecordFormatSpec.variable_simple low high) = low
min_size (RecordFormatSpec.variable_ts_rc low high) = low

unfoldable pub max_size : RecordFormatSpec → ℕ
max_size (RecordFormatSpec.fixed n) = n
max_size (RecordFormatSpec.variable_simple low high) = high
max_size (RecordFormatSpec.variable_ts_rc low high) = high

abbrev pub payload_rng_seed : ℕ
payload_rng_seed = 0x0123_4567_89ab_cdef

-- The `^` of two numbers of `k` bits.
unfoldable pub xor : ℕ → ℕ → ℕ → ℕ
xor zero a b = 0
xor (suc k) a b = (a + b) % 2 + 2 * xor k (a / 2) (b / 2)

-- `SplitMix64::next_u64`: the value, and the generator's state after it.
unfoldable pub next_u64 : ℕ → ℕ × ℕ
next_u64 old =
    let state = (old + 0x9e37_79b9_7f4a_7c15) % 2 ^ 64 in
    let z1 = xor 64 state (state / 2 ^ 30) * 0xbf58_476d_1ce4_e5b9 % 2 ^ 64 in
    let z2 = xor 64 z1 (z1 / 2 ^ 27) * 0x94d0_49bb_1331_11eb % 2 ^ 64 in
    (xor 64 z2 (z2 / 2 ^ 31), state)

-- `RecSize::try_from(n).unwrap_or(0)`
abbrev pub rec_size_or_zero : ℕ → ℕ
rec_size_or_zero n = if leb n u32_max then n else 0

-- The length of a payload, and the generator after it.
unfoldable pub pick_target : RecordFormatSpec → ℕ → ℕ × ℕ
pick_target spec rng =
    let low = min_size spec in
    let high = max_size spec in
    if low == high
    then (low, rng)
    else let span = (high + 2 ^ 32 - low) % 2 ^ 32 + 1 in
      let (drawn, rng') = next_u64 rng in ((low + rec_size_or_zero (drawn % span)) % 2 ^ 32, rng')

-- "123456789 "
abbrev pub filler : List ℕ
filler = b'1' ∷ b'2' ∷ b'3' ∷ b'4' ∷ b'5' ∷ b'6' ∷ b'7' ∷ b'8' ∷ b'9' ∷ b' ' ∷ []

-- The loop that fills the buffer, with fuel for each byte of the target.
unfoldable pub fill_up : ℕ → ℕ → List ℕ → List ℕ
fill_up zero target buf = buf
fill_up (suc fuel) target buf =
    let rest = fill_up fuel target (buf ++ filler) in if ltb (length buf) target then rest else buf

-- The payload, and the generator after it.
unfoldable pub build_payload : RecordFormatSpec → ℕ → ℕ → List ℕ × ℕ
build_payload spec index rng =
    let (target, rng') = pick_target spec rng in
    let buf = b'#' ∷ (decimal ((index + 1) % 2 ^ 64) ++ (b' ' ∷ [])) in
    (take target (fill_up target target buf), rng')

pub record LogInfo : Type 0 where
  pub root_file : Text
  pub message_count : ℕ

-- `Announce`, whose calls only print.
abbrev pub announce : WriteCallbacks (Unit {0})
announce = no_callbacks

-- The loop of `create_log`, over the records still to be written: the number of those written.
unfoldable pub write_records : RecordFormatSpec → ℕ → ℕ → ℕ → Writes (Unit {0}) ℕ
write_records spec zero index rng = pure index
write_records spec (suc left) index rng = do
  write announce (build_payload spec index rng).0
  write_records spec left (index + 1) (build_payload spec index rng).1

-- The loop, and the drop of the writer where it goes out of scope.
unfoldable pub write_and_drop : RecordFormatSpec → ℕ → Writes (Unit {0}) ℕ
write_and_drop spec count =
    on_error (write_records spec count 0 payload_rng_seed) (λ e. do drop_log announce; raise e)
      (λ n. do drop_log announce; pure n)

-- A step of the writer, for a caller that holds only the world.
unfoldable pub within : {H A : Type 0} → LogWrite H → Writes H A → Io A
within l m w = let (r, s) = m (record { log = l; world = w }) in (r, s.world)

-- The directory is the world's, and `timer_resolution_ns` the build's.
unfoldable pub create_log : ℕ → Text → Text → RecordFormatSpec → ℕ → ℕ → Io LogInfo
create_log timer_resolution_ns prefix suffix spec data_size count = do
  let seg_size_max = saturating_add u32_max segment_file_header_len data_size
  log ← Session.new announce timer_resolution_ns prefix suffix seg_size_max (format spec) tt
  message_count ← within log (write_and_drop spec count)
  pure (record {
    root_file = build_name prefix (session_id log) suffix;
    message_count = message_count;
  })
