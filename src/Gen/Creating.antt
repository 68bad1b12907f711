-- ===== src/Gen/Creating.antt =====
-- A log that the generator creates holds the records that it counts.
use tcslog.Prelude.{
  ℕ, zero, suc, ◌+◌, ◌<◌, ◌≡◌, refl, sym, ap, ◌∙◌, arith, List, [], ◌∷◌, ◌++◌, append_assoc,
  append-nil, length,
}
use tcslog.Error.{Result, ok, err, stuck, LogError}
use tcslog.Exec.Post.{
  Post, Ensures, Ensures-pure, Ensures-raise, Ensures-skip, Ensures-bind, Ensures-on_error,
  Ensures-weaken,
}
use tcslog.Fs.{Text, World}
use tcslog.Format.{Meta}
use tcslog.Header.{segment_file_header_len}
use tcslog.Write.{LogWrite, Writer, Writes}
use tcslog.Write.Sound.{stream_of, IsQuiet, IsRunning}
use tcslog.Write.Building.{encoded}
use tcslog.Write.Writing.{write-Written}
use tcslog.Write.Closing.{drop_log-Closed}
use tcslog.Write.Opening.{new-Opened}
use tcslog.Gen.{
  RecordFormatSpec, format, build_payload, payload_rng_seed, announce, write_records,
  write_and_drop, within, create_log,
}

-- The bytes of the records from the one at `index` on, with the metadata that each was given.
abbrev pub records : RecordFormatSpec → ℕ → ℕ → List Meta → List ℕ
records spec index rng [] = []
records spec index rng (meta ∷ rest) =
    encoded meta (build_payload spec index rng).0
    ++ records spec (index + 1) (build_payload spec index rng).1 rest

-- The stream has grown by some bytes.
abbrev pub Grown : List ℕ → World → Type 0
Grown stream t = (extra : List ℕ) × (stream_of t.files ≡ stream ++ extra)

announce-IsQuiet : IsQuiet announce
announce-IsQuiet = record {
  sends = λ name h w. Ensures-skip (h, w) (record { files_same = refl; later = omega arith });
  completes = λ name h w. Ensures-skip (h, w) (record { files_same = refl; later = omega arith });
}

module _ (size : ℕ) (spec : RecordFormatSpec) (roomy : segment_file_header_len < size) where
  -- The records that stand at the end of the stream.
  record Holds (stream : List ℕ) (left index rng total : ℕ) (t : Writer (Unit {0})) : Type 0 where
    running : IsRunning size (format spec) t.log t.world
    metas : List Meta
    as_many : length metas ≡ left
    counted : total ≡ index + left
    written : stream_of t.world.files ≡ stream ++ records spec index rng metas

  record Lost (stream : List ℕ) (e : LogError) (t : Writer (Unit {0})) : Type 0 where
    running : IsRunning size (format spec) t.log t.world
    grown : Grown stream t.world

  write_records-Holds :
      (left index rng : ℕ) (s : Writer (Unit {0}))
      → IsRunning size (format spec) s.log s.world
      → Ensures
          (write_records spec left index rng)
          s
          (Holds (stream_of s.world.files) left index rng)
          (Lost (stream_of s.world.files))
  unfolding write_records
  write_records-Holds zero index rng s h = Ensures-pure index s (record {
    running = h;
    metas = [];
    as_many = refl;
    counted = omega arith;
    written = sym (append-nil _);
  })
  write_records-Holds (suc left) index rng s h =
      let payload : List ℕ = (build_payload spec index rng).0 in
      let stream : List ℕ = stream_of s.world.files in
      Ensures-bind (write-Written announce size (format spec) payload s roomy announce-IsQuiet h)
        (λ e t x. record { running = x.running; grown = (x.extra, x.kept) })
        λ n t x.
          Ensures-weaken
            (write_records-Holds left (index + 1) (build_payload spec index rng).1 t x.owes.running)
            (λ total u y. record {
              running = y.running;
              metas = t.log.last_meta ∷ y.metas;
              as_many = ap suc y.as_many;
              counted = omega (arith, y.counted);
              written =
                  y.written
                  ∙ ap
                      (λ (front : List ℕ).
                        front ++ records spec (index + 1) (build_payload spec index rng).1 y.metas)
                      x.owes.written
                  ∙ append_assoc stream (encoded t.log.last_meta payload) _;
            })
            (λ e u y. record {
              running = y.running;
              grown = (
                encoded t.log.last_meta payload ++ y.grown.0,
                y.grown.1
                    ∙ ap (λ (front : List ℕ). front ++ y.grown.0) x.owes.written
                    ∙ append_assoc stream (encoded t.log.last_meta payload) y.grown.0,
              );
            })

  -- What creating the records has made of the stream, whatever the writer is then.
  record Created (stream : List ℕ) (count total : ℕ) (t : World) : Type 0 where
    metas : List Meta
    as_many : length metas ≡ count
    counted : total ≡ count
    written : stream_of t.files ≡ stream ++ records spec 0 payload_rng_seed metas

  write_and_drop-Created :
      (count : ℕ) (s : Writer (Unit {0}))
      → IsRunning size (format spec) s.log s.world
      → Ensures
          (write_and_drop spec count)
          s
          (λ total t. Created (stream_of s.world.files) count total t.world)
          (λ e t. Grown (stream_of s.world.files) t.world)
  unfolding write_and_drop
  write_and_drop-Created count s h =
      Ensures-on_error (write_records-Holds count 0 payload_rng_seed s h)
        (λ e t x.
          Ensures-bind
            (drop_log-Closed announce size (format spec) t roomy announce-IsQuiet x.running)
            (λ d u y. absurd y) (λ u v y. Ensures-raise e v (x.grown.0, y.2 ∙ x.grown.1)))
        (λ n t x.
          Ensures-bind
            (drop_log-Closed announce size (format spec) t roomy announce-IsQuiet x.running)
            (λ d u y. absurd y)
            (λ u v y. Ensures-pure n v (record {
              metas = x.metas;
              as_many = x.as_many;
              counted = omega (arith, x.counted);
              written = y.2 ∙ x.written;
            })))

Post-within :
    {H A : Type 0} (P : A → World → Type 0) (Q : LogError → World → Type 0) (r : Result A)
    (s : Writer H)
    → Post r s (λ a t. P a t.world) (λ e t. Q e t.world)
    → Post r s.world P Q
Post-within P Q (ok a) s h = h
Post-within P Q (err e) s h = h
Post-within P Q stuck s h = h

Ensures-within :
    {H A : Type 0} {P : A → World → Type 0} {Q : LogError → World → Type 0} (l : LogWrite H)
    (m : Writes H A) (w : World)
    → Ensures m (record { log = l; world = w }) (λ a t. P a t.world) (λ e t. Q e t.world)
    → Ensures (within l m) w P Q
unfolding within
Ensures-within {P = P} {Q = Q} l m w h =
    let s : Writer _ = record { log = l; world = w } in
    record { holds = Post-within P Q (m s).0 (m s).1 h.holds }

-- Creating a log ends, whatever the directory holds and whatever fails. When it returns, it counts
-- the records that were asked for, and the stream of the data sections has grown by exactly their
-- bytes, in order, each with the metadata that it was given; after an error the stream has only
-- grown.
pub create_log-Creates :
    (timer_resolution_ns : ℕ) (prefix suffix : Text) (spec : RecordFormatSpec) (data_size count : ℕ)
    (w : World)
    → Ensures
        (create_log timer_resolution_ns prefix suffix spec data_size count)
        w
        (λ info t.
          (info.message_count ≡ count)
          × (metas : List Meta) × (length metas ≡ count)
          × (stream_of t.files ≡ stream_of w.files ++ records spec 0 payload_rng_seed metas))
        (λ e t. Grown (stream_of w.files) t)
unfolding create_log
create_log-Creates timer_resolution_ns prefix suffix spec data_size count w =
    Ensures-bind
      (new-Opened announce timer_resolution_ns prefix suffix _ (format spec) tt w announce-IsQuiet)
      (λ e t x. (x.extra, x.kept))
      λ l t x.
        Ensures-bind
          (Ensures-within l (write_and_drop spec count) t
            (write_and_drop-Created _ spec x.roomy count (record { log = l; world = t }) x.running))
          (λ e u y. (y.0, y.1 ∙ ap (λ (front : List ℕ). front ++ y.0) x.kept))
          λ n u y. Ensures-pure _ u (
            y.counted,
            y.metas,
            y.as_many,
            y.written
                ∙ ap (λ (front : List ℕ). front ++ records spec 0 payload_rng_seed y.metas) x.kept,
          )
