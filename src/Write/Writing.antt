-- ===== src/Write/Writing.antt =====
-- `write`: a record is appended to the stream whole, or there is an error and nothing is lost.
use tcslog.Prelude.{
  ℕ, ◌+◌, ◌-◌, ◌<◌, ◌≡◌, refl, sym, ap, subst, ◌∙◌, arith, Option, none, some, List, ◌++◌, length,
  append_assoc, ltb, u32_max,
}
use tcslog.Error.{LogError, payload_too_large, fixed_len_mismatch}
use tcslog.Exec.{pure, skip, ◌>>◌}
use tcslog.Exec.Post.{
  Ensures, Ensures-pure, Ensures-raise, Ensures-skip, Ensures-bind, Ensures-gets_bind,
  Ensures-modify_bind, Ensures-if,
}
use tcslog.Fs.{Text, World}
use tcslog.Format.{Format, Meta, data_header_len}
use tcslog.Header.{segment_file_header_len}
use tcslog.Write.{WriteCallbacks, Current, Writer, call}
use tcslog.Write.Record.{wrong_length, write_bytes_from_header, complete, write_record, write}
use tcslog.Write.Steps.{Ensures-call_last}
use tcslog.Write.Sound.{stream_of, Front, Kept, IsQuiet, IsRunning, Owes, Fails}
use tcslog.Write.Segments.{owe}
use tcslog.Write.Appending.{roll_if_full-Ready, write_bytes-Appends, Owes-Fails, Fails-shift}
use tcslog.Write.Building.{
  header_bytes, encoded, Written, ensure_session-Owes, build_data_header-Built,
}

module _ {H : Type 0} (cb : WriteCallbacks H) (size : ℕ) (f : Format)
    (roomy : segment_file_header_len < size) (quiet : IsQuiet cb) where
  finished :
      (left total : ℕ) (stream head msg : List ℕ) (meta : Meta) (t : Writer H)
      → total - left - length msg ≡ 0
      → Owes size f (total - left - length msg) ((stream ++ head) ++ msg) t
      → Owes size f 0
          (stream ++ (head ++ msg))
          (record t { log = record t.log { last_meta = meta } })
  finished left total stream head msg meta t none_left h = record {
    running = record {
      sized = h.running.sized;
      formatted = h.running.formatted;
      ticking = h.running.ticking;
      paired = h.running.paired;
      front = h.running.front;
    };
    owed = h.owed ∙ none_left;
    written = h.written ∙ append_assoc stream head msg;
  }

  complete-Written :
      (stream msg : List ℕ) (total : ℕ) (s : Writer H)
      → Written size f stream msg total s
      → Ensures (complete cb >> pure total) s (Written size f stream msg) (Fails size f stream)
  unfolding complete
  complete-Written stream msg total s h =
      Ensures-bind {P = λ u t. Written size f stream msg total t} {Q = Fails size f stream}
        (Ensures-gets_bind _ _ s (completed s.log.current)) (λ e t x. x)
        λ u t x.
          Ensures-pure total t
            (record { owes = x.owes; has_meta = x.has_meta; counted = x.counted })
    where
      after :
          (h' : H) (w : World)
          → Kept s.world w
          → Owes size f 0
              (stream ++ encoded s.log.last_meta msg)
              (record s { log = record s.log { handler = h' }; world = w })
      after h' w k = record {
        running = record {
          sized = h.owes.running.sized;
          formatted = h.owes.running.formatted;
          ticking = h.owes.running.ticking;
          paired = omega (arith, h.owes.running.paired, k.later);
          front =
              subst (λ (fs : List (Text × List ℕ)). Front size s.log.current fs) (sym k.files_same)
                h.owes.running.front;
        };
        owed = h.owes.owed;
        written = ap stream_of k.files_same ∙ h.owes.written;
      }

      completed :
          (o : Option Current)
          → Ensures
              (elim o [ none ↦ skip | some file ↦ call (cb.record_complete file.name) ])
              s
              (λ u t. Written size f stream msg total t)
              (Fails size f stream)
      completed none = Ensures-skip s h
      completed (some file) =
          Ensures-call_last s (quiet.completes file.name s.log.handler s.world)
            (λ e p k.
              Fails-shift cb size f roomy quiet stream (encoded s.log.last_meta msg) e _
                (Owes-Fails cb size f roomy quiet 0 _ e _ (after p.0 p.1 k)))
            (λ u p k. record { owes = after p.0 p.1 k; has_meta = h.has_meta; counted = h.counted })

  write_record-Written :
      (left total : ℕ) (stream msg : List ℕ) (s : Writer H)
      → total ≡ data_header_len f + length msg
      → Owes size f left stream s
      → Ensures (write_record cb msg total) s (Written size f stream msg) (Fails size f stream)
  unfolding write_record write_bytes_from_header
  write_record-Written left total stream msg s counted h =
      Ensures-bind (ensure_session-Owes cb size f roomy quiet left stream s h) (λ e t x. x)
        λ u t x.
          Ensures-bind (roll_if_full-Ready cb size f roomy quiet x.0 stream t x.1) (λ e v y. y)
            λ u v y.
              Ensures-bind
                (build_data_header-Built cb size f roomy quiet x.0 (length msg) stream v y.owes)
                (λ e v' z. z)
                λ p v' z.
                  let head : List ℕ = header_bytes p.1 (length msg) in
                  Ensures-modify_bind _ _ v' (
                    Ensures-bind {P = λ u t. Owes size f (total - length head) (stream ++ head) t}
                      {Q = Fails size f stream}
                      (Ensures-gets_bind _ _ _ (
                        rw z.bytes (
                          write_bytes-Appends cb size f roomy quiet total stream head _
                            (owe cb size f roomy quiet z.left total stream v' z.owes)
                            (omega (arith, z.len)))))
                      (λ e t' o. o)
                      λ u t' o.
                        Ensures-bind
                          (write_bytes-Appends cb size f roomy quiet (total - length head)
                            (stream ++ head) msg t' o (omega (arith, z.len)))
                          (λ e t'' q. Fails-shift cb size f roomy quiet stream head e t'' q)
                          λ u t'' q. Ensures-modify_bind _ _ t'' (
                            complete-Written stream msg total _ (record {
                              owes =
                                  finished (length head) total stream head msg p.1 t''
                                    (omega (arith, z.len)) q;
                              has_meta = z.has_meta;
                              counted = counted;
                            })))

  write-Accepts :
      (left : ℕ) (stream msg : List ℕ) (s : Writer H)
      → Owes size f left stream s
      → Ensures (write cb msg) s (Written size f stream msg) (Fails size f stream)
  unfolding write
  write-Accepts left stream msg s h =
      let total : ℕ = data_header_len s.log.format + length msg in
      let refused : (e : LogError) → Fails size f stream e s =
        λ e. Owes-Fails cb size f roomy quiet left stream e s h in
      Ensures-gets_bind _ _ s (
        Ensures-if (wrong_length s.log.format (length msg)) _ _ s
          (λ wrong. Ensures-raise _ s (refused fixed_len_mismatch))
          λ right.
            Ensures-if (ltb u32_max (length msg)) _ _ s
              (λ long. Ensures-raise _ s (refused payload_too_large))
              λ short.
                Ensures-if (ltb u32_max total) _ _ s
                  (λ long. Ensures-raise _ s (refused payload_too_large))
                  λ fits.
                    write_record-Written left total stream msg s
                      (ap (λ (g : Format). data_header_len g + length msg) h.running.formatted) h)

-- A write to a running log ends, whatever the record and whatever fails. When it returns, the data
-- sections of the segment files, read oldest first, hold what they held before and then the
-- record, its data header and its payload, with the metadata that the log reports from then on; it
-- has returned the record's length, and the log owes no byte of it. When it is an error, they hold
-- what they held before and perhaps more. The log runs on either way. Its segment files must have
-- room for more than a header, and its callbacks return or fail, and leave the files as they are.
pub write-Written :
    {H : Type 0} (cb : WriteCallbacks H) (size : ℕ) (f : Format) (msg : List ℕ) (s : Writer H)
    → segment_file_header_len < size
    → IsQuiet cb
    → IsRunning size f s.log s.world
    → Ensures
        (write cb msg)
        s
        (Written size f (stream_of s.world.files) msg)
        (Fails size f (stream_of s.world.files))
write-Written cb size f msg s roomy quiet h =
    write-Accepts cb size f roomy quiet s.log.record_bytes_left (stream_of s.world.files) msg s
      (record { running = h; owed = refl; written = refl })
