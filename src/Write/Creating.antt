-- ===== src/Write/Creating.antt =====
-- A segment file that is created is ready for data.
use tcslog.Prelude.{
  ℕ, ◌≤◌, ◌<◌, ◌≡◌, refl, sym, ap, subst, ◌∙◌, arith, Option, none, some, List, [], ◌∷◌, ◌++◌, Bool,
  length, take, drop, append-nil, if◌then◌else◌, drop_all,
}
use tcslog.Exec.Post.{Ensures, Ensures-bind, Ensures-gets_bind, Ensures-modify_bind, Ensures-modify}
use tcslog.Fs.{Text, World, append_to}
use tcslog.SegId.{SegId}
use tcslog.Format.{Format}
use tcslog.Header.{segment_file_header_len, to_bytes}
use tcslog.Header.RoundTrip.{length-to_bytes}
use tcslog.Write.{WriteCallbacks, Current, LogWrite, Writer, room}
use tcslog.Write.Files.{header_for, create_segment}
use tcslog.Write.Steps.{Ensures-io_bind}
use tcslog.Write.Retrying.{Adjusted}
use tcslog.Write.Naming.{create_unique_file-Named}
use tcslog.Write.Sound.{stream_of, Front, IsRunning, Owes, Fails, append_to-front, write_all-Wrote}

module _ {H : Type 0} (cb : WriteCallbacks H) (size : ℕ) (f : Format)
    (roomy : segment_file_header_len < size) where
  -- A writer that owes, with no file open, and one with a file open that has room.
  pub record Closed (left : ℕ) (stream : List ℕ) (s : Writer H) : Type 0 where
    pub owes : Owes size f left stream s
    pub shut : s.log.current ≡ none

  pub record Ready (left : ℕ) (stream : List ℕ) (s : Writer H) : Type 0 where
    pub owes : Owes size f left stream s
    pub free : 0 < room s.log

  -- What holds of the log of a writer that is closed.
  record Settled (left mono : ℕ) (l : LogWrite H) : Type 0 where
    sized : l.seg_size_max ≡ size
    formatted : l.format ≡ f
    ticking : 0 < l.timer_resolution
    paired : l.clock.mono ≤ mono
    owed : l.record_bytes_left ≡ left
    shut : l.current ≡ none

  settled :
      (left : ℕ) (stream : List ℕ) (s t : Writer H)
      → Closed left stream s
      → Adjusted s.log s.world.mono t
      → Settled left t.world.mono t.log
  settled left stream s t h a =
      subst (λ (l : LogWrite H). Settled left t.world.mono l) a.same
        (record {
          sized = h.owes.running.sized;
          formatted = h.owes.running.formatted;
          ticking = a.positive;
          paired = omega (arith, h.owes.running.paired, a.later);
          owed = h.owes.owed;
          shut = h.shut;
        })

  -- A log with no file open is in order whatever the files are.
  shut-IsRunning :
      (left : ℕ) (l : LogWrite H) (w : World) → Settled left w.mono l → IsRunning size f l w
  shut-IsRunning left l w h = record {
    sized = h.sized;
    formatted = h.formatted;
    ticking = h.ticking;
    paired = h.paired;
    front = subst (λ (c : Option Current). Front size c w.files) (sym h.shut) tt;
  }

  in_session :
      (left now later : ℕ) (l : LogWrite H) (id : SegId)
      → Settled left now l
      → now ≤ later
      → Settled left later (record l { session_id = id })
  in_session left now later l id h le = record {
    sized = h.sized;
    formatted = h.formatted;
    ticking = h.ticking;
    paired = omega (arith, h.paired);
    owed = h.owed;
    shut = h.shut;
  }

  -- The state of a file whose header has been written.
  headed :
      (left : ℕ) (stream bytes : List ℕ) (id : SegId) (name : Text) (l : LogWrite H) (w : World)
      (files : List (Text × List ℕ))
      → Settled left w.mono l
      → stream_of files ≡ stream
      → length bytes ≡ segment_file_header_len
      → w.files ≡ (name, bytes) ∷ files
      → Ready left stream (record {
        log = record l { current = some (record { id = id; name = name; data_written = 0 }) };
        world = w;
      })
  unfolding room
  headed left stream bytes id name l w files h written len now = record {
    owes = record {
      running = record {
        sized = h.sized;
        formatted = h.formatted;
        ticking = h.ticking;
        paired = h.paired;
        front =
            subst (Front size (some (record { id = id; name = name; data_written = 0 }))) (sym now)
              (refl, len, omega arith);
      };
      owed = h.owed;
      written =
          ap stream_of now
          ∙ cc (written, drop_all segment_file_header_len bytes (omega arith), append-nil stream);
    };
    free = omega (arith, h.sized);
  }

  pub create_segment-Ready :
      (opens : Bool) (left : ℕ) (stream : List ℕ) (s : Writer H)
      → Closed left stream s
      → Ensures (create_segment cb opens) s (λ u t. Ready left stream t) (Fails size f stream)
  unfolding create_segment
  create_segment-Ready opens left stream s h =
      Ensures-bind (create_unique_file-Named cb s h.owes.running.ticking h.owes.running.paired)
        (λ e t x. record {
          running = shut-IsRunning left t.log t.world (settled left stream s t h x.changed);
          extra = [];
          kept = ap stream_of x.files_same ∙ h.owes.written ∙ sym (append-nil stream);
        })
        λ r t x.
          let l : LogWrite H = record t.log {
            session_id = (if opens then r.0 else t.log.session_id);
          } in
          let before : Settled left t.world.mono t.log = settled left stream s t h x.changed in
          Ensures-modify_bind _ _ t (
            Ensures-gets_bind _ _ _ (
              Ensures-io_bind _ (write_all-Wrote r.1 (to_bytes (header_for cb r.0 l)) t.world)
                (λ e w y. record {
                  running = shut-IsRunning left l w (
                      in_session left t.world.mono w.mono t.log _ before
                        (omega (arith, y.mono_same)));
                  extra =
                      drop segment_file_header_len (take y.count (to_bytes (header_for cb r.0 l)));
                  kept =
                      ap stream_of (
                        y.files_now
                        ∙ ap (append_to r.1 _) x.now_there
                        ∙ append_to-front r.1 [] _ s.world.files)
                      ∙ ap
                          (λ (b : List ℕ).
                            b
                            ++ drop segment_file_header_len
                                (take y.count (to_bytes (header_for cb r.0 l))))
                          h.owes.written;
                })
                (λ a w y. Ensures-modify _ _ (
                  headed left stream (to_bytes (header_for cb r.0 l)) r.0 r.1 l w s.world.files
                    (in_session left t.world.mono w.mono t.log _ before
                      (omega (arith, y.mono_same)))
                    h.owes.written (length-to_bytes (header_for cb r.0 l))
                    (y.files_now
                      ∙ ap (append_to r.1 _) x.now_there
                      ∙ append_to-front r.1 [] _ s.world.files)))))
