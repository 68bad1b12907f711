-- ===== src/Write/Segments.antt =====
-- Creating, closing and giving up segment files keeps the invariant of a writer.
use tcslog.Prelude.{
  ℕ, ◌<◌, refl, sym, ap, subst, ◌∙◌, arith, Option, none, some, List, [], true, false, append-nil,
}
use tcslog.Error.{LogError}
use tcslog.Exec.{skip, ◌>>◌}
use tcslog.Exec.Post.{
  Ensures, Ensures-skip, Ensures-bind, Ensures-on_error, Ensures-gets_bind, Ensures-modify_bind,
}
use tcslog.Fs.{World, flush}
use tcslog.Format.{Format}
use tcslog.Header.{segment_file_header_len}
use tcslog.Write.{WriteCallbacks, Current, Writer, io, call}
use tcslog.Write.Files.{start_session, close_and_send, roll, abandon_after_error}
use tcslog.SeqId
use tcslog.Write.Steps.{Ensures-io_bind, Ensures-call_last}
use tcslog.Write.Sound.{stream_of, Front, Kept, IsQuiet, Owes, Fails, flush-Kept}
use tcslog.Write.Creating.{Closed, Ready, create_segment-Ready}

module _ {H : Type 0} (cb : WriteCallbacks H) (size : ℕ) (f : Format)
    (roomy : segment_file_header_len < size) where
  -- Time has passed, and the handler may keep something else.
  pub Kept-Closed :
      (left : ℕ) (stream : List ℕ) (s : Writer H) (h : H) (w : World)
      → Closed cb size f roomy left stream s
      → Kept s.world w
      → Closed cb size f roomy left stream
          (record s { log = record s.log { handler = h }; world = w })
  Kept-Closed left stream s h w c k = record {
    owes = record {
      running = record {
        sized = c.owes.running.sized;
        formatted = c.owes.running.formatted;
        ticking = c.owes.running.ticking;
        paired = omega (arith, c.owes.running.paired, k.later);
        front = subst (λ (o : Option Current). Front size o w.files) (sym c.shut) tt;
      };
      owed = c.owes.owed;
      written = ap stream_of k.files_same ∙ c.owes.written;
    };
    shut = c.shut;
  }

  pub closed :
      (left : ℕ) (stream : List ℕ) (s : Writer H)
      → Owes size f left stream s
      → Closed cb size f roomy left stream (record s { log = record s.log { current = none } })
  closed left stream s h = record {
    owes = record {
      running = record {
        sized = h.running.sized;
        formatted = h.running.formatted;
        ticking = h.running.ticking;
        paired = h.running.paired;
        front = tt;
      };
      owed = h.owed;
      written = h.written;
    };
    shut = refl;
  }

  module _ (quiet : IsQuiet cb) where
    pub close_and_send-Closed :
        (left : ℕ) (stream : List ℕ) (s : Writer H)
        → Closed cb size f roomy left stream (record s { log = record s.log { current = none } })
        → Ensures
            (close_and_send cb)
            s
            (λ u t. Closed cb size f roomy left stream t)
            (λ e t. Closed cb size f roomy left stream t)
    unfolding close_and_send
    close_and_send-Closed left stream s h =
        Ensures-gets_bind _ _ s (Ensures-modify_bind _ _ s (handed_over s.log.current))
      where
        t : Writer H
        t = record s { log = record s.log { current = none } }

        handed_over :
            (o : Option Current)
            → Ensures
                (elim o [
                  | none ↦ skip
                  | some file ↦ (do io (flush file.name); call (cb.send file.name))
                ])
                t
                (λ u t. Closed cb size f roomy left stream t)
                (λ e t. Closed cb size f roomy left stream t)
        handed_over none = Ensures-skip t h
        handed_over (some file) =
            Ensures-io_bind t (flush-Kept file.name t.world)
              (λ e w k. Kept-Closed left stream t t.log.handler w h k)
              λ a w k.
                let c : Closed cb size f roomy left stream (record t { world = w }) =
                  Kept-Closed left stream t t.log.handler w h k in
                Ensures-call_last _ (quiet.sends file.name t.log.handler w)
                  (λ e p q. Kept-Closed left stream (record t { world = w }) p.0 p.1 c q)
                  (λ u p q. Kept-Closed left stream (record t { world = w }) p.0 p.1 c q)

    pub Closed-Fails :
        (left : ℕ) (stream : List ℕ) (e : LogError) (s : Writer H)
        → Closed cb size f roomy left stream s
        → Fails size f stream e s
    Closed-Fails left stream e s c = record {
      running = c.owes.running;
      extra = [];
      kept = c.owes.written ∙ sym (append-nil stream);
    }

    next_sequence :
        (left : ℕ) (stream : List ℕ) (s : Writer H)
        → Closed cb size f roomy left stream s
        → Closed cb size f roomy left stream
            (record s { log = record s.log { sequence = SeqId.next s.log.sequence } })
    next_sequence left stream s c = record {
      owes = record {
        running = record {
          sized = c.owes.running.sized;
          formatted = c.owes.running.formatted;
          ticking = c.owes.running.ticking;
          paired = c.owes.running.paired;
          front = c.owes.running.front;
        };
        owed = c.owes.owed;
        written = c.owes.written;
      };
      shut = c.shut;
    }

    pub roll-Ready :
        (left : ℕ) (stream : List ℕ) (s : Writer H)
        → Owes size f left stream s
        → Ensures (roll cb) s (λ u t. Ready cb size f roomy left stream t) (Fails size f stream)
    unfolding roll
    roll-Ready left stream s h =
        Ensures-bind (close_and_send-Closed left stream s (closed left stream s h))
          (Closed-Fails left stream)
          λ u t c. Ensures-modify_bind _ _ t (
            create_segment-Ready cb size f roomy false left stream _
              (next_sequence left stream t c))

    -- Whatever the record lacked, a writer that has given it up owes nothing.
    given_up :
        (left : ℕ) (stream : List ℕ) (s : Writer H)
        → Closed cb size f roomy left stream (record s { log = record s.log { current = none } })
        → Closed cb size f roomy 0 stream
            (record s { log = record s.log { record_bytes_left = 0; current = none } })
    given_up left stream s c = record {
      owes = record {
        running = record {
          sized = c.owes.running.sized;
          formatted = c.owes.running.formatted;
          ticking = c.owes.running.ticking;
          paired = c.owes.running.paired;
          front = tt;
        };
        owed = refl;
        written = c.owes.written;
      };
      shut = refl;
    }

    pub abandon-Ready :
        (left : ℕ) (stream : List ℕ) (s : Writer H)
        → Closed cb size f roomy left stream (record s { log = record s.log { current = none } })
        → Ensures
            (abandon_after_error cb)
            s
            (λ u t. Ready cb size f roomy 0 stream t)
            (Fails size f stream)
    unfolding abandon_after_error
    abandon-Ready left stream s h = Ensures-modify_bind _ _ s (
        Ensures-bind {P = λ u t. Closed cb size f roomy 0 stream t}
          {Q = λ e t. Closed cb size f roomy 0 stream t}
          (Ensures-on_error (close_and_send-Closed 0 stream _ (given_up left stream s h))
            (λ e t c. Ensures-skip t c) (λ u t c. Ensures-skip t c))
          (Closed-Fails 0 stream)
          λ u t c.
            Ensures-modify_bind _ _ t
              (create_segment-Ready cb size f roomy false 0 stream _ (next_sequence 0 stream t c)))

    -- The debt of the next record.
    pub owe :
        (left left' : ℕ) (stream : List ℕ) (s : Writer H)
        → Owes size f left stream s
        → Owes size f left' stream (record s { log = record s.log { record_bytes_left = left' } })
    owe left left' stream s h = record {
      running = record {
        sized = h.running.sized;
        formatted = h.running.formatted;
        ticking = h.running.ticking;
        paired = h.running.paired;
        front = h.running.front;
      };
      owed = refl;
      written = h.written;
    }

    pub start_session-Ready :
        (left : ℕ) (stream : List ℕ) (s : Writer H)
        → Closed cb size f roomy left stream s
        → Ensures
            (start_session cb)
            s
            (λ u t. Ready cb size f roomy 0 stream t)
            (Fails size f stream)
    unfolding start_session
    start_session-Ready left stream s c = Ensures-modify_bind _ _ s (
        create_segment-Ready cb size f roomy true 0 stream _ (record {
          owes = record {
            running = record {
              sized = c.owes.running.sized;
              formatted = c.owes.running.formatted;
              ticking = c.owes.running.ticking;
              paired = c.owes.running.paired;
              front = c.owes.running.front;
            };
            owed = refl;
            written = c.owes.written;
          };
          shut = c.shut;
        }))
