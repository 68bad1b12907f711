-- ===== src/Write/Opening.antt =====
-- Opening a log for writing establishes the invariant of a writer; flushing it, clearing it and
-- letting it go keep it.
use tcslog.Prelude.{
  ℕ, ◌<◌, ◌≡◌, refl, sym, ap, subst, ◌∙◌, arith, Option, none, some, List, [], ◌∷◌, ◌++◌,
  append-nil, leb, ◌==◌, u32_max, saturating_add,
}
use tcslog.Error.{Result, ok, err, stuck, LogError}
use tcslog.Exec.{lift}
use tcslog.Exec.Post.{
  Ensures, Ensures-pure, Ensures-raise, Ensures-skip, Ensures-bind, Ensures-gets_bind,
  Ensures-weaken, Ensures-if, Ensures-modify, Post,
}
use tcslog.Fs.{Text, World}
use tcslog.SegId.{SegId}
use tcslog.Format.{Format, data_header_len}
use tcslog.Header.{segment_file_header_len}
use tcslog.Names.{build_name, check_log_location}
use tcslog.Clock.{Clock}
use tcslog.Write.{WriteCallbacks, Current, LogWrite, Writer, Writes, call, room}
use tcslog.Write.Session.{
  for_each, for_each_segment_file, send_existing, seed_clock, open_session, prepare, returned,
  run_on, last, is_fixed_zero, flush_log, drop_log,
}
use tcslog.Write.Session
use tcslog.Write.Steps.{Ensures-io_bind, Ensures-call_last}
use tcslog.Write.Sound.{stream_of, Front, Kept, IsQuiet, IsRunning, Fails}
use tcslog.Write.Creating.{Closed, Ready}
use tcslog.Write.Segments.{Kept-Closed, Closed-Fails, start_session-Ready}
use tcslog.Write.Scanning.{
  Kept-refl, Kept-trans, Paired, advance_past-Paired, new_clock-Paired, scan_segment_ids-Kept,
}

module _ {H : Type 0} (cb : WriteCallbacks H) (size : ℕ) (f : Format)
    (roomy : segment_file_header_len < size) (quiet : IsQuiet cb) where
  abbrev Shut : ℕ → List ℕ → Writer H → Type 0
  Shut left stream s = Closed cb size f roomy left stream s

  send_each-Closed :
      (left : ℕ) (stream : List ℕ) (ids : List SegId) (s : Writer H)
      → Shut left stream s
      → Ensures
          (for_each cb (λ name. call (cb.send name)) ids)
          s
          (λ u t. Shut left stream t)
          (λ e t. Shut left stream t)
  unfolding for_each
  send_each-Closed left stream [] s h = Ensures-skip s h
  send_each-Closed left stream (id ∷ rest) s h =
      let name : Text = build_name s.log.prefix id s.log.suffix in
      Ensures-gets_bind _ _ s (
        Ensures-bind
          (Ensures-call_last {P' = λ u t. Shut left stream t} {Q' = λ e t. Shut left stream t} s
            (quiet.sends name s.log.handler s.world)
            (λ e p k. Kept-Closed cb size f roomy left stream s p.0 p.1 h k)
            (λ u p k. Kept-Closed cb size f roomy left stream s p.0 p.1 h k))
          (λ e t x. x) λ u t x. send_each-Closed left stream rest t x)

  send_existing-Closed :
      (left : ℕ) (stream : List ℕ) (s : Writer H)
      → Shut left stream s
      → Ensures (send_existing cb) s (λ highest t. Shut left stream t) (λ e t. Shut left stream t)
  unfolding send_existing for_each_segment_file
  send_existing-Closed left stream s h = Ensures-gets_bind _ _ s (
      Ensures-gets_bind _ _ s (
        Ensures-io_bind s (scan_segment_ids-Kept s.log.prefix s.log.suffix s.world)
          (λ e w k. Kept-Closed cb size f roomy left stream s s.log.handler w h k)
          λ ids w k.
            Ensures-bind
              (send_each-Closed left stream ids _
                (Kept-Closed cb size f roomy left stream s s.log.handler w h k))
              (λ e t x. x) λ u t x. Ensures-pure (last ids) t x))

  seeded :
      (left : ℕ) (stream : List ℕ) (s : Writer H) (c : Clock) (w : World)
      → Shut left stream s
      → Paired s.world c w
      → Shut left stream (record s { log = record s.log { clock = c }; world = w })
  seeded left stream s c w h p = record {
    owes = record {
      running = record {
        sized = h.owes.running.sized;
        formatted = h.owes.running.formatted;
        ticking = h.owes.running.ticking;
        paired = p.paired;
        front = subst (λ (o : Option Current). Front size o w.files) (sym h.shut) tt;
      };
      owed = h.owes.owed;
      written = ap stream_of p.kept.files_same ∙ h.owes.written;
    };
    shut = h.shut;
  }

  seed_clock-Closed :
      (left : ℕ) (stream : List ℕ) (highest : Option SegId) (s : Writer H)
      → Shut left stream s
      → Ensures (seed_clock cb highest) s (λ u t. Shut left stream t) (λ e t. Shut left stream t)
  unfolding seed_clock
  seed_clock-Closed left stream none s h = Ensures-skip s h
  seed_clock-Closed left stream (some highest) s h = Ensures-gets_bind _ _ s (
      Ensures-io_bind s (advance_past-Paired highest s.log.clock s.world h.owes.running.paired)
        (λ e w k. Kept-Closed cb size f roomy left stream s s.log.handler w h k)
        (λ c w p. Ensures-modify _ _ (seeded left stream s c w h p)))

  open_session-Ready :
      (left : ℕ) (stream : List ℕ) (s : Writer H)
      → Shut left stream s
      → Ensures (open_session cb) s (λ u t. Ready cb size f roomy 0 stream t) (Fails size f stream)
  unfolding open_session
  open_session-Ready left stream s h =
      Ensures-bind (send_existing-Closed left stream s h)
        (λ e t x. Closed-Fails cb size f roomy quiet left stream e t x)
        λ highest t x.
          Ensures-bind (seed_clock-Closed left stream highest t x)
            (λ e v y. Closed-Fails cb size f roomy quiet left stream e v y)
            λ u v y. start_session-Ready cb size f roomy quiet left stream v y

-- A step of a writer, run for a caller that holds only the world.
Ensures-run_on :
    {H : Type 0} {P : Unit {0} → Writer H → Type 0} {Q : LogError → Writer H → Type 0}
    (l : LogWrite H) (m : Writes H (Unit {0})) (w : World)
    → Ensures m (record { log = l; world = w }) P Q
    → Ensures
        (run_on l m)
        w
        (λ l' t. P tt (record { log = l'; world = t }))
        (λ e t. (l' : LogWrite H) × Q e (record { log = l'; world = t }))
Ensures-run_on {P = P} {Q = Q} l m w h =
    let s : Writer _ = record { log = l; world = w } in
    record { holds = run (m s).0 (m s).1 h.holds }
  where
    run :
        (r : Result (Unit {0})) (s : Writer _)
        → Post r s P Q
        → Post
            (returned r s.log)
            s.world
            (λ l' t. P tt (record { log = l'; world = t }))
            (λ e t. (l' : LogWrite _) × Q e (record { log = l'; world = t }))
    run (ok u) s h = h
    run (err e) s h = (s.log, h)
    run stuck s h = h

-- The checks of a log's location change nothing.
check_log_location-Kept :
    (prefix suffix : Text) (v w : World)
    → Ensures (lift (check_log_location prefix suffix v)) w (λ u t. Kept w t) (λ e t. Kept w t)
unfolding check_log_location lift
check_log_location-Kept prefix suffix v w = record { holds = ground arith }

-- A writer that `prepare` has built: nothing is open, and a segment file has room for data.
record Prepared {H : Type 0} (size : ℕ) (f : Format) (w : World) (l : LogWrite H) (t : World)
    : Type 0 where
  roomy : segment_file_header_len < size
  running : IsRunning size f l t
  shut : l.current ≡ none
  owed : l.record_bytes_left ≡ 0
  kept : Kept w t

prepare-Prepared :
    {H : Type 0} (resolution : ℕ) (prefix suffix : Text) (size : ℕ) (f : Format) (h : H) (w : World)
    → Ensures (prepare resolution prefix suffix size f h) w (Prepared size f w) (λ e t. Kept w t)
unfolding prepare
prepare-Prepared resolution prefix suffix size f h w =
    Ensures-if (resolution == 0) _ _ w (λ e. Ensures-raise _ w (Kept-refl w))
      λ ticking.
        Ensures-if (leb size (saturating_add u32_max segment_file_header_len (data_header_len f))) _
          _ w (λ e. Ensures-raise _ w (Kept-refl w))
          λ roomy.
            Ensures-if (is_fixed_zero f) _ _ w (λ e. Ensures-raise _ w (Kept-refl w))
              λ usable.
                Ensures-bind (new_clock-Paired w) (λ e t k. k)
                  λ c t p. Ensures-gets_bind _ _ t (
                    Ensures-bind (check_log_location-Kept prefix suffix t t)
                      (λ e v k. Kept-trans p.kept k)
                      λ u v k. Ensures-pure _ v (record {
                        roomy = ground (arith, roomy);
                        running = record {
                          sized = refl;
                          formatted = refl;
                          ticking = ground (arith, ticking);
                          paired = omega (arith, p.paired, k.later);
                          front = tt;
                        };
                        shut = refl;
                        owed = refl;
                        kept = Kept-trans p.kept k;
                      }))

-- What opening a log hands over.
pub record Opened {H : Type 0} (size : ℕ) (f : Format) (w : World) (l : LogWrite H) (t : World)
    : Type 0 where
  pub roomy : segment_file_header_len < size
  pub running : IsRunning size f l t
  pub owed : l.record_bytes_left ≡ 0
  pub free : 0 < room l
  pub kept : stream_of t.files ≡ stream_of w.files

pub record NotOpened (w : World) (e : LogError) (t : World) : Type 0 where
  pub extra : List ℕ
  pub kept : stream_of t.files ≡ stream_of w.files ++ extra

-- Opening a log for writing ends, whatever the directory holds and whatever fails. The writer that
-- is returned runs, with a segment file open that has room for data, and owes nothing; the data
-- sections of the files hold what they held before, and so they do, perhaps with more at the end,
-- after an error. The callbacks return or fail, and leave the files as they are.
pub new-Opened :
    {H : Type 0} (cb : WriteCallbacks H) (resolution : ℕ) (prefix suffix : Text) (size : ℕ)
    (f : Format) (h : H) (w : World)
    → IsQuiet cb
    → Ensures (Session.new cb resolution prefix suffix size f h) w (Opened size f w) (NotOpened w)
unfolding Session.new
new-Opened cb resolution prefix suffix size f h w quiet =
    Ensures-bind (prepare-Prepared resolution prefix suffix size f h w)
      (λ e t k. record { extra = []; kept = ap stream_of k.files_same ∙ sym (append-nil _) })
      λ l t p.
        Ensures-weaken
          (Ensures-run_on l (open_session cb) t (
            open_session-Ready cb size f p.roomy quiet 0 (stream_of w.files) _ (record {
              owes = record {
                running = p.running;
                owed = p.owed;
                written = ap stream_of p.kept.files_same;
              };
              shut = p.shut;
            })))
          (λ l' v x. record {
            roomy = p.roomy;
            running = x.owes.running;
            owed = x.owes.owed;
            free = x.free;
            kept = x.owes.written;
          })
          (λ e v x. record { extra = x.1.extra; kept = x.1.kept })
