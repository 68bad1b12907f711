-- ===== src/Write/Closing.antt =====
-- tcslog/src/write.rs: letting a log go.
use tcslog.Prelude.{
  ℕ, ◌<◌, ◌≡◌, refl, ap, ◌∙◌, Bool, true, false, Option, none, some, List, ◌==◌, if◌then◌else◌,
}
use tcslog.Exec.{skip, on_error, ◌>>=◌, ◌>>◌}
use tcslog.Exec.Post.{
  Ensures, Ensures-skip, Ensures-bind, Ensures-gets_bind, Ensures-modify_bind, Ensures-weaken,
  Ensures-if,
}
use tcslog.Exec.Partial.{
  Keeps, Keeps-skip, Keeps-on_error, Keeps-bind, Keeps-gets_bind, Keeps-modify_bind, Keeps-state,
  Ensures-Keeps,
}
use tcslog.Fs.{Text, flush}
use tcslog.Format.{Format}
use tcslog.Header.{segment_file_header_len}
use tcslog.Write.{WriteCallbacks, Current, Writer, io, call}
use tcslog.Write.Session.{drop_log}
use tcslog.Write.Steps.{Ensures-io, Ensures-call}
use tcslog.Write.Sound.{stream_of, IsQuiet, IsRunning, Owes, flush-Kept}
use tcslog.Write.Creating.{Closed}
use tcslog.Write.Segments.{closed, Kept-Closed}

module _ {H : Type 0} (cb : WriteCallbacks H) (size : ℕ) (f : Format)
    (roomy : segment_file_header_len < size) (quiet : IsQuiet cb) where
  drop-Closed :
      (left : ℕ) (stream : List ℕ) (s : Writer H)
      → Owes size f left stream s
      → Ensures (drop_log cb) s (λ u t. Closed cb size f roomy left stream t) (λ e t. ⊥)
  unfolding drop_log
  drop-Closed left stream s h =
      Ensures-gets_bind _ _ s (Ensures-modify_bind _ _ s (dropped s.log.current))
    where
      t : Writer H
      t = record s { log = record s.log { current = none } }

      shut : Closed cb size f roomy left stream t
      shut = closed cb size f roomy left stream s h

      dropped :
          (o : Option Current)
          → Ensures
              (elim o [
                | none ↦ skip
                | some file ↦
                    (if file.data_written == 0 then skip else (do
                      on_error (io (flush file.name)) (λ _. skip) (λ _. skip)
                      on_error (call (cb.send file.name)) (λ _. skip) (λ _. skip)))
              ])
              t
              (λ u v. Closed cb size f roomy left stream v)
              (λ e v. ⊥)
      dropped none = Ensures-skip t shut
      dropped (some file) =
          Ensures-if (file.data_written == 0) _ _ t (λ e. Ensures-skip t shut)
            λ some_data.
              Ensures-bind {P = λ u v. Closed cb size f roomy left stream v} {Q = λ e v. ⊥}
                (Ensures-io t (flush-Kept file.name t.world)
                  (λ e w k.
                    Ensures-skip _
                      (Kept-Closed cb size f roomy left stream t t.log.handler w shut k))
                  (λ u w k.
                    Ensures-skip _
                      (Kept-Closed cb size f roomy left stream t t.log.handler w shut k)))
                (λ e v x. absurd x)
                λ u v x.
                  Ensures-call v (quiet.sends file.name v.log.handler v.world)
                    (λ e p k.
                      Ensures-skip _ (Kept-Closed cb size f roomy left stream v p.0 p.1 x k))
                    (λ u p k.
                      Ensures-skip _ (Kept-Closed cb size f roomy left stream v p.0 p.1 x k))

module _ {H : Type 0} (cb : WriteCallbacks H) where
  -- The writer with no file open.
  abbrev pub let_go : Writer H → Writer H
  let_go s = record s { log = record s.log { current = none } }

  -- The writer once a file was flushed and then handed over, whatever came of either.
  abbrev pub handed_over : Text → Writer H → Writer H
  handed_over name s =
      let (r, p) = cb.send name (s.log.handler, (flush name s.world).1) in
      record s { log = record s.log { handler = p.0 }; world = p.1 }

  abbrev pub let_go_file : Text → Bool → Writer H → Writer H
  let_go_file name true s = let_go s
  let_go_file name false s = handed_over name (let_go s)

  -- What letting the log go makes of it: its file, where one holds data, is handed over, and an
  -- empty one is not.
  abbrev pub after_drop : Option Current → Writer H → Writer H
  after_drop none s = let_go s
  after_drop (some file) s = let_go_file file.name (file.data_written == 0) s

  drop_file-Keeps :
      (name : Text) (empty : Bool) (s : Writer H)
      → Keeps
          (if empty then skip else (do
            on_error (io (flush name)) (λ _. skip) (λ _. skip)
            on_error (call (cb.send name)) (λ _. skip) (λ _. skip)))
          (let_go s)
          (λ u t. t ≡ let_go_file name empty s)
          (λ e t. Unit)
  unfolding ◌>>=◌
  drop_file-Keeps name true s = Keeps-skip _ refl
  drop_file-Keeps name false s =
      Keeps-bind {P = λ u v. v ≡ (io (flush name) (let_go s)).1} {Q = λ e v. Unit}
        (Keeps-on_error (Keeps-state (io (flush name)) (let_go s)) (λ e v x. Keeps-skip v x)
          (λ u v x. Keeps-skip v x))
        (λ e v x. tt)
        λ u v x.
          Keeps-on_error (Keeps-state (call (cb.send name)) v)
            (λ e t y. Keeps-skip t (y ∙ ap (λ (k : Writer H). (call (cb.send name) k).1) x))
            (λ a t y. Keeps-skip t (y ∙ ap (λ (k : Writer H). (call (cb.send name) k).1) x))

  drop_log-Keeps :
      (s : Writer H) → Keeps (drop_log cb) s (λ u t. t ≡ after_drop s.log.current s) (λ e t. Unit)
  unfolding drop_log
  drop_log-Keeps s = Keeps-gets_bind _ _ s (Keeps-modify_bind _ _ s (dropped s.log.current))
    where
      dropped :
          (o : Option Current)
          → Keeps
              (elim o [
                | none ↦ skip
                | some file ↦
                    (if file.data_written == 0 then skip else (do
                      on_error (io (flush file.name)) (λ _. skip) (λ _. skip)
                      on_error (call (cb.send file.name)) (λ _. skip) (λ _. skip)))
              ])
              (let_go s)
              (λ u t. t ≡ after_drop o s)
              (λ e t. Unit)
      dropped none = Keeps-skip _ refl
      dropped (some file) = drop_file-Keeps file.name (file.data_written == 0) s

-- Letting a running log go hands its file over and closes it: a file that holds data is flushed and
-- then handed to `send`, which gets the handler and the world as the flush leaves them even if the
-- flush failed; an empty file, or none, is not handed over, and nothing else changes. A failure of
-- either is ignored. No segment file is open from then on, and the data sections of the files hold
-- what they held. The log's segment files must have room for more than a header, and its callbacks
-- return or fail, and leave the files as they are.
pub drop_log-Closed :
    {H : Type 0} (cb : WriteCallbacks H) (size : ℕ) (f : Format) (s : Writer H)
    → segment_file_header_len < size
    → IsQuiet cb
    → IsRunning size f s.log s.world
    → Ensures
        (drop_log cb)
        s
        (λ u t.
          (t ≡ after_drop cb s.log.current s)
          × (t.log.current ≡ none)
          × (stream_of t.world.files ≡ stream_of s.world.files))
        (λ e t. ⊥)
drop_log-Closed cb size f s roomy quiet h =
    Ensures-weaken
      (Ensures-Keeps
        (drop-Closed cb size f roomy quiet s.log.record_bytes_left (stream_of s.world.files) s
          (record { running = h; owed = refl; written = refl }))
        (drop_log-Keeps cb s))
      (λ u t c. (c.1, c.0.shut, c.0.owes.written)) (λ e t x. x.0)
