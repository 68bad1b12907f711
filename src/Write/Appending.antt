-- ===== src/Write/Appending.antt =====
-- Appending bytes across segment files: the loop ends, and the stream has grown by those bytes.
use tcslog.Prelude.{
  ℕ, zero, suc, ◌+◌, ◌-◌, ◌≤◌, ◌<◌, ◌≡◌, refl, sym, ap, subst, ◌∙◌, arith, Option, none, some, List,
  [], ◌∷◌, ◌++◌, length, take, drop, append-nil, append_assoc, length-append, length-take,
  length-drop, take-append-drop, drop-append, ◌==◌, min,
}
use tcslog.Error.{LogError}
use tcslog.Exec.Post.{
  Ensures, Ensures-raise, Ensures-skip, Ensures-bind, Ensures-gets_bind, Ensures-modify_bind,
  Ensures-weaken, Ensures-if,
}
use tcslog.Fs.{Text, World, append_to}
use tcslog.Format.{Format}
use tcslog.Header.{segment_file_header_len}
use tcslog.Write.{WriteCallbacks, Current, LogWrite, Writer, Writes, room}
use tcslog.Write.Record.{note_written, roll_if_full, write_chunk, write_loop, write_bytes}
use tcslog.Write.Steps.{Ensures-io}
use tcslog.Write.Sound.{stream_of, Front, IsQuiet, Owes, Fails, append_to-front, write_all-Wrote}
use tcslog.Write.Creating.{Closed, Ready}
use tcslog.Write.Segments.{roll-Ready, abandon-Ready}

Front-files :
    (size : ℕ) (file : Current) (files : List (Text × List ℕ))
    → Front size (some file) files
    → (content : List ℕ) × (rest : List (Text × List ℕ)) × (files ≡ (file.name, content) ∷ rest)
      × (length content ≡ segment_file_header_len + file.data_written)
      × (file.data_written + segment_file_header_len ≤ size)
Front-files size file [] h = absurd h
Front-files size file ((name, content) ∷ rest) h = (content, rest, cc (h.0), h.1, h.2)

module _ {H : Type 0} (cb : WriteCallbacks H) (size : ℕ) (f : Format)
    (roomy : segment_file_header_len < size) (quiet : IsQuiet cb) where
  pub roll_if_full-Ready :
      (left : ℕ) (stream : List ℕ) (s : Writer H)
      → Owes size f left stream s
      → Ensures
          (roll_if_full cb)
          s
          (λ u t. Ready cb size f roomy left stream t)
          (Fails size f stream)
  unfolding roll_if_full
  roll_if_full-Ready left stream s h = Ensures-gets_bind _ _ s (
      Ensures-if (room s.log == 0) _ _ s (λ full. roll-Ready cb size f roomy quiet left stream s h)
        (λ free. Ensures-skip s (record { owes = h; free = ground (arith, free) })))

  pub Fails-shift :
      (stream bytes : List ℕ) (e : LogError) (s : Writer H)
      → Fails size f (stream ++ bytes) e s
      → Fails size f stream e s
  Fails-shift stream bytes e s h = record {
    running = h.running;
    extra = bytes ++ h.extra;
    kept = h.kept ∙ append_assoc stream bytes h.extra;
  }

  pub Owes-Fails :
      (left : ℕ) (stream : List ℕ) (e : LogError) (s : Writer H)
      → Owes size f left stream s
      → Fails size f stream e s
  Owes-Fails left stream e s h = record {
    running = h.running;
    extra = [];
    kept = h.written ∙ sym (append-nil stream);
  }

  -- The stream after more bytes have gone into the newest file.
  grown :
      (stream bytes content : List ℕ) (name : Text) (files rest now : List (Text × List ℕ))
      → stream_of files ≡ stream
      → files ≡ (name, content) ∷ rest
      → segment_file_header_len ≤ length content
      → now ≡ append_to name bytes files
      → (now ≡ (name, content ++ bytes) ∷ rest) × (stream_of now ≡ stream ++ bytes)
  grown stream bytes content name files rest now written old long new =
      let now_is : now ≡ (name, content ++ bytes) ∷ rest =
        new ∙ ap (append_to name bytes) old ∙ append_to-front name content bytes rest in
      (
        now_is,
        ap stream_of now_is
            ∙ ap (λ (c : List ℕ). stream_of rest ++ c)
                (drop-append segment_file_header_len content bytes long)
            ∙ sym (append_assoc (stream_of rest) (drop segment_file_header_len content) bytes)
            ∙ ap (λ (c : List ℕ). c ++ bytes) (sym (ap stream_of old) ∙ written),
      )

  -- What the rest of a loop does with the bytes that are left to it.
  abbrev Appends : ℕ → (List ℕ → Writes H (Unit {0})) → Type 0
  Appends fuel next =
      (left : ℕ) (stream bytes : List ℕ) (s : Writer H)
      → Owes size f left stream s
      → length bytes ≤ fuel
      → length bytes ≤ left
      → Ensures (next bytes) s (λ u t. Owes size f (left - length bytes) (stream ++ bytes) t)
          (Fails size f stream)

  room_open :
      (l : LogWrite H) (file : Current)
      → l.current ≡ some file
      → room l ≡ l.seg_size_max - segment_file_header_len - file.data_written
  unfolding room
  room_open l file e = rw e

  failed_write :
      (left : ℕ) (stream stream' : List ℕ) (s : Writer H) (w : World)
      → Owes size f left stream s
      → stream_of w.files ≡ stream'
      → w.mono ≡ s.world.mono
      → Closed cb size f roomy left stream'
          (record s { log = record s.log { current = none }; world = w })
  failed_write left stream stream' s w h grew mono = record {
    owes = record {
      running = record {
        sized = h.running.sized;
        formatted = h.running.formatted;
        ticking = h.running.ticking;
        paired = omega (arith, h.running.paired);
        front = tt;
      };
      owed = h.owed;
      written = grew;
    };
    shut = refl;
  }

  chunk_written :
      (left n : ℕ) (stream content chunk : List ℕ) (older : List (Text × List ℕ)) (file : Current)
      (s : Writer H) (w : World)
      → Owes size f left stream s
      → length content ≡ segment_file_header_len + file.data_written
      → length chunk ≡ n
      → file.data_written + n + segment_file_header_len ≤ size
      → w.files ≡ (file.name, content ++ chunk) ∷ older
      → stream_of w.files ≡ stream ++ chunk
      → w.mono ≡ s.world.mono
      → Owes size f
          (left - n)
          (stream ++ chunk)
          (record s { log = note_written file n s.log; world = w })
  chunk_written left n stream content chunk older file s w h long len fits now grew mono = record {
    running = record {
      sized = h.running.sized;
      formatted = h.running.formatted;
      ticking = h.running.ticking;
      paired = omega (arith, h.running.paired);
      front =
          subst (Front size (some (record file { data_written = file.data_written + n }))) (sym now)
            (refl, omega (arith, length-append content chunk), omega arith);
    };
    owed = omega (arith, h.owed);
    written = grew;
  }

  joined :
      (left n : ℕ) (stream bytes : List ℕ) (t : Writer H)
      → n ≤ length bytes
      → Owes size f (left - n - length (drop n bytes)) ((stream ++ take n bytes) ++ drop n bytes) t
      → Owes size f (left - length bytes) (stream ++ bytes) t
  joined left n stream bytes t le h = record {
    running = h.running;
    owed = omega (arith, h.owed, length-drop n bytes);
    written =
        h.written
        ∙ append_assoc stream (take n bytes) (drop n bytes)
        ∙ ap (λ (b : List ℕ). stream ++ b) (take-append-drop n bytes);
  }

  write_chunk-Appends :
      (fuel left : ℕ) (stream bytes : List ℕ) (next : List ℕ → Writes H (Unit {0})) (s : Writer H)
      (o : Option Current)
      → s.log.current ≡ o
      → Appends fuel next
      → Ready cb size f roomy left stream s
      → 0 < length bytes
      → length bytes ≤ suc fuel
      → length bytes ≤ left
      → Ensures
          (write_chunk cb next bytes o)
          s
          (λ u t. Owes size f (left - length bytes) (stream ++ bytes) t)
          (Fails size f stream)
  unfolding write_chunk
  write_chunk-Appends fuel left stream bytes next s none is_open rest h some_left enough within =
      Ensures-raise _ s (Owes-Fails left stream _ s h.owes)
  write_chunk-Appends fuel left stream bytes next s (some file) is_open rest h some_left enough
        within =
      let (content, older, files_are, long, fits) =
        Front-files size file s.world.files (
          subst (λ (o : Option Current). Front size o s.world.files) is_open
            h.owes.running.front) in
      let n : ℕ = min (room s.log) (length bytes) in
      let space : room s.log ≡ s.log.seg_size_max - segment_file_header_len - file.data_written =
        room_open s.log file is_open in
      let chunk : List ℕ = take n bytes in
      Ensures-gets_bind _ _ s (
        Ensures-io s (write_all-Wrote file.name chunk s.world)
          (λ e w y.
            let (now, grew) =
              grown stream (take y.count chunk) content file.name s.world.files older w.files
                h.owes.written files_are (omega (arith, long)) y.files_now in
            Ensures-bind
              (abandon-Ready cb size f roomy quiet left (stream ++ take y.count chunk) _
                (failed_write left stream _ s w h.owes grew y.mono_same))
              (λ e' t x. Fails-shift stream (take y.count chunk) e' t x)
              λ u t x.
                Ensures-raise e t
                  (Fails-shift stream (take y.count chunk) e t (Owes-Fails 0 _ e t x.owes)))
          (λ a w y.
            let (now, grew) =
              grown stream chunk content file.name s.world.files older w.files h.owes.written
                files_are (omega (arith, long)) y.files_now in
            Ensures-modify_bind _ _ _ (
              Ensures-weaken
                (rest (left - n) (stream ++ chunk) (drop n bytes) _
                  (chunk_written left n stream content chunk older file s w h.owes long
                    (omega (arith, length-take n bytes))
                    (omega (arith, space, h.owes.running.sized)) now grew y.mono_same)
                  (omega (arith, length-drop n bytes, h.free)) (omega (arith, length-drop n bytes)))
                (λ u t x. joined left n stream bytes t (omega arith) x)
                (λ e t x. Fails-shift stream chunk e t x))))

  write_loop-Appends : (fuel : ℕ) → Appends fuel (write_loop cb fuel)
  unfolding write_loop
  write_loop-Appends fuel left stream [] s h enough within = Ensures-skip s (record {
    running = h.running;
    owed = omega (arith, h.owed);
    written = h.written ∙ sym (append-nil stream);
  })
  write_loop-Appends zero left stream (b ∷ rest) s h enough within = absurd (omega arith)
  write_loop-Appends (suc fuel) left stream (b ∷ rest) s h enough within =
      Ensures-bind (roll_if_full-Ready left stream s h) (λ e t x. x)
        λ u t x. Ensures-gets_bind _ _ t (
          write_chunk-Appends fuel left stream (b ∷ rest) (write_loop cb fuel) t t.log.current refl
            (write_loop-Appends fuel) x (omega arith) enough within)

  -- Appending bytes ends: the stream of the files has grown by exactly those bytes, and the record
  -- in progress owes as many fewer; or there is an error, and the stream has only grown. The
  -- segment files must have room for more than a header, the record owes the bytes at least, and
  -- the callbacks return or fail, and leave the files as they are.
  pub write_bytes-Appends :
      (left : ℕ) (stream bytes : List ℕ) (s : Writer H)
      → Owes size f left stream s
      → length bytes ≤ left
      → Ensures
          (write_bytes cb bytes)
          s
          (λ u t. Owes size f (left - length bytes) (stream ++ bytes) t)
          (Fails size f stream)
  unfolding write_bytes
  write_bytes-Appends left stream bytes s h within =
      write_loop-Appends (length bytes) left stream bytes s h (omega arith) within
