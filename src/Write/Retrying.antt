-- ===== src/Write/Retrying.antt =====
-- One round of the loop that names a segment file: what a failed attempt and a nap leave to do.
use tcslog.Prelude.{
  ℕ, zero, suc, ◌+◌, ◌≤◌, ◌<◌, ◌≡◌, refl, sym, ap, subst, ◌∙◌, arith, List, [], ◌∷◌, Bool, true,
  false, if◌then◌else◌, u64_max, ◌==◌,
}
use tcslog.Error.{LogError}
use tcslog.Exec.{raise, ◌>>=◌, ◌>>◌}
use tcslog.Exec.Post.{
  Ensures, Ensures-pure, Ensures-raise, Ensures-bind, Ensures-gets_bind, Ensures-modify_bind,
  Ensures-modify,
}
use tcslog.SegId.{SegId}
use tcslog.Fs.{Text, World, exists_file, whole_ticks, sleep}
use tcslog.Names.{build_name}
use tcslog.Clock.{nap_for, widened}
use tcslog.Fs.Ticks.{whole_ticks-pos}
use tcslog.Write.{WriteCallbacks, LogWrite, Writer, Writes, io}
use tcslog.Write.Steps.{Ensures-io_bind}
use tcslog.Write.Files.{note_collision}
use tcslog.Write.Widening.{Within, Within-widened, Within-widened_once, widened-pos, nap_for-long}
use tcslog.Write.Count.{count_from}
use tcslog.Write.Minting.{EndsNaming, reading}

-- What naming a file may change of a log: the resolution, and what the handler keeps.
abbrev pub adjusted : {H : Type 0} → LogWrite H → ℕ → H → LogWrite H
adjusted l resolution handler = record l { timer_resolution = resolution; handler = handler }

pub record Adjusted {H : Type 0} (l : LogWrite H) (start : ℕ) (t : Writer H) : Type 0 where
  pub resolution : ℕ
  pub handler : H
  pub positive : 0 < resolution
  pub same : adjusted l resolution handler ≡ t.log
  pub later : start ≤ t.world.mono

-- What is left to do: the widenings, one more before the first collision, and the files whose names
-- are yet to come.
abbrev pub before_widening : Bool → ℕ
before_widening true = 0
before_widening false = 1

module _ {H : Type 0} (cb : WriteCallbacks H) (l : LogWrite H) (start : ℕ)
    (files : List (Text × List ℕ)) where
  -- A writer about to try a name, in a directory of these files, whose clock reads `b` or later and
  -- whose resolution is at most `j` doublings short of the coarsest clock.
  pub record Trying (b j : ℕ) (s : Writer H) : Type 0 where
    pub coarse : Within j s.log.timer_resolution
    pub changed : Adjusted l start s
    pub files_same : s.world.files ≡ files
    pub paired : s.log.clock.mono ≤ s.world.mono
    pub reached : b ≤ reading s.log.clock s.world

  -- The file that was created: a new one, with the name of its identifier.
  pub record Named (r : SegId × Text) (t : Writer H) : Type 0 where
    pub named : r.1 ≡ build_name l.prefix r.0 l.suffix
    pub below : r.0 < u64_max
    pub was_free : exists_file r.1 files ≡ false
    pub now_there : t.world.files ≡ (r.1, []) ∷ files
    pub changed : Adjusted l start t

  pub record Unnamed (e : LogError) (t : Writer H) : Type 0 where
    pub ends : EndsNaming e
    pub changed : Adjusted l start t
    pub files_same : t.world.files ≡ files

  Adjusted-pos : {s : Writer H} → Adjusted l start s → 0 < s.log.timer_resolution
  Adjusted-pos a = subst (λ (k : LogWrite H). 0 < k.timer_resolution) a.same a.positive

  pub moved :
      (s : Writer H) (w : World)
      → Adjusted l start s
      → s.world.mono ≤ w.mono
      → Adjusted l start (record s { world = w })
  moved s w a le = record {
    resolution = a.resolution;
    handler = a.handler;
    positive = a.positive;
    same = a.same;
    later = omega (arith, a.later);
  }

  -- The writer with the widened resolution and a handler, and the nap that the resolution calls for.
  abbrev Napped : Bool → Writer H → ℕ → Writer H → Type 0
  Napped again s nap t =
      let wider : ℕ = widened s.log.timer_resolution again in
      (handler : H) × (nap ≡ nap_for wider) × (record s { log = adjusted s.log wider handler } ≡ t)

  note_collision-Napped :
      (again : Bool) (s : Writer H)
      → Ensures (note_collision cb again) s (Napped again s) (λ e t. ⊥)
  unfolding note_collision
  note_collision-Napped again s = Ensures-gets_bind _ _ s (
      Ensures-modify_bind _ _ s (
        Ensures-gets_bind _ _ _ (
          Ensures-pure _ _
            (settled (widened s.log.timer_resolution again == s.log.timer_resolution) refl))))
    where
      wider : ℕ
      wider = widened s.log.timer_resolution again

      settled :
          (same : Bool)
          → (wider == s.log.timer_resolution) ≡ same
          → let l = if same then s.log else record s.log {
            timer_resolution = wider;
            handler = cb.timer_resolution_adjusted wider s.log.handler;
          } in
            Napped again s (nap_for l.timer_resolution) (record s { log = l })
      settled true e =
          let kept : wider ≡ s.log.timer_resolution = ground (arith, e) in
          (
            s.log.handler,
            ap nap_for (sym kept),
            ap (λ r. record s { log = adjusted s.log r s.log.handler }) kept,
          )
      settled false e = (cb.timer_resolution_adjusted wider s.log.handler, refl, refl)

  -- A writer that is about to try again, with less left to do than before the attempt that failed.
  pub record Retrying (b j : ℕ) (again : Bool) (t : Writer H) : Type 0 where
    pub next_b : ℕ
    pub next_j : ℕ
    pub trying : Trying next_b next_j t
    pub less :
        next_j + count_from l.prefix l.suffix next_b files
        < before_widening again + j + count_from l.prefix l.suffix b files

  -- The writer after a nap.
  abbrev rested : Writer H → Bool → H → Writer H
  rested s again handler =
      let wider : ℕ = widened s.log.timer_resolution again in
      record s {
        log = adjusted s.log wider handler;
        world = record s.world { mono = s.world.mono + whole_ticks s.world.tick (nap_for wider) };
      }

  Trying-rested :
      (b j b' j' : ℕ) (again : Bool) (s : Writer H) (handler : H)
      → Trying b j s
      → Within j' (widened s.log.timer_resolution again)
      → b' ≤ reading s.log.clock (rested s again handler).world
      → Trying b' j' (rested s again handler)
  Trying-rested b j b' j' again s handler h coarse reached = record {
    coarse = coarse;
    changed = record {
      resolution = widened s.log.timer_resolution again;
      handler = handler;
      positive = widened-pos _ again (Adjusted-pos h.changed);
      same =
          ap (λ (k : LogWrite H). adjusted k (widened s.log.timer_resolution again) handler)
            h.changed.same;
      later = omega (arith, h.changed.later);
    };
    files_same = h.files_same;
    paired = omega (arith, h.paired);
    reached = reached;
  }

  -- A nap leaves less to do: it comes after a widening, or it is long enough to move the clock past
  -- the identifier whose name was taken.
  Retrying-rested :
      (b j id : ℕ) (again : Bool) (s : Writer H) (handler : H)
      → Trying b j s
      → b ≤ id
      → id ≤ reading s.log.clock s.world
      → count_from l.prefix l.suffix (suc id) files < count_from l.prefix l.suffix b files
      → Retrying b j again (rested s again handler)
  Retrying-rested b j id false s handler h lo hi drops = record {
    next_b = b;
    next_j = j;
    trying =
        Trying-rested b j b j false s handler h
          (Within-widened_once j s.log.timer_resolution false h.coarse) (omega (arith, lo, hi));
    less = omega arith;
  }
  Retrying-rested b (suc j) id true s handler h lo hi drops = record {
    next_b = b;
    next_j = j;
    trying =
        Trying-rested b (suc j) b j true s handler h
          (Within-widened j s.log.timer_resolution h.coarse) (omega (arith, lo, hi));
    less = omega arith;
  }
  Retrying-rested b zero id true s handler h lo hi drops =
      let coarsest : Within zero (widened s.log.timer_resolution true) =
        Within-widened_once zero s.log.timer_resolution true h.coarse in
      let moves : 0 < whole_ticks s.world.tick (nap_for (widened s.log.timer_resolution true)) =
        whole_ticks-pos s.world.tick _ (nap_for-long s.world.tick _ coarsest) in
      record {
        next_b = suc id;
        next_j = zero;
        trying =
            Trying-rested b zero (suc id) zero true s handler h coarsest
              (omega (arith, hi, moves, h.paired));
        less = omega (arith, drops);
      }

  -- What follows a failed attempt: a nap and the rest of the loop, or the error.
  pub after_failure :
      (next : Writes H (SegId × Text)) (b j id : ℕ) (again collided : Bool) (e : LogError)
      (s : Writer H)
      → Trying b j s
      → b ≤ id
      → id ≤ reading s.log.clock s.world
      → (collided ≡ true
          → count_from l.prefix l.suffix (suc id) files < count_from l.prefix l.suffix b files)
      → (collided ≡ false → Unnamed e s)
      → ((t : Writer H) → Retrying b j again t → Ensures next t Named Unnamed)
      → Ensures
          (elim collided [
            | true ↦ (do nap ← note_collision cb again; io (sleep nap); next)
            | false ↦ raise e
          ])
          s
          Named
          Unnamed
  unfolding sleep
  after_failure next b j id again false e s h lo hi drops k rest = Ensures-raise e s (k refl)
  after_failure next b j id again true e s h lo hi drops k rest =
      Ensures-bind (note_collision-Napped again s) (λ e u x. absurd x)
        λ nap u x.
          Ensures-io_bind u
            (Ensures-modify
              {P = λ _ w. w ≡ record u.world { mono = u.world.mono + whole_ticks u.world.tick nap }}
              _ u.world refl)
            (λ e w q. absurd q)
            (λ a w q.
              rest (record u { world = w })
                (subst (λ (v : Writer H). Retrying b j again v) (slept u nap w x q)
                  (Retrying-rested b j id again s x.0 h lo hi (drops refl))))
    where
      slept :
          (u : Writer H) (nap : ℕ) (w : World) (x : Napped again s nap u)
          → w ≡ record u.world { mono = u.world.mono + whole_ticks u.world.tick nap }
          → rested s again x.0 ≡ record u { world = w }
      slept u nap w x q =
          ap
            (λ (v : Writer H). record v {
              world = record v.world {
                mono =
                    v.world.mono
                    + whole_ticks v.world.tick (nap_for (widened s.log.timer_resolution again));
              };
            })
            x.2
          ∙ ap
              (λ n. record u {
                world = record u.world { mono = u.world.mono + whole_ticks u.world.tick n };
              })
              (sym x.1)
          ∙ ap (λ (v : World). record u { world = v }) (sym q)
