-- ===== src/Write/Naming.antt =====
-- Naming a segment file: the retry loop ends, with a file that was not there before.
use tcslog.Prelude.{
  ℕ, zero, suc, ◌+◌, ◌≤◌, ◌<◌, ◌≡◌, refl, sym, ap, subst, ◌∙◌, arith, List, [], ◌∷◌, Bool, true,
  false, length,
}
use tcslog.Exec.Post.{Ensures, Ensures-pure, Ensures-gets_bind}
use tcslog.Fs.{Text, exists_file}
use tcslog.Names.{build_name}
use tcslog.Write.{WriteCallbacks, LogWrite, Writer}
use tcslog.Write.Steps.{Ensures-io, Ensures-io_bind}
use tcslog.Write.Files.{is_collision, create_loop, create_unique_file}
use tcslog.Write.Widening.{Within-mono, widest}
use tcslog.Write.Count.{count_from, count_from_drops, count_from-le-length}
use tcslog.Write.Minting.{create_new-Created, now_seg_id-Minted}
use tcslog.Write.Retrying.{Adjusted, Trying, Named, Unnamed, moved, before_widening, after_failure}

module _ {H : Type 0} (cb : WriteCallbacks H) (l : LogWrite H) (start : ℕ)
    (files : List (Text × List ℕ)) where
  create_loop-Named :
      (fuel b j : ℕ) (again : Bool) (s : Writer H)
      → Trying cb l start files b j s
      → before_widening again + j + count_from l.prefix l.suffix b files < fuel
      → Ensures (create_loop cb fuel again) s (Named cb l start files) (Unnamed cb l start files)
  unfolding create_loop
  create_loop-Named zero b j again s h enough = absurd (omega (arith, enough))
  create_loop-Named (suc fuel) b j again s h enough =
      let prefix_same : s.log.prefix ≡ l.prefix =
        sym (ap (λ (k : LogWrite H). k.prefix) h.changed.same) in
      let suffix_same : s.log.suffix ≡ l.suffix =
        sym (ap (λ (k : LogWrite H). k.suffix) h.changed.same) in
      Ensures-gets_bind _ _ s (
        Ensures-io_bind s (now_seg_id-Minted s.log.clock s.world)
          (λ e w m. record {
            ends = m.0;
            changed = moved cb l start files s w h.changed m.1;
            files_same = m.2 ∙ h.files_same;
          })
          λ id w m. Ensures-gets_bind _ _ _ (
            Ensures-io _ (create_new-Created (build_name s.log.prefix id s.log.suffix) w)
              (λ e w' n.
                let now_changed : Adjusted l start (record s { world = w' }) =
                  moved cb l start files s w' h.changed (omega (arith, m.mono_up, n.mono_same)) in
                let lo : b ≤ id = omega (arith, h.reached, m.is_reading, m.mono_up) in
                after_failure cb l start files (create_loop cb fuel true) b j id again
                  (is_collision e) e _
                  (record {
                    coarse = h.coarse;
                    changed = now_changed;
                    files_same = n.files_same ∙ m.files_same ∙ h.files_same;
                    paired = omega (arith, h.paired, m.mono_up, n.mono_same);
                    reached = omega (arith, lo, m.is_reading, n.mono_same);
                  })
                  lo (omega (arith, m.is_reading, n.mono_same))
                  (λ c.
                    count_from_drops l.prefix l.suffix b id files (omega (arith, m.below)) lo
                      (cc (n.taken c, prefix_same, suffix_same, m.files_same, h.files_same)))
                  (λ c. record {
                    ends = n.ends c;
                    changed = now_changed;
                    files_same = n.files_same ∙ m.files_same ∙ h.files_same;
                  })
                  (λ t x.
                    create_loop-Named fuel x.next_b x.next_j true t x.trying
                      (omega (arith, x.less, enough))))
              (λ a w' c. Ensures-pure _ _ (record {
                named = cc (prefix_same, suffix_same);
                below = m.below;
                was_free =
                    subst (λ fs. exists_file (build_name s.log.prefix id s.log.suffix) fs ≡ false)
                      (m.files_same ∙ h.files_same) c.was_free;
                now_there =
                    c.now_there
                    ∙ ap (λ fs. (build_name s.log.prefix id s.log.suffix, []) ∷ fs)
                        (m.files_same ∙ h.files_same);
                changed =
                    moved cb l start files s w' h.changed (omega (arith, m.mono_up, c.mono_same));
              }))))

module _ {H : Type 0} (cb : WriteCallbacks H) where
  -- Creating a segment file ends, whatever the directory holds, whatever fails and however coarse
  -- the monotonic clock is, up to the longest nap that there is: collisions may repeat on one name
  -- while naps are shorter than a tick, until the resolution has been widened far enough. Then there
  -- is a new file, named for its identifier, that was not there before, and no other file has
  -- changed. An error is the clock's, or an I/O error other than a collision, and no file has
  -- changed. Of the log nothing changes but the resolution, which stays above zero, and what the
  -- handler keeps. The resolution must not be zero, and the clock must have been paired before now.
  pub create_unique_file-Named :
      (s : Writer H)
      → 0 < s.log.timer_resolution
      → s.log.clock.mono ≤ s.world.mono
      → Ensures
          (create_unique_file cb)
          s
          (Named cb s.log s.world.mono s.world.files)
          (Unnamed cb s.log s.world.mono s.world.files)
  unfolding create_unique_file
  create_unique_file-Named s pos paired = Ensures-gets_bind _ _ s (
      create_loop-Named cb s.log s.world.mono s.world.files (66 + length s.world.files) 0 64 false s
        (record {
          coarse = Within-mono 64 pos widest;
          changed = record {
            resolution = s.log.timer_resolution;
            handler = s.log.handler;
            positive = pos;
            same = refl;
            later = omega arith;
          };
          files_same = refl;
          paired = paired;
          reached = omega arith;
        })
        (omega (arith, count_from-le-length s.log.prefix s.log.suffix 0 s.world.files)))
