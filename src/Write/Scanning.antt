-- ===== src/Write/Scanning.antt =====
-- What reads the directory or the clocks leaves the files as they are.
use tcslog.Prelude.{ℕ, ◌≤◌, refl, ◌∙◌, arith, Option, none, some, List, [], ◌∷◌}
use tcslog.Exec.{pure, ◌>>=◌}
use tcslog.Exec.Post.{Ensures, Ensures-pure, Ensures-bind, Ensures-gets_bind}
use tcslog.Fs.{Text, World, attempt, draw, monotonic}
use tcslog.SegId.{SegId}
use tcslog.Names.{id_from_name, scan_entries, scan_segment_ids, sort}
use tcslog.Clock
use tcslog.Clock.{Clock, stamp, anchor, now}
use tcslog.Write.Sound.{Kept}

pub Kept-trans : {u v w : World} → Kept u v → Kept v w → Kept u w
Kept-trans h k = record {
  files_same = k.files_same ∙ h.files_same;
  later = omega (arith, h.later, k.later);
}

pub Kept-refl : (w : World) → Kept w w
Kept-refl w = record { files_same = refl; later = omega arith }

attempt-Kept : (w : World) → Ensures attempt w (λ u t. Kept w t) (λ e t. Kept w t)
unfolding attempt draw
attempt-Kept w = record { holds = ground arith }

-- A scan changes nothing.
scan_entries-Kept :
    (prefix suffix : Text) (files : List (Text × List ℕ)) (w : World)
    → Ensures (scan_entries prefix suffix files) w (λ ids t. Kept w t) (λ e t. Kept w t)
unfolding scan_entries
scan_entries-Kept prefix suffix [] w = Ensures-pure [] w (Kept-refl w)
scan_entries-Kept prefix suffix ((name, bytes) ∷ rest) w =
    Ensures-bind (attempt-Kept w) (λ e t x. x)
      λ u t x.
        Ensures-bind (scan_entries-Kept prefix suffix rest t) (λ e v y. Kept-trans x y)
          λ ids v y. entry ids v (Kept-trans x y) (id_from_name name prefix suffix)
  where
    entry :
        (ids : List SegId) (v : World)
        → Kept w v
        → (o : Option SegId)
        → Ensures
            (elim o [ none ↦ pure ids | some i ↦ pure (i ∷ ids) ])
            v
            (λ ids t. Kept w t)
            (λ e t. Kept w t)
    entry ids v k none = Ensures-pure ids v k
    entry ids v k (some i) = Ensures-pure (i ∷ ids) v k

pub scan_segment_ids-Kept :
    (prefix suffix : Text) (w : World)
    → Ensures (scan_segment_ids prefix suffix) w (λ ids t. Kept w t) (λ e t. Kept w t)
unfolding scan_segment_ids
scan_segment_ids-Kept prefix suffix w =
    Ensures-bind (attempt-Kept w) (λ e t x. x)
      λ u t x. Ensures-gets_bind _ _ t (
        Ensures-bind (scan_entries-Kept prefix suffix t.files t) (λ e v y. Kept-trans x y)
          λ ids v y. Ensures-pure (sort ids) v (Kept-trans x y))

-- The clock is paired with a reading of the monotonic clock that is not ahead of it.
pub record Paired (w : World) (c : Clock) (t : World) : Type 0 where
  pub kept : Kept w t
  pub paired : c.mono ≤ t.mono

pub new_clock-Paired : (w : World) → Ensures Clock.new w (Paired w) (λ e t. Kept w t)
unfolding Clock.new anchor stamp monotonic ◌>>=◌
new_clock-Paired w = record { holds = ground arith }

pub advance_past-Paired :
    (id : SegId) (c : Clock) (w : World)
    → c.mono ≤ w.mono
    → Ensures (Clock.advance_past id c) w (Paired w) (λ e t. Kept w t)
unfolding Clock.advance_past now stamp monotonic ◌>>=◌
advance_past-Paired id c w h = record { holds = ground arith }
