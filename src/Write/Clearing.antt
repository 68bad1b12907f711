-- ===== src/Write/Clearing.antt =====
-- Clearing a log removes its segment files, and no other file.
use tcslog.Prelude.{
  All, ℕ, ◌≤◌, ◌≡◌, refl, sym, ap, subst, ◌∙◌, arith, none, List, [], ◌∷◌, ◌⊎◌, inl, inr,
  Bool-cases, Option-cases, list_eq, list_eq→eq, list_eq_refl,
}
use tcslog.Error.{LogError}
use tcslog.Exec.{◌>>=◌}
use tcslog.Exec.Post.{
  Ensures, Ensures-pure, Ensures-skip, Ensures-bind, Ensures-gets_bind, Ensures-modify_bind,
  Ensures-weaken, Ensures-both,
}
use tcslog.Bytes.{IsU64}
use tcslog.Fs.{Text, World, attempt, draw, remove, remove_file}
use tcslog.SegId.{SegId}
use tcslog.Names.{build_name, id_from_name, scan_segment_ids}
use tcslog.Names.RoundTrip.{id_from_name-build_name, build_name-id_from_name}
use tcslog.Names.Scan.{In, HasFile, scan_segment_ids-All, scan_segment_ids-IsSorted}
use tcslog.Write.{WriteCallbacks, LogWrite, Writer, io}
use tcslog.Write.Session.{for_each, for_each_segment_file, clear}
use tcslog.Write.Steps.{Ensures-io_bind}
use tcslog.Write.Sound.{Kept}
use tcslog.Write.Scanning.{scan_segment_ids-Kept}

-- No name is listed twice.
abbrev pub IsDistinct : List (Text × List ℕ) → Type 0
IsDistinct [] = Unit
IsDistinct (file ∷ rest) = (¬ HasFile file.0 rest) × IsDistinct rest

HasFile-remove :
    (x n : Text) (files : List (Text × List ℕ)) → HasFile x (remove n files) → HasFile x files
unfolding remove
HasFile-remove x n [] h = h
HasFile-remove x n ((name, c) ∷ rest) h = elim (Bool-cases (list_eq n name)) [
  | inl e ↦ inr (rw e at h)
  | inr e ↦ (elim (rw e at h) [ inl p ↦ inl p | inr k ↦ inr (HasFile-remove x n rest k) ])
]

remove-HasFile :
    (x n : Text) (files : List (Text × List ℕ))
    → ¬ (x ≡ n)
    → HasFile x files
    → HasFile x (remove n files)
unfolding remove
remove-HasFile x n [] ne h = h
remove-HasFile x n ((name, c) ∷ rest) ne h = elim (Bool-cases (list_eq n name)) [
  | inl e ↦ rw e (elim h [ inl p ↦ absurd (ne (p ∙ sym (list_eq→eq n name e))) | inr k ↦ k ])
  | inr e ↦ rw e (elim h [ inl p ↦ inl p | inr k ↦ inr (remove-HasFile x n rest ne k) ])
]

remove-IsDistinct :
    (n : Text) (files : List (Text × List ℕ)) → IsDistinct files → IsDistinct (remove n files)
unfolding remove
remove-IsDistinct n [] h = tt
remove-IsDistinct n ((name, c) ∷ rest) h = elim (Bool-cases (list_eq n name)) [
  | inl e ↦ rw e h.1
  | inr e ↦ rw e (λ k. h.0 (HasFile-remove name n rest k), remove-IsDistinct n rest h.1)
]

not-HasFile-remove :
    (n : Text) (files : List (Text × List ℕ)) → IsDistinct files → ¬ HasFile n (remove n files)
unfolding remove
not-HasFile-remove n [] h k = k
not-HasFile-remove n ((name, c) ∷ rest) h k = elim (Bool-cases (list_eq n name)) [
  | inl e ↦ h.0 (subst (λ (m : Text). HasFile m rest) (list_eq→eq n name e) (rw e at k))
  | inr e ↦ (elim (rw e at k) [
    | inl p ↦ cc (e, list_eq_refl n, p)
    | inr m ↦ not-HasFile-remove n rest h.1 m
  ])
]

-- Removing a file removes that file, or is an error and removes nothing.
record Removed (n : Text) (w t : World) : Type 0 where
  files_now : t.files ≡ remove n w.files
  mono_same : t.mono ≡ w.mono

remove_file-Removed :
    (n : Text) (w : World) → Ensures (remove_file n) w (λ u t. Removed n w t) (λ e t. Kept w t)
unfolding remove_file attempt draw ◌>>=◌
remove_file-Removed n w = record { holds = ground arith }

module _ {H : Type 0} (cb : WriteCallbacks H) (x : Text) where
  -- Whether the name is that of a segment file in the list.
  abbrev Names : LogWrite H → List SegId → Type 0
  Names l [] = ⊥
  Names l (id ∷ rest) = (x ≡ build_name l.prefix id l.suffix) ⊎ Names l rest

  record Cleared (ids : List SegId) (s t : Writer H) : Type 0 where
    log_same : t.log ≡ s.log
    later : s.world.mono ≤ t.world.mono
    gone : HasFile x t.world.files → HasFile x s.world.files × (¬ Names s.log ids)
    left : HasFile x s.world.files → (¬ Names s.log ids) → HasFile x t.world.files

  Untouched : LogWrite H → ℕ → LogError → Writer H → Type 0
  Untouched l start e t = (t.log ≡ l) × (start ≤ t.world.mono)

  remove_each-Cleared :
      (ids : List SegId) (s : Writer H)
      → IsDistinct s.world.files
      → Ensures
          (for_each cb (λ name. io (remove_file name)) ids)
          s
          (λ u t. Cleared ids s t)
          (Untouched s.log s.world.mono)
  unfolding for_each Untouched
  remove_each-Cleared [] s d =
      Ensures-skip s
        (record { log_same = refl; later = omega arith; gone = λ h. (h, λ n. n); left = λ h n. h })
  remove_each-Cleared (id ∷ rest) s d =
      let name : Text = build_name s.log.prefix id s.log.suffix in
      Ensures-gets_bind _ _ s (
        Ensures-io_bind s (remove_file-Removed name s.world) (λ e w k. (refl, k.later))
          λ u w r.
            let now : w.files ≡ remove name s.world.files = r.files_now in
            Ensures-weaken
              (remove_each-Cleared rest (record s { world = w })
                (subst IsDistinct (sym now) (remove-IsDistinct name s.world.files d)))
              (λ u t c. record {
                log_same = c.log_same;
                later = omega (arith, c.later, r.mono_same);
                gone = λ h.
                    let before : HasFile x (remove name s.world.files) =
                      subst (HasFile x) now (c.gone h).0 in
                    (
                      HasFile-remove x name s.world.files before,
                      λ n. elim n [
                        | inl e ↦
                            not-HasFile-remove name s.world.files d
                              (subst (λ (m : Text). HasFile m (remove name s.world.files)) e before)
                        | inr m ↦ (c.gone h).1 m
                      ],
                    );
                left = λ h n.
                    c.left
                      (subst (HasFile x) (sym now)
                        (remove-HasFile x name s.world.files (λ e. n (inl e)) h))
                      (λ m. n (inr m));
              })
              (λ e t x. (x.0, omega (arith, x.1, r.mono_same))))

  Names-id_from_name :
      (l : LogWrite H) (ids : List SegId)
      → All IsU64 ids
      → Names l ids
      → ¬ (id_from_name x l.prefix l.suffix ≡ none)
  Names-id_from_name l [] u n e = n
  Names-id_from_name l (id ∷ rest) u (inl p) e =
      cc (p, e, id_from_name-build_name l.prefix l.suffix id u.0)
  Names-id_from_name l (id ∷ rest) u (inr m) e = Names-id_from_name l rest u.1 m e

  In-Names :
      (l : LogWrite H) (i : SegId) (ids : List SegId)
      → x ≡ build_name l.prefix i l.suffix
      → In i ids
      → Names l ids
  In-Names l i [] e h = h
  In-Names l i (id ∷ rest) e (inl p) =
      inl (e ∙ ap (λ (j : SegId). build_name l.prefix j l.suffix) p)
  In-Names l i (id ∷ rest) e (inr h) = inr (In-Names l i rest e h)

  -- What a scan tells of the name: it is that of a listed identifier, or of no segment file.
  Told : LogWrite H → List (Text × List ℕ) → List SegId → Type 0
  Told l files ids =
      (HasFile x files → id_from_name x l.prefix l.suffix ≡ none ⊎ Names l ids)
      × (Names l ids → ¬ (id_from_name x l.prefix l.suffix ≡ none))

  scan-Told :
      (l : LogWrite H) (w : World)
      → Ensures
          (scan_segment_ids l.prefix l.suffix)
          w
          (λ ids t. Told l w.files ids × Kept w t)
          (λ e t. Kept w t)
  unfolding Told
  scan-Told l w =
      let kept = scan_segment_ids-Kept l.prefix l.suffix w in
      let u64 = scan_segment_ids-All l.prefix l.suffix w in
      elim (Option-cases (id_from_name x l.prefix l.suffix)) [
        | inl e ↦
            Ensures-weaken (Ensures-both u64 kept)
              (λ ids t p. ((λ h. inl e, λ n. Names-id_from_name l ids p.0 n), p.1)) (λ e t p. p.1)
        | inr (i, e) ↦
            let (same, i_u64) = build_name-id_from_name l.prefix l.suffix x i e in
            Ensures-weaken
              (Ensures-both u64
                (Ensures-both kept (scan_segment_ids-IsSorted l.prefix l.suffix i i_u64 w)))
              (λ ids t p. (
                (
                  λ h. inr (
                      In-Names l i ids (sym same)
                        (p.1.1.1.1 (subst (λ (m : Text). HasFile m w.files) (sym same) h))),
                  λ n. Names-id_from_name l ids p.0 n,
                ),
                p.1.0,
              ))
              (λ e t p. p.1.0)
      ]

  -- What clearing a log leaves of the name.
  pub record Clears (s t : Writer H) : Type 0 where
    pub log_now : t.log ≡ record s.log { current = none; record_bytes_left = 0 }
    pub gone : HasFile x t.world.files → id_from_name x s.log.prefix s.log.suffix ≡ none
    pub no_more : HasFile x t.world.files → HasFile x s.world.files
    pub left :
        HasFile x s.world.files
        → id_from_name x s.log.prefix s.log.suffix ≡ none
        → HasFile x t.world.files

  -- Clearing a log ends, with no segment file open. When it returns, no name of a segment file of
  -- the log is listed, and every other name is listed exactly if it was. No name is listed twice to
  -- begin with.
  pub clear-Clears :
      (s : Writer H)
      → IsDistinct s.world.files
      → Ensures
          (clear cb)
          s
          (λ u t. Clears s t)
          (λ e t. t.log ≡ record s.log { current = none; record_bytes_left = 0 })
  unfolding clear for_each_segment_file Untouched Told
  clear-Clears s d =
      let l : LogWrite H = record s.log { current = none; record_bytes_left = 0 } in
      Ensures-modify_bind _ _ s (
        Ensures-bind {P = λ ids t. Clears s t} {Q = λ e t. t.log ≡ l}
          (Ensures-gets_bind _ _ _ (
            Ensures-gets_bind _ _ _ (
              Ensures-io_bind (record s { log = l }) (scan-Told l s.world) (λ e w k. refl)
                λ ids w p.
                  Ensures-bind
                    (remove_each-Cleared ids (record { log = l; world = w })
                      (subst IsDistinct (sym p.1.files_same) d))
                    (λ e t x. x.0)
                    λ u t c. Ensures-pure _ t (record {
                      log_now = c.log_same;
                      gone = λ h. elim (p.0.0 (subst (HasFile x) p.1.files_same (c.gone h).0)) [
                        | inl e ↦ e
                        | inr n ↦ absurd ((c.gone h).1 n)
                      ];
                      no_more = λ h. subst (HasFile x) p.1.files_same (c.gone h).0;
                      left =
                          λ h e. c.left (subst (HasFile x) (sym p.1.files_same) h) (λ n. p.0.1 n e);
                    }))))
          (λ e t x. x) λ ids t c. Ensures-skip t c)
