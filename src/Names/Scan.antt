-- ===== src/Names/Scan.antt =====
-- The directory scan: the identifiers of the log's segment files, all of them, in order.
use tcslog.Prelude.{
  All, ℕ, ◌≤◌, ◌≡◌, refl, subst, arith, Option, none, some, List, [], ◌∷◌, leb, leb→le, ◌↔◌, ◌⊎◌,
  inl, inr, Bool-cases,
}
use tcslog.Exec.{pure}
use tcslog.Exec.Post.{Ensures, Ensures-pure, Ensures-bind, Ensures-gets_bind}
use tcslog.Bytes.{IsU64}
use tcslog.SegId.{SegId}
use tcslog.Fs.{Text, World, attempt, draw}
use tcslog.Fs.Ends.{IsIo}
use tcslog.Names.{build_name, id_from_name, insert, sort, scan_entries, scan_segment_ids}
use tcslog.Names.RoundTrip.{id_from_name-build_name, build_name-id_from_name}

abbrev pub In : SegId → List SegId → Type 0
In id [] = ⊥
In id (x ∷ xs) = (id ≡ x) ⊎ In id xs

abbrev pub AtLeast : SegId → List SegId → Type 0
AtLeast id [] = Unit
AtLeast id (x ∷ xs) = (id ≤ x) × AtLeast id xs

abbrev pub IsSorted : List SegId → Type 0
IsSorted [] = Unit
IsSorted (x ∷ xs) = AtLeast x xs × IsSorted xs

-- Whether the directory lists a file of that name.
abbrev pub HasFile : Text → List (Text × List ℕ) → Type 0
HasFile name [] = ⊥
HasFile name (file ∷ rest) = (name ≡ file.0) ⊎ HasFile name rest

AtLeast-weaken : (a b : SegId) (xs : List SegId) → a ≤ b → AtLeast b xs → AtLeast a xs
AtLeast-weaken a b [] le h = tt
AtLeast-weaken a b (x ∷ xs) le h = (omega (arith, h.0), AtLeast-weaken a b xs le h.1)

AtLeast-insert : (a id : SegId) (xs : List SegId) → a ≤ id → AtLeast a xs → AtLeast a (insert id xs)
unfolding insert
AtLeast-insert a id [] le h = (le, tt)
AtLeast-insert a id (x ∷ xs) le h = elim (Bool-cases (leb id x)) [
  | inl e ↦ rw e (le, h)
  | inr e ↦ rw e (h.0, AtLeast-insert a id xs le h.1)
]

insert-IsSorted : (id : SegId) (xs : List SegId) → IsSorted xs → IsSorted (insert id xs)
unfolding insert
insert-IsSorted id [] h = (tt, tt)
insert-IsSorted id (x ∷ xs) h = elim (Bool-cases (leb id x)) [
  | inl e ↦ rw e ((leb→le id x e, AtLeast-weaken id x xs (leb→le id x e) h.0), h)
  | inr e ↦ rw e (AtLeast-insert x id xs (ground (arith, e)) h.0, insert-IsSorted id xs h.1)
]

sort-IsSorted : (xs : List SegId) → IsSorted (sort xs)
unfolding sort
sort-IsSorted [] = tt
sort-IsSorted (x ∷ xs) = insert-IsSorted x (sort xs) (sort-IsSorted xs)

In-insert : (i id : SegId) (xs : List SegId) → In i (insert id xs) → In i (id ∷ xs)
unfolding insert
In-insert i id [] h = h
In-insert i id (x ∷ xs) h = elim (Bool-cases (leb id x)) [
  | inl e ↦ rw e at h
  | inr e ↦ (elim (rw e at h) [
    | inl p ↦ inr (inl p)
    | inr k ↦ (elim (In-insert i id xs k) [ inl p ↦ inl p | inr m ↦ inr (inr m) ])
  ])
]

insert-In : (i id : SegId) (xs : List SegId) → In i (id ∷ xs) → In i (insert id xs)
unfolding insert
insert-In i id [] h = h
insert-In i id (x ∷ xs) h = elim (Bool-cases (leb id x)) [
  | inl e ↦ rw e h
  | inr e ↦ rw e (elim h [
    | inl p ↦ inr (insert-In i id xs (inl p))
    | inr (inl p) ↦ inl p
    | inr (inr k) ↦ inr (insert-In i id xs (inr k))
  ])
]

In-sort : (i : SegId) (xs : List SegId) → In i (sort xs) → In i xs
unfolding sort
In-sort i [] h = h
In-sort i (x ∷ xs) h = elim (In-insert i x (sort xs) h) [
  | inl e ↦ inl e
  | inr k ↦ inr (In-sort i xs k)
]

sort-In : (i : SegId) (xs : List SegId) → In i xs → In i (sort xs)
unfolding sort
sort-In i [] h = h
sort-In i (x ∷ xs) (inl e) = insert-In i x (sort xs) (inl e)
sort-In i (x ∷ xs) (inr k) = insert-In i x (sort xs) (inr (sort-In i xs k))

attempt_files : (w : World) → Ensures attempt w (λ _ t. t.files ≡ w.files) IsIo
unfolding attempt draw
attempt_files w = record { holds = ground arith }

module _ (prefix suffix : Text) (id : SegId) (u64 : IsU64 id) where
  -- What a list of identifiers says of the one at hand, for a listing of the directory.
  abbrev Tells : List SegId → List (Text × List ℕ) → Type 0
  Tells ids files = In id ids ↔ HasFile (build_name prefix id suffix) files

  passed_over :
      (name : Text) (bytes : List ℕ) (ids : List SegId) (rest : List (Text × List ℕ))
      → id_from_name name prefix suffix ≡ none
      → Tells ids rest
      → Tells ids ((name, bytes) ∷ rest)
  passed_over name bytes ids rest e h = (
    λ i. inr (h.0 i),
    λ f. elim f [
      | inl p ↦ absurd (cc (e, id_from_name-build_name prefix suffix id u64, p))
      | inr k ↦ h.1 k
    ],
  )

  listed :
      (name : Text) (bytes : List ℕ) (ids : List SegId) (rest : List (Text × List ℕ)) (i : SegId)
      → id_from_name name prefix suffix ≡ some i
      → Tells ids rest
      → Tells (i ∷ ids) ((name, bytes) ∷ rest)
  listed name bytes ids rest i e h =
      let named : build_name prefix i suffix ≡ name =
        (build_name-id_from_name prefix suffix name i e).0 in
      (
        λ x. elim x [ inl p ↦ inl (cc (named, p)) | inr k ↦ inr (h.0 k) ],
        λ f. elim f [
          | inl p ↦ inl (cc (e, id_from_name-build_name prefix suffix id u64, p))
          | inr k ↦ inr (h.1 k)
        ],
      )

  scan_entries-Tells :
      (files : List (Text × List ℕ)) (w : World)
      → Ensures (scan_entries prefix suffix files) w (λ ids t. Tells ids files) IsIo
  unfolding scan_entries
  scan_entries-Tells [] w = Ensures-pure [] w (λ x. x, λ x. x)
  scan_entries-Tells ((name, bytes) ∷ rest) w =
      Ensures-bind (attempt_files w) (λ e t x. x)
        λ u t same.
          Ensures-bind (scan_entries-Tells rest t) (λ e v x. x)
            λ ids v h. entry ids v h (id_from_name name prefix suffix) refl
    where
      entry :
          (ids : List SegId) (v : World)
          → Tells ids rest
          → (o : Option SegId) → id_from_name name prefix suffix ≡ o
          → Ensures
              (elim o [ none ↦ pure ids | some i ↦ pure (i ∷ ids) ])
              v
              (λ ids t. Tells ids ((name, bytes) ∷ rest))
              IsIo
      entry ids v h none e = Ensures-pure ids v (passed_over name bytes ids rest e h)
      entry ids v h (some i) e = Ensures-pure (i ∷ ids) v (listed name bytes ids rest i e h)

  -- A scan of the directory ends, its only errors being I/O errors. The identifiers that it
  -- returns are in ascending order, and an identifier, a `u64`, is one of them exactly when the
  -- directory lists the file that it names.
  pub scan_segment_ids-IsSorted :
      (w : World)
      → Ensures
          (scan_segment_ids prefix suffix)
          w
          (λ ids t. IsSorted ids × (In id ids ↔ HasFile (build_name prefix id suffix) w.files))
          IsIo
  unfolding scan_segment_ids
  scan_segment_ids-IsSorted w =
      Ensures-bind (attempt_files w) (λ e t x. x)
        λ u t same. Ensures-gets_bind _ _ t (
          Ensures-bind (scan_entries-Tells t.files t) (λ e v x. x)
            λ ids v h. Ensures-pure (sort ids) v (
              sort-IsSorted ids,
              subst (λ (fs : List (Text × List ℕ)). Tells (sort ids) fs) same
                  (λ i. h.0 (In-sort id ids i), λ f. sort-In id ids (h.1 f)),
            ))

All-insert : (id : SegId) (xs : List SegId) → IsU64 id → All IsU64 xs → All IsU64 (insert id xs)
unfolding insert
All-insert id [] u h = (u, tt)
All-insert id (x ∷ xs) u h = elim (Bool-cases (leb id x)) [
  | inl e ↦ rw e (u, h)
  | inr e ↦ rw e (h.0, All-insert id xs u h.1)
]

All-sort : (xs : List SegId) → All IsU64 xs → All IsU64 (sort xs)
unfolding sort
All-sort [] h = tt
All-sort (x ∷ xs) h = All-insert x (sort xs) h.0 (All-sort xs h.1)

scan_entries-All :
    (prefix suffix : Text) (files : List (Text × List ℕ)) (w : World)
    → Ensures (scan_entries prefix suffix files) w (λ ids t. All IsU64 ids) IsIo
unfolding scan_entries
scan_entries-All prefix suffix [] w = Ensures-pure [] w tt
scan_entries-All prefix suffix ((name, bytes) ∷ rest) w =
    Ensures-bind (attempt_files w) (λ e t x. x)
      λ u t same.
        Ensures-bind (scan_entries-All prefix suffix rest t) (λ e v x. x)
          λ ids v h. entry ids v h (id_from_name name prefix suffix) refl
  where
    entry :
        (ids : List SegId) (v : World)
        → All IsU64 ids
        → (o : Option SegId) → id_from_name name prefix suffix ≡ o
        → Ensures
            (elim o [ none ↦ pure ids | some i ↦ pure (i ∷ ids) ])
            v
            (λ ids t. All IsU64 ids)
            IsIo
    entry ids v h none e = Ensures-pure ids v h
    entry ids v h (some i) e =
        Ensures-pure (i ∷ ids) v ((build_name-id_from_name prefix suffix name i e).1, h)

-- Every identifier that a scan returns is a `u64`.
pub scan_segment_ids-All :
    (prefix suffix : Text) (w : World)
    → Ensures (scan_segment_ids prefix suffix) w (λ ids t. All IsU64 ids) IsIo
unfolding scan_segment_ids
scan_segment_ids-All prefix suffix w =
    Ensures-bind (attempt_files w) (λ e t x. x)
      λ u t same. Ensures-gets_bind _ _ t (
        Ensures-bind (scan_entries-All prefix suffix t.files t) (λ e v x. x)
          λ ids v h. Ensures-pure (sort ids) v (All-sort ids h))
