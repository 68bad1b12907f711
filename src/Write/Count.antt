-- ===== src/Write/Count.antt =====
-- How many names of a directory a clock can still run into: those of segment files from some
-- identifier on.
use tcslog.Prelude.{
  ℕ, suc, ◌+◌, ◌≤◌, ◌<◌, ◌≡◌, arith, Option, none, some, List, [], ◌∷◌, true, leb, length,
  if◌then◌else◌, list_eq, list_eq→eq, inl, inr, Bool-cases,
}
use tcslog.Bytes.{IsU64}
use tcslog.SegId.{SegId}
use tcslog.Fs.{Text, lookup, exists_file}
use tcslog.Names.{build_name, id_from_name}
use tcslog.Names.RoundTrip.{id_from_name-build_name}

abbrev one_from : ℕ → Option SegId → ℕ
one_from b none = 0
one_from b (some id) = if leb b id then 1 else 0

module _ (prefix suffix : Text) where
  abbrev pub count_from : ℕ → List (Text × List ℕ) → ℕ
  count_from b [] = 0
  count_from b ((name, bytes) ∷ rest) =
      one_from b (id_from_name name prefix suffix) + count_from b rest

  one_from_bound : (b : ℕ) (o : Option SegId) → one_from b o ≤ 1
  one_from_bound b none = omega arith
  one_from_bound b (some id) = ground arith

  one_from_antitone : (b c : ℕ) (o : Option SegId) → b ≤ c → one_from c o ≤ one_from b o
  one_from_antitone b c none le = omega arith
  one_from_antitone b c (some id) le = ground arith

  pub count_from-le-length :
      (b : ℕ) (files : List (Text × List ℕ)) → count_from b files ≤ length files
  count_from-le-length b [] = omega arith
  count_from-le-length b ((name, bytes) ∷ rest) =
      omega (arith, one_from_bound b (id_from_name name prefix suffix), count_from-le-length b rest)

  count_from_antitone :
      (b c : ℕ) (files : List (Text × List ℕ)) → b ≤ c → count_from c files ≤ count_from b files
  count_from_antitone b c [] le = omega arith
  count_from_antitone b c ((name, bytes) ∷ rest) le = omega (
    arith,
    one_from_antitone b c (id_from_name name prefix suffix) le,
    count_from_antitone b c rest le,
  )

  one_from_drops :
      (b id : ℕ) (o : Option SegId) → b ≤ id → o ≡ some id → one_from (suc id) o < one_from b o
  one_from_drops b id none le e = cc
  one_from_drops b id (some i) le e = ground arith

  -- A name that is taken is passed for good once later identifiers are tried.
  pub count_from_drops :
      (b id : SegId) (files : List (Text × List ℕ))
      → IsU64 id
      → b ≤ id
      → exists_file (build_name prefix id suffix) files ≡ true
      → count_from (suc id) files < count_from b files
  unfolding lookup
  count_from_drops b id [] u64 le h = cc
  count_from_drops b id ((name, bytes) ∷ rest) u64 le h =
      elim (Bool-cases (list_eq (build_name prefix id suffix) name)) [
        | inl e ↦
            let same : build_name prefix id suffix ≡ name = list_eq→eq _ _ e in
            omega (
              arith,
              one_from_drops b id (id_from_name name prefix suffix) le
                  (cc (same, id_from_name-build_name prefix suffix id u64)),
              count_from_antitone b (suc id) rest (omega arith),
            )
        | inr e ↦ omega (
          arith,
          one_from_antitone b (suc id) (id_from_name name prefix suffix) (omega arith),
          count_from_drops b id rest u64 le (rw (e, exists_file) at h),
        )
      ]
