-- ===== src/Names/RoundTrip.antt =====
-- Segment file names: exactly the names that `build_name` writes are taken for segment files.
use tcslog.Prelude.{
  ℕ, ◌+◌, ◌-◌, ◌≡◌, refl, sym, ap, ◌∙◌, arith, true, some, ◌++◌, length, length-append, take, drop,
  take-append_length, drop-append_length, take-append-drop, list_eq, list_eq_refl, list_eq→eq, ◌==◌,
  ==_iff, Option-cases, inl, inr, Bool-cases,
}
use tcslog.Error.{Result, ok, err, stuck}
use tcslog.Bytes.{IsU64}
use tcslog.SegId
use tcslog.SegId.{SegId, str_len}
use tcslog.SegId.RoundTrip.{length-display, parse-display, display-parse}
use tcslog.Fs.{Text}
use tcslog.Names.{build_name, strip_prefix, strip_suffix, to_option, id_from_name}

strip_prefix-append : (prefix rest : Text) → strip_prefix prefix (prefix ++ rest) ≡ some rest
unfolding strip_prefix
strip_prefix-append prefix rest = rw (
  take-append_length (length prefix) prefix rest refl,
  drop-append_length (length prefix) prefix rest refl,
  list_eq_refl prefix,
)

strip_prefix_inv :
    (prefix name rest : Text) → strip_prefix prefix name ≡ some rest → name ≡ prefix ++ rest
unfolding strip_prefix
strip_prefix_inv prefix name rest h =
    elim (Bool-cases (list_eq (take (length prefix) name) prefix)) [
      | inl e ↦ sym (take-append-drop (length prefix) name) ∙ cc (list_eq→eq _ _ e, rw e at h)
      | inr e ↦ cc (rw e at h)
    ]

strip_suffix-append : (body suffix : Text) → strip_suffix suffix (body ++ suffix) ≡ some body
unfolding strip_suffix
strip_suffix-append body suffix =
    let cut : length (body ++ suffix) - length suffix ≡ length body =
      omega (arith, length-append body suffix) in
    rw (
      cut,
      take-append_length (length body) body suffix refl,
      drop-append_length (length body) body suffix refl,
      list_eq_refl suffix,
    )

strip_suffix_inv :
    (suffix name body : Text) → strip_suffix suffix name ≡ some body → name ≡ body ++ suffix
unfolding strip_suffix
strip_suffix_inv suffix name body h =
    let cut : ℕ = length name - length suffix in
    elim (Bool-cases (list_eq (drop cut name) suffix)) [
      | inl e ↦ sym (take-append-drop cut name) ∙ cc (list_eq→eq _ _ e, rw e at h)
      | inr e ↦ cc (rw e at h)
    ]

total_length :
    (prefix suffix : Text) (id : SegId)
    → (length (prefix ++ (SegId.display id ++ suffix)) == length prefix + str_len + length suffix)
      ≡ true
total_length prefix suffix id = (==_iff _ _).1 (
    omega (
      arith,
      length-append prefix (SegId.display id ++ suffix),
      length-append (SegId.display id) suffix,
      length-display id,
    ))

to_option_inv : (r : Result SegId) {id : SegId} → to_option r ≡ some id → r ≡ ok id
to_option_inv (ok id) h = cc
to_option_inv (err e) h = cc
to_option_inv stuck h = cc

-- The name that is built for an identifier, a `u64`, gives the identifier back.
pub id_from_name-build_name :
    (prefix suffix : Text) (id : SegId)
    → IsU64 id
    → id_from_name (build_name prefix id suffix) prefix suffix ≡ some id
unfolding id_from_name build_name
id_from_name-build_name prefix suffix id h = rw (
  total_length prefix suffix id,
  strip_prefix-append prefix (SegId.display id ++ suffix),
  strip_suffix-append (SegId.display id) suffix,
  parse-display id h,
)

-- A name that is taken for a segment file is the one that is built for its identifier, which is a
-- `u64`.
pub build_name-id_from_name :
    (prefix suffix name : Text) (id : SegId)
    → id_from_name name prefix suffix ≡ some id
    → (build_name prefix id suffix ≡ name) × IsU64 id
unfolding id_from_name build_name
build_name-id_from_name prefix suffix name id h = elim (Option-cases (strip_prefix prefix name)) [
  | inl e ↦ absurd (ground (arith, e))
  | inr (rest, e) ↦ (elim (Option-cases (strip_suffix suffix rest)) [
    | inl e' ↦ absurd (ground (arith, e, e'))
    | inr (body, e') ↦
        let parsed : SegId.parse body ≡ ok id =
          to_option_inv (SegId.parse body) (ground (arith, e, e')) in
        let (d, u) = display-parse body id parsed in
        (
          ap (λ t. prefix ++ (t ++ suffix)) d
              ∙ sym (
                  strip_prefix_inv prefix name rest e
                  ∙ ap (λ t. prefix ++ t) (strip_suffix_inv suffix rest body e')),
          u,
        )
  ])
]
