-- ===== src/Read/Stream/Cursor.antt =====
-- The cursor of a read, and the checks that `cross` makes against it.
use tcslog.Prelude.{
  if◌then◌else◌, ℕ, zero, suc, ◌+◌, ◌-◌, ◌%◌, ◌^◌, ◌≤◌, ◌<◌, ◌≡◌, refl, ap, sym, subst, arith, Bool,
  true, false, not, Option, none, some, ltb, ◌==◌,
}
use tcslog.Format.{data_header_len_in}
use tcslog.Header.{SegmentHeader}
use tcslog.Read.{Cursor}
use tcslog.Read.Cross.{imply_payload, disagrees, sequence_gap}
use tcslog.Read.Stream.{mark}

-- What the cursor knows in the middle of a record of `total` bytes, the first `header_len` of which
-- are its data header: while these are read nothing but what a crossing implies.
abbrev pub Agreed : ℕ → Option ℕ → Type 0
Agreed n none = Unit
Agreed n (some m) = m ≡ n

abbrev pub Knows : ℕ → ℕ → ℕ → Option ℕ → Type 0
Knows total header_len limit (some n) = (n ≡ total) × (limit ≡ total)
Knows total header_len limit none = limit ≡ header_len

-- After `consumed` bytes, where no more are to be read than up to `limit`.
pub record Within (total header_len limit consumed : ℕ) (cursor : Cursor) : Type 0 where
  pub consumed_same : cursor.consumed ≡ consumed
  pub within : consumed ≤ limit
  pub knows : Knows total header_len limit cursor.total
  pub agreed : Agreed (total - header_len) cursor.implied_payload

-- The next sequence is no gap.
pub no_gap :
    (prev seq : ℕ) → seq ≡ prev + 1 → seq < 2 ^ 64 → sequence_gap (some prev) seq ≡ (false, 0)
unfolding sequence_gap
no_gap prev seq e lt =
    let same : (seq == (prev + 1) % 2 ^ 64) ≡ true = ground (arith, e, lt) in rw same refl

disagrees_start :
    (cursor : Cursor) (header : SegmentHeader)
    → cursor.consumed ≡ 0
    → header.remaining ≡ 0
    → disagrees cursor header ≡ (false, cursor)
unfolding disagrees
disagrees_start cursor header e f =
    let a : (cursor.consumed == 0) ≡ true = ground (arith, e) in
    let b : (header.remaining == 0) ≡ true = ground (arith, f) in rw (a, b) refl

disagrees_known :
    (cursor : Cursor) (header : SegmentHeader) (c n : ℕ)
    → cursor.consumed ≡ suc c
    → cursor.total ≡ some n
    → header.remaining ≡ n - suc c
    → suc c ≤ n
    → n < 2 ^ 64
    → disagrees cursor header ≡ (false, cursor)
unfolding disagrees
disagrees_known cursor header c n e f g le lt =
    let a : (cursor.consumed == 0) ≡ false = ground (arith, e) in
    let b : (header.remaining == (n + 2 ^ 64 - cursor.consumed) % 2 ^ 64) ≡ true =
      ground (arith, e, g, le, lt) in
    simp (a, f, b)

imply-Agreed :
    (n : ℕ) (cursor : Cursor) (o : Option ℕ)
    → Agreed n o
    → elim o as (λ _. Bool × Cursor) [
      | none ↦ (false, record cursor { implied_payload = some n })
      | some earlier ↦
          (if not (earlier == n)
            then (true, cursor)
            else (false, record cursor { implied_payload = some n }))
    ]
      ≡ (false, record cursor { implied_payload = some n })
imply-Agreed n cursor none x = refl
imply-Agreed n cursor (some m) x = let same : (m == n) ≡ true = ground (arith, x) in rw same refl

imply_payload-Agreed :
    (remaining rest n : ℕ) (cursor : Cursor)
    → remaining ≡ n + rest
    → Agreed n cursor.implied_payload
    → imply_payload remaining rest cursor ≡ (false, record cursor { implied_payload = some n })
unfolding imply_payload
imply_payload-Agreed remaining rest n cursor e x =
    let enough : ltb remaining rest ≡ false = ground (arith, e) in
    let len : remaining - rest ≡ n = omega (arith, e) in
    subst
      (λ (m : ℕ).
        imply_payload remaining rest cursor ≡ (false, record cursor { implied_payload = some m }))
      len
      (rw (imply_payload, enough)
        (imply-Agreed (remaining - rest) cursor cursor.implied_payload
          (subst (λ (m : ℕ). Agreed m cursor.implied_payload) (sym len) x)))

disagrees_implied :
    (cursor : Cursor) (header : SegmentHeader) (c n header_len : ℕ)
    → cursor.consumed ≡ suc c
    → cursor.total ≡ none
    → data_header_len_in header.format header.minor ≡ header_len
    → header.remaining ≡ n - suc c
    → suc c ≤ header_len
    → header_len ≤ n
    → Agreed (n - header_len) cursor.implied_payload
    → disagrees cursor header ≡ (false, record cursor { implied_payload = some (n - header_len) })
unfolding disagrees
disagrees_implied cursor header c n header_len e f g h le le' agreed =
    let a : (cursor.consumed == 0) ≡ false = ground (arith, e) in
    let rest : data_header_len_in header.format header.minor - cursor.consumed
        ≡ header_len - cursor.consumed =
      ap (λ (l : ℕ). l - cursor.consumed) g in
    simp (
      a,
      f,
      imply_payload-Agreed header.remaining (header_len - cursor.consumed) (n - header_len) cursor
          (omega (arith, e, h)) agreed,
      rest,
    )

-- A segment file whose header has the mark of the byte that the record goes on with is agreed to,
-- and the cursor knows no less.
pub disagrees_not :
    (total header_len limit c : ℕ) (cursor : Cursor) (header : SegmentHeader)
    → Within total header_len limit c cursor
    → limit ≤ total
    → header_len ≤ total
    → total < 2 ^ 64
    → data_header_len_in header.format header.minor ≡ header_len
    → header.remaining ≡ mark total c
    → (after : Cursor) × (disagrees cursor header ≡ (false, after))
      × Within total header_len limit c after
disagrees_not total header_len limit zero cursor header w le le' lt same rem =
    (cursor, disagrees_start cursor header w.consumed_same rem, w)
disagrees_not total header_len limit (suc c) cursor header w le le' lt same rem =
    known cursor.total refl w.knows
  where
    known :
        (o : Option ℕ)
        → cursor.total ≡ o
        → Knows total header_len limit o
        → (after : Cursor) × (disagrees cursor header ≡ (false, after))
          × Within total header_len limit (suc c) after
    known (some n) e k = (
      cursor,
      disagrees_known cursor header c n w.consumed_same e (omega (arith, rem, k.0))
          (omega (arith, w.within, k.0, k.1)) (omega (arith, lt, k.0)),
      w,
    )
    known none e k = (
      record cursor { implied_payload = some (total - header_len) },
      disagrees_implied cursor header c total header_len w.consumed_same e same rem
          (omega (arith, w.within, k)) le' w.agreed,
      record { consumed_same = w.consumed_same; within = w.within; knows = w.knows; agreed = refl },
    )
