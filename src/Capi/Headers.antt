-- ===== src/Capi/Headers.antt =====
-- The headers taken by the sixteen are those taken at once.
use tcslog.Prelude.{
  ℕ, zero, suc, ◌+◌, ◌-◌, ◌≤◌, ◌≡◌, refl, sym, ap, ◌∙◌, arith, false, inl, inr, Bool-cases, some,
  List, [], ◌∷◌, ◌++◌, append_assoc, append-nil, map, length, length-append, length-take, take,
  drop, take_all, drop_all, take-take-drop, drop-drop, min, ltb,
}
use tcslog.Header.{SegmentHeader}
use tcslog.Read.{LogRead, take_opened_headers_into}
use tcslog.Capi.Status.{TcslogStatus}
use tcslog.Capi.{TcslogSegmentHeader, segment_header}
use tcslog.Capi.Reading.{chunk_len, take_loop, tcslog_read_take_opened_headers}

length-map : {A B : Type 0} (f : A → B) (xs : List A) → length (map f xs) ≡ length xs
length-map f [] = refl
length-map f (x ∷ xs) = ap suc (length-map f xs)

map-append : {A B : Type 0} (f : A → B) (xs ys : List A) → map f (xs ++ ys) ≡ map f xs ++ map f ys
map-append f [] ys = refl
map-append f (x ∷ xs) ys = ap (λ t. f x ∷ t) (map-append f xs ys)

take-min : {A : Type 0} (n : ℕ) (xs : List A) → take (min n (length xs)) xs ≡ take n xs
take-min n xs = elim (Bool-cases (ltb n (length xs))) [
  | inl less ↦ (let same : min n (length xs) ≡ n = ground (arith, less) in rw same)
  | inr all ↦
      (let same : min n (length xs) ≡ length xs = ground (arith, all) in
        rw same (take_all (length xs) xs (omega arith) ∙ sym (take_all n xs (ground (arith, all)))))
]

drop-min : {A : Type 0} (n : ℕ) (xs : List A) → drop (min n (length xs)) xs ≡ drop n xs
drop-min n xs = elim (Bool-cases (ltb n (length xs))) [
  | inl less ↦ (let same : min n (length xs) ≡ n = ground (arith, less) in rw same)
  | inr all ↦
      (let same : min n (length xs) ≡ length xs = ground (arith, all) in
        rw same (drop_all (length xs) xs (omega arith) ∙ sym (drop_all n xs (ground (arith, all)))))
]

-- What `n` entries of the queue give, placed after what is there.
abbrev taken : ℕ → List TcslogSegmentHeader → LogRead → List TcslogSegmentHeader × LogRead
taken n placed l = (
  placed ++ map segment_header (take n l.opened_headers),
  record l { opened_headers = drop n l.opened_headers },
)

taken-taken :
    (m n : ℕ) (placed : List TcslogSegmentHeader) (l : LogRead)
    → taken n (taken m placed l).0 (taken m placed l).1 ≡ taken (m + n) placed l
taken-taken m n placed l = rw (
  append_assoc placed (map segment_header (take m l.opened_headers))
      (map segment_header (take n (drop m l.opened_headers))),
  ← (map-append segment_header (take m l.opened_headers) (take n (drop m l.opened_headers))),
  take-take-drop m n l.opened_headers,
  drop-drop n m l.opened_headers,
)

taken_all :
    (m n : ℕ) (placed : List TcslogSegmentHeader) (l : LogRead)
    → length l.opened_headers ≤ m
    → length l.opened_headers ≤ n
    → taken m placed l ≡ taken n placed l
taken_all m n placed l h k = rw (
  take_all m l.opened_headers h,
  take_all n l.opened_headers k,
  drop_all m l.opened_headers h,
  drop_all n l.opened_headers k,
)

take_opened_headers_into-taken :
    (want : ℕ) (placed : List TcslogSegmentHeader) (l : LogRead)
    → (
      placed ++ map segment_header (take_opened_headers_into want l).0,
      (take_opened_headers_into want l).1,
    )
      ≡ taken want placed l
unfolding take_opened_headers_into
take_opened_headers_into-taken want placed l =
    rw (take-min want l.opened_headers, drop-min want l.opened_headers)

length-take_opened_headers_into :
    (want : ℕ) (l : LogRead)
    → length (take_opened_headers_into want l).0 ≡ min want (length l.opened_headers)
unfolding take_opened_headers_into
length-take_opened_headers_into want l =
    omega (arith, length-take (min want (length l.opened_headers)) l.opened_headers)

-- One round, and then the rest of what is asked for.
round-taken :
    (want more : ℕ) (placed : List TcslogSegmentHeader) (l : LogRead)
    → taken more
        (placed ++ map segment_header (take_opened_headers_into want l).0)
        (take_opened_headers_into want l).1
      ≡ taken (want + more) placed l
round-taken want more placed l =
    ap (λ (p : List TcslogSegmentHeader × LogRead). taken more p.0 p.1)
      (take_opened_headers_into-taken want placed l)
    ∙ taken-taken want more placed l

-- The loop takes as many entries as are asked for.
take_loop-taken :
    (fuel room : ℕ) (placed : List TcslogSegmentHeader) (l : LogRead)
    → room - length placed ≤ fuel
    → take_loop fuel room placed l ≡ taken (room - length placed) placed l
unfolding take_loop
take_loop-taken zero room placed l h =
    let none_left : room - length placed ≡ 0 = omega arith in rw (none_left, append-nil placed)
take_loop-taken (suc fuel) room placed l h = elim (Bool-cases (ltb (length placed) room)) [
  | inl more ↦
      (let left : ℕ = room - length placed in
        let want : ℕ = min left chunk_len in
        let got : List SegmentHeader = (take_opened_headers_into want l).0 in
        let l' : LogRead = (take_opened_headers_into want l).1 in
        let counted = length-take_opened_headers_into want l in
        let grown : length (placed ++ map segment_header got) ≡ length placed + length got =
          length-append placed (map segment_header got)
          ∙ ap (λ (k : ℕ). length placed + k) (length-map segment_header got) in
        elim (Bool-cases (ltb (length got) want)) [
          | inl short ↦
              rw (take_loop, more, short)
                (take_opened_headers_into-taken want placed l
                  ∙ taken_all want left placed l (ground (arith, short, counted))
                      (ground (arith, short, counted)))
          | inr full ↦
              (let as_many : length got ≡ want = ground (arith, full, counted) in
                let rest : room - length (placed ++ map segment_header got) ≡ left - want =
                  omega (arith, grown, as_many) in
                let whole : want + (left - want) ≡ left = omega arith in
                rw (take_loop, more, full)
                  (take_loop-taken fuel room (placed ++ map segment_header got) l'
                      (ground (arith, rest, more))
                    ∙ ap (λ (n : ℕ). taken n (placed ++ map segment_header got) l') rest
                    ∙ round-taken want (left - want) placed l
                    ∙ ap (λ (n : ℕ). taken n placed l) whole))
        ])
  | inr done ↦
      (let none_left : room - length placed ≡ 0 = ground (arith, done) in
        rw (take_loop, done, none_left, append-nil placed))
]

-- With handles and pointers that are not null, the call moves the oldest `room` headers, or all of
-- them where they are fewer, into the caller's entries, oldest first, tells how many they are, and
-- leaves the others in the reader in their order.
pub tcslog_read_take_opened_headers-taken :
    (room n : ℕ) (l : LogRead)
    → tcslog_read_take_opened_headers false room (some n) (some l) ≡ (
      TcslogStatus.ok,
      map segment_header (take room l.opened_headers),
      some (min room (length l.opened_headers)),
      some (record l { opened_headers = drop room l.opened_headers }),
    )
unfolding tcslog_read_take_opened_headers
tcslog_read_take_opened_headers-taken room n l =
    let whole : room - 0 ≡ room = omega arith in
    let at_once : take_loop room room [] l ≡ taken room [] l =
      take_loop-taken room room [] l (omega arith) ∙ ap (λ (k : ℕ). taken k [] l) whole in
    let count : length (map segment_header (take room l.opened_headers))
        ≡ min room (length l.opened_headers) =
      length-map segment_header (take room l.opened_headers) ∙ length-take room l.opened_headers in
    rw at_once (
      ap
        (λ (k : ℕ). (
          TcslogStatus.ok,
          map segment_header (take room l.opened_headers),
          some k,
          some (record l { opened_headers = drop room l.opened_headers }),
        ))
        count)
