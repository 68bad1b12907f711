-- ===== src/Read/Stream/Filling.antt =====
-- `fill`, at a place of the stream.
use tcslog.Prelude.{
  ℕ, zero, suc, ◌+◌, ◌-◌, ◌^◌, ◌≤◌, ◌<◌, ◌≡◌, refl, ap, sym, subst, ◌∙◌, arith, Option, List, [],
  ◌∷◌, ◌++◌, length, take, drop, min, append_assoc, take-append-drop, drop-append, length-drop,
  length-take, append-nil, inl, inr, Bool-cases,
}
use tcslog.Exec.Run.{
  Runs, skip-Runs, bind-Runs, gets-Runs, modify-Runs, then-Runs, else-Runs, zoom-Runs,
}
use tcslog.Fs.{World, content}
use tcslog.Fs.{read_exact}
use tcslog.Fs.Working.{read_exact-Runs}
use tcslog.Format.{Format, data_header_len_in}
use tcslog.SegId.{SegId}
use tcslog.Read.{Segment, Reader, Reads, exhausted}
use tcslog.Read.Filling.{not_exhausted}
use tcslog.Read.Fill.{cross_if_exhausted, fill_from, fill_loop, fill}
use tcslog.Read.Stream.{mark, marked, Marked, At}
use tcslog.Read.Stream.Marks.{length-marked, drop-marked}
use tcslog.Read.Stream.Taking.{At-same, filled, filled-At, next_bytes}
use tcslog.Read.Stream.Crossing.{InRecord, Steps, Crosses, cross-Crosses}

module _ (home : Reader) (session : SegId) (format : Format) (minor : ℕ)
    (works : home.world.outcomes ≡ []) (total header_len limit : ℕ)
    (len_same : data_header_len_in format minor ≡ header_len) (header_le : header_len ≤ total)
    (limit_le : limit ≤ total) (total_lt : total < 2 ^ 64) where
  abbrev Here : List Marked → ℕ → Reader → Type 0
  Here =
      InRecord home session format minor works total header_len limit len_same header_le limit_le
        total_lt

  abbrev To : Reads (Unit {0}) → Reader → List Marked → ℕ → List ℕ → Type 0
  To =
      Steps home session format minor works total header_len limit len_same header_le limit_le
        total_lt

  filled-Here :
      (bs bytes : List ℕ) (c : ℕ) (more : List Marked) (s : Reader)
      (h : Here (marked total c bs ++ more) c s)
      → length bytes ≤ h.at.seg.data_len - h.at.seg.pos
      → length bytes ≤ length bs
      → c + length bytes ≤ limit
      → Here
          (marked total (c + length bytes) (drop (length bytes) bs) ++ more)
          (c + length bytes)
          (filled h.at.seg bytes s)
  filled-Here bs bytes c more s h le le' lim =
      let n : ℕ = length bytes in
      let place : drop n (marked total c bs ++ more) ≡ marked total (c + n) (drop n bs) ++ more =
        drop-append n (marked total c bs) more (omega (arith, le', length-marked total c bs))
        ∙ ap (λ (l : List Marked). l ++ more) (drop-marked total c n bs) in
      record {
        at =
            subst (λ (l : List Marked). At home session format minor l (filled h.at.seg bytes s))
              place (filled-At home session format minor _ s h.at bytes le);
        cursor_within = record {
          consumed_same = ap (λ (k : ℕ). k + n) h.cursor_within.consumed_same;
          within = lim;
          knows = h.cursor_within.knows;
          agreed = h.cursor_within.agreed;
        };
      }

  abbrev Goes : ℕ → (ℕ → Reads (Unit {0})) → Type 0
  Goes fuel next =
      (bs : List ℕ) (c : ℕ) (more : List Marked) (s : Reader)
      → Here (marked total c bs ++ more) c s
      → c + length bs ≤ limit
      → length bs + length s.pending < fuel
      → To (next (length bs)) s more (c + length bs) (s.dst ++ bs)

  fill_from-To :
      (fuel : ℕ) (next : ℕ → Reads (Unit {0})) (bs : List ℕ) (c : ℕ) (more : List Marked)
      (s : Reader) (h : Here (marked total c bs ++ more) c s)
      → Goes fuel next
      → c + length bs ≤ limit
      → (length bs - min (h.at.seg.data_len - h.at.seg.pos) (length bs)) + length s.pending < fuel
      → To (fill_from next (length bs) s.current) s more (c + length bs) (s.dst ++ bs)
  unfolding fill_from
  fill_from-To fuel next bs c more s h go lim room =
      let seg : Segment = h.at.seg in
      let n : ℕ = min (seg.data_len - seg.pos) (length bs) in
      let bytes : List ℕ = take n bs in
      let len : length bytes ≡ n = omega (arith, length-take n bs) in
      let later : Reader = filled seg bytes s in
      let here : Here (marked total (c + length bytes) (drop (length bytes) bs) ++ more)
          (c + length bytes) later =
        filled-Here bs bytes c more s h (omega (arith, len)) (omega (arith, len))
          (omega (arith, len, lim)) in
      let rest : To (next (length (drop (length bytes) bs))) later more
          (c + length bytes + length (drop (length bytes) bs))
          (later.dst ++ drop (length bytes) bs) =
        go (drop (length bytes) bs) (c + length bytes) more later here
          (omega (arith, len, lim, length-drop (length bytes) bs))
          (omega (arith, len, room, length-drop (length bytes) bs)) in
      let got : take n (drop seg.offset (content seg.name s.world)) ≡ bytes =
        next_bytes home session format minor bs total c n more s h.at (omega arith) (omega arith) in
      let reads : Runs (read_exact seg.name seg.offset n) s.world bytes s.world =
        subst (λ (l : List ℕ). Runs (read_exact seg.name seg.offset n) s.world l s.world) got
          (read_exact-Runs s.world (ap (λ (w : World). w.outcomes) h.at.settled.world_same ∙ works)
            seg.name seg.offset n (omega (arith, len, ap (λ (l : List ℕ). length l) got))) in
      let left : length (drop (length bytes) bs) ≡ length bs - n =
        omega (arith, len, length-drop (length bytes) bs) in
      record {
        after = rest.after;
        steps =
            subst (λ (o : Option Segment). Runs (fill_from next (length bs) o) s tt rest.after)
              (sym h.at.current_same)
              (bind-Runs _ (zoom-Runs _ _ reads) (
                modify-Runs _ _
                  (subst (λ (k : ℕ). Runs (next k) later tt rest.after) left rest.steps)));
        in_record =
            subst (λ (k : ℕ). Here more k rest.after)
              (let e : c + length bytes + length (drop (length bytes) bs) ≡ c + length bs =
                  omega (arith, len, length-drop (length bytes) bs) in
                e)
              rest.in_record;
        dst_same =
            rest.dst_same
            ∙ append_assoc s.dst bytes (drop (length bytes) bs)
            ∙ ap (λ (l : List ℕ). s.dst ++ l)
                (ap (λ (k : ℕ). bytes ++ drop k bs) len ∙ take-append-drop n bs);
      }

  -- The reader before a round, which has crossed into the next segment file if it had to.
  record Ready (bs : List ℕ) (c : ℕ) (more : List Marked) (fuel : ℕ) (s : Reader) : Type 0 where
    pub steps : To cross_if_exhausted s (marked total c bs ++ more) c s.dst
    pub room :
        (length bs - min (steps.in_record.at.seg.data_len - steps.in_record.at.seg.pos) (length bs))
          + length steps.after.pending
        < fuel

  cross_if_exhausted-Ready :
      (b : ℕ) (bs : List ℕ) (c fuel : ℕ) (more : List Marked) (s : Reader)
      → Here (marked total c (b ∷ bs) ++ more) c s
      → suc (length bs) + length s.pending < suc fuel
      → Ready (b ∷ bs) c more fuel s
  unfolding cross_if_exhausted
  cross_if_exhausted-Ready b bs c fuel more s h room = elim (Bool-cases (exhausted s.log)) [
    | inl done ↦
        let x : Crosses home session format minor works total header_len limit len_same header_le
            limit_le total_lt s (marked total c (b ∷ bs) ++ more) c =
          cross-Crosses home session format minor works total header_len limit len_same header_le
            limit_le total_lt (mark total c, b) (marked total (suc c) bs ++ more) c s h refl done in
        record {
          steps = record {
            after = x.steps.after;
            steps = gets-Runs _ _ (then-Runs _ _ _ done x.steps.steps);
            in_record = x.steps.in_record;
            dst_same = x.steps.dst_same;
          };
          room = omega (arith, x.fewer, room);
        }
    | inr more_here ↦ record {
      steps = record {
        after = s;
        steps = gets-Runs _ _ (else-Runs _ _ _ more_here (skip-Runs s));
        in_record = h;
        dst_same = refl;
      };
      room = omega (arith, not_exhausted s.log h.at.seg h.at.current_same more_here, room);
    }
  ]

  fill_loop-Goes : (fuel : ℕ) → Goes fuel (fill_loop fuel)
  unfolding fill_loop
  fill_loop-Goes fuel [] c more s h lim room = record {
    after = s;
    steps = skip-Runs s;
    in_record = subst (λ (k : ℕ). Here more k s) (let e : c ≡ c + 0 = omega arith in e) h;
    dst_same = sym (append-nil s.dst);
  }
  fill_loop-Goes zero (b ∷ bs) c more s h lim room = absurd (omega (arith, room))
  fill_loop-Goes (suc fuel) (b ∷ bs) c more s h lim room =
      let ready : Ready (b ∷ bs) c more fuel s =
        cross_if_exhausted-Ready b bs c fuel more s h room in
      let t : Reader = ready.steps.after in
      let round : To (fill_from (fill_loop fuel) (length (b ∷ bs)) t.current) t more
          (c + length (b ∷ bs)) (t.dst ++ (b ∷ bs)) =
        fill_from-To fuel (fill_loop fuel) (b ∷ bs) c more t ready.steps.in_record
          (fill_loop-Goes fuel) lim ready.room in
      record {
        after = round.after;
        steps = bind-Runs _ ready.steps.steps (gets-Runs _ _ round.steps);
        in_record = round.in_record;
        dst_same = round.dst_same ∙ ap (λ (l : List ℕ). l ++ (b ∷ bs)) ready.steps.dst_same;
      }

  -- Reading as many bytes as the record goes on with gives these bytes, whatever segment files they
  -- are spread over, and leaves the reader after them.
  pub fill-To :
      (bs : List ℕ) (c : ℕ) (more : List Marked) (s : Reader)
      → Here (marked total c bs ++ more) c s
      → c + length bs ≤ limit
      → To (fill (length bs)) s more (c + length bs) bs
  unfolding fill
  fill-To bs c more s h lim =
      let start : Reader = record s { dst = [] } in
      let loop : To (fill_loop (suc (length bs + length s.pending)) (length bs)) start more
          (c + length bs) bs =
        fill_loop-Goes _ bs c more start
          (record {
            at = At-same home session format minor _ s start refl refl refl h.at;
            cursor_within = h.cursor_within;
          })
          lim (omega arith) in
      record {
        after = loop.after;
        steps = modify-Runs _ _ (gets-Runs _ _ loop.steps);
        in_record = loop.in_record;
        dst_same = loop.dst_same;
      }
