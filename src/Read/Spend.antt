-- ===== src/Read/Spend.antt =====
-- What a reader, the `LogRead` of tcslog/src/read.rs, still has to go through: the segment files
-- pending, with all that is in them, what is unread of the open one, and the session being read.
pub mod Opening
pub mod Searching
pub mod Finding
pub mod Crossing
pub mod Middle
pub mod Filling
pub mod Heading
pub mod Resuming
pub mod Reading
use tcslog.Prelude.{
  ℕ, suc, ◌+◌, ◌-◌, ◌≤◌, ◌<◌, ◌≡◌, refl, sym, ap, subst, ◌∙◌, arith, Option, none, some, List, [],
  ◌∷◌, length,
}
use tcslog.Error.{LogError}
use tcslog.Fs.{Text, content}
use tcslog.SegId.{SegId}
use tcslog.Format.{shortest}
use tcslog.Names.{build_name}
use tcslog.Read.{Segment, Reader}

-- How many bytes are in the segment file with that identifier.
unfoldable pub size : Reader → SegId → ℕ
unfolding content
size r id = length (content (build_name r.prefix id r.suffix) r.world)

-- A segment file that is pending: it may be opened, and handed back.
abbrev pub weight : Reader → SegId → ℕ
weight r id = 4 + size r id

unfoldable pub backlog : Reader → List SegId → ℕ
backlog r [] = 0
backlog r (id ∷ rest) = weight r id + backlog r rest

unfoldable pub unread : Option Segment → ℕ
unread none = 0
unread (some seg) = 2 + (seg.data_len - seg.pos)

unfoldable pub in_session : Option SegId → ℕ
in_session none = 0
in_session (some id) = 1

-- What is left of a reader that gives up its segment file.
abbrev pub left_over : Reader → Reader → ℕ
left_over r s = backlog r s.pending + in_session s.session

abbrev pub cost : Reader → Reader → ℕ
cost r s = left_over r s + unread s.current

-- The files are those that the reader `r` has before it.
pub record Framed (r s : Reader) : Type 0 where
  pub files_same : s.world.files ≡ r.world.files
  pub prefix_same : s.prefix ≡ r.prefix
  pub suffix_same : s.suffix ≡ r.suffix

-- The open segment file has no more data than its file has bytes, and no record takes no byte.
abbrev pub Pays : Reader → Option Segment → Type 0
Pays r none = Unit
Pays r (some seg) = (seg.data_len ≤ size r seg.id) × (0 < shortest seg.header.format)

pub record Kept (r s : Reader) : Type 0 where
  pub framed : Framed r s
  pub pays : Pays r s.current

pub size-Framed : (r s : Reader) (id : SegId) → Framed r s → size s id ≡ size r id
unfolding size
size-Framed r s id h = rw (h.files_same, h.prefix_same, h.suffix_same) refl

pub in_session_le : (o : Option SegId) → in_session o ≤ 1
unfolding in_session
in_session_le o = ground arith

-- What the open segment file was when it was pending.
unfoldable pub held : Reader → Option Segment → ℕ
held r none = 0
held r (some seg) = weight r seg.id

-- Opening a segment file costs less than having it pending, by more than a session.
pub unread-held :
    (r : Reader) (o : Option Segment) → Pays r o → 2 ≤ unread o → unread o + 2 ≤ held r o
unfolding unread held
unread-held r none h k = absurd (omega (arith, k))
unread-held r (some seg) h k = omega (arith, h.0)

-- A step on the rest of the reader leaves the files as they were.
pub reframe :
    {r s t : Reader}
    → Framed r s
    → t.world.files ≡ s.world.files
    → t.prefix ≡ s.prefix
    → t.suffix ≡ s.suffix
    → Framed r t
reframe h e e' e'' = record {
  files_same = e ∙ h.files_same;
  prefix_same = e' ∙ h.prefix_same;
  suffix_same = e'' ∙ h.suffix_same;
}

-- A step that fails leaves less than `n` once the segment file is given up.
pub record Gone (r : Reader) (n : ℕ) (e : LogError) (t : Reader) : Type 0 where
  pub framed : Framed r t
  pub spent : left_over r t < n

pub weaken-Gone :
    (r : Reader) (m n : ℕ) (e : LogError) (t : Reader) → m ≤ n → Gone r m e t → Gone r n e t
weaken-Gone r m n e t le h = record { framed = h.framed; spent = omega (arith, h.spent) }

-- All that a reader has ahead of it, and an open segment file of which all can be read.
unfoldable pub ahead : Reader → ℕ
ahead s = cost s s

abbrev pub OpenPays : Reader → Type 0
OpenPays s = Pays s s.current

backlog-Framed : (r s : Reader) (ids : List SegId) → Framed r s → backlog s ids ≡ backlog r ids
unfolding backlog
backlog-Framed r s [] h = refl
backlog-Framed r s (id ∷ rest) h = omega (arith, size-Framed r s id h, backlog-Framed r s rest h)

pub cost-Framed : (r s : Reader) → Framed r s → ahead s ≡ cost r s
unfolding ahead
cost-Framed r s h = omega (arith, backlog-Framed r s s.pending h)

Pays-Framed : (r s : Reader) (o : Option Segment) → Framed r s → Pays r o → Pays s o
Pays-Framed r s none h p = tt
Pays-Framed r s (some seg) h p = (omega (arith, size-Framed r s seg.id h, p.0), p.1)

pub Kept-OpenPays : (r s : Reader) → Kept r s → OpenPays s
Kept-OpenPays r s h = Pays-Framed r s s.current h.framed h.pays
