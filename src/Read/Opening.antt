-- ===== src/Read/Opening.antt =====
-- Opening a segment file never fails, and what it opens can be read.
use tcslog.Prelude.{
  ℕ, ◌≤◌, ◌≡◌, refl, ◌∙◌, arith, Option, none, some, List, ltb, ◌==◌, ==_iff, inl, inr, Bool-cases,
}
use tcslog.Error.{Result, ok, err, stuck}
use tcslog.Exec.Post.{
  Ensures, Ensures-pure, Ensures-on_error, Ensures-gets_bind, Ensures-if, Ensures-zoom,
}
use tcslog.Fs.{Text, World, Io}
use tcslog.Fs.Ends.{IsIo, open_file_ends, file_len_ends, read_exact-length}
use tcslog.SegId.{SegId}
use tcslog.Header.{SegmentHeader, segment_file_header_len, from_bytes}
use tcslog.Names.{build_name}
use tcslog.Read.{Segment, Reader, io}
use tcslog.Read.Open.{validated, open_validated}
use tcslog.Read.Sound.{IsSound}

-- What an operation on the file system leaves of a reader: all but the world.
pub record SameBut (s t : Reader) : Type 0 where
  pub log_same : t.log ≡ s.log
  pub cursor_same : t.cursor ≡ s.cursor
  pub dst_same : t.dst ≡ s.dst

pub SameBut-trans : {s t u : Reader} → SameBut s t → SameBut t u → SameBut s u
SameBut-trans h k = record {
  log_same = k.log_same ∙ h.log_same;
  cursor_same = k.cursor_same ∙ h.cursor_same;
  dst_same = k.dst_same ∙ h.dst_same;
}

pub io_ensures :
    {A : Type 0} {P : A → World → Type 0} (m : Io A) (s : Reader)
    → Ensures m s.world P IsIo
    → Ensures (io m) s (λ a t. SameBut s t × P a t.world) (λ e t. SameBut s t × IsIo e t.world)
io_ensures m s h =
    Ensures-zoom _ _ s h
      (λ a w p. (record { log_same = refl; cursor_same = refl; dst_same = refl }, p))
      (λ e w q. (record { log_same = refl; cursor_same = refl; dst_same = refl }, q))

-- What opening a segment file hands over: a sound one of that identifier, or none.
abbrev pub Opened : SegId → Option Segment → Type 0
Opened id none = Unit
Opened id (some seg) = IsSound seg × (seg.id ≡ id) × (seg.pos ≡ 0)

validated-Opened :
    (id : SegId) (name : List ℕ) (len : ℕ) (r : Result SegmentHeader)
    → segment_file_header_len ≤ len
    → Opened id (validated id name len r)
unfolding validated
validated-Opened id name len (ok header) h = elim (Bool-cases (header.segment_id == id)) [
  | inr e ↦ rw e tt
  | inl e ↦ (elim (Bool-cases (ltb header.max_size len)) [
    | inl e' ↦ rw (e, e') tt
    | inr e' ↦
        rw (e, e')
          (
            record { named = (==_iff _ _).0 e; fits = ground arith; within = omega arith },
            refl,
            refl,
          )
  ])
]
validated-Opened id name len (err e) h = tt
validated-Opened id name len stuck h = tt

-- Opening a segment file never fails, whatever the file system does. Either there is none, or its
-- header names the identifier, it is no longer than its header allows, and it is read from its
-- start. No part of the reader but the world changes.
pub open_validated-Opened :
    (id : SegId) (s : Reader)
    → Ensures (open_validated id) s (λ o t. SameBut s t × Opened id o) (λ e t. ⊥)
unfolding open_validated
open_validated-Opened id s =
    let name : Text = build_name s.prefix id s.suffix in
    Ensures-gets_bind _ _ s (
      Ensures-on_error (io_ensures _ s (open_file_ends name s.world))
        (λ e t h. Ensures-pure none t (h.0, tt))
        λ a t h.
          Ensures-on_error (io_ensures _ t (file_len_ends name t.world))
            (λ e u k. Ensures-pure none u (SameBut-trans h.0 k.0, tt))
            λ len u k.
              Ensures-if (ltb len segment_file_header_len) _ _ u
                (λ short. Ensures-pure none u (SameBut-trans h.0 k.0, tt))
                λ long.
                  Ensures-on_error
                    (io_ensures _ u (read_exact-length name 0 segment_file_header_len u.world))
                    (λ e v l. Ensures-pure none v (SameBut-trans (SameBut-trans h.0 k.0) l.0, tt))
                    λ bytes v l. Ensures-pure (validated id name len (from_bytes bytes)) v (
                      SameBut-trans (SameBut-trans h.0 k.0) l.0,
                      validated-Opened id name len (from_bytes bytes) (ground (arith, long)),
                    ))
