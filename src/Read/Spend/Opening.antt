-- ===== src/Read/Spend/Opening.antt =====
-- The measure of a reader across `open_validated`.
use tcslog.Prelude.{
  ℕ, ◌≤◌, ◌<◌, ◌≡◌, refl, ap, ◌∙◌, arith, Option, none, some, List, ltb, length, ◌==◌, inl, inr,
  Bool-cases,
}
use tcslog.Error.{Result, ok, err, stuck}
use tcslog.Exec.Post.{
  Ensures, Ensures-pure, Ensures-on_error, Ensures-gets_bind, Ensures-if, Ensures-zoom,
}
use native.Mathlib.Nat.{le_of_eq}
use tcslog.Fs.{Text, World, Io, content, file_len}
use tcslog.Fs.Frame.{Unchanged, open_file-Unchanged, file_len-Unchanged, read_exact-Unchanged}
use tcslog.SegId.{SegId}
use tcslog.Format.{shortest}
use tcslog.Header.{SegmentHeader, segment_file_header_len, from_bytes}
use tcslog.Header.RoundTrip.{from_bytes-shortest}
use tcslog.Names.{build_name}
use tcslog.Read.{Segment, LogRead, Reader, io}
use tcslog.Read.Open.{validated, open_validated}
use tcslog.Read.Opening.{SameBut, SameBut-trans}
use tcslog.Read.Spend.{size, Framed, Pays}

-- A step that changes neither the reader nor a file.
pub record Same (s t : Reader) : Type 0 where
  pub but : SameBut s t
  pub files_same : t.world.files ≡ s.world.files

Same-trans : {s t u : Reader} → Same s t → Same t u → Same s u
Same-trans h k = record {
  but = SameBut-trans h.but k.but;
  files_same = k.files_same ∙ h.files_same;
}

pub Same-Framed : {r s t : Reader} → Same s t → Framed r s → Framed r t
Same-Framed h f = record {
  files_same = h.files_same ∙ f.files_same;
  prefix_same = ap (λ (l : LogRead). l.prefix) h.but.log_same ∙ f.prefix_same;
  suffix_same = ap (λ (l : LogRead). l.suffix) h.but.log_same ∙ f.suffix_same;
}

pub io-Same :
    {A : Type 0} (m : Io A) (s : Reader)
    → Ensures m s.world (Unchanged s.world) (Unchanged s.world)
    → Ensures (io m) s (λ a t. Same s t) (λ e t. Same s t)
io-Same m s h =
    Ensures-zoom _ _ s h
      (λ a w p. record {
        but = record { log_same = refl; cursor_same = refl; dst_same = refl };
        files_same = p;
      })
      (λ e w q. record {
        but = record { log_same = refl; cursor_same = refl; dst_same = refl };
        files_same = q;
      })

-- What opening hands over: a segment file at its start, of which all can be read, or none.
abbrev pub Fresh : Reader → SegId → Option Segment → Type 0
Fresh r id none = Unit
Fresh r id (some seg) = (seg.id ≡ id) × (seg.pos ≡ 0) × Pays r (some seg)

validated-Fresh :
    (r : Reader) (id : SegId) (name : List ℕ) (len : ℕ) (header : Result SegmentHeader)
    → len ≤ size r id
    → ((h : SegmentHeader) → header ≡ ok h → 0 < shortest h.format)
    → Fresh r id (validated id name len header)
unfolding validated
validated-Fresh r id name len (ok header) le pays = elim (Bool-cases (header.segment_id == id)) [
  | inr e ↦ rw e tt
  | inl e ↦ (elim (Bool-cases (ltb header.max_size len)) [
    | inl e' ↦ rw (e, e') tt
    | inr e' ↦ rw (e, e') (refl, refl, (omega (arith, le), pays header refl))
  ])
]
validated-Fresh r id name len (err e) le pays = tt
validated-Fresh r id name len stuck le pays = tt

content_same : (name : Text) (v w : World) → w.files ≡ v.files → content name w ≡ content name v
unfolding content
content_same name v w e = rw e refl

file_len-Same :
    (id : SegId) (r s : Reader)
    → Same r s
    → Ensures
        (io (file_len (build_name r.prefix id r.suffix)))
        s
        (λ n t. Same r t × (n ≤ size r id))
        (λ e t. Same r t)
unfolding size
file_len-Same id r s h =
    let name : Text = build_name r.prefix id r.suffix in
    Ensures-zoom _ _ s (file_len-Unchanged name s.world)
      (λ n w p. (
        record {
          but =
              SameBut-trans h.but (record { log_same = refl; cursor_same = refl; dst_same = refl });
          files_same = p.0 ∙ h.files_same;
        },
        le_of_eq
            (p.1 ∙ ap (λ (l : List ℕ). length l) (content_same name r.world s.world h.files_same)),
      ))
      (λ e w q. record {
        but = SameBut-trans h.but (record { log_same = refl; cursor_same = refl; dst_same = refl });
        files_same = q ∙ h.files_same;
      })

-- Opening a segment file changes no file, and the one that it opens is at its start, has no more
-- data than there are bytes in the file, and has no record that takes no byte.
pub open_validated-Fresh :
    (id : SegId) (s : Reader)
    → Ensures (open_validated id) s (λ o t. Same s t × Fresh s id o) (λ e t. ⊥)
unfolding open_validated
open_validated-Fresh id s =
    let name : Text = build_name s.prefix id s.suffix in
    Ensures-gets_bind _ _ s (
      Ensures-on_error (io-Same _ s (open_file-Unchanged name s.world))
        (λ e t h. Ensures-pure none t (h, tt))
        λ a t h.
          Ensures-on_error (file_len-Same id s t h) (λ e u k. Ensures-pure none u (k, tt))
            λ len u k.
              Ensures-if (ltb len segment_file_header_len) _ _ u
                (λ short. Ensures-pure none u (k.0, tt))
                λ long.
                  Ensures-on_error
                    (io-Same _ u (read_exact-Unchanged name 0 segment_file_header_len u.world))
                    (λ e v l. Ensures-pure none v (Same-trans k.0 l, tt))
                    λ bytes v l. Ensures-pure (validated id name len (from_bytes bytes)) v (
                      Same-trans k.0 l,
                      validated-Fresh s id name len (from_bytes bytes) k.1
                          (λ h e. from_bytes-shortest bytes h e),
                    ))
