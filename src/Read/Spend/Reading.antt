-- ===== src/Read/Spend/Reading.antt =====
-- The measure of a reader across `read`.
use tcslog.Prelude.{
  ℕ, ◌+◌, ◌-◌, ◌≤◌, ◌<◌, ◌≡◌, refl, arith, Bool, true, false, ◌&&◌, Option, none, some, inl, inr,
  ◌⊎◌, ltb, min, if◌then◌else◌, u32_max,
}
use tcslog.Error.{LogError, eof}
use tcslog.Exec.{◌>>=◌}
use tcslog.Exec.Post.{Ensures, Ensures-weaken}
use tcslog.Exec.Partial.{
  Keeps, Keeps-pure, Keeps-raise, Keeps-bind, Keeps-on_error, Keeps-gets_bind, Keeps-modify_bind,
  Keeps-if, Ensures-Keeps, Keeps-weaken,
}
use tcslog.Format.{Meta}
use tcslog.Read.{Segment, Reader, Start, ReadResult, exhausted, lose_position}
use tcslog.Read.Record.{decode_header, read_payload, read_body, read, is_empty, is_none}
use tcslog.Read.Sound.{OpenSound}
use tcslog.Read.Total.{Delivered, Reported, read-Delivered}
use tcslog.Read.Spend.{
  backlog, unread, cost, Framed, Pays, Kept, reframe, weaken-Gone, ahead, OpenPays, cost-Framed,
  Kept-OpenPays,
}
use tcslog.Read.Spend.Middle.{Mid}
use tcslog.Read.Spend.Filling.{fill-Mid, skip-Mid}
use tcslog.Read.Spend.Resuming.{
  Failed, lose_position-Failed, guarded-Failed, Resumed, resynchronize-Resumed,
  decode_header-Headed,
}

-- A read that returns.
record Lessened (r : Reader) (n : ℕ) (t : Reader) : Type 0 where
  pub kept : Kept r t
  pub less : cost r t < n

read_payload-Lessened :
    (r : Reader) (k n buf_len payload_len : ℕ) (meta : Meta) (s : Reader)
    → Mid r k s
    → cost r s ≤ n
    → cost r s < n + payload_len
    → Keeps (read_payload buf_len payload_len meta) s (λ _ t. Lessened r n t) (Failed r n)
unfolding read_payload unread
read_payload-Lessened r k n buf_len payload_len meta s m le lt =
    let got : ℕ = min payload_len buf_len in
    Keeps-bind
      (guarded-Failed r n (
        Keeps-weaken (fill-Mid r k got s m) (λ a t x. x)
          (λ e t x. weaken-Gone r (cost r s) n e t le x)))
      (λ e t x. x)
      λ u t x.
        Keeps-if (ltb buf_len payload_len) _ _ t
          (λ longer.
            Keeps-on_error (skip-Mid r k (payload_len - buf_len) t x.0)
              (λ e v y. Keeps-modify_bind _ _ v (
                Keeps-raise _ _ (record {
                  kept = record { framed = reframe y.framed refl refl refl; pays = tt };
                  spent = inr (omega (arith, y.spent, x.1, le));
                })))
              (λ a v y.
                Keeps-raise _ v
                  (record { kept = y.0.kept; spent = inr (ground (arith, longer, y.1, x.1, lt)) })))
          (λ whole.
            Keeps-pure _ t (record { kept = x.0.kept; less = ground (arith, whole, x.1, lt) }))

read_body-Lessened :
    (r : Reader) (k n buf_len : ℕ) (p : ℕ × Meta) (s : Reader)
    → Mid r k s
    → cost r s ≤ n
    → cost r s < n + p.0
    → Keeps (read_body buf_len p) s (λ _ t. Lessened r n t) (Failed r n)
unfolding read_body
read_body-Lessened r k n buf_len p s m le lt = Keeps-modify_bind _ _ s (
    Keeps-modify_bind _ _ _ (
      read_payload-Lessened r k n buf_len p.0 p.1 _
        (record {
          kept = record { framed = reframe m.kept.framed refl refl refl; pays = m.kept.pays };
          is_open = m.is_open;
          room = m.room;
          implied = m.implied;
        })
        le lt))

resume-Lessened :
    (r : Reader) (n buf_len : ℕ) (start : Start) (o : Option Segment) (s : Reader)
    → Resumed r n start s
    → s.current ≡ o
    → Keeps {A = ReadResult}
        (elim o [
          | none ↦ lose_position eof
          | some segment ↦ (decode_header start segment >>= read_body buf_len)
        ])
        s
        (λ _ t. Lessened r n t)
        (Failed r n)
resume-Lessened r n buf_len start none s h e =
    lose_position-Failed r n eof s h.mid.kept.framed (inl refl)
resume-Lessened r n buf_len start (some seg) s h e =
    let k : ℕ = backlog r s.pending in
    Keeps-bind
      (decode_header-Headed r k n start seg s h.mid (omega (arith, h.mid.is_open)) h.in_time e)
      (λ x t y. y) λ p t y. read_body-Lessened r k n buf_len p t y.0 y.1 y.2

open_current :
    (resync : Bool) (o : Option Segment)
    → (if is_none o then true else resync) ≡ false
    → 2 ≤ unread o
unfolding unread
open_current resync none e = absurd (cc e)
open_current resync (some seg) e = omega arith

read-Lessened :
    (buf_len : ℕ) (s : Reader)
    → Pays s s.current
    → Keeps (read buf_len) s (λ _ t. Lessened s (cost s s) t) (Failed s (cost s s))
unfolding read
read-Lessened buf_len s pays =
    let framed : Framed s s = record {
      files_same = refl;
      prefix_same = refl;
      suffix_same = refl;
    } in
    Keeps-gets_bind _ _ s (
      Keeps-if (is_empty s.pending && exhausted s.log) _ _ s
        (λ finished. Keeps-modify_bind _ _ s (
          Keeps-raise eof _ (record {
            kept = record { framed = reframe framed refl refl refl; pays = tt };
            spent = inl refl;
          })))
        (λ more. Keeps-modify_bind _ _ s (
          Keeps-modify_bind _ _ _ (
            Keeps-bind
              (resynchronize-Resumed s _
                (record { framed = reframe framed refl refl refl; pays = pays })
                (open_current s.resync s.current) refl)
              (λ e t x. x)
              λ start t x.
                Keeps-gets_bind _ _ t
                  (resume-Lessened s (cost s s) buf_len start t.current t x refl)))))

-- How a read that returns leaves the reader, and one that fails.
pub record Nearer (buf_len : ℕ) (s : Reader) (result : ReadResult) (t : Reader) : Type 0 where
  pub delivered : Delivered buf_len result t
  pub pays : OpenPays t
  pub less : ahead t < ahead s

pub record Faltered (buf_len : ℕ) (s : Reader) (e : LogError) (t : Reader) : Type 0 where
  pub reported : Reported buf_len e t
  pub pays : OpenPays t
  pub less : (e ≡ eof) ⊎ (ahead t < ahead s)

-- From any reader whose open segment file, if there is one, is sound and no longer than its file,
-- whatever the files hold and whatever operations on them fail, a read into a buffer of no more
-- than `u32::MAX` bytes ends and leaves the reader so again. It reports the end of the log, or the
-- reader has strictly less ahead of it than before, whether the read returned or failed.
pub read-Nearer :
    (buf_len : ℕ) (s : Reader)
    → buf_len ≤ u32_max
    → OpenSound s.log.current
    → OpenPays s
    → Ensures (read buf_len) s (Nearer buf_len s) (Faltered buf_len s)
unfolding ahead
read-Nearer buf_len s small sound pays =
    Ensures-weaken
      (Ensures-Keeps (read-Delivered buf_len s small sound) (read-Lessened buf_len s pays))
      (λ result t x. record {
        delivered = x.0;
        pays = Kept-OpenPays s t x.1.kept;
        less = omega (arith, x.1.less, cost-Framed s t x.1.kept.framed);
      })
      (λ e t x. record {
        reported = x.0;
        pays = Kept-OpenPays s t x.1.kept;
        less = elim x.1.spent [
          | inl y ↦ inl y
          | inr y ↦ inr (omega (arith, y, cost-Framed s t x.1.kept.framed))
        ];
      })
