-- ===== src/Read/Spend/Heading.antt =====
-- The measure of a reader across `read_data_header`.
use tcslog.Prelude.{
  ℕ, ◌+◌, ◌≤◌, ◌<◌, ◌≡◌, refl, sym, ◌∙◌, arith, not, Option, none, some, inl, inr, ◌==◌,
  if◌then◌else◌,
}
use tcslog.Exec.{pure, ◌>>◌}
use tcslog.Exec.Partial.{
  Keeps, Keeps-pure, Keeps-bind, Keeps-gets_bind, Keeps-modify_bind, Keeps-if,
}
use tcslog.Bytes.{from_le_bytes}
use tcslog.Format.{Format, Meta, shortest, data_header_len, data_header_len_in}
use tcslog.Read.{Reader, reject_current}
use tcslog.Read.Fill
use tcslog.Read.Fill.{settle_payload_len, read_data_header}
use tcslog.Read.Spend.{Gone, weaken-Gone, cost, reframe}
use tcslog.Read.Spend.Crossing.{reject_current-Gone}
use tcslog.Read.Spend.Middle.{Mid, Consumed}
use tcslog.Read.Spend.Filling.{fill-Mid}

ts_rc_len : (minor : ℕ) → 0 < data_header_len_in Format.variable_ts_rc minor
unfolding data_header_len_in data_header_len
ts_rc_len minor = ground arith

module _ (r : Reader) (k n : ℕ) (room : k + 1 < n) where
  settle-Mid :
      (decoded : ℕ) (s : Reader)
      → Mid r k s
      → Keeps
          (settle_payload_len decoded)
          s
          (λ p t. Consumed r k (cost r s) 0 t × (p ≡ decoded))
          (Gone r n)
  unfolding settle_payload_len
  settle-Mid decoded s m = Keeps-gets_bind _ _ s (agreed s.cursor.implied_payload refl)
    where
      agreed :
          (o : Option ℕ)
          → s.cursor.implied_payload ≡ o
          → Keeps
              (elim o [
                | none ↦ pure decoded
                | some n ↦ (if not (n == decoded) then reject_current 0 0 else pure decoded)
              ])
              s
              (λ p t. Consumed r k (cost r s) 0 t × (p ≡ decoded))
              (Gone r n)
      agreed none e = Keeps-pure decoded s ((m, omega arith), refl)
      agreed (some i) e =
          Keeps-if (not (i == decoded)) _ _ s
            (λ refused. elim m.implied [
              | inl x ↦ absurd (cc (sym x ∙ e))
              | inr x ↦ reject_current-Gone r n 0 0 s m.kept.framed (omega (arith, x, room))
            ])
            (λ agrees. Keeps-pure decoded s ((m, omega arith), refl))

  -- A data header that has been decoded, of a record that takes a byte at least.
  abbrev pub Headed : ℕ → ℕ → Reader → Type 0
  Headed m payload_len t = Mid r k t × (cost r t ≤ m) × (cost r t < m + payload_len)

  set_total-Headed :
      (p : ℕ × Meta) (total m : ℕ) (s : Reader)
      → Mid r k s
      → cost r s ≤ m
      → cost r s < m + p.0
      → Keeps (Fill.set_total total >> pure p) s (λ p t. Headed m p.0 t) (Gone r n)
  set_total-Headed p total m s mid le lt = Keeps-modify_bind _ _ s (
      Keeps-pure p _ (
        record {
          kept = record { framed = reframe mid.kept.framed refl refl refl; pays = mid.kept.pays };
          is_open = mid.is_open;
          room = mid.room;
          implied = mid.implied;
        },
        le,
        lt,
      ))

  pub read_data_header-Headed :
      (format : Format) (minor : ℕ) (s : Reader)
      → Mid r k s
      → cost r s ≤ n
      → 0 < shortest format
      → Keeps (read_data_header format minor) s (λ p t. Headed (cost r s) p.0 t) (Gone r n)
  unfolding read_data_header shortest
  read_data_header-Headed (Format.fixed size) minor s m le pays =
      set_total-Headed _ size (cost r s) s m (omega arith) (omega (arith, pays))
  read_data_header-Headed Format.variable_simple minor s m le pays =
      Keeps-bind (fill-Mid r k 4 s m) (λ e t x. weaken-Gone r (cost r s) n e t le x)
        λ u t x. Keeps-gets_bind _ _ t (
          Keeps-bind (settle-Mid (from_le_bytes t.dst) t x.0) (λ e v y. y)
            λ p v y.
              set_total-Headed _ _ (cost r s) v y.0.0 (omega (arith, x.1, y.0.1))
                (omega (arith, x.1, y.0.1)))
  read_data_header-Headed Format.variable_ts_rc minor s m le pays =
      Keeps-bind (fill-Mid r k _ s m) (λ e t x. weaken-Gone r (cost r s) n e t le x)
        λ u t x. Keeps-gets_bind _ _ t (
          Keeps-bind (settle-Mid _ t x.0) (λ e v y. y)
            λ p v y.
              set_total-Headed _ _ (cost r s) v y.0.0 (omega (arith, x.1, y.0.1))
                (omega (arith, x.1, y.0.1, ts_rc_len minor)))
