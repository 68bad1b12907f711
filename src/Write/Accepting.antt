-- ===== src/Write/Accepting.antt =====
-- tcslog/src/write.rs: the payloads that `write` refuses before it does anything.
use tcslog.Prelude.{
  ℕ, ◌+◌, ◌≤◌, ◌<◌, ◌≡◌, ◌≢◌, refl, arith, List, length, ltb, u32_max, ◌⊎◌, inl, inr, true, false,
}
use tcslog.Error.{LogError, payload_too_large, fixed_len_mismatch}
use tcslog.Exec.Partial.{Keeps, Keeps-raise, Keeps-weaken, Keeps-gets_bind, Keeps-if, Keeps-any}
use tcslog.Format.{Format, data_header_len}
use tcslog.Write.{WriteCallbacks, Writer}
use tcslog.Write.Record.{wrong_length, write_record, write}

-- A payload of `n` bytes has the length that the format fixes, if it fixes one.
abbrev pub HasLength : Format → ℕ → Type 0
HasLength (Format.fixed k) n = n ≡ k
HasLength Format.variable_simple n = Unit
HasLength Format.variable_ts_rc n = Unit

abbrev pub LacksLength : Format → ℕ → Type 0
LacksLength (Format.fixed k) n = n ≢ k
LacksLength Format.variable_simple n = ⊥
LacksLength Format.variable_ts_rc n = ⊥

-- A payload of `n` bytes that a log of the format takes: of the format's length, and with its data
-- header no longer than a `u32` counts.
abbrev pub IsAcceptable : Format → ℕ → Type 0
IsAcceptable f n = HasLength f n × (data_header_len f + n ≤ u32_max)

-- Why a payload is refused.
abbrev pub IsRefusal : Format → ℕ → LogError → Type 0
IsRefusal f n e =
    (LacksLength f n × (e ≡ fixed_len_mismatch))
    ⊎ (HasLength f n × (u32_max < data_header_len f + n) × (e ≡ payload_too_large))

wrong_length-LacksLength : (f : Format) (n : ℕ) → wrong_length f n ≡ true → LacksLength f n
wrong_length-LacksLength (Format.fixed k) n e = ground (arith, e)
wrong_length-LacksLength Format.variable_simple n e = absurd (ground (arith, e))
wrong_length-LacksLength Format.variable_ts_rc n e = absurd (ground (arith, e))

wrong_length-HasLength : (f : Format) (n : ℕ) → wrong_length f n ≡ false → HasLength f n
wrong_length-HasLength (Format.fixed k) n e = ground (arith, e)
wrong_length-HasLength Format.variable_simple n e = tt
wrong_length-HasLength Format.variable_ts_rc n e = tt

-- A write that returns was of a payload that the log takes; one that fails was too, or was refused,
-- and has changed nothing.
pub write-IsAcceptable :
    {H : Type 0} (cb : WriteCallbacks H) (msg : List ℕ) (s : Writer H)
    → Keeps
        (write cb msg)
        s
        (λ n t. IsAcceptable s.log.format (length msg))
        (λ e t.
          IsAcceptable s.log.format (length msg)
          ⊎ (IsRefusal s.log.format (length msg) e × (t ≡ s)))
unfolding write
write-IsAcceptable cb msg s =
    let f : Format = s.log.format in
    let n : ℕ = length msg in
    Keeps-gets_bind _ _ s (
      Keeps-if (wrong_length f n) _ _ s
        (λ wrong. Keeps-raise _ s (inr (inl (wrong_length-LacksLength f n wrong, refl), refl)))
        λ right.
          let sized : HasLength f n = wrong_length-HasLength f n right in
          Keeps-if (ltb u32_max n) _ _ s
            (λ long. Keeps-raise _ s (inr (inr (sized, ground (arith, long), refl), refl)))
            λ short.
              Keeps-if (ltb u32_max (data_header_len f + n)) _ _ s
                (λ long. Keeps-raise _ s (inr (inr (sized, ground (arith, long), refl), refl)))
                λ fits.
                  let small : data_header_len f + n ≤ u32_max = ground (arith, fits) in
                  Keeps-weaken (Keeps-any (write_record cb msg (data_header_len f + n)) s)
                    (λ a t x. (sized, small)) (λ e t x. inl (sized, small)))
