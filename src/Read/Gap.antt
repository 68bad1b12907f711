-- ===== src/Read/Gap.antt =====
-- The sequence check of a crossing: which segment files it lets follow one another, and its count.
use tcslog.Prelude.{ℕ, ◌+◌, ◌-◌, ◌<◌, ◌≡◌, arith, ◌↔◌, false, some, u64_max}
use tcslog.Bytes.{IsU64}
use tcslog.Read.Cross.{sequence_gap}

-- Between two positions of a session, the former below the last `u64`, the check sees no gap
-- exactly when the latter is the next, and the count of segment files lost is the number of
-- positions that lie between them, which is none where the latter does not come after the former.
pub sequence_gap-lost :
    (prev seq : ℕ)
    → prev < u64_max
    → IsU64 seq
    → ((sequence_gap (some prev) seq).0 ≡ false ↔ seq ≡ prev + 1)
      × ((sequence_gap (some prev) seq).1 ≡ seq - prev - 1)
unfolding sequence_gap
sequence_gap-lost prev seq below u64 =
    ((λ h. ground (arith, h), λ h. ground (arith, h)), ground arith)
