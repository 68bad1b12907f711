-- ===== src/SeqId.antt =====
-- tcslog/src/seq_id.rs: the position of a segment file within its session, a `u64`.
use tcslog.Prelude.{ℕ, ◌<◌, ◌≡◌, ◌≢◌, arith, List, saturating_add, u64_max, ◌+◌}
use tcslog.Bytes.{IsU64}
use tcslog.Bytes
use tcslog.Decimal.{decimal}

abbrev pub SeqId : Type 0
SeqId = ℕ

abbrev pub first : SeqId
first = 0

-- `SeqId::next` saturates.
unfoldable pub next : SeqId → SeqId
next seq = saturating_add u64_max seq 1

unfoldable pub to_le_bytes : SeqId → List ℕ
to_le_bytes seq = Bytes.to_le_bytes 8 seq

-- `Display`
unfoldable pub display : SeqId → List ℕ
display seq = decimal seq

unfoldable pub from_le_bytes : List ℕ → SeqId
from_le_bytes bytes = Bytes.from_le_bytes bytes

-- The position after any other is a `u64` that is not the one that opens a session, and below the
-- saturation point it is one more.
pub next_never_opens :
    (seq : SeqId)
    → IsU64 seq
    → IsU64 (next seq) × (next seq ≢ first) × (seq < u64_max → next seq ≡ seq + 1)
unfolding next
next_never_opens seq h = (omega arith, omega arith, omega arith)
