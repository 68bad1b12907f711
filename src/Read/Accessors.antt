-- ===== src/Read/Accessors.antt =====
-- tcslog/src/read.rs: accessors of a `LogRead`, and `read_str`.
use tcslog.Prelude.{ℕ}
use tcslog.Format.{Meta}
use tcslog.Read.{LogRead, Reads, ReadResult}
use tcslog.Read.Record.{read}

unfoldable pub segments_opened : LogRead → ℕ
segments_opened l = l.segments_opened

unfoldable pub last_meta : LogRead → Meta
last_meta l = l.last_meta

unfoldable pub read_str : ℕ → Reads ReadResult
read_str buf_len = read buf_len
