-- ===== src/Write/Accessors.antt =====
-- tcslog/src/write.rs: the accessors of a `LogWrite`, and `write_str`.
use tcslog.Prelude.{ℕ}
use tcslog.Fs.{Text}
use tcslog.SegId.{SegId}
use tcslog.Format.{Meta}
use tcslog.Write.{WriteCallbacks, LogWrite, Writes}
use tcslog.Write.Record.{write}

module _ {H : Type 0} where
  unfoldable pub timer_resolution : LogWrite H → ℕ
  timer_resolution l = l.timer_resolution

  unfoldable pub session_id : LogWrite H → SegId
  session_id l = l.session_id

  unfoldable pub last_meta : LogWrite H → Meta
  last_meta l = l.last_meta

  unfoldable pub handler : LogWrite H → H
  handler l = l.handler

  unfoldable pub write_str : WriteCallbacks H → Text → Writes H ℕ
  write_str cb msg = write cb msg
