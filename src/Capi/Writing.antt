-- ===== src/Capi/Writing.antt =====
-- tcslog-c/src/lib.rs: the calls on a writer.
use tcslog.Prelude.{
  ℕ, ◌==◌, Bool, true, false, Option, none, some, List, [], take, ltb, not, ◌&&◌, if◌then◌else◌,
  u32_max,
}
use tcslog.Exec.{Exec, pure, on_error}
use tcslog.Fs.{Text, World}
use tcslog.Write.{WriteCallbacks, LogWrite, Writer, Writes, current_segment_id}
use tcslog.Write.Record.{write}
use tcslog.Write.Session
use tcslog.Write.Session.{flush_log, clear, drop_log}
use tcslog.Write.Accessors.{timer_resolution, session_id, last_meta}
use tcslog.Capi.Status.{TcslogStatus}
use tcslog.Capi.{
  Checked, value, refused, as_str, format_of, status_only, on_handle, status_from, TcslogRecordMeta,
  record_meta,
}
use tcslog.Capi.Strings.{assign}
use tcslog.Capi.Handler.{TcslogCallbacks, CHandler, new_handler, handler_callbacks, no_c_callbacks}

-- The three strings of a log's location, the first that is wrong refused.
unfoldable pub as_strs :
    (Text → Bool) → Option Text → Option Text → Option Text → Checked (Text × Text × Text)
as_strs is_utf8 dir prefix suffix = elim (as_str is_utf8 dir) [
  | refused status ↦ refused status
  | value d ↦ elim (as_str is_utf8 prefix) [
    | refused status ↦ refused status
    | value p ↦ elim (as_str is_utf8 suffix) [
      | refused status ↦ refused status
      | value s ↦ value (d, p, s)
    ]
  ]
]

-- A null pointer for the callbacks is no callbacks.
abbrev pub given : {C : Type 0} → Option (TcslogCallbacks C) → TcslogCallbacks C
given none = no_c_callbacks
given (some cb) = cb

-- The writer's callbacks for a log in `dir`. `path_text` is `Path::to_str` of a file's path in a
-- directory.
abbrev pub routed :
    {C : Type 0}
    → (Text → ℕ)
    → (Text → Text → Option Text)
    → Text
    → Option (TcslogCallbacks C)
    → WriteCallbacks (CHandler C)
routed raw_fd path_text dir cb = handler_callbacks raw_fd (path_text dir) (given cb)

module _ {C : Type 0} (is_utf8 : Text → Bool) (raw_fd : Text → ℕ)
    (path_text : Text → Text → Option Text) (timer_resolution_ns : ℕ) where
  -- The out-parameter receives a writer, or is left null; `no_out` says that
  -- it is null itself. The world is that of the directory.
  unfoldable pub tcslog_write_open :
      Bool
      → Option Text
      → Option Text
      → Option Text
      → ℕ
      → ℕ
      → ℕ
      → Option (TcslogCallbacks C)
      → C
      → Exec World (TcslogStatus × Option (LogWrite (CHandler C)))
  tcslog_write_open no_out dir prefix suffix seg_size_max format_tag fixed_len cb ctx =
      if no_out
      then pure (TcslogStatus.null_argument, none)
      else elim (as_strs is_utf8 dir prefix suffix) [
        | refused status ↦ pure (status, none)
        | value (d, p, s) ↦ elim (format_of format_tag fixed_len) [
          | refused status ↦ pure (status, none)
          | value format ↦
              on_error
                (Session.new (routed raw_fd path_text d cb) timer_resolution_ns p s seg_size_max
                  format (new_handler ctx))
                (λ e. pure (status_only e, none)) (λ l. pure (TcslogStatus.ok, some l))
        ]
      ]

abbrev pub bytes_at : Option (List ℕ) → List ℕ
bytes_at none = []
bytes_at (some there) = there

abbrev pub is_null {ℓ} : {A : Type ℓ} → Option A → Bool
is_null none = true
is_null (some a) = false

module _ {H : Type 0} (cb : WriteCallbacks H) where
  -- A live handle: the payload is the first `len` bytes of the buffer, and a null `written` is not
  -- written to.
  unfoldable pub write_message : List ℕ → Option ℕ → Writes H (TcslogStatus × Option ℕ)
  write_message msg written =
      on_error (write cb msg) (λ e. pure (status_only e, written))
        (λ n. pure (TcslogStatus.ok, assign written n))

  unfoldable pub tcslog_write_record :
      Option (List ℕ) → ℕ → Option ℕ → Exec (Option (Writer H)) (TcslogStatus × Option ℕ)
  tcslog_write_record bytes len written =
      on_handle (TcslogStatus.null_argument, written)
        (if is_null bytes && not (len == 0)
          then pure (TcslogStatus.null_argument, written)
          else if ltb u32_max len
          then pure (TcslogStatus.payload_too_large, written)
          else write_message (take len (bytes_at bytes)) written)

  unfoldable pub tcslog_write_flush : Exec (Option (Writer H)) TcslogStatus
  tcslog_write_flush = on_handle TcslogStatus.null_argument (status_from (flush_log cb))

  unfoldable pub tcslog_write_clear : Exec (Option (Writer H)) TcslogStatus
  tcslog_write_clear = on_handle TcslogStatus.null_argument (status_from (clear cb))

  -- A null handle is accepted and does nothing. What the drop returns is discarded.
  unfoldable pub tcslog_write_close : Exec (Option (Writer H)) (Unit {0})
  tcslog_write_close = on_handle tt (drop_log cb)

-- An accessor: the out-parameter receives what the handle gives.
unfoldable pub query : {S A : Type 0} → (S → A) → Option A → Option S → TcslogStatus × Option A
query get out none = (TcslogStatus.null_argument, out)
query get none (some s) = (TcslogStatus.null_argument, none)
query get (some old) (some s) = (TcslogStatus.ok, some (get s))

module _ {H : Type 0} where
  unfoldable pub tcslog_write_timer_resolution :
      Option ℕ → Option (Writer H) → TcslogStatus × Option ℕ
  tcslog_write_timer_resolution = query (λ s. timer_resolution s.log)

  unfoldable pub tcslog_write_session_id : Option ℕ → Option (Writer H) → TcslogStatus × Option ℕ
  tcslog_write_session_id = query (λ s. session_id s.log)

  unfoldable pub tcslog_write_current_segment_id :
      Option ℕ → Option (Writer H) → TcslogStatus × Option ℕ
  tcslog_write_current_segment_id = query (λ s. current_segment_id s.log)

  unfoldable pub tcslog_write_last_meta :
      Option TcslogRecordMeta → Option (Writer H) → TcslogStatus × Option TcslogRecordMeta
  tcslog_write_last_meta = query (λ s. record_meta (last_meta s.log))
