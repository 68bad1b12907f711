-- ===== src/Capi/Handler.antt =====
-- tcslog-c/src/lib.rs: the C callbacks, and the writer's own callbacks that route to them.
use tcslog.Prelude.{
  ℕ, ◌==◌, Bool, false, ◌||◌, Option, none, some, List, [], ◌∷◌, ◌++◌, if◌then◌else◌,
}
use tcslog.Exec.{Exec, raise, modify, skip, ◌>>◌}
use tcslog.Error.{io_error, IoError, other}
use tcslog.Fs.{Text, World}
use tcslog.Write.{WriteCallbacks}

-- The C functions, each of which may be null. They act on what `ctx` points to, of type `C`, and
-- on the world, and a C function returns: it gives a number, which is zero on success.
pub record TcslogCallbacks (C : Type 0) : Type 0 where
  pub send : Option (Text → C × World → ℕ × (C × World))
  pub record_complete : Option (ℕ → C × World → ℕ × (C × World))
  pub timer_resolution_adjusted : Option (ℕ → C → C)

-- `TcslogCallbacks::none`
abbrev pub no_c_callbacks : {C : Type 0} → TcslogCallbacks C
no_c_callbacks = record { send = none; record_complete = none; timer_resolution_adjusted = none }

-- What a `CHandler` changes: the path buffer, and what `ctx` points to.
pub record CHandler (C : Type 0) : Type 0 where
  pub ctx : C
  pub path_buf : List ℕ

-- `CHandler::new`
abbrev pub new_handler : {C : Type 0} → C → CHandler C
new_handler ctx = record { ctx = ctx; path_buf = [] }

-- `io::ErrorKind::Other` and `io::ErrorKind::InvalidData`.
abbrev pub callback_failed : IoError
callback_failed = other 0

abbrev pub invalid_data : IoError
invalid_data = other 1

-- `bytes.contains(&0)`
abbrev pub contains_nul : Text → Bool
contains_nul [] = false
contains_nul (b ∷ rest) = (b == 0) || contains_nul rest

module _ {C : Type 0} where
  -- A C function called with the handler's context: zero is success.
  unfoldable pub call_c : (C × World → ℕ × (C × World)) → Exec (CHandler C × World) (Unit {0})
  unfolding raise skip
  call_c f (h, w) =
      let (failed, p) = f (h.ctx, w) in
      if failed == 0
      then skip (record h { ctx = p.0 }, p.1)
      else raise (io_error callback_failed) (record h { ctx = p.0 }, p.1)

  unfoldable pub record_complete :
      (Text → ℕ) → TcslogCallbacks C → Text → Exec (CHandler C × World) (Unit {0})
  record_complete raw_fd cb name = elim cb.record_complete [
    | none ↦ skip
    | some f ↦ call_c (f (raw_fd name))
  ]

  -- `path_text` is `Path::to_str` of the file's path.
  unfoldable pub send :
      (Text → Option Text) → TcslogCallbacks C → Text → Exec (CHandler C × World) (Unit {0})
  send path_text cb name = elim cb.send [
    | none ↦ skip
    | some f ↦ elim (path_text name) [
      | none ↦ raise (io_error invalid_data)
      | some bytes ↦
          (if contains_nul bytes then raise (io_error invalid_data) else (do
            modify (λ p. (record p.0 { path_buf = bytes ++ (0 ∷ []) }, p.1))
            call_c (f (bytes ++ (0 ∷ [])))))
    ]
  ]

  unfoldable pub timer_resolution_adjusted : TcslogCallbacks C → ℕ → CHandler C → CHandler C
  timer_resolution_adjusted cb resolution h = elim cb.timer_resolution_adjusted [
    | none ↦ h
    | some f ↦ record h { ctx = f resolution h.ctx }
  ]

  -- `impl WriteCallbacks for CHandler`
  abbrev pub handler_callbacks :
      (Text → ℕ) → (Text → Option Text) → TcslogCallbacks C → WriteCallbacks (CHandler C)
  handler_callbacks raw_fd path_text cb = record {
    record_complete = record_complete raw_fd cb;
    send = send path_text cb;
    timer_resolution_adjusted = timer_resolution_adjusted cb;
  }
