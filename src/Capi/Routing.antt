-- ===== src/Capi/Routing.antt =====
-- tcslog-c/src/lib.rs: what the writer's callbacks of the C interface make of what C functions return.
use tcslog.Prelude.{
  ℕ, ◌<◌, ◌≡◌, refl, arith, Bool, true, false, Option, none, some, if◌then◌else◌, All, [], ◌∷◌,
  ◌++◌, ◌⊎◌, inl, inr, ◌==◌, Bool-cases, ==_iff, subst,
}
use tcslog.Exec.{skip, raise, modify, ◌>>◌}
use tcslog.Exec.Post.{
  Post, Ensures, Ensures-skip, Ensures-raise, Ensures-modify_bind, Ensures-if, Ensures-weaken,
}
use tcslog.Error.{Result, ok, err, LogError, io_error}
use tcslog.Fs.{Text, World}
use tcslog.Capi.Handler.{
  TcslogCallbacks, CHandler, call_c, send, record_complete, handler_callbacks, contains_nul,
  invalid_data, callback_failed,
}

abbrev pub IsNonzero : ℕ → Type 0
IsNonzero b = 0 < b

-- A text that holds a NUL byte.
abbrev pub HoldsNul : Text → Type 0
HoldsNul [] = ⊥
HoldsNul (b ∷ rest) = (b ≡ 0) ⊎ HoldsNul rest

-- The bytes that a C function is given for a path.
abbrev pub terminated : Text → Text
terminated path = path ++ 0 ∷ []

contains_nul-All : (t : Text) → contains_nul t ≡ false → All IsNonzero t
contains_nul-All [] e = tt
contains_nul-All (b ∷ t) e = elim (Bool-cases (b == 0)) [
  | inl z ↦ absurd (ground (arith, z, e))
  | inr z ↦ (ground (arith, z), contains_nul-All t (ground (arith, z, e)))
]

contains_nul-HoldsNul : (t : Text) → contains_nul t ≡ true → HoldsNul t
contains_nul-HoldsNul [] e = absurd (ground (arith, e))
contains_nul-HoldsNul (b ∷ t) e = elim (Bool-cases (b == 0)) [
  | inl z ↦ inl (ground (arith, z))
  | inr z ↦ inr (contains_nul-HoldsNul t (ground (arith, z, e)))
]

module _ {C : Type 0} where
  -- What is left once a C function was called: the state that it left, and what it returned.
  abbrev pub Returned :
      (C × World → ℕ × (C × World)) → ℕ → CHandler C × World → CHandler C × World → Type 0
  Returned f code p q = f (p.0.ctx, p.1) ≡ (code, (q.0.ctx, q.1))

  -- The C function was called and returned a number other than zero.
  abbrev pub Failed :
      (C × World → ℕ × (C × World)) → CHandler C × World → LogError → CHandler C × World → Type 0
  Failed f p e q = (code : ℕ) × (0 < code) × Returned f code p q × (e ≡ io_error callback_failed)

  call_c_code :
      (f : C × World → ℕ × (C × World)) (p q : CHandler C × World) (code : ℕ) (good : Bool)
      → (code == 0) ≡ good
      → Returned f code p q
      → let r : Result (Unit {0}) × (CHandler C × World) =
          if good then (ok tt, q) else (err (io_error callback_failed), q) in
        Post r.0 r.1 (λ u t. Returned f 0 p t) (Failed f p)
  call_c_code f p q code true e h = subst (λ n. Returned f n p q) ((==_iff code 0).0 e) h
  call_c_code f p q code false e h = (code, ground (arith, e), h, refl)

  call_c-Returned :
      (f : C × World → ℕ × (C × World)) (p : CHandler C × World)
      → Ensures (call_c f) p (λ u q. Returned f 0 p q) (Failed f p)
  unfolding call_c
  call_c-Returned f p =
      let r : ℕ × (C × World) = f (p.0.ctx, p.1) in
      record {
        holds = call_c_code f p (record p.0 { ctx = r.1.0 }, r.1.1) r.0 (r.0 == 0) refl refl;
      }

  -- `send` succeeded: there is no C function for it, and nothing has changed, or the path is text
  -- without a NUL byte, and the C function was called with it and returned zero.
  abbrev pub Sent :
      Option (Text → C × World → ℕ × (C × World))
      → Option Text
      → CHandler C × World
      → CHandler C × World
      → Type 0
  Sent none path p q = q ≡ p
  Sent (some f) none p q = ⊥
  Sent (some f) (some path) p q = All IsNonzero path × Returned (f (terminated path)) 0 p q

  -- `send` failed: the path cannot be told to a C function, and nothing has changed, or the C
  -- function was called with it and returned a number other than zero.
  abbrev pub NotSent :
      Option (Text → C × World → ℕ × (C × World))
      → Option Text
      → CHandler C × World
      → LogError
      → CHandler C × World
      → Type 0
  NotSent none path p e q = ⊥
  NotSent (some f) none p e q = (e ≡ io_error invalid_data) × (q ≡ p)
  NotSent (some f) (some path) p e q =
      (HoldsNul path × (e ≡ io_error invalid_data) × (q ≡ p))
      ⊎ (All IsNonzero path × Failed (f (terminated path)) p e q)

  send_text-Sent :
      (f : Text → C × World → ℕ × (C × World)) (path : Text) (p : CHandler C × World)
      → Ensures {S = CHandler C × World}
          (if contains_nul path then raise (io_error invalid_data) else (do
            modify (λ q. (record q.0 { path_buf = path ++ (0 ∷ []) }, q.1))
            call_c (f (path ++ (0 ∷ [])))))
          p
          (λ u q. Sent (some f) (some path) p q)
          (NotSent (some f) (some path) p)
  send_text-Sent f path p =
      Ensures-if (contains_nul path) _ _ p
        (λ bad. Ensures-raise _ p (inl (contains_nul-HoldsNul path bad, refl, refl)))
        λ good.
          let text : All IsNonzero path = contains_nul-All path good in
          Ensures-modify_bind _ _ p (
            Ensures-weaken (call_c-Returned (f (terminated path)) _) (λ u q x. (text, x))
              (λ e q x. inr (text, x)))

  send-Sent :
      (o : Option (Text → C × World → ℕ × (C × World))) (path : Option Text)
      (p : CHandler C × World)
      → Ensures {S = CHandler C × World}
          (elim o [
            | none ↦ skip
            | some f ↦ elim path [
              | none ↦ raise (io_error invalid_data)
              | some bytes ↦
                  (if contains_nul bytes then raise (io_error invalid_data) else (do
                    modify (λ q. (record q.0 { path_buf = bytes ++ (0 ∷ []) }, q.1))
                    call_c (f (bytes ++ (0 ∷ [])))))
            ]
          ])
          p
          (λ u q. Sent o path p q)
          (NotSent o path p)
  send-Sent none path p = Ensures-skip p refl
  send-Sent (some f) none p = Ensures-raise _ p (refl, refl)
  send-Sent (some f) (some path) p = send_text-Sent f path p

  -- `record_complete` succeeded: there is no C function for it, or it returned zero.
  abbrev pub Completed :
      Option (ℕ → C × World → ℕ × (C × World))
      → ℕ
      → CHandler C × World
      → CHandler C × World
      → Type 0
  Completed none fd p q = q ≡ p
  Completed (some f) fd p q = Returned (f fd) 0 p q

  abbrev pub NotCompleted :
      Option (ℕ → C × World → ℕ × (C × World))
      → ℕ
      → CHandler C × World
      → LogError
      → CHandler C × World
      → Type 0
  NotCompleted none fd p e q = ⊥
  NotCompleted (some f) fd p e q = Failed (f fd) p e q

  record_complete-Completed :
      (o : Option (ℕ → C × World → ℕ × (C × World))) (fd : ℕ) (p : CHandler C × World)
      → Ensures {S = CHandler C × World}
          (elim o [ none ↦ skip | some f ↦ call_c (f fd) ])
          p
          (λ u q. Completed o fd p q)
          (NotCompleted o fd p)
  record_complete-Completed none fd p = Ensures-skip p refl
  record_complete-Completed (some f) fd p = call_c-Returned (f fd) p

  -- The writer's callbacks return or fail as the C functions that they route to tell them to. A null
  -- pointer is a success that changes nothing. `send` refuses a path that is not text, or that holds
  -- a NUL byte, and calls nothing; any other it passes on with a NUL byte at its end, and
  -- `record_complete` passes on the file descriptor. Either succeeds just where the C function
  -- returns zero, and fails where it returns another number, and what the C function changed stays
  -- changed.
  pub handler_callbacks-Routed :
      (raw_fd : Text → ℕ) (path_text : Text → Option Text) (cb : TcslogCallbacks C) (name : Text)
      (p : CHandler C × World)
      → Ensures
          ((handler_callbacks raw_fd path_text cb).send name)
          p
          (λ u q. Sent cb.send (path_text name) p q)
          (NotSent cb.send (path_text name) p)
        × Ensures
            ((handler_callbacks raw_fd path_text cb).record_complete name)
            p
            (λ u q. Completed cb.record_complete (raw_fd name) p q)
            (NotCompleted cb.record_complete (raw_fd name) p)
  unfolding send record_complete
  handler_callbacks-Routed raw_fd path_text cb name p = (
    send-Sent cb.send (path_text name) p,
    record_complete-Completed cb.record_complete (raw_fd name) p,
  )
