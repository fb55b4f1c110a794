-- ===== src/Application/Audit/Entries.antt =====
-- What the audit of a method keeps of its run.
use enterprise_system.Prelude.{
  ℕ, ◌-◌, ◌≡◌, Bool, true, false, Option, none, some, List, [], ◌∷◌, ◌++◌, Option-cases, Bool-cases,
  Except-cases, ◌⊎◌, inl, inr, if◌then◌else◌, Text, Except, ok, throw, refl, ap, ◌≢◌, arith,
}
use enterprise_system.Observability.Logger.{Value}
use enterprise_system.Application.Audit.{
  AuditMetadata, RequestContext, AuditEntry, sanitize_payload, sanitize_result, Returned, succeeded,
  failed, plain, unreadable, new_entry, completed, with_result, emit_audit_log, rethrown,
  caught_error, returning, emitted, after_method, audited,
}

-- Whether the method returned.
abbrev pub has_returned : {A : Type 0} → Except Text A → Bool
has_returned (ok a) = true
has_returned (throw e) = false

-- What an audited run leaves, given the payload, the outcome of the method and the log before it. If it returns,
-- the method returned that, and an entry of its success was added. If it throws, no entry was added, or one of
-- its failure with the message that is thrown.
abbrev pub Accounted :
    Option Value
    → Except Text Returned
    → List AuditEntry
    → Except Text Returned
    → List AuditEntry
    → Type 0
Accounted p r log (ok v) log' =
    (r ≡ ok v)
    × ((e : AuditEntry) × (log' ≡ log ++ e ∷ [])
        × (e.success ≡ some true)
        × (e.error ≡ none)
        × (e.payload ≡ p))
Accounted p r log (throw message) log' =
    (log' ≡ log)
    ⊎ ((e : AuditEntry) × (log' ≡ log ++ e ∷ [])
        × (e.success ≡ some false)
        × (e.error ≡ some message)
        × (e.payload ≡ p))

-- The entry of a method that returned, before it is emitted.
abbrev IsCompleted : Option Value → AuditEntry → Type 0
IsCompleted p e = (e.success ≡ some true) × (e.error ≡ none) × (e.payload ≡ p)

-- The payload of the entry of a run.
abbrev pub kept_payload : AuditMetadata → Value → Option Value
kept_payload m v = if m.include_payload then some (sanitize_payload v) else none

module _ (unwritable : AuditEntry → Option Text) where
  -- The entry that the catch branch emits.
  abbrev failed_entry : ℕ → Text → AuditEntry → AuditEntry
  failed_entry d message e = record e {
    duration = some d;
    success = some false;
    error = some message;
  }

  emit_written :
      (e : AuditEntry) (log : List AuditEntry)
      → unwritable e ≡ none
      → emit_audit_log unwritable e log ≡ (ok tt, log ++ e ∷ [])
  unfolding emit_audit_log
  emit_written e log w = rw (w, emit_audit_log) refl

  emit_unwritten :
      (message : Text) (e : AuditEntry) (log : List AuditEntry)
      → unwritable e ≡ some message
      → emit_audit_log unwritable e log ≡ (throw message, log)
  unfolding emit_audit_log
  emit_unwritten message e log w = rw (w, emit_audit_log) refl

  caught_written :
      (d : ℕ) (message : Text) (e : AuditEntry) (log : List AuditEntry)
      → unwritable (failed_entry d message e) ≡ none
      → caught_error unwritable d message e log
        ≡ (throw message, log ++ failed_entry d message e ∷ [])
  unfolding caught_error rethrown
  caught_written d message e log w =
      ap (rethrown unwritable message) (emit_written (failed_entry d message e) log w)

  caught_error-Accounted :
      (p : Option Value) (r : Except Text Returned) (d : ℕ) (message : Text) (e : AuditEntry)
      (log : List AuditEntry)
      → e.payload ≡ p
      → Accounted p r log
          (caught_error unwritable d message e log).0
          (caught_error unwritable d message e log).1
  unfolding caught_error rethrown
  caught_error-Accounted p r d message e log h =
      elim (Option-cases (unwritable (failed_entry d message e))) [
        | inl w ↦ rw (emit_written (failed_entry d message e) log w) (inr (_, refl, refl, refl, h))
        | inr (message', w) ↦
            rw (emit_unwritten message' (failed_entry d message e) log w) (inl refl)
      ]

  returning-Accounted :
      (p : Option Value) (d : ℕ) (v : Returned) (e : AuditEntry) (log : List AuditEntry)
      → IsCompleted p e
      → let run = returning unwritable d v e (emit_audit_log unwritable e log) in
        Accounted p (ok v) log run.0 run.1
  unfolding returning
  returning-Accounted p d v e log (h, k, q) = elim (Option-cases (unwritable e)) [
    | inl w ↦ rw (emit_written e log w) (refl, (e, refl, h, k, q))
    | inr (message, w) ↦
        rw (emit_unwritten message e log w) (caught_error-Accounted p (ok v) d message e log q)
  ]

  ok-IsCompleted :
      (p : Option Value) (e e' : AuditEntry)
      → IsCompleted p e
      → ◌≡◌ {A = Except Text AuditEntry} (ok e) (ok e')
      → IsCompleted p e'
  ok-IsCompleted p e e' h w = let same : e ≡ e' = cc in rw same at h

  -- The entry after the method returned, if its result can be read.
  with_result-IsCompleted :
      (m : AuditMetadata) (p : Option Value) (d : ℕ) (v : Returned) (e e' : AuditEntry)
      → e.error ≡ none
      → e.payload ≡ p
      → with_result m v (completed d e) ≡ ok e'
      → IsCompleted p e'
  unfolding with_result completed
  with_result-IsCompleted m p d v e e' h k w = elim (Bool-cases m.include_result) [
    | inr i ↦ ok-IsCompleted p _ e' (refl, h, k) (rw i at w)
    | inl i ↦ elim (Except-cases (sanitize_result v)) [
      | inl (x, q) ↦ ok-IsCompleted p _ e' (refl, h, k) (rw (i, q) at w)
      | inr (message, q) ↦ let w' = rw (i, q) at w in absurd (ground arith)
    ]
  ]

  emitted-Accounted :
      (p : Option Value) (d : ℕ) (v : Returned) (e : AuditEntry) (x : Except Text AuditEntry)
      (log : List AuditEntry)
      → e.payload ≡ p
      → ((e' : AuditEntry) → x ≡ ok e' → IsCompleted p e')
      → Accounted p (ok v) log (emitted unwritable d v e x log).0 (emitted unwritable d v e x log).1
  unfolding emitted
  emitted-Accounted p d v e (ok e') log h k = returning-Accounted p d v e' log (k e' refl)
  emitted-Accounted p d v e (throw message) log h k =
      caught_error-Accounted p (ok v) d message e log h

  after_method-Accounted :
      (m : AuditMetadata) (p : Option Value) (d d' : ℕ) (r : Except Text Returned) (e : AuditEntry)
      (log : List AuditEntry)
      → e.error ≡ none
      → e.payload ≡ p
      → Accounted p r log
          (after_method unwritable m d d' r e log).0
          (after_method unwritable m d d' r e log).1
  unfolding after_method completed
  after_method-Accounted m p d d' (throw message) e log h k =
      caught_error-Accounted p (throw message) d message e log k
  after_method-Accounted m p d d' (ok v) e log h k =
      emitted-Accounted p d' v (completed d e) (with_result m v (completed d e)) log k
        (λ e' w. with_result-IsCompleted m p d v e e' h k w)

  sanitize_result-ok :
      (v : Returned)
      → ((message : Text) → v ≢ unreadable message)
      → (x : Value) × (sanitize_result v ≡ ok x)
  unfolding sanitize_result
  sanitize_result-ok (succeeded y) k = (_, refl)
  sanitize_result-ok (failed message) k = (_, refl)
  sanitize_result-ok (plain y) k = (_, refl)
  sanitize_result-ok (unreadable message) k = absurd (k message refl)

  with_result-ok :
      (m : AuditMetadata) (d : ℕ) (v : Returned) (e : AuditEntry)
      → ((message : Text) → v ≢ unreadable message)
      → (e' : AuditEntry) × (with_result m v (completed d e) ≡ ok e') × (e'.success ≡ some true)
  unfolding with_result completed
  with_result-ok m d v e h = elim (Bool-cases m.include_result) [
    | inr i ↦ rw i (_, refl, refl)
    | inl i ↦ let (x, q) = sanitize_result-ok v h in rw (i, q) (_, refl, refl)
  ]

  after_method-written :
      (m : AuditMetadata) (d d' : ℕ) (r : Except Text Returned) (e : AuditEntry)
      (log : List AuditEntry)
      → ((e' : AuditEntry) → unwritable e' ≡ none)
      → ((message : Text) → r ≢ ok (unreadable message))
      → ((after_method unwritable m d d' r e log).0 ≡ r)
        × ((e' : AuditEntry) × ((after_method unwritable m d d' r e log).1 ≡ log ++ e' ∷ [])
            × (e'.success ≡ some (has_returned r)))
  unfolding after_method emitted returning completed
  after_method-written m d d' (throw message) e log w h =
      rw (caught_written d message e log (w (failed_entry d message e))) (refl, (_, refl, refl))
  after_method-written m d d' (ok v) e log w h =
      let (e', q, t) = with_result-ok m d v e (λ message x. h message (ap ok x)) in
      rw (q, emit_written e' log (w e')) (refl, (e', refl, t))

  module _ {S : Type 0} where
    -- An audited method changes the state as the method does. If it returns, then the method returned that, and
    -- one entry was added, which counts as a success, has no error, and has the payload, without the secrets at
    -- its top, if the metadata asks for it. If it throws, also after the method returned, then no entry was
    -- added, or one that counts as a failure and has the message of what is thrown and that payload.
    pub audited_lem :
        (m : AuditMetadata) (method : Value → S → Except Text Returned × S) (v : Value)
        (c : Option RequestContext) (start a b : ℕ) (s : S) (log : List AuditEntry)
        → ((audited unwritable m method v c start a b (s, log)).1.0 ≡ (method v s).1)
          × Accounted
              (kept_payload m v)
              (method v s).0
              log
              (audited unwritable m method v c start a b (s, log)).0
              (audited unwritable m method v c start a b (s, log)).1.1
    unfolding audited new_entry
    audited_lem m method v c start a b s log = (
      refl,
      after_method-Accounted m (kept_payload m v) (a - start) (b - start) (method v s).0
          (new_entry m v c) log refl refl,
    )

    -- If every entry can be written and the method gives no object whose accessors throw, an audited method gives
    -- what the method gives, or throws what it throws, and adds one entry, which counts as a success exactly if
    -- the method returned, be it a result that is a failure.
    pub audited-written :
        (m : AuditMetadata) (method : Value → S → Except Text Returned × S) (v : Value)
        (c : Option RequestContext) (start a b : ℕ) (s : S) (log : List AuditEntry)
        → ((e : AuditEntry) → unwritable e ≡ none)
        → ((message : Text) → (method v s).0 ≢ ok (unreadable message))
        → ((audited unwritable m method v c start a b (s, log)).0 ≡ (method v s).0)
          × ((e : AuditEntry) × ((audited unwritable m method v c start a b (s, log)).1.1
                ≡ log ++ e ∷ [])
              × (e.success ≡ some (has_returned (method v s).0)))
    unfolding audited
    audited-written m method v c start a b s log w h =
        after_method-written m (a - start) (b - start) (method v s).0 (new_entry m v c) log w h
