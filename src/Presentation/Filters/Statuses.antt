-- ===== src/Presentation/Filters/Statuses.antt =====
-- The statuses of the responses, and what they tell of an error.
use enterprise_system.Prelude.{
  ℕ, ◌≤◌, ◌≡◌, ◌≢◌, inl, inr, true, Option, none, some, [], ◌∷◌, refl, sym, ◌∙◌, Text, codes,
  text_eq, arith, All, Bool-cases,
}
use enterprise_system.Prelude.Dict.{Dict, lookup}
use enterprise_system.Domain.Result.{
  ErrorCode, code_text, account_locked, user_inactive, invalid_status_transition,
}
use enterprise_system.Presentation.Filters.{
  DomainException, user_not_found, email_already_exists, invalid_password, user_suspended,
  invariant_violation, code_of, status_or_500, all_exceptions_table, map_error_code_to_status,
  map_error_code_to_http_status, domain_table, Exception, domain, http, validation, thrown, value,
  Response, Context, number, catch_all, domain_response, validation_response, unknown_response,
}

abbrev pub IsError : ℕ → Type 0
IsError status = (400 ≤ status) × (status ≤ 599)

lookup-All :
    (P : ℕ → Type 0) (k : Text) (m : Dict ℕ)
    → All (λ e. P e.1) m
    → P 500
    → P (status_or_500 (lookup k m))
unfolding lookup status_or_500
lookup-All P k [] h d = d
lookup-All P k ((j, v) ∷ m) (p, h) d = elim (Bool-cases (text_eq j k)) [
  | inl e ↦ rw e p
  | inr e ↦ rw e (lookup-All P k m h d)
]

-- Whatever its code is, an error of the domain gets the status of an error of the client or the server.
map_error_code_to_status-IsError : (code : Text) → IsError (map_error_code_to_status code)
unfolding map_error_code_to_status all_exceptions_table
map_error_code_to_status-IsError code =
    lookup-All IsError code all_exceptions_table (ground arith) (ground arith)

module _ {J : Type 0} (status_name : ℕ → Option Text) (show : ℕ → Text) where
  -- The status of the body is the status of the response, and one of an error of the client or the server,
  -- for every exception but those of HTTP.
  abbrev pub Consistent : Response J → Type 0
  Consistent r = IsError r.status × (lookup (codes "status") r.json ≡ some (number r.status))

  -- Outside of production or in it, what is no exception of HTTP is answered with a status of 400 to 599 that
  -- the body repeats.
  pub catch_all-Consistent :
      (x : Context) (e : Exception J)
      → ((s : ℕ) (b : _) → e ≢ http s b)
      → Consistent (catch_all status_name show x e)
  unfolding catch_all domain_response validation_response unknown_response lookup text_eq
  catch_all-Consistent x (domain e) h = (map_error_code_to_status-IsError (code_of e), refl)
  catch_all-Consistent x (http s b) h = absurd (h s b refl)
  catch_all-Consistent x (validation j) h = ((omega arith, omega arith), refl)
  catch_all-Consistent x (thrown m) h = ((omega arith, omega arith), refl)
  catch_all-Consistent x (value v) h = ((omega arith, omega arith), refl)

  -- What is neither of the domain, nor of HTTP, nor of the validation.
  abbrev pub IsUnknown : Exception J → Type 0
  IsUnknown (thrown m) = Unit
  IsUnknown (value v) = Unit
  IsUnknown _ = ⊥

  IsUnknown-response :
      (x : Context) (e : Exception J)
      → x.production ≡ true
      → IsUnknown e
      → catch_all status_name show x e ≡ unknown_response x []
  unfolding catch_all unknown_response
  IsUnknown-response x (domain e) p u = absurd u
  IsUnknown-response x (http s b) p u = absurd u
  IsUnknown-response x (validation j) p u = absurd u
  IsUnknown-response x (thrown m) p u = rw p refl
  IsUnknown-response x (value m) p u = rw p refl

  -- In production two unknown errors get the same response: it tells nothing of them.
  pub catch_all-IsUnknown :
      (x : Context) (e f : Exception J)
      → x.production ≡ true
      → IsUnknown e
      → IsUnknown f
      → catch_all status_name show x e ≡ catch_all status_name show x f
  catch_all-IsUnknown x e f p u v = IsUnknown-response x e p u ∙ sym (IsUnknown-response x f p v)

module _ (J : Type 0) (status_name : ℕ → Option Text) (show : ℕ → Text) where
  -- What the client gets for each class of the domain: the code of an address that is in use is not in the
  -- table of the filter, so that it is answered with 500, as a violated invariant is.
  pub catch_all-domain :
      (x : Context) (e : DomainException)
      → (catch_all {J = J} status_name show x (domain e)).status ≡ elim e [
        | user_not_found i t ↦ 404
        | email_already_exists a ↦ 500
        | invalid_password r ↦ 422
        | user_suspended i ↦ 403
        | invariant_violation i ↦ 500
      ]
  unfolding catch_all domain_response map_error_code_to_status all_exceptions_table code_of lookup
      text_eq status_or_500
  catch_all-domain x (user_not_found i t) = refl
  catch_all-domain x (email_already_exists a) = refl
  catch_all-domain x (invalid_password r) = refl
  catch_all-domain x (user_suspended i) = refl
  catch_all-domain x (invariant_violation i) = refl

-- The codes that the two filters answer differently, with the two statuses.
abbrev pub differ : ErrorCode → Option (ℕ × ℕ)
differ account_locked = some (423, 403)
differ user_inactive = some (403, 400)
differ invalid_status_transition = some (422, 400)
differ _ = none

abbrev pub Statuses : Option (ℕ × ℕ) → ℕ → ℕ → Type 0
Statuses none a b = a ≡ b
Statuses (some (s, t)) a b = (a ≡ s) × (b ≡ t)

-- The two filters give each code of the enum the same status, but for a locked account, an inactive user and
-- a transition of the status that is not allowed.
pub map_error_code_to_status-Statuses :
    (c : ErrorCode)
    → Statuses
        (differ c)
        (map_error_code_to_status (code_text c))
        (map_error_code_to_http_status (code_text c))
unfolding map_error_code_to_status map_error_code_to_http_status all_exceptions_table domain_table
    code_text lookup text_eq status_or_500
map_error_code_to_status-Statuses ErrorCode.validation_error = refl
map_error_code_to_status-Statuses ErrorCode.invalid_email = refl
map_error_code_to_status-Statuses ErrorCode.invalid_password = refl
map_error_code_to_status-Statuses ErrorCode.invalid_credentials = refl
map_error_code_to_status-Statuses ErrorCode.token_expired = refl
map_error_code_to_status-Statuses ErrorCode.token_invalid = refl
map_error_code_to_status-Statuses ErrorCode.forbidden = refl
map_error_code_to_status-Statuses account_locked = (refl, refl)
map_error_code_to_status-Statuses ErrorCode.too_many_attempts = refl
map_error_code_to_status-Statuses ErrorCode.refresh_token_revoked = refl
map_error_code_to_status-Statuses ErrorCode.user_not_found = refl
map_error_code_to_status-Statuses ErrorCode.user_already_exists = refl
map_error_code_to_status-Statuses ErrorCode.user_suspended = refl
map_error_code_to_status-Statuses user_inactive = (refl, refl)
map_error_code_to_status-Statuses invalid_status_transition = (refl, refl)
map_error_code_to_status-Statuses ErrorCode.role_not_found = refl
map_error_code_to_status-Statuses ErrorCode.role_already_assigned = refl
map_error_code_to_status-Statuses ErrorCode.not_found = refl
map_error_code_to_status-Statuses ErrorCode.concurrency_conflict = refl
map_error_code_to_status-Statuses ErrorCode.transaction_failed = refl
map_error_code_to_status-Statuses ErrorCode.external_service_error = refl
map_error_code_to_status-Statuses ErrorCode.internal_error = refl
