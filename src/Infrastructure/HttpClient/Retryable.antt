-- ===== src/Infrastructure/HttpClient/Retryable.antt =====
-- Which errors of a request may be retried.
use enterprise_system.Prelude.{
  ℕ, Bool, true, false, ◌||◌, Option, none, some, List, [], ◌∷◌, ◌==◌, any, Text, codes, text_eq,
  ◌&&◌,
}
use enterprise_system.Domain.Email.{to_lower_case}

-- The parts of an error that the code reads.
pub record AxiosError : Type 0 where
  pub status : Option ℕ
  pub code : Option Text
  pub message : Option Text

abbrev pub retryable_status_codes : List ℕ
retryable_status_codes = 408 ∷ 429 ∷ 500 ∷ 502 ∷ 503 ∷ 504 ∷ []

abbrev pub retryable_error_codes : List Text
retryable_error_codes =
    codes "ECONNABORTED"
    ∷ codes "ECONNREFUSED"
    ∷ codes "ECONNRESET"
    ∷ codes "ETIMEDOUT"
    ∷ codes "ENOTFOUND"
    ∷ codes "ENETUNREACH"
    ∷ []

unfoldable pub starts_with : Text → Text → Bool
starts_with [] s = true
starts_with (c ∷ p) [] = false
starts_with (c ∷ p) (d ∷ s) = (c == d) && starts_with p s

-- `s.includes(p)`
unfoldable pub includes : Text → Text → Bool
unfolding starts_with
includes p [] = starts_with p []
includes p (c ∷ s) = starts_with p (c ∷ s) || includes p s

-- `isRetryableError`
unfoldable pub is_retryable_error : AxiosError → Bool
unfolding any text_eq includes to_lower_case
is_retryable_error e =
    elim e.status [ none ↦ false | some n ↦ any (λ m. m == n) retryable_status_codes ]
    || elim e.code [ none ↦ false | some c ↦ any (λ d. text_eq d c) retryable_error_codes ]
    || elim e.message [ none ↦ false | some s ↦ includes (codes "timeout") (to_lower_case s) ]
