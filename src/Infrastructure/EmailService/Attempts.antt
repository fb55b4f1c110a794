-- ===== src/Infrastructure/EmailService/Attempts.antt =====
-- That the loop of `send` is that of `retry`.
use enterprise_system.Prelude.{
  ℕ, zero, suc, ◌+◌, ◌≡◌, true, false, Option, none, some, List, [], if◌then◌else◌, refl, sym, ap,
  Bool-cases, Except-cases, inl, inr, Text, codes, Except, ok, throw,
}
use enterprise_system.Common.Retry.{RetryOptions, loop, retry}
use enterprise_system.Infrastructure.EmailService.{
  SendEmailParams, EmailResult, SendFailure, not_retryable, exhausted, is_retryable, attempt_from,
  deliver,
}

-- Three attempts, and again only after an error that may be retried.
abbrev pub send_options : RetryOptions Text
send_options = record { max_attempts = 3; is_retryable = some is_retryable }

-- What `send` throws in the place of what `retry` does.
abbrev pub as_sent : Except (Option Text) EmailResult → Except SendFailure EmailResult
as_sent (ok r) = ok r
as_sent (throw none) = throw (exhausted (codes "undefined"))
as_sent (throw (some m)) = if is_retryable m then throw (exhausted m) else throw (not_retryable m)

as_sent-refused :
    (m : Text) → is_retryable m ≡ false → as_sent (throw (some m)) ≡ throw (not_retryable m)
as_sent-refused m f = rw f refl

-- The last error before the loop goes on is one that may be retried.
abbrev Retried : Option Text → Type 0
Retried none = Unit
Retried (some m) = is_retryable m ≡ true

module _ (do_send : ℕ → Except Text EmailResult) where
  attempt_from-loop :
      (left attempt : ℕ) (last : Option Text) (waits : List ℕ)
      → Retried last
      → attempt_from do_send left attempt last ≡ record {
        result = as_sent (loop do_send send_options left attempt last waits).result;
        attempts = (loop do_send send_options left attempt last waits).attempts;
      }
  unfolding attempt_from loop
  attempt_from-loop zero attempt none waits h = refl
  attempt_from-loop zero attempt (some m) waits h = rw h refl
  attempt_from-loop (suc left) attempt last waits h = elim (Except-cases (do_send attempt)) [
    | inl (r, e) ↦ rw (e, attempt_from, loop) refl
    | inr (m, e) ↦ elim (Bool-cases (is_retryable m)) [
      | inl f ↦
          rw (e, attempt_from, loop) (rw f (attempt_from-loop left (attempt + 1) (some m) _ f))
      | inr f ↦
          rw (e, attempt_from, loop)
            (rw f (ap (λ r. record { result = r; attempts = attempt }) (sym (as_sent-refused m f))))
    ]
  ]

  -- A valid mail is sent by the attempts of retry, at most three and only after errors that may be retried:
  -- with its result, and its last error as the error of the service.
  pub deliver-retry :
      (p : SendEmailParams) (u : Unit {0})
      → deliver do_send p (ok u) ≡ record {
        result = as_sent (retry do_send send_options).result;
        attempts = (retry do_send send_options).attempts;
      }
  unfolding deliver retry
  deliver-retry p u = attempt_from-loop 3 1 none [] tt
