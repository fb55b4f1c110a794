-- ===== src/Tests/Mails.antt =====
-- The email service and the logger on concrete mails and records.
use enterprise_system.Prelude.Double.{round_double}
use enterprise_system.Prelude.{
  ℕ, zero, suc, ◌*◌, ◌+◌, ◌≤◌, ◌≡◌, ◌++◌, length, Bool, true, false, none, some, [], ◌∷◌, List,
  refl, Text, codes, Except, ok, throw, arith, ◌==◌, if◌then◌else◌,
}
use enterprise_system.Common.Retry.{retry}
use enterprise_system.Infrastructure.EmailService.{
  SendEmailParams, EmailResult, one, owned, rate_limit, refill_rate, one_token, send, deliver,
}
use enterprise_system.Infrastructure.EmailService.RateLimit.{
  limited, passed, duration, credit, slack, tokens_after, passed_bound, send-tokens_after,
}
use enterprise_system.Infrastructure.EmailService.Attempts.{send_options, as_sent, deliver-retry}
use enterprise_system.Observability.Logger.{
  Value, Fields, Logger, object, field, end, primitive, redact, line, is_sensitive,
}
use enterprise_system.Observability.Logger.Redaction.{Clean, Alike, redact-Alike}
use enterprise_system.Observability.Logger.Calls as Calls
use enterprise_system.Observability.Logger.Calls.{run, CleanLogger, run-Clean}

abbrev hello : SendEmailParams
hello = record {
  to = one (codes "a@b.c");
  subject = codes "Hello";
  template_id = none;
  html = none;
  plain_text = some (codes "text");
}

-- The first attempt times out.
abbrev provider : ℕ → Except Text EmailResult
provider attempt =
    if attempt == 1 then throw (codes "Timeout") else ok (record { message_id = codes "msg_1" })

abbrev burst : List (ℕ × SendEmailParams)
burst = (0, hello) ∷ (10, hello) ∷ (0, hello) ∷ []

passed_bound_example :
    one_token * passed provider burst (owned rate_limit)
    ≤ credit (owned rate_limit) + duration provider burst * refill_rate + length burst * slack
passed_bound_example = passed_bound provider burst (owned rate_limit) (omega arith)

send-tokens_after_example :
    limited (send provider 601 hello (tokens_after provider burst (owned rate_limit))).0.result
    ≡ false
send-tokens_after_example = send-tokens_after provider burst 601 hello (omega arith)

abbrev burst_of : ℕ → List (ℕ × SendEmailParams)
burst_of zero = []
burst_of (suc n) = (0, hello) ∷ burst_of n

-- Of a hundred mails at once, one after 1 millisecond and one 599 milliseconds later all are let through.
two_above :
    passed provider (burst_of 100 ++ (1, hello) ∷ (599, hello) ∷ []) (owned rate_limit) ≡ 102
unfolding send round_double
two_above = refl

-- After a hundred mails at once and three that are refused, 600 milliseconds are not enough for a token that can
-- be spent.
none_left :
    limited
      (send provider 600 hello (
        tokens_after provider
          (burst_of 100 ++ (200, hello) ∷ (100, hello) ∷ (300, hello) ∷ [])
          (owned rate_limit))).0.result
    ≡ true
unfolding send round_double
none_left = refl

deliver-retry_example : deliver provider hello (ok tt) ≡ record {
  result = as_sent (retry provider send_options).result;
  attempts = (retry provider send_options).attempts;
}
deliver-retry_example = deliver-retry provider hello tt

-- The data of a log in with one password or another.
abbrev login : Text → Value
login password = object (
    field (codes "user")
      (object (
        field (codes "id") (primitive (codes "1"))
          (field (codes "password") (primitive password) end)))
      end)

alike : Alike (login (codes "hunter2")) (login (codes "letmein"))
unfolding Alike is_sensitive
alike = (refl, (λ h. (refl, (λ h'. refl), (refl, (λ h'. absurd (ground arith)), tt))), tt)

redact-Alike_example : redact (login (codes "hunter2")) ≡ redact (login (codes "letmein"))
redact-Alike_example = redact-Alike (login (codes "hunter2")) (login (codes "letmein")) alike

abbrev fresh : Logger
fresh = record { context = end; logged = [] }

abbrev all_levels : Text → Bool
all_levels level = true

abbrev written : Fields → Text
written fields = codes "{}"

run-Clean_example : CleanLogger all_levels written (
    run all_levels written
      (Calls.http
        (line (codes "POST /login"))
        (field (codes "token") (primitive (codes "abc")) end))
      fresh)
unfolding Clean
run-Clean_example =
    run-Clean all_levels written
      (Calls.http (line (codes "POST /login"))
        (field (codes "token") (primitive (codes "abc")) end))
      fresh tt (tt, tt)
