-- ===== src/Infrastructure/EmailService.antt =====
-- `EmailService` (src/infrastructure/external-services/email.service.ts). The provider behind `doSend`, which
-- the source leaves to be put in and stands in for by a log line, is a parameter: what it gives at an
-- attempt, or the message of its error. The lengths of the waits are random and not modelled.
--
-- The tokens of the rate limiter are a double. All its values are multiples of 2^-62, in which they are counted
-- here: the rate 100 / 60000 is one whose last bit is 2^-62, and no sum, product or difference of the limiter
-- has a smaller bit; each is rounded as IEEE 754 says. The clock does not go back.
pub mod RateLimit
pub mod Attempts
use enterprise_system.Prelude.{
  ℕ, zero, suc, ◌+◌, ◌-◌, ◌*◌, min, Bool, true, false, ◌&&◌, ◌||◌, ◌==◌, Option, none, some, List,
  [], ◌∷◌, any, map, leb, ltb, if◌then◌else◌, Text, codes, Except, ok, throw,
}
use enterprise_system.Prelude.Double.{round_double}
use enterprise_system.Domain.Email.{to_lower_case}

pub data Recipients : Type 0 where
  one : Text → Recipients
  several : List Text → Recipients

pub record SendEmailParams : Type 0 where
  pub to : Recipients
  pub subject : Text
  pub template_id : Option Text
  pub html : Option Text
  pub plain_text : Option Text

-- `{ messageId, status: 'sent' }`
pub record EmailResult : Type 0 where
  pub message_id : Text

pub data Invalid : Type 0 where
  no_recipient no_subject no_content : Invalid

-- What `send` throws.
pub data SendFailure : Type 0 where
  rate_limit_exceeded : SendFailure
  invalid : Invalid → SendFailure
  not_retryable : Text → SendFailure
  exhausted : Text → SendFailure

abbrev pub max_retries : ℕ
max_retries = 3

-- The tokens of a sender that has some, or that owes a part of one.
pub data Tokens : Type 0 where
  owned owed : ℕ → Tokens

-- 1, and 100, the `rateLimit`, in units of 2^-62.
abbrev pub one_token : ℕ
one_token = 4611686018427387904

abbrev pub rate_limit : ℕ
rate_limit = 461168601842738790400

-- `refillRate`: the double that is nearest to 100 / 60000.
abbrev pub refill_rate : ℕ
refill_rate = 7686143364045647

-- `tokens + tokensToAdd`, rounded.
unfoldable pub add_tokens : ℕ → Tokens → Tokens
add_tokens added (owned t) = owned (round_double (t + added))
add_tokens added (owed t) =
    if leb t added then owned (round_double (added - t)) else owed (round_double (t - added))

-- `Math.min(this.rateLimit, tokens)`
unfoldable pub at_most_limit : Tokens → Tokens
at_most_limit (owned t) = owned (min rate_limit t)
at_most_limit (owed t) = owed t

-- `refillTokens`, the milliseconds after the last refill.
unfoldable pub refill_tokens : ℕ → Tokens → Tokens
unfolding add_tokens at_most_limit
refill_tokens elapsed tokens =
    at_most_limit (add_tokens (round_double (elapsed * refill_rate)) tokens)

-- `tokens <= 0`
unfoldable pub is_exhausted : Tokens → Bool
is_exhausted (owned t) = t == 0
is_exhausted (owed t) = true

-- `tokens--`, of tokens above 0.
unfoldable pub take_token : Tokens → Tokens
take_token (owned t) =
    if leb one_token t
    then owned (round_double (t - one_token))
    else owed (round_double (one_token - t))
take_token (owed t) = owed (round_double (t + one_token))

-- `!s` of a text that may be undefined.
unfoldable pub is_blank : Option Text → Bool
is_blank none = true
is_blank (some []) = true
is_blank (some (c ∷ s)) = false

unfoldable pub lacks_recipient : Recipients → Bool
lacks_recipient (one []) = true
lacks_recipient (one (c ∷ s)) = false
lacks_recipient (several []) = true
lacks_recipient (several (s ∷ ss)) = false

unfoldable pub lacks_content : SendEmailParams → Bool
unfolding is_blank
lacks_content p = is_blank p.html && is_blank p.plain_text && is_blank p.template_id

unfoldable pub validate_params : SendEmailParams → Except Invalid (Unit {0})
unfolding lacks_recipient lacks_content is_blank
validate_params p =
    if lacks_recipient p.to
    then throw no_recipient
    else if is_blank (some p.subject)
    then throw no_subject
    else if lacks_content p
    then throw no_content
    else ok tt

-- `message.includes(word)`
unfoldable pub starts_with : Text → Text → Bool
starts_with [] s = true
starts_with (c ∷ w) [] = false
starts_with (c ∷ w) (d ∷ s) = c == d && starts_with w s

unfoldable pub includes : Text → Text → Bool
unfolding starts_with
includes w [] = starts_with w []
includes w (d ∷ s) = starts_with w (d ∷ s) || includes w s

unfoldable pub retryable_words : List Text
retryable_words =
    codes "timeout"
    ∷ codes "econnrefused"
    ∷ codes "econnreset"
    ∷ codes "rate limit"
    ∷ codes "429"
    ∷ codes "500"
    ∷ codes "502"
    ∷ codes "503"
    ∷ []

-- `isRetryable` of an `Error` with the message.
unfoldable pub is_retryable : Text → Bool
unfolding any includes retryable_words to_lower_case
is_retryable message =
    let lowered = to_lower_case message in any (λ w. includes w lowered) retryable_words

-- The result, and how many attempts were made.
pub record Sending : Type 0 where
  pub result : Except SendFailure EmailResult
  pub attempts : ℕ

-- `lastError?.message`
abbrev last_message : Option Text → Text
last_message none = codes "undefined"
last_message (some m) = m

module _ (do_send : ℕ → Except Text EmailResult) where
  -- The loop from `attempt` on, with `left` rounds left, and the last error.
  unfoldable pub attempt_from : ℕ → ℕ → Option Text → Sending
  unfolding is_retryable
  attempt_from zero attempt last = record {
    result = throw (exhausted (last_message last));
    attempts = attempt - 1;
  }
  attempt_from (suc left) attempt last = elim (do_send attempt) [
    | ok r ↦ record { result = ok r; attempts = attempt }
    | throw m ↦
        let more = attempt_from left (attempt + 1) (some m) in
        if is_retryable m
        then more
        else record { result = throw (not_retryable m); attempts = attempt }
  ]

  unfoldable pub deliver : SendEmailParams → Except Invalid (Unit {0}) → Sending
  unfolding attempt_from
  deliver p (throw i) = record { result = throw (invalid i); attempts = 0 }
  deliver p (ok u) = attempt_from max_retries 1 none

  -- `send`: a mail that is refused as invalid has used up its token.
  unfoldable pub send : ℕ → SendEmailParams → Tokens → Sending × Tokens
  unfolding refill_tokens is_exhausted take_token validate_params deliver
  send elapsed p tokens =
      let refilled = refill_tokens elapsed tokens in
      if is_exhausted refilled
      then (record { result = throw rate_limit_exceeded; attempts = 0 }, refilled)
      else (deliver p (validate_params p), take_token refilled)
