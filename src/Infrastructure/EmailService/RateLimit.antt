-- ===== src/Infrastructure/EmailService/RateLimit.antt =====
-- How many mails the rate limiter lets through.
use enterprise_system.Prelude.{
  ℕ, zero, suc, ◌+◌, ◌-◌, ◌*◌, length, ◌≤◌, ◌<◌, ◌≡◌, Bool, true, false, Option, none, List, [],
  ◌∷◌, leb, if◌then◌else◌, Bool-cases, Except-cases, inl, inr, arith, Text, Except, ok, throw, refl,
  ◌∙◌,
}
use enterprise_system.Prelude.Double.{
  round_double, round_double-bound, round_double-le, round_double-IsNear,
}
use enterprise_system.Infrastructure.EmailService.{
  SendEmailParams, EmailResult, Invalid, SendFailure, rate_limit_exceeded, Tokens, owned, owed,
  one_token, rate_limit, refill_rate, add_tokens, at_most_limit, refill_tokens, is_exhausted,
  take_token, send, deliver, validate_params, attempt_from, is_retryable,
}

-- The mail was refused by the limiter.
abbrev pub limited : Except SendFailure EmailResult → Bool
limited (throw rate_limit_exceeded) = true
limited _ = false

-- The tokens are from -1 to 100.
abbrev pub Within : Tokens → Type 0
Within (owned t) = t ≤ rate_limit
Within (owed t) = t ≤ one_token

-- The tokens and one more.
abbrev pub credit : Tokens → ℕ
credit (owned t) = one_token + t
credit (owed t) = one_token - t

-- What the rounding adds with each mail, at most: 2^-44 of a mail.
abbrev pub slack : ℕ
slack = 262144

owed_bound : (v : ℕ) → v ≤ one_token → round_double v ≤ one_token
owed_bound v h = round_double-bound 62 v h

add_tokens-Within :
    (added : ℕ) (tokens : Tokens)
    → Within tokens
    → Within (at_most_limit (add_tokens added tokens))
      × (credit (at_most_limit (add_tokens added tokens)) ≤ credit tokens + added + 131072)
unfolding at_most_limit add_tokens
add_tokens-Within added (owned t) h = elim (Bool-cases (leb added 590295810358705651712)) [
  | inl e ↦
      (let (a, b) = round_double-le 131072 (t + added) (ground arith) in (omega arith, omega arith))
  | inr e ↦ (omega arith, ground arith)
]
add_tokens-Within added (owed t) h = elim (Bool-cases (leb t added)) [
  | inl e ↦ rw e (elim (Bool-cases (leb added 590295810358705651712)) [
    | inl f ↦
        (let (a, b) = round_double-le 131072 (added - t) (ground arith) in
          (omega arith, ground arith))
    | inr f ↦ (omega arith, ground arith)
  ])
  | inr e ↦ rw e (
      let low = owed_bound (t - added) (omega arith) in
      let (a, b) = round_double-le 131072 (t - added) (omega arith) in (low, ground arith))
]

credit_bound : (tokens : Tokens) → Within tokens → credit tokens ≤ 465780287861166178304
credit_bound (owned t) h = omega arith
credit_bound (owed t) h = omega arith

refill_tokens-Within :
    (elapsed : ℕ) (tokens : Tokens)
    → Within tokens
    → Within (refill_tokens elapsed tokens)
      × (credit (refill_tokens elapsed tokens) ≤ credit tokens + elapsed * refill_rate + 196608)
unfolding refill_tokens
refill_tokens-Within elapsed tokens h =
    let (w, b) = add_tokens-Within (round_double (elapsed * refill_rate)) tokens h in
    let c = credit_bound (refill_tokens elapsed tokens) w in
    elim (Bool-cases (leb (elapsed * refill_rate) 590295810358705651712)) [
      | inl e ↦
          (let (u, v) = round_double-le 65536 (elapsed * refill_rate) (ground arith) in
            (w, omega arith))
      | inr e ↦ (w, ground arith)
    ]

take_token-Within :
    (tokens : Tokens)
    → Within tokens
    → is_exhausted tokens ≡ false
    → Within (take_token tokens) × (credit (take_token tokens) + one_token ≤ credit tokens + 65536)
unfolding take_token is_exhausted
take_token-Within (owned t) h e = elim (Bool-cases (leb one_token t)) [
  | inl f ↦ rw f (
      let (a, b) = round_double-le 65536 (t - one_token) (ground arith) in
      (omega arith, ground arith))
  | inr f ↦ rw f (
      let low = owed_bound (one_token - t) (omega arith) in
      let (a, b) = round_double-le 65536 (one_token - t) (omega arith) in (low, ground arith))
]
take_token-Within (owed t) h e = cc

-- In 601 milliseconds more than a token comes back, also after the rounding.
refilled_bound : (elapsed : ℕ) → 601 ≤ elapsed → one_token < round_double (elapsed * refill_rate)
refilled_bound elapsed h = let (a, b) = round_double-IsNear (elapsed * refill_rate) in omega arith

round_double-positive : (v : ℕ) → 0 < v → 0 < round_double v
round_double-positive v h = let (a, b) = round_double-IsNear v in omega arith

refill_tokens-positive :
    (elapsed : ℕ) (tokens : Tokens)
    → 601 ≤ elapsed
    → Within tokens
    → is_exhausted (refill_tokens elapsed tokens) ≡ false
unfolding refill_tokens is_exhausted add_tokens at_most_limit
refill_tokens-positive elapsed (owned t) h w =
    let r = refilled_bound elapsed h in
    let p = round_double-positive (t + round_double (elapsed * refill_rate)) (omega arith) in
    ground arith
refill_tokens-positive elapsed (owed t) h w =
    let r = refilled_bound elapsed h in
    let p = round_double-positive (round_double (elapsed * refill_rate) - t) (omega arith) in
    elim (Bool-cases (leb t (round_double (elapsed * refill_rate)))) [
      | inl e ↦ rw e (ground arith)
      | inr e ↦ rw e (ground arith)
    ]

module _ (do_send : ℕ → Except Text EmailResult) where
  attempt_from-limited :
      (left attempt : ℕ) (last : Option Text)
      → limited (attempt_from do_send left attempt last).result ≡ false
  unfolding attempt_from
  attempt_from-limited zero attempt last = refl
  attempt_from-limited (suc left) attempt last = elim (Except-cases (do_send attempt)) [
    | inl (r, e) ↦ rw (e, attempt_from) refl
    | inr (m, e) ↦ elim (Bool-cases (is_retryable m)) [
      | inl f ↦ rw (e, attempt_from) (rw f (attempt_from-limited left (attempt + 1) _))
      | inr f ↦ rw (e, attempt_from) (rw f refl)
    ]
  ]

  deliver-limited :
      (p : SendEmailParams) (v : Except Invalid (Unit {0}))
      → limited (deliver do_send p v).result ≡ false
  unfolding deliver
  deliver-limited p (throw i) = refl
  deliver-limited p (ok u) = attempt_from-limited 3 1 none

  send-limited :
      (elapsed : ℕ) (p : SendEmailParams) (tokens : Tokens)
      → limited (send do_send elapsed p tokens).0.result
        ≡ is_exhausted (refill_tokens elapsed tokens)
  unfolding send
  send-limited elapsed p tokens = elim (Bool-cases (is_exhausted (refill_tokens elapsed tokens))) [
    | inl e ↦ rw e refl
    | inr e ↦ rw e (deliver-limited p (validate_params p))
  ]

  -- What a mail leaves of the tokens.
  send-tokens :
      (elapsed : ℕ) (p : SendEmailParams) (tokens : Tokens)
      → Within tokens
      → Within (send do_send elapsed p tokens).1
        × (credit (send do_send elapsed p tokens).1
              + (if limited (send do_send elapsed p tokens).0.result then 0 else one_token)
            ≤ credit tokens + elapsed * refill_rate + slack)
  unfolding send
  send-tokens elapsed p tokens h =
      let l = send-limited elapsed p tokens in
      let (w, b) = refill_tokens-Within elapsed tokens h in
      elim (Bool-cases (is_exhausted (refill_tokens elapsed tokens))) [
        | inl e ↦ rw l (rw e (w, omega arith))
        | inr e ↦
            let (w', b') = take_token-Within (refill_tokens elapsed tokens) w e in
            rw l (rw e (w', omega arith))
      ]

  -- The mails that are let through among those sent one after the other, each with the time after the last.
  abbrev pub passed : List (ℕ × SendEmailParams) → Tokens → ℕ
  passed [] tokens = 0
  passed ((elapsed, p) ∷ mails) tokens =
      let (s, left) = send do_send elapsed p tokens in
      let rest = passed mails left in if limited s.result then rest else rest + 1

  abbrev pub duration : List (ℕ × SendEmailParams) → ℕ
  duration [] = 0
  duration ((elapsed, p) ∷ mails) = elapsed + duration mails

  -- From tokens between -1 and 100 on, of any mails that are sent one after the other no more are let through
  -- than one above the tokens and the time at the refill rate allow, up to the rounding, which adds at most 2^-44
  -- of a mail with each mail.
  pub passed_bound :
      (mails : List (ℕ × SendEmailParams)) (tokens : Tokens)
      → Within tokens
      → one_token * passed mails tokens
        ≤ credit tokens + duration mails * refill_rate + length mails * slack
  passed_bound [] tokens h = omega arith
  passed_bound ((elapsed, p) ∷ mails) tokens h =
      let (u, v) = send-tokens elapsed p tokens h in
      let rest = passed_bound mails (send do_send elapsed p tokens).1 u in
      elim (Bool-cases (limited (send do_send elapsed p tokens).0.result)) [
        | inl e ↦ let v' = rw e at v in rw e (omega arith)
        | inr e ↦ let v' = rw e at v in rw e (omega arith)
      ]

  -- The tokens after the mails.
  abbrev pub tokens_after : List (ℕ × SendEmailParams) → Tokens → Tokens
  tokens_after [] tokens = tokens
  tokens_after ((elapsed, p) ∷ mails) tokens = tokens_after mails (send do_send elapsed p tokens).1

  tokens_after-Within :
      (mails : List (ℕ × SendEmailParams)) (tokens : Tokens)
      → Within tokens
      → Within (tokens_after mails tokens)
  tokens_after-Within [] tokens h = h
  tokens_after-Within ((elapsed, p) ∷ mails) tokens h =
      tokens_after-Within mails (send do_send elapsed p tokens).1 (send-tokens elapsed p tokens h).0

  -- Whatever mails were sent before, from a full limiter on, one that is sent 601 ms or more after the last of them
  -- is let through.
  pub send-tokens_after :
      (mails : List (ℕ × SendEmailParams)) (elapsed : ℕ) (p : SendEmailParams)
      → 601 ≤ elapsed
      → limited (send do_send elapsed p (tokens_after mails (owned rate_limit))).0.result ≡ false
  send-tokens_after mails elapsed p h =
      send-limited elapsed p (tokens_after mails (owned rate_limit))
      ∙ refill_tokens-positive elapsed (tokens_after mails (owned rate_limit)) h
          (tokens_after-Within mails (owned rate_limit) (omega arith))
