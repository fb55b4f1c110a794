-- ===== src/Security/Tokens/Rotation.antt =====
-- The rotation of refresh tokens: a token is good for one call.
use enterprise_system.Prelude.{
  inl, inr, ℕ, true, false, ◌≡◌, ◌≢◌, Option, none, some, List, [], ◌∷◌, All, Text, text_eq,
  text_eq_iff, Bool-cases, Option-cases, if◌then◌else◌, arith, ok, throw, refl,
}
use enterprise_system.Domain.Fault.{active}
use enterprise_system.Security.Access.{UserRow}
use enterprise_system.Security.Tokens.{
  Session, TokenPair, Moment, Config, Platform, refresh_token_revoked, is_unrevoked, is_live,
  first_match, parse_token, refresh_tokens, generate_token_pair, compose_token, new_session,
}
use enterprise_system.Security.Tokens.Revoked.{
  IsTable, IsClosed, All-imp, revoke, refresh_tokens-unmatched,
}

module _ {W : Type 0} (platform : Platform W) (rows : W → List Session)
    (t : IsTable platform rows) where
  -- The session that is found has what every session has, and its hash belongs to the value.
  first_match-All :
      (Q : Session → Type 0) (value : Text) (ss : List Session) (s : Session)
      → All Q ss
      → first_match platform value ss ≡ some s
      → Q s × (platform.compare value s.refresh_token ≡ true)
  unfolding first_match
  first_match-All Q value [] s q h = absurd (ground arith)
  first_match-All Q value (x ∷ xs) s (q, qs) h =
      elim (Bool-cases (platform.compare value x.refresh_token)) [
        | inl e ↦ let same : x ≡ s = ground arith in (rw same at q, rw same at e)
        | inr e ↦ first_match-All Q value xs s qs (rw e at h)
      ]

  -- A session that the value does not open any more.
  abbrev pub IsSpent : Text → Session → Type 0
  IsSpent value s = platform.compare value s.refresh_token ≡ true → s.revoked_at ≢ none

  module _ (config : Config) (agent ip : Option Text) (at : Moment) where
    -- A call that returns a pair has found a live session that the value opens. It has revoked it, has
    -- read an active user, and has created one session, for that user with the hash of the new value,
    -- which the new refresh token consists of beside the user's id.
    pub refresh_tokens-ok :
        (token user_id value : Text) (w : W) (pair : TokenPair)
        → parse_token token ≡ some (user_id, value)
        → (refresh_tokens platform config token agent ip at w).1 ≡ ok pair
        → (s : Session) × (user : UserRow) × (first_match platform value
              (platform.find_sessions (is_live user_id at.found_at) w)
            ≡ some s)
          × (platform.find_user user_id (platform.revoke_session s.id at.revoked_at w) ≡ some user)
          × (user.status ≡ active)
          × (pair.refresh_token ≡ compose_token user_id at.refresh_value)
          × ((refresh_tokens platform config token agent ip at w).0
              ≡ platform.create_session
                  (new_session platform config user_id agent ip at)
                  (platform.revoke_session s.id at.revoked_at w))
    unfolding refresh_tokens generate_token_pair
    refresh_tokens-ok token user_id value w pair p h =
        elim (Option-cases
          (first_match platform value (platform.find_sessions (is_live user_id at.found_at) w))) [
            | inl e ↦ absurd (let g = rw e at (rw p at h) in ground arith)
            | inr (s, e) ↦
                elim (Option-cases
                  (platform.find_user user_id (platform.revoke_session s.id at.revoked_at w))) [
                    | inl f ↦ absurd (let g = rw f at (rw e at (rw p at h)) in ground arith)
                    | inr (user, f) ↦
                        let g = rw f at (rw e at (rw p at h)) in
                        let st : user.status ≡ active = ground arith in
                        (s, user, e, f, st, ground arith, rw p (rw e (rw f (rw st refl))))
                  ]
          ]

    revoke-IsSpent :
        (value spent : Text) (now : ℕ) (s : Session)
        → (platform.compare value s.refresh_token ≡ true → s.id ≡ spent)
        → IsSpent value (if text_eq s.id spent then revoke now s else s)
    revoke-IsSpent value spent now s h =
        let (eq, eq') = text_eq_iff s.id spent in
        elim (Bool-cases (text_eq s.id spent)) [
          | inl e ↦ rw e (λ c. ground arith)
          | inr e ↦ rw e (λ c. let q = eq' (h c) in absurd (ground arith))
        ]

    IsSpent-unmatched :
        (user_id value : Text) (now : ℕ) (s : Session)
        → IsSpent value s
        → is_live user_id now s ≡ true
        → platform.compare value s.refresh_token ≡ false
    unfolding is_live is_unrevoked
    IsSpent-unmatched user_id value now s h l =
        elim (Bool-cases (platform.compare value s.refresh_token)) [
          | inl e ↦ let n = h e in absurd (ground arith)
          | inr e ↦ e
        ]

    -- Over a table that does what is documented: after a call that returned a pair, a second call with the
    -- same token is refused as revoked, and the user then has no unrevoked session. The condition is that
    -- the old value opens the hash of one session only, and not the hash of the new value.
    pub refresh_tokens-reused :
        (token user_id value spent : Text) (w : W) (pair : TokenPair)
        → parse_token token ≡ some (user_id, value)
        → (refresh_tokens platform config token agent ip at w).1 ≡ ok pair
        → All (λ s. platform.compare value s.refresh_token ≡ true → s.id ≡ spent) (rows w)
        → platform.compare value (platform.hash config.bcrypt_rounds at.salt at.refresh_value)
          ≡ false
        → (agent' ip' : Option Text) (later : Moment)
        → let w' = (refresh_tokens platform config token agent ip at w).0 in
          ((refresh_tokens platform config token agent' ip' later w').1
            ≡ throw refresh_token_revoked)
          × All
              (IsClosed user_id)
              (rows (refresh_tokens platform config token agent' ip' later w').0)
    refresh_tokens-reused token user_id value spent w pair p h only fresh agent' ip' later =
        let (s, user, e, _, _, _, w'-eq) = refresh_tokens-ok token user_id value w pair p h in
        let Only : Session → Type 0 =
          λ x. platform.compare value x.refresh_token ≡ true → x.id ≡ spent in
        let live = is_live user_id at.found_at in
        let found = t.finds Only live w (All-imp (λ _ o _. o) (rows w) only) in
        let (o, c) = first_match-All Only value (platform.find_sessions live w) s found e in
        let id : s.id ≡ spent = o c in
        let revoked =
          t.revokes (IsSpent value) spent at.revoked_at w
            (All-imp (revoke-IsSpent value spent at.revoked_at) (rows w) only) in
        let created =
          t.creates (IsSpent value) (new_session platform config user_id agent ip at)
            (platform.revoke_session spent at.revoked_at w) (λ i k. absurd (ground arith))
            revoked in
        rw w'-eq (
          rw id (
            refresh_tokens-unmatched platform rows t config token user_id value agent' ip' later
              (platform.create_session (new_session platform config user_id agent ip at)
                (platform.revoke_session spent at.revoked_at w))
              p (All-imp (λ x. IsSpent-unmatched user_id value later.found_at x) _ created)))
