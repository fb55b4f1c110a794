-- ===== src/Application/RefreshToken/Branches.antt =====
-- When the use case gives new tokens, and what it does with a token that was used before.
use enterprise_system.Prelude.{
  ◌≤◌, ◌≡◌, ◌≢◌, true, none, some, ltb, Except, ok, throw, is_some, arith, refl, inl, inr, ap, ◌∙◌,
  Bool-cases, Option-cases,
}
use enterprise_system.Domain.Fault.{
  Fault, active, status_eq, status_eq_iff, error, user_not_found, email_already_exists,
  user_suspended, concurrency_conflict, type_error,
}
use enterprise_system.Domain.Identity.{UniqueId, from_string}
use enterprise_system.Domain.User.{User, is_active}
use enterprise_system.Domain.Port.{UserRepository}
use enterprise_system.Application.RefreshToken.{
  SessionSnapshot, SessionRepository, TokenService, AuthTokens, refresh_token_revoked, Params,
  Moment, new_session, new_tokens, renew, of_user, lookup_user, of_session, refresh_token,
}

module _ {W : Type 0} (sessions : SessionRepository W) (users : UserRepository W)
    (tokens : TokenService) (params : Params) (at : Moment) where
  -- A refresh token whose session was revoked is refused, and all the sessions of its user are handed to
  -- the revocation.
  pub refresh_token-revoked :
      (w : W) (s : SessionSnapshot)
      → sessions.find_by_refresh_token params.refresh_token w ≡ some s
      → s.revoked_at ≢ none
      → refresh_token sessions users tokens params at w
        ≡ (ok (throw refresh_token_revoked), sessions.revoke_all_for_user s.user_id w)
  unfolding refresh_token
  refresh_token-revoked w s f n =
      let revoked : is_some s.revoked_at ≡ true = ground arith in
      rw f (unfold of_session in rw revoked refl)

  renew-ok :
      (s : SessionSnapshot) (user : User) (v : W) (t : AuthTokens)
      → (renew sessions users tokens params at s user v).0 ≡ ok (ok t)
      → (user.status ≡ active)
        × (t ≡ new_tokens sessions users tokens params at user)
        × ((renew sessions users tokens params at s user v).1
            ≡ sessions.create
                (new_session sessions users tokens params at s user)
                (sessions.revoke s.id v))
  unfolding renew is_active
  renew-ok s user v t h = elim (Bool-cases (status_eq user.status active)) [
    | inl e ↦
        ((status_eq_iff user.status active).0 e, (let g = rw e at h in ground arith), rw e refl)
    | inr e ↦ absurd (let g = rw e at h in ground arith)
  ]

  of_user-ok :
      (s : SessionSnapshot) (r : Except Fault User) (v : W) (t : AuthTokens)
      → (of_user sessions users tokens params at s r v).0 ≡ ok (ok t)
      → (user : User) × (r ≡ ok user)
        × (of_user sessions users tokens params at s r v
            ≡ renew sessions users tokens params at s user v)
  unfolding of_user
  of_user-ok s (ok user) v t h = (user, refl, refl)
  of_user-ok s (throw (error m)) v t h = absurd (ground arith)
  of_user-ok s (throw (user_not_found key type)) v t h = absurd (ground arith)
  of_user-ok s (throw (email_already_exists e)) v t h = absurd (ground arith)
  of_user-ok s (throw (user_suspended e)) v t h = absurd (ground arith)
  of_user-ok s (throw (concurrency_conflict e)) v t h = absurd (ground arith)
  of_user-ok s (throw type_error) v t h = absurd (ground arith)

  lookup_user-ok :
      (s : SessionSnapshot) (r : Except Fault UniqueId) (w : W) (t : AuthTokens)
      → (lookup_user sessions users tokens params at s r w).0 ≡ ok (ok t)
      → (id : UniqueId) × (user : User) × (r ≡ ok id)
        × ((users.find_by_id id w).0 ≡ ok user)
        × (lookup_user sessions users tokens params at s r w
            ≡ renew sessions users tokens params at s user (users.find_by_id id w).1)
  lookup_user-ok s (throw x) w t h =
      let (user, e, _) = of_user-ok s (throw x) w t h in absurd (ground arith)
  lookup_user-ok s (ok id) w t h =
      let (user, e, g) = of_user-ok s (users.find_by_id id w).0 (users.find_by_id id w).1 t h in
      (id, user, refl, e, g)

  -- The session passes the checks.
  of_session-ok :
      (s : SessionSnapshot) (w : W) (t : AuthTokens)
      → (of_session sessions users tokens params at (some s) w).0 ≡ ok (ok t)
      → (s.revoked_at ≡ none)
        × (at.checked_at ≤ s.expires_at)
        × (of_session sessions users tokens params at (some s) w
            ≡ lookup_user sessions users tokens params at s (from_string s.user_id) w)
  unfolding of_session
  of_session-ok s w t h = elim (Bool-cases (is_some s.revoked_at)) [
    | inl e ↦ absurd (let g = rw e at h in ground arith)
    | inr e ↦ elim (Bool-cases (ltb s.expires_at at.checked_at)) [
      | inl f ↦ absurd (let g = rw f at (rw e at h) in ground arith)
      | inr f ↦ (ground arith, ground arith, rw e (rw f refl))
    ]
  ]

  -- New tokens are given only for a session that was found, is not revoked and has not expired, and whose
  -- user was read and is active; the old session is revoked then, and a new one is made for that user.
  pub refresh_token-ok :
      (w : W) (t : AuthTokens)
      → (refresh_token sessions users tokens params at w).0 ≡ ok (ok t)
      → (s : SessionSnapshot) × (id : UniqueId) × (user : User) × (sessions.find_by_refresh_token
            params.refresh_token w
          ≡ some s)
        × (s.revoked_at ≡ none)
        × (at.checked_at ≤ s.expires_at)
        × (from_string s.user_id ≡ ok id)
        × ((users.find_by_id id w).0 ≡ ok user)
        × (user.status ≡ active)
        × (t ≡ new_tokens sessions users tokens params at user)
        × ((refresh_token sessions users tokens params at w).1
            ≡ sessions.create
                (new_session sessions users tokens params at s user)
                (sessions.revoke s.id (users.find_by_id id w).1))
  unfolding refresh_token
  refresh_token-ok w t h =
      elim (Option-cases (sessions.find_by_refresh_token params.refresh_token w)) [
        | inl e ↦ absurd (let g = rw (e, of_session) at h in ground arith)
        | inr (s, e) ↦
            let (n, l, o) = of_session-ok s w t (rw e at h) in
            let (id, user, p, q, g) =
              lookup_user-ok s (from_string s.user_id) w t (rw o at (rw e at h)) in
            let whole = o ∙ g in
            let v = (users.find_by_id id w).1 in
            let (a, b, d) = renew-ok s user v t (rw whole at (rw e at h)) in
            (s, id, user, e, n, l, p, q, a, b, rw e (ap (λ x. x.1) whole ∙ d))
      ]
