-- ===== src/Presentation/AuthController/Ended.antt =====
-- That a logout ends what a refresh could go on with.
use enterprise_system.Prelude.{
  ℕ, true, false, ◌≡◌, none, some, List, All, Text, text_eq, text_eq_iff, Bool-cases, inl, inr,
  throw, refl, arith,
}
use enterprise_system.Security.Tokens.{
  Session, Config, Moment, Platform, is_live, is_unrevoked, parse_token, refresh_token_revoked,
  revoke_token, revoke_all_tokens,
}
use enterprise_system.Security.Tokens.Revoked.{
  IsTable, IsClosed, All-imp, revoke_all_tokens-IsClosed, refresh_tokens-unmatched,
}
use enterprise_system.Presentation.AuthController.{Request, refresh, logout}

-- A closed session is not live.
IsClosed-is_live :
    (user_id : Text) (now : ℕ) (s : Session) → IsClosed user_id s → is_live user_id now s ≡ false
unfolding is_live is_unrevoked
IsClosed-is_live user_id now s closed =
    let (eq, eq') = text_eq_iff s.user_id user_id in
    elim (Bool-cases (text_eq s.user_id user_id)) [
      | inl e ↦ (let h = closed (eq e) in ground arith)
      | inr e ↦ rw e refl
    ]

module _ {W : Type 0} (platform : Platform W) (rows : W → List Session)
    (t : IsTable platform rows) where
  -- Over a table that does what is documented, after a user logged out without a refresh token the route for a
  -- refresh answers to every refresh token of that user, at any time, that it is revoked, and the user still
  -- has no unrevoked session.
  pub logout-refresh :
      (config : Config) (user_id token value : Text) (now : ℕ) (request : Request) (at : Moment)
      (w : W)
      → parse_token token ≡ some (user_id, value)
      → let w' = logout platform user_id none now w in
        ((refresh platform config token request at w').1 ≡ throw refresh_token_revoked)
        × All (IsClosed user_id) (rows (refresh platform config token request at w').0)
  unfolding refresh logout revoke_token
  logout-refresh config user_id token value now request at w p =
      let closed = revoke_all_tokens-IsClosed platform rows t user_id now w in
      let w' = (revoke_all_tokens platform user_id now w).0 in
      let unmatched =
        All-imp
          {Q = λ s.
            is_live user_id at.found_at s ≡ true → platform.compare value s.refresh_token ≡ false}
          (λ s (c : IsClosed user_id s) (l : is_live user_id at.found_at s ≡ true).
            (let h = IsClosed-is_live user_id at.found_at s c in absurd (ground arith)))
          (rows w') closed in
      let (r, c) =
        refresh_tokens-unmatched platform rows t config token user_id value request.user_agent
          request.ip at w' p unmatched in
      (rw r refl, c)
