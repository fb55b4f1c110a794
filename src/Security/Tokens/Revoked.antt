-- ===== src/Security/Tokens/Revoked.antt =====
-- The revocation of all the sessions of a user, over a table of sessions that does what the
-- documentation of the database client says.
use enterprise_system.Prelude.{
  inl, inr, ℕ, Bool, true, false, ◌≡◌, ◌≢◌, Option, none, some, List, [], ◌∷◌, All, Text, text_eq,
  text_eq_iff, Bool-cases, if◌then◌else◌, arith, throw, refl,
}
use enterprise_system.Security.Tokens.{
  Session, NewSession, Moment, Config, Platform, refresh_token_revoked, is_unrevoked, is_live,
  first_match, parse_token, refresh_tokens, revoke_all_tokens,
}

-- The row of a new session under an id that the database chooses.
abbrev pub row_of : Text → NewSession → Session
row_of id n = record {
  id = id;
  user_id = n.user_id;
  refresh_token = n.refresh_token;
  user_agent = n.user_agent;
  ip_address = n.ip_address;
  expires_at = n.expires_at;
  revoked_at = none;
}

abbrev pub revoke : ℕ → Session → Session
revoke now s = record s { revoked_at = some now }

-- The documented behaviour of the client's methods on the table of sessions, by what holds of every row.
pub record IsTable {W : Type 0} (platform : Platform W) (rows : W → List Session) : Type 1 where
  pub finds :
      (Q : Session → Type 0) (p : Session → Bool) (w : W)
      → All (λ s. p s ≡ true → Q s) (rows w)
      → All Q (platform.find_sessions p w)
  pub creates :
      (Q : Session → Type 0) (n : NewSession) (w : W)
      → ((id : Text) → Q (row_of id n))
      → All Q (rows w)
      → All Q (rows (platform.create_session n w))
  pub revokes :
      (Q : Session → Type 0) (id : Text) (now : ℕ) (w : W)
      → All (λ s. Q (if text_eq s.id id then revoke now s else s)) (rows w)
      → All Q (rows (platform.revoke_session id now w))
  pub revokes_all :
      (Q : Session → Type 0) (p : Session → Bool) (now : ℕ) (w : W)
      → All (λ s. Q (if p s then revoke now s else s)) (rows w)
      → All Q (rows (platform.revoke_sessions p now w).0)

-- A session is not an unrevoked one of the user.
abbrev pub IsClosed : Text → Session → Type 0
IsClosed user_id s = s.user_id ≡ user_id → s.revoked_at ≢ none

pub All-every : {A : Type 0} {Q : A → Type 0} → ((x : A) → Q x) → (xs : List A) → All Q xs
All-every q [] = tt
All-every q (x ∷ xs) = (q x, All-every q xs)

pub All-imp :
    {A : Type 0} {P Q : A → Type 0} → ((x : A) → P x → Q x) → (xs : List A) → All P xs → All Q xs
All-imp f [] h = tt
All-imp f (x ∷ xs) (h, hs) = (f x h, All-imp f xs hs)

revoke-IsClosed :
    (user_id : Text) (now : ℕ) (s : Session)
    → IsClosed user_id (if is_unrevoked user_id s then revoke now s else s)
unfolding is_unrevoked
revoke-IsClosed user_id now s =
    let (eq, eq') = text_eq_iff s.user_id user_id in
    elim (Bool-cases (text_eq s.user_id user_id)) [
      | inl e ↦ ground arith
      | inr e ↦ rw e (λ h. let q = eq' h in absurd (ground arith))
    ]

module _ {W : Type 0} (platform : Platform W) (rows : W → List Session)
    (t : IsTable platform rows) where
  pub revoke_sessions-IsClosed :
      (user_id : Text) (now : ℕ) (w : W)
      → All (IsClosed user_id) (rows (platform.revoke_sessions (is_unrevoked user_id) now w).0)
  revoke_sessions-IsClosed user_id now w =
      t.revokes_all (IsClosed user_id) (is_unrevoked user_id) now w
        (All-every (revoke-IsClosed user_id now) (rows w))

  -- After the revocation of all the tokens of a user, the user has no unrevoked session.
  pub revoke_all_tokens-IsClosed :
      (user_id : Text) (now : ℕ) (w : W)
      → All (IsClosed user_id) (rows (revoke_all_tokens platform user_id now w).0)
  unfolding revoke_all_tokens
  revoke_all_tokens-IsClosed user_id now w = revoke_sessions-IsClosed user_id now w

  first_match-none :
      (value : Text) (ss : List Session)
      → All (λ s. platform.compare value s.refresh_token ≡ false) ss
      → first_match platform value ss ≡ none
  unfolding first_match
  first_match-none value [] h = refl
  first_match-none value (s ∷ ss) (h, hs) = rw h (first_match-none value ss hs)

  -- Over a table that does what is documented, a refresh token of two parts that no live session of its
  -- user matches is refused as revoked, and the user then has no unrevoked session.
  pub refresh_tokens-unmatched :
      (config : Config) (token user_id value : Text) (agent ip : Option Text) (at : Moment) (w : W)
      → parse_token token ≡ some (user_id, value)
      → All
          (λ s.
            is_live user_id at.found_at s ≡ true → platform.compare value s.refresh_token ≡ false)
          (rows w)
      → ((refresh_tokens platform config token agent ip at w).1 ≡ throw refresh_token_revoked)
        × All (IsClosed user_id) (rows (refresh_tokens platform config token agent ip at w).0)
  unfolding refresh_tokens
  refresh_tokens-unmatched config token user_id value agent ip at w p h =
      let live = is_live user_id at.found_at in
      let n =
        first_match-none value (platform.find_sessions live w)
          (t.finds (λ s. platform.compare value s.refresh_token ≡ false) live w h) in
      rw p (rw n (refl, revoke_sessions-IsClosed user_id at.revoked_at w))
