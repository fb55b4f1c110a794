-- ===== src/Presentation/AuthController.antt =====
-- `AuthController` (src/presentation/rest/controllers/auth.controller.ts): its routes over the service of the
-- tokens. What the decorators of Nest do in front of a route is not part of it.
pub mod Ended
use enterprise_system.Prelude.{ℕ, Option, none, some, List, [], ◌∷◌, Text, codes, Except, ok, throw}
use enterprise_system.Security.Tokens.{
  Config, Moment, Platform, Refusal, TokenPair, generate_token_pair, refresh_tokens, revoke_token,
}

pub record LoginDto : Type 0 where
  pub email : Text
  pub password : Text

pub record RegisterDto : Type 0 where
  pub email : Text
  pub password : Text
  pub first_name : Text
  pub last_name : Text

-- The user agent among the headers, and the address of the client.
pub record Request : Type 0 where
  pub user_agent : Option Text
  pub ip : Option Text

pub record TokenResponseDto : Type 0 where
  pub access_token : Text
  pub refresh_token : Text
  pub expires_in : ℕ
  pub token_type : Text

-- `{ ...tokenPair, tokenType: 'Bearer' }`
abbrev pub as_bearer : TokenPair → TokenResponseDto
as_bearer pair = record {
  access_token = pair.access_token;
  refresh_token = pair.refresh_token;
  expires_in = pair.expires_in;
  token_type = codes "Bearer";
}

abbrev responded : Except Refusal TokenPair → Except Refusal TokenResponseDto
responded (ok pair) = ok (as_bearer pair)
responded (throw e) = throw e

module _ {W : Type 0} (platform : Platform W) (config : Config) where
  unfoldable pub login : LoginDto → Request → Moment → W → W × TokenResponseDto
  unfolding generate_token_pair
  login dto request at w =
      let (w', pair) =
        generate_token_pair platform config (codes "user-id") dto.email (codes "user" ∷ [])
          request.user_agent request.ip at w in
      (w', as_bearer pair)

  unfoldable pub register : RegisterDto → Request → Moment → W → W × TokenResponseDto
  unfolding generate_token_pair
  register dto request at w =
      let (w', pair) =
        generate_token_pair platform config (codes "new-user-id") dto.email (codes "user" ∷ [])
          request.user_agent request.ip at w in
      (w', as_bearer pair)

  unfoldable pub refresh : Text → Request → Moment → W → W × Except Refusal TokenResponseDto
  unfolding refresh_tokens
  refresh refresh_token request at w =
      let (w', r) =
        refresh_tokens platform config refresh_token request.user_agent request.ip at w in
      (w', responded r)

-- `logout` of the user of the request, at a time.
unfoldable pub logout : {W : Type 0} → Platform W → Text → Option Text → ℕ → W → W
unfolding revoke_token
logout platform user_id refresh_token now w = revoke_token platform user_id refresh_token now w
