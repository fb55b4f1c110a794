-- ===== src/Presentation/LoggingInterceptor/Hidden.antt =====
-- Which names the interceptor hides.
use enterprise_system.Prelude.{
  ◌≡◌, false, List, [], ◌∷◌, any, Text, codes, text_eq, text_eq→eq, text_eq_iff, Bool-cases, inl,
  inr, refl, sym, ap, ◌∙◌, arith,
}
use enterprise_system.Domain.Email.{to_lower_case}
use enterprise_system.Domain.Email.Normal.{to_lower_case_idem}
use enterprise_system.Presentation.LoggingInterceptor.{is_hidden, request_secrets}

-- A text with capitals is not the lower case of any.
capital-never :
    (key name : Text)
    → text_eq (to_lower_case name) name ≡ false
    → text_eq (to_lower_case key) name ≡ false
capital-never key name capital = elim (Bool-cases (text_eq (to_lower_case key) name)) [
  | inl e ↦
      (let same = text_eq→eq (to_lower_case key) name e in
        let low = ap to_lower_case (sym same) ∙ to_lower_case_idem key ∙ same in
        let fixed = (text_eq_iff (to_lower_case name) name).1 low in absurd (ground arith))
  | inr e ↦ e
]

-- The names of secrets without capitals.
abbrev pub plain_secrets : List Text
plain_secrets =
    codes "password"
    ∷ codes "password_hash"
    ∷ codes "token"
    ∷ codes "access_token"
    ∷ codes "refresh_token"
    ∷ codes "secret"
    ∷ codes "api_key"
    ∷ codes "authorization"
    ∷ codes "credit_card"
    ∷ codes "cvv"
    ∷ codes "ssn"
    ∷ []

-- The interceptor hides a name exactly if its lower case is one of the eleven names without capitals: the five
-- names of the list that have capitals, such as passwordHash and accessToken, hide nothing.
pub is_hidden-plain_secrets :
    (key : Text) → is_hidden key ≡ any (text_eq (to_lower_case key)) plain_secrets
unfolding is_hidden request_secrets any
is_hidden-plain_secrets key =
    let a = capital-never key (codes "passwordHash") refl in
    let b = capital-never key (codes "accessToken") refl in
    let c = capital-never key (codes "refreshToken") refl in
    let d = capital-never key (codes "apiKey") refl in
    let e = capital-never key (codes "creditCard") refl in rw a (rw b (rw c (rw d (rw e refl))))
