-- ===== src/Domain/Specification.antt =====
-- Specifications (src/domain/specifications): rules about a candidate, and their combinations.
use enterprise_system.Prelude.{
  Bool, true, not, ◌&&◌, ◌||◌, ◌≡◌, ◌⊎◌, ◌↔◌, inl, inr, arith, refl, Bool-cases,
}
use mathlib.Core.Bool.{and-eq-true_iff}
use enterprise_system.Domain.Fault.{active, suspended, status_eq}
use enterprise_system.Domain.User.{User, can_login}

-- The classes of specifications: a rule of the program, or one of the three combinations.
pub data Specification {ℓ} (T : Type ℓ) : Type ℓ where
  rule : (T → Bool) → Specification T
  and : Specification T → Specification T → Specification T
  or : Specification T → Specification T → Specification T
  negation : Specification T → Specification T

unfoldable pub is_satisfied_by {ℓ} : {T : Type ℓ} → Specification T → T → Bool
is_satisfied_by (rule p) x = p x
is_satisfied_by (and s t) x = is_satisfied_by s x && is_satisfied_by t x
is_satisfied_by (or s t) x = is_satisfied_by s x || is_satisfied_by t x
is_satisfied_by (negation s) x = not (is_satisfied_by s x)

abbrev pub user_active_spec : Specification User
user_active_spec = rule (λ u. status_eq u.status active)

abbrev pub user_email_verified_spec : Specification User
user_email_verified_spec = rule (λ u. u.email_verified)

abbrev pub user_suspended_spec : Specification User
user_suspended_spec = rule (λ u. status_eq u.status suspended)

abbrev pub user_can_login_spec : Specification User
user_can_login_spec = and user_active_spec user_email_verified_spec

-- What a specification means.
abbrev pub Means {ℓ} : {T : Type ℓ} → Specification T → T → Type 0
Means (rule p) x = p x ≡ true
Means (and s t) x = Means s x × Means t x
Means (or s t) x = Means s x ⊎ Means t x
Means (negation s) x = ¬ (Means s x)

-- A specification is satisfied exactly when its meaning holds: both parts of `and`, one part of `or`,
-- and not the operand of a negation.
pub is_satisfied_by_iff {ℓ} :
    {T : Type ℓ} (s : Specification T) (x : T) → (is_satisfied_by s x ≡ true) ↔ Means s x
unfolding is_satisfied_by
is_satisfied_by_iff (rule p) x = (λ h. h, λ h. h)
is_satisfied_by_iff (and s t) x =
    let (f, g) = is_satisfied_by_iff s x in
    let (f', g') = is_satisfied_by_iff t x in
    (
      λ h. let (p, q) = (and-eq-true_iff _ _).0 h in (f p, f' q),
      λ h. (and-eq-true_iff _ _).1 (g h.0, g' h.1),
    )
is_satisfied_by_iff (or s t) x =
    let (f, g) = is_satisfied_by_iff s x in
    let (f', g') = is_satisfied_by_iff t x in
    (
      λ h. elim (Bool-cases (is_satisfied_by s x)) [
        | inl e ↦ inl (f e)
        | inr e ↦ inr (f' (rw e at h))
      ],
      λ h. elim h [ inl p ↦ ground (arith, g p) | inr q ↦ ground (arith, g' q) ],
    )
is_satisfied_by_iff (negation s) x =
    let (f, g) = is_satisfied_by_iff s x in
    (
      λ h m. ground (arith, g m),
      λ h. elim (Bool-cases (is_satisfied_by s x)) [ inl e ↦ absurd (h (f e)) | inr e ↦ rw e ],
    )

-- The composed specification of a login agrees with the entity's own test.
pub can_login_iff : (u : User) → is_satisfied_by user_can_login_spec u ≡ can_login u
unfolding is_satisfied_by can_login
can_login_iff u = refl
