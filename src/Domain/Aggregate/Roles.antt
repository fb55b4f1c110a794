-- ===== src/Domain/Aggregate/Roles.antt =====
-- The role assignments of an aggregate: no role twice, and what assigning and removing do.
use enterprise_system.Prelude.{
  Bool, true, false, not, ◌||◌, ◌≡◌, List, [], ◌∷◌, ◌++◌, refl, ◌∙◌, arith, any, any-append, filter,
  filter-id, any-filter-not, length-filter-not, length, length-append, Bool-cases, inl, inr, ok,
  lt→ltb,
}
use enterprise_system.Domain.Identity.{UniqueId, id_eq, id_eq_iff}
use enterprise_system.Domain.Aggregate.{
  RoleAssignment, UserAggregate, has_role, assign_role, remove_role,
}

abbrev gives : UniqueId → RoleAssignment → Bool
gives id r = id_eq r.role_id id

-- No two assignments give the same role.
abbrev pub Distinct : List RoleAssignment → Type 0
Distinct [] = Unit
Distinct (r ∷ rs) = (any (gives r.role_id) rs ≡ false) × Distinct rs

Distinct-concat :
    (rs : List RoleAssignment) (r : RoleAssignment)
    → Distinct rs
    → any (gives r.role_id) rs ≡ false
    → Distinct (rs ++ r ∷ [])
unfolding any
Distinct-concat [] r d h = (refl, tt)
Distinct-concat (q ∷ rs) r (p, d) h = (
  any-append (gives q.role_id) rs (r ∷ [])
      ∙ ground (arith, id_eq_iff q.role_id r.role_id, id_eq_iff r.role_id q.role_id),
  Distinct-concat rs r d (ground arith),
)

any-filter :
    (p q : RoleAssignment → Bool) (rs : List RoleAssignment)
    → any p rs ≡ false
    → any p (filter q rs) ≡ false
unfolding any filter
any-filter p q [] h = refl
any-filter p q (r ∷ rs) h = ground (arith, any-filter p q rs)

Distinct-filter :
    (q : RoleAssignment → Bool) (rs : List RoleAssignment) → Distinct rs → Distinct (filter q rs)
unfolding filter
Distinct-filter q [] d = tt
Distinct-filter q (r ∷ rs) (p, d) = elim (Bool-cases (q r)) [
  | inl e ↦ rw e (any-filter (gives r.role_id) q rs p, Distinct-filter q rs d)
  | inr e ↦ rw e (Distinct-filter q rs d)
]

-- Assigning a role that is let in keeps the roles distinct, gives that role, and changes no other.
pub assign_role-Distinct :
    (r : RoleAssignment) (a b : UserAggregate)
    → Distinct a.roles
    → assign_role r a ≡ ok b
    → Distinct b.roles × ((id : UniqueId) → has_role id b ≡ (has_role id a || id_eq r.role_id id))
unfolding assign_role has_role
assign_role-Distinct r a b d h = elim (Bool-cases (any (gives r.role_id) a.roles)) [
  | inl e ↦ absurd (ground arith)
  | inr e ↦
      let same : a.roles ++ r ∷ [] ≡ b.roles = ground arith in
      (
        rw (← same) (Distinct-concat a.roles r d e),
        λ id. rw (← same) (any-append (gives id) a.roles (r ∷ []) ∙ ground arith),
      )
]

-- Removing a role reports whether it was there; it is gone then, and the roles stay distinct.
pub remove_role-Distinct :
    (id : UniqueId) (a : UserAggregate)
    → Distinct a.roles
    → ((remove_role id a).1 ≡ has_role id a)
      × (has_role id (remove_role id a).0 ≡ false)
      × Distinct (remove_role id a).0.roles
unfolding remove_role has_role
remove_role-Distinct id a d = (
  elim (Bool-cases (any (gives id) a.roles)) [
    | inl e ↦ rw e (lt→ltb _ _ (length-filter-not (gives id) a.roles e))
    | inr e ↦ rw (e, filter-id (gives id) a.roles e) (ground arith)
  ],
  any-filter-not (gives id) a.roles,
  Distinct-filter (λ r. not (gives id r)) a.roles d,
)

filter-concat :
    (p : RoleAssignment → Bool) (rs : List RoleAssignment) (r : RoleAssignment)
    → any p rs ≡ false
    → p r ≡ true
    → filter (λ x. not (p x)) (rs ++ r ∷ []) ≡ rs
unfolding any filter
filter-concat p [] r h e = ground arith
filter-concat p (q ∷ rs) r h e = ground (arith, filter-concat p rs r)

-- Removing the role that was just assigned gives the aggregate back, and reports that it was there.
pub remove_role-assign_role :
    (r : RoleAssignment) (a b : UserAggregate)
    → assign_role r a ≡ ok b
    → remove_role r.role_id b ≡ (a, true)
unfolding assign_role remove_role
remove_role-assign_role r a b h = elim (Bool-cases (any (gives r.role_id) a.roles)) [
  | inl e ↦ absurd (ground arith)
  | inr e ↦
      let same : record a { roles = a.roles ++ r ∷ [] } ≡ b = ground arith in
      let self : id_eq r.role_id r.role_id ≡ true = (id_eq_iff r.role_id r.role_id).1 refl in
      rw (← same) (
        rw (filter-concat (gives r.role_id) a.roles r e self) (
          rw (
            lt→ltb (length a.roles) (length (a.roles ++ r ∷ []))
              (omega (arith, length-append a.roles (r ∷ []))))))
]
