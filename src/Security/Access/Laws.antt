-- ===== src/Security/Access/Laws.antt =====
-- Who is let through.
use enterprise_system.Prelude.{
  true, false, ◌≡◌, ◌⊎◌, ◌↔◌, inl, inr, Option, none, some, List, [], ◌∷◌, refl, sym, arith, any,
  filter, length, ltb, Text, text_eq, text_eq_iff, ok, Bool-cases, All,
}
use enterprise_system.Domain.Fault.{active}
use enterprise_system.Security.Access.{
  AuthenticatedUser, includes, roles_guard, permissions_guard, missing, SessionRow, UserRow,
  all_permissions, unique_onto, validate,
}

-- A text stands in a list.
abbrev pub Has : Text → List Text → Type 0
Has x [] = ⊥
Has x (y ∷ ys) = (y ≡ x) ⊎ Has x ys

pub includes_iff : (x : Text) (xs : List Text) → (includes x xs ≡ true) ↔ Has x xs
unfolding includes
includes_iff x [] = (λ h. absurd (ground arith), λ h. absurd h)
includes_iff x (y ∷ ys) =
    let (to, from) = includes_iff x ys in
    let (eq, eq') = text_eq_iff y x in
    (
      λ h. elim (Bool-cases (text_eq y x)) [ inl e ↦ inl (eq e) | inr e ↦ inr (to (rw e at h)) ],
      λ h. elim h [ inl e ↦ rw (eq' e) | inr k ↦ ground (arith, from k) ],
    )

-- Some role of a list is held.
abbrev pub HoldsOne : List Text → AuthenticatedUser → Type 0
HoldsOne [] user = ⊥
HoldsOne (r ∷ rs) user = Has r user.roles ⊎ HoldsOne rs user

HoldsOne-iff :
    (rs : List Text) (user : AuthenticatedUser)
    → (any (λ role. includes role user.roles) rs ≡ true) ↔ HoldsOne rs user
unfolding any
HoldsOne-iff [] user = (λ h. absurd (ground arith), λ h. absurd h)
HoldsOne-iff (r ∷ rs) user =
    let (to, from) = HoldsOne-iff rs user in
    let (held, held') = includes_iff r user.roles in
    (
      λ h. elim (Bool-cases (includes r user.roles)) [
        | inl e ↦ inl (held e)
        | inr e ↦ inr (to (rw e at h))
      ],
      λ h. elim h [ inl k ↦ rw (held' k) | inr k ↦ ground (arith, from k) ],
    )

-- The permissions that are missing are none exactly when the user has all that are required.
missing_iff :
    (ps : List Text) (user : AuthenticatedUser)
    → (ltb 0 (length (missing ps user)) ≡ false) ↔ All (λ p. Has p user.permissions) ps
unfolding filter
missing_iff [] user = (λ h. tt, λ h. refl)
missing_iff (p ∷ ps) user =
    let (to, from) = missing_iff ps user in
    let (held, held') = includes_iff p user.permissions in
    (
      λ h. elim (Bool-cases (includes p user.permissions)) [
        | inl e ↦ (held e, to (rw e at h))
        | inr e ↦ absurd (ground arith)
      ],
      λ (k, ks). ground (arith, held' k, from ks),
    )

-- On a route that requires roles, the roles guard lets a user through exactly when the user has one of
-- them.
pub roles_guard_iff :
    (r : Text) (rs : List Text) (user : AuthenticatedUser)
    → (roles_guard (some (r ∷ rs)) (some user) ≡ ok tt) ↔ HoldsOne (r ∷ rs) user
unfolding roles_guard
roles_guard_iff r rs user =
    let (to, from) = HoldsOne-iff (r ∷ rs) user in
    (λ h. to (ground arith), λ h. ground (arith, from h))

-- On a route that requires permissions, the permissions guard lets a user through exactly when the user has
-- every one of them.
pub permissions_guard_iff :
    (p : Text) (ps : List Text) (user : AuthenticatedUser)
    → (permissions_guard (some (p ∷ ps)) (some user) ≡ ok tt)
      ↔ All (λ q. Has q user.permissions) (p ∷ ps)
unfolding permissions_guard
permissions_guard_iff p ps user =
    let (to, from) = missing_iff (p ∷ ps) user in
    (λ h. to (ground arith), λ h. ground (arith, from h))

-- The texts of a list are distinct.
abbrev pub Nodup : List Text → Type 0
Nodup [] = Unit {0}
Nodup (x ∷ xs) = (¬ Has x xs) × Nodup xs

-- What stands in the list of first occurrences, and what does not stand twice.
unique_onto-Has :
    (x : Text) (seen ps : List Text) → Has x (unique_onto seen ps) ↔ (Has x ps × (¬ Has x seen))
unfolding unique_onto
unique_onto-Has x seen [] = (λ h. absurd h, λ (h, _). absurd h)
unique_onto-Has x seen (p ∷ ps) =
    let (to, from) = unique_onto-Has x (p ∷ seen) ps in
    let (to', from') = unique_onto-Has x seen ps in
    let (old, old') = includes_iff p seen in
    let (eq, eq') = text_eq_iff p x in
    elim (Bool-cases (includes p seen)) [
      | inl e ↦ rw e (
        λ h. let (k, n) = to' h in (inr k, n),
        λ (k, n). elim k [ inl d ↦ let q = old e in absurd (n (rw d at q)) | inr d ↦ from' (d, n) ],
      )
      | inr e ↦ rw e (
        λ h. elim h [
          | inl d ↦ (inl d, λ k. let q = old' (rw (sym d) at k) in absurd (ground arith))
          | inr d ↦ let (k, n) = to d in (inr k, λ m. n (inr m))
        ],
        λ (k, n). elim (Bool-cases (text_eq p x)) [
          | inl d ↦ inl (eq d)
          | inr d ↦ elim k [
            | inl c ↦ inl c
            | inr c ↦ inr (
                from
                  (c, λ m. elim m [ inl c ↦ let q = eq' c in absurd (ground arith) | inr c ↦ n c ]))
          ]
        ],
      )
    ]

unique_onto-Nodup : (seen ps : List Text) → Nodup (unique_onto seen ps)
unfolding unique_onto
unique_onto-Nodup seen [] = tt
unique_onto-Nodup seen (p ∷ ps) = elim (Bool-cases (includes p seen)) [
  | inl e ↦ rw e (unique_onto-Nodup seen ps)
  | inr e ↦ rw e (
    λ h. let (to, _) = unique_onto-Has p (p ∷ seen) ps in let (_, n) = to h in n (inl refl),
    unique_onto-Nodup (p ∷ seen) ps,
  )
]

-- A token that is validated belongs to an active user with a session. Its permissions are distinct, and
-- they are those of the user's roles.
pub validate_lem :
    (session : Option SessionRow) (row : Option UserRow) (a : AuthenticatedUser)
    → validate session row ≡ ok a
    → (s : SessionRow) × (u : UserRow) × (session ≡ some s)
      × (row ≡ some u)
      × (u.status ≡ active)
      × (a.id ≡ u.id)
      × Nodup a.permissions
      × ((x : Text) → Has x a.permissions ↔ Has x (all_permissions u.roles))
unfolding validate
validate_lem none row a h = absurd (ground arith)
validate_lem (some s) none a h = absurd (ground arith)
validate_lem (some s) (some u) a h =
    let ps : List Text = unique_onto [] (all_permissions u.roles) in
    let perm : a.permissions ≡ ps = ground arith in
    let id : a.id ≡ u.id = ground arith in
    let st : u.status ≡ active = ground arith in
    (
      s,
      u,
      refl,
      refl,
      st,
      id,
      rw perm (unique_onto-Nodup [] (all_permissions u.roles)),
      λ x.
          let (to, from) = unique_onto-Has x [] (all_permissions u.roles) in
          (λ k. let (m, _) = to (rw perm at k) in m, λ k. rw perm (from (k, λ e. e))),
    )
