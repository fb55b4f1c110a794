-- ===== src/Domain/Aggregate/Sessions.antt =====
-- The sessions of an aggregate: what revocation does, and that a suspended or inactive user has none
-- that is not revoked.
use enterprise_system.Prelude.{
  ℕ, ◌+◌, Bool, true, false, not, ◌&&◌, ◌≡◌, ◌↔◌, List, [], ◌∷◌, ◌++◌, map, none, some, refl, arith,
  All, All-append, All-take, All-drop, get_elem?-splice, ◌==◌, if◌then◌else◌, filter, is_some, ltb,
  take, drop, get_elem?, Option-cases, inl, inr, Except, ok, >>=-eq-ok,
}
use enterprise_system.Domain.Fault.{UserStatus, Fault, inactive, suspended}
use enterprise_system.Domain.Identity.{UniqueId, id_eq}
use enterprise_system.Domain.User.{User, Stamp}
use enterprise_system.Domain.User.Method.{Method, activate, suspend, deactivate, call}
use enterprise_system.Domain.Aggregate.{
  RoleAssignment, SessionInfo, UserAggregate, find_index, revoke_at, revoke_if_active,
}
use enterprise_system.Domain.Aggregate

abbrev pub IsRevoked : SessionInfo → Type 0
IsRevoked s = is_some s.revoked_at ≡ true

revoke_if_active-IsRevoked : (now : ℕ) (s : SessionInfo) → IsRevoked (revoke_if_active now s)
unfolding revoke_if_active
revoke_if_active-IsRevoked now s = ground arith

map-IsRevoked : (now : ℕ) (ss : List SessionInfo) → All IsRevoked (map (revoke_if_active now) ss)
map-IsRevoked now [] = tt
map-IsRevoked now (s ∷ ss) = (revoke_if_active-IsRevoked now s, map-IsRevoked now ss)

filter-IsRevoked :
    (now : ℕ) (ss : List SessionInfo)
    → All IsRevoked ss
    → filter (λ (s : SessionInfo). not (is_some s.revoked_at) && ltb now s.expires_at) ss ≡ []
unfolding filter
filter-IsRevoked now [] h = refl
filter-IsRevoked now (s ∷ ss) (p, h) = rw p (filter-IsRevoked now ss h)

-- The statuses under which no session may stay open.
abbrev pub is_barred : UserStatus → Bool
is_barred suspended = true
is_barred inactive = true
is_barred _ = false

-- A user who is suspended or inactive has no session that is not revoked.
abbrev pub IsClosed : UserAggregate → Type 0
IsClosed a = is_barred a.user.status ≡ true → All IsRevoked a.sessions

revoke_all_sessions-IsClosed :
    (now : ℕ) (a : UserAggregate) → All IsRevoked (Aggregate.revoke_all_sessions now a).sessions
unfolding Aggregate.revoke_all_sessions
revoke_all_sessions-IsClosed now a = map-IsRevoked now a.sessions

-- After all sessions are revoked none is active, at any time.
pub get_active_sessions-revoke_all_sessions :
    (now later : ℕ) (a : UserAggregate)
    → Aggregate.get_active_sessions later (Aggregate.revoke_all_sessions now a) ≡ []
unfolding Aggregate.get_active_sessions
get_active_sessions-revoke_all_sessions now later a =
    filter-IsRevoked later _ (revoke_all_sessions-IsClosed now a)

-- The methods of the aggregate that write.
pub data AggregateMethod : Type 0 where
  assign_role : RoleAssignment → AggregateMethod
  remove_role : UniqueId → AggregateMethod
  add_session : SessionInfo → AggregateMethod
  revoke_session : UniqueId → AggregateMethod
  revoke_all_sessions : AggregateMethod
  delegate : Method → AggregateMethod

unfoldable pub run : AggregateMethod → ℕ → Stamp → UserAggregate → Except Fault UserAggregate
run (assign_role r) now st a = Aggregate.assign_role r a
run (remove_role id) now st a = ok (Aggregate.remove_role id a).0
run (add_session s) now st a = Aggregate.add_session s a
run (revoke_session id) now st a = Aggregate.revoke_session now id a
run revoke_all_sessions now st a = ok (Aggregate.revoke_all_sessions now a)
run (delegate m) now st a = Aggregate.delegate now m st a

-- A revocation that returned: the session that it found, which was not revoked, has the time now.
revoke_session-inv :
    (now : ℕ) (id : UniqueId) (a b : UserAggregate)
    → Aggregate.revoke_session now id a ≡ ok b
    → (i : ℕ) × (s : SessionInfo) × (find_index id a.sessions ≡ some i)
      × (get_elem? a.sessions i ≡ some s)
      × (s.revoked_at ≡ none)
      × (b ≡ record a {
        sessions =
            take i a.sessions ++ record s { revoked_at = some now } ∷ drop (i + 1) a.sessions;
      })
unfolding Aggregate.revoke_session
revoke_session-inv now id a b h = elim (Option-cases (find_index id a.sessions)) [
  | inl e ↦ absurd (ground arith)
  | inr (i, e) ↦ elim (Option-cases (get_elem? a.sessions i)) [
    | inl f ↦ absurd (ground arith)
    | inr (s, f) ↦ (i, s, e, f, ground arith, ground arith)
  ]
]

module _ (now : ℕ) (st : Stamp) (a b : UserAggregate) where
  revoking-IsClosed :
      (u : User) → Aggregate.revoke_all_sessions now (record a { user = u }) ≡ b → IsClosed b
  revoking-IsClosed u e k = rw (← e) (revoke_all_sessions-IsClosed now (record a { user = u }))

  delegate-IsClosed : (m : Method) → IsClosed a → Aggregate.delegate now m st a ≡ ok b → IsClosed b
  unfolding Aggregate.delegate
  delegate-IsClosed suspend c h =
      let (u, e, f) = >>=-eq-ok (call suspend st a.user) _ h in revoking-IsClosed u (cc)
  delegate-IsClosed deactivate c h =
      let (u, e, f) = >>=-eq-ok (call deactivate st a.user) _ h in revoking-IsClosed u (cc)
  delegate-IsClosed activate c h = λ k. ground (arith, c)
  delegate-IsClosed m c h = λ k. ground (arith, c)

  revoke_session-IsClosed :
      (id : UniqueId) → IsClosed a → Aggregate.revoke_session now id a ≡ ok b → IsClosed b
  revoke_session-IsClosed id c h k =
      let (i, s, f, g, n, e) = revoke_session-inv now id a b h in
      let same : a.user ≡ b.user = ground arith in
      let all : All IsRevoked a.sessions = c (rw same k) in
      rw e (
        All-append IsRevoked (take i a.sessions) _ (All-take IsRevoked i a.sessions all)
          (refl, All-drop IsRevoked (i + 1) a.sessions all))

  -- A call on the aggregate that returned keeps the sessions of a suspended or inactive user closed.
  pub run-IsClosed : (m : AggregateMethod) → IsClosed a → run m now st a ≡ ok b → IsClosed b
  unfolding run Aggregate.assign_role Aggregate.remove_role Aggregate.add_session
  run-IsClosed (assign_role r) c h = λ k. ground (arith, c)
  run-IsClosed (remove_role id) c h = λ k. ground (arith, c)
  run-IsClosed (add_session s) c h = λ k. ground (arith, c)
  run-IsClosed (revoke_session id) c h = revoke_session-IsClosed id c h
  run-IsClosed revoke_all_sessions c h = λ k.
      let e : Aggregate.revoke_all_sessions now a ≡ b = cc in
      rw (← e) (revoke_all_sessions-IsClosed now a)
  run-IsClosed (delegate m) c h = delegate-IsClosed m c h

-- A revocation that returned has set the time of the first session with that id, which was not
-- revoked before, and has left every other session and the user and the roles as they were.
pub revoke_session_lem :
    (now : ℕ) (id : UniqueId) (a b : UserAggregate)
    → Aggregate.revoke_session now id a ≡ ok b
    → (i : ℕ) × (s : SessionInfo) × (find_index id a.sessions ≡ some i)
      × (get_elem? a.sessions i ≡ some s)
      × (s.revoked_at ≡ none)
      × ((j : ℕ)
          → get_elem? b.sessions j ≡ (
              if i == j then some (record s { revoked_at = some now }) else get_elem? a.sessions j))
      × (b.user ≡ a.user)
      × (b.roles ≡ a.roles)
revoke_session_lem now id a b h =
    let (i, s, f, g, n, e) = revoke_session-inv now id a b h in
    (i, s, f, g, n, (λ j. rw e (get_elem?-splice i j a.sessions s _ g)), rw e, rw e)

-- No index is found exactly when no session has the id.
pub find_index-eq-none_iff :
    (id : UniqueId) (ss : List SessionInfo)
    → (find_index id ss ≡ none) ↔ All (λ (s : SessionInfo). id_eq s.id id ≡ false) ss
unfolding find_index
find_index-eq-none_iff id [] = (λ h. tt, λ h. refl)
find_index-eq-none_iff id (s ∷ ss) =
    let (to, from) = find_index-eq-none_iff id ss in
    (λ h. (ground arith, to (ground arith)), λ h. ground (arith, from h.1))
