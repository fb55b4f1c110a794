-- ===== src/Domain/User/History.antt =====
-- The collected events as a history of the status: replaying them gives the status, as long as no
-- call changes the email address.
use enterprise_system.Prelude.{
  ℕ, ◌≡◌, ◌≢◌, true, false, Option, none, some, List, [], ◌∷◌, ◌++◌, refl, arith, ok, if◌then◌else◌,
}
use enterprise_system.Domain.Fault.{
  UserStatus, active, inactive, suspended, pending_verification, status_eq, status_eq_iff,
}
use enterprise_system.Domain.Event.{DomainEvent, Payload, user_created, status_changed}
use enterprise_system.Domain.Email.{Email, email_eq}
use enterprise_system.Domain.Identity.{UniqueId}
use enterprise_system.Domain.User as Entity
use enterprise_system.Domain.User.{User, Stamp, CreateParams}
use enterprise_system.Domain.User.Method.{
  Method, activate, suspend, deactivate, verify_email, change_email, call, Reaches, here, then_call,
  keeps_email,
}

-- One event on a status: a change must start where the status stands.
replay_one : UserStatus → Payload → Option UserStatus
unfolding status_eq
replay_one s (user_created e) = some s
replay_one s (status_changed old new) = if status_eq old s then some new else none

abbrev continue : Option UserStatus → Payload → Option UserStatus
continue none p = none
continue (some s) p = replay_one s p

unfoldable pub replay : Option UserStatus → List DomainEvent → Option UserStatus
unfolding replay_one
replay s [] = s
replay s (e ∷ es) = replay (continue s e.payload) es

replay-append :
    (s : Option UserStatus) (es : List DomainEvent) (e : DomainEvent)
    → replay s (es ++ e ∷ []) ≡ continue (replay s es) e.payload
unfolding replay
replay-append s [] e = refl
replay-append s (d ∷ es) e = replay-append (continue s d.payload) es e

module _ (start : Option UserStatus) where
  set_status-replay :
      (st : Stamp) (t : UserStatus) (u : User)
      → replay start u.domain_events ≡ some u.status
      → replay start (Entity.set_status st t u).domain_events ≡ some t
  unfolding Entity.set_status
  set_status-replay st t u h =
      rw (replay-append start u.domain_events _)
        (rw h (unfold replay_one in ground (arith, status_eq_iff u.status u.status)))

  call-replay :
      (m : Method) (st : Stamp) (u v : User)
      → replay start u.domain_events ≡ some u.status
      → keeps_email m ≡ true
      → call m st u ≡ ok v
      → replay start v.domain_events ≡ some v.status
  unfolding call
  call-replay activate st u v r a h = ground (arith, set_status-replay st active u)
  call-replay suspend st u v r a h = ground (arith, set_status-replay st suspended u)
  call-replay deactivate st u v r a h = ground (arith, set_status-replay st inactive u)
  call-replay verify_email st u v r a h = ground (arith, set_status-replay st active u)
  call-replay _ st u v r a h = ground arith

  Reaches-replay :
      (u v : User)
      → replay start u.domain_events ≡ some u.status
      → Reaches keeps_email u v
      → replay start v.domain_events ≡ some v.status
  Reaches-replay u _ p here = p
  Reaches-replay u v p (then_call {v = w} m st r a h) =
      call-replay m st w v (Reaches-replay u w p r) a h

  -- A change of the email address that resets the status leaves no event, so the replay no longer
  -- gives the status.
  pub change_email-replay :
      (e : Email) (st : Stamp) (u v : User)
      → replay start u.domain_events ≡ some u.status
      → u.status ≢ pending_verification
      → email_eq u.email e ≡ false
      → call (change_email e) st u ≡ ok v
      → replay start v.domain_events ≢ some v.status
  unfolding call
  change_email-replay e st u v p n d h = ground arith

-- After calls on a created user that do not change the email address, replaying the collected events
-- from the status of a new user gives the user's status.
pub create-replay :
    (id : UniqueId) (now : ℕ) (st : Stamp) (p : CreateParams) (u v : User)
    → Entity.create id now st p ≡ ok u
    → Reaches keeps_email u v
    → replay (some pending_verification) v.domain_events ≡ some v.status
unfolding Entity.create
create-replay id now st p u v h r =
    Reaches-replay (some pending_verification) u v (unfold replay in ground arith) r
