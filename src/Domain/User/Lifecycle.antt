-- ===== src/Domain/User/Lifecycle.antt =====
-- Which status follows which, and what each call does to the version.
use enterprise_system.Prelude.{ℕ, ◌+◌, ◌≤◌, Bool, true, false, ◌≡◌, ◌≢◌, ◌⊎◌, refl, arith, ok}
use enterprise_system.Domain.Fault.{active, inactive, suspended, pending_verification}
use enterprise_system.Domain.Email.{Email, email_eq}
use enterprise_system.Domain.Identity.{UniqueId}
use enterprise_system.Domain.User as Entity
use enterprise_system.Domain.User.{User, Stamp, CreateParams, is_active, can_login, is_suspended}
use enterprise_system.Domain.User.Method.{
  Method, activate, deactivate, verify_email, change_email, call, Reaches, here, then_call, every,
}

-- What a call that returned did: nothing at all, or one write with the next version.
pub record Wrote (st : Stamp) (u v : User) : Type 0 where
  pub next : v.version ≡ u.version + 1
  pub time : v.updated_at ≡ st.modified_at

-- A method that returns has changed nothing, or it has counted the version up by one and has set the
-- time of modification; the id and the time of creation stay.
pub call_effect :
    (m : Method) (st : Stamp) (u v : User)
    → call m st u ≡ ok v
    → ((v ≡ u) ⊎ Wrote st u v) × (v.id ≡ u.id) × (v.created_at ≡ u.created_at)
unfolding call
call_effect activate st u v h = ground arith
call_effect _ st u v h = ground arith

-- A call does not take a suspended user to the status active.
pub call-suspended :
    (m : Method) (st : Stamp) (u v : User)
    → u.status ≡ suspended
    → call m st u ≡ ok v
    → v.status ≢ active
unfolding call
call-suspended activate st u v s h = ground arith
call-suspended _ st u v s h = ground arith

-- A suspended user who changes to another email address and verifies it is active, and may log in,
-- with no call of an administrator.
pub suspension_escape :
    (st st' : Stamp) (e : Email) (u : User)
    → u.status ≡ suspended
    → email_eq u.email e ≡ false
    → (v : User) × (w : User) × (call (change_email e) st u ≡ ok v)
      × (call verify_email st' v ≡ ok w)
      × (can_login w ≡ true)
unfolding call can_login Entity.set_status
suspension_escape st st' e u s n =
    let v : User = record u {
      email = e;
      email_verified = false;
      status = pending_verification;
      version = u.version + 1;
      updated_at = st.modified_at;
    } in
    (v, record (Entity.set_status st' active v) { email_verified = true }, ground arith, refl, refl)

-- A suspended user who is deactivated and then activated has the status active.
pub suspension_lapses :
    (st st' : Stamp) (u : User)
    → u.status ≡ suspended
    → (v : User) × (w : User) × (call deactivate st u ≡ ok v)
      × (call activate st' v ≡ ok w)
      × (w.status ≡ active)
unfolding call Entity.set_status
suspension_lapses st st' u s =
    let v : User = Entity.set_status st inactive u in
    (v, Entity.set_status st' active v, ground arith, refl, refl)

-- A version never falls, and it counts the calls that wrote.
pub version-le :
    {allowed : Method → Bool} (u v : User)
    → Reaches allowed u v
    → (u.version ≤ v.version) × (v.id ≡ u.id)
version-le u _ here = (omega arith, refl)
version-le u v (then_call {v = w} m st r a h) =
    grind (arith, version-le u w r, call_effect m st w v h)

-- What holds of every user that the code has made: the version counts from 1, and a user whose email
-- is verified does not wait for verification.
pub record IsSound (u : User) : Type 0 where
  pub counted : 1 ≤ u.version
  pub settled : u.email_verified ≡ true → u.status ≢ pending_verification

pub call-IsSound :
    (m : Method) (st : Stamp) (u v : User) → IsSound u → call m st u ≡ ok v → IsSound v
unfolding call
call-IsSound activate st u v s h = ground (arith, s.settled)
call-IsSound _ st u v s h = ground (arith, s.settled)

Reaches-IsSound :
    {allowed : Method → Bool} (u v : User) → IsSound u → Reaches allowed u v → IsSound v
Reaches-IsSound u _ s here = s
Reaches-IsSound u v s (then_call {v = w} m st r a h) =
    call-IsSound m st w v (Reaches-IsSound u w s r) h

-- After any calls on a created user, the version is at least 1, and if the email is verified then
-- the status is not the one that waits for verification.
pub create-IsSound :
    (id : UniqueId) (now : ℕ) (st : Stamp) (p : CreateParams) (u v : User)
    → Entity.create id now st p ≡ ok u
    → Reaches every u v
    → IsSound v
unfolding Entity.create
create-IsSound id now st p u v h r =
    Reaches-IsSound u v (record { counted = ground arith; settled = ground arith }) r
