-- ===== src/Domain/User/Names.antt =====
-- The bounds on names: what `create` and `updateProfile` let in, and that all else keeps them.
use enterprise_system.Prelude.{ℕ, ◌≤◌, ◌≡◌, Bool, arith, length, Text, ok}
use enterprise_system.Domain.Identity.{UniqueId}
use enterprise_system.Domain.User as Entity
use enterprise_system.Domain.User.{User, Stamp, CreateParams}
use enterprise_system.Domain.User.Method.{
  Method, update_profile, call, Reaches, here, then_call, every,
}

abbrev pub IsName : Text → Type 0
IsName s = (1 ≤ length s) × (length s ≤ 100)

pub record IsNamed (u : User) : Type 0 where
  pub first : IsName u.first_name
  pub last : IsName u.last_name

call-IsNamed : (m : Method) (st : Stamp) (u v : User) → IsNamed u → call m st u ≡ ok v → IsNamed v
unfolding call
call-IsNamed (update_profile first last) st u v n h = ground arith
call-IsNamed _ st u v n h = record {
  first = ground (arith, n.first);
  last = ground (arith, n.last);
}

Reaches-IsNamed :
    {allowed : Method → Bool} (u v : User) → IsNamed u → Reaches allowed u v → IsNamed v
Reaches-IsNamed u _ n here = n
Reaches-IsNamed u v n (then_call {v = w} m st r a h) =
    call-IsNamed m st w v (Reaches-IsNamed u w n r) h

-- After any calls on a created user, each of the two names has from 1 to 100 code units.
pub create-IsNamed :
    (id : UniqueId) (now : ℕ) (st : Stamp) (p : CreateParams) (u v : User)
    → Entity.create id now st p ≡ ok u
    → Reaches every u v
    → IsNamed v
unfolding Entity.create
create-IsNamed id now st p u v h r =
    Reaches-IsNamed u v (record { first = ground arith; last = ground arith }) r
