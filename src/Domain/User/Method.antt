-- ===== src/Domain/User/Method.antt =====
-- The public methods of a user as data, so that a statement can range over calls and histories.
use enterprise_system.Prelude.{Bool, true, false, ◌≡◌, Text, Except, ok}
use enterprise_system.Domain.Fault.{Fault}
use enterprise_system.Domain.Email.{Email}
use enterprise_system.Domain.Password.{Password}
use enterprise_system.Domain.User as Entity
use enterprise_system.Domain.User.{User, Stamp}

pub data Method : Type 0 where
  activate suspend deactivate verify_email record_login : Method
  change_email : Email → Method
  change_password : Password → Method
  update_profile : Text → Text → Method

-- One call.
unfoldable pub call : Method → Stamp → User → Except Fault User
unfolding Entity.activate Entity.suspend Entity.deactivate Entity.verify_email Entity.record_login
    Entity.change_email Entity.change_password Entity.update_profile
call activate st u = Entity.activate st u
call suspend st u = Entity.suspend st u
call deactivate st u = Entity.deactivate st u
call verify_email st u = Entity.verify_email st u
call record_login st u = Entity.record_login st u
call (change_email e) st u = Entity.change_email st e u
call (change_password p) st u = Entity.change_password st p u
call (update_profile first last) st u = Entity.update_profile st first last u

-- A user that a sequence of calls of allowed methods, each of which returned, leads to.
pub data Reaches (allowed : Method → Bool) (u : User) : User → Type 0 where
  here : Reaches allowed u u
  then_call :
      {v w : User} (m : Method) (st : Stamp)
      → Reaches allowed u v
      → allowed m ≡ true
      → call m st v ≡ ok w
      → Reaches allowed u w

abbrev pub every : Method → Bool
every m = true

abbrev pub keeps_email : Method → Bool
keeps_email (change_email e) = false
keeps_email _ = true
