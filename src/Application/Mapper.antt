-- ===== src/Application/Mapper.antt =====
-- `UserMapper` (src/application/mappers/user.mapper.ts). A date stays the number of its time.
pub mod Created
use enterprise_system.Prelude.{ℕ, Bool, List, [], ◌∷◌, ◌++◌, map, Option, Text, trim}
use enterprise_system.Domain.Fault.{UserStatus}
use enterprise_system.Domain.Email.{to_lower_case}
use enterprise_system.Domain.User.{User}
use enterprise_system.Application.CreateUser.{CreateUserDto}

pub record UserResponseDto : Type 0 where
  pub id : Text
  pub email : Text
  pub first_name : Text
  pub last_name : Text
  pub full_name : Text
  pub status : UserStatus
  pub email_verified : Bool
  pub last_login_at : Option ℕ
  pub created_at : ℕ
  pub updated_at : ℕ
  pub role_ids : List Text

-- `${firstName} ${lastName}`
unfoldable pub full_name : User → Text
full_name user = user.first_name ++ b' ' ∷ user.last_name

unfoldable pub to_dto : User → UserResponseDto
unfolding full_name
to_dto user = record {
  id = user.id.value;
  email = user.email.value;
  first_name = user.first_name;
  last_name = user.last_name;
  full_name = full_name user;
  status = user.status;
  email_verified = user.email_verified;
  last_login_at = user.last_login_at;
  created_at = user.created_at;
  updated_at = user.updated_at;
  role_ids = [];
}

unfoldable pub to_create_params : CreateUserDto → CreateUserDto
unfolding to_lower_case trim
to_create_params dto = record {
  email = to_lower_case (trim dto.email);
  password = dto.password;
  first_name = trim dto.first_name;
  last_name = trim dto.last_name;
}

unfoldable pub to_dto_list : List User → List UserResponseDto
unfolding to_dto
to_dto_list users = map to_dto users
