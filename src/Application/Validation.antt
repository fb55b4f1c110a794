-- ===== src/Application/Validation.antt =====
-- The decorator `@ValidateInput` (src/application/decorators/validate.decorator.ts). class-transformer and
-- class-validator are parameters.
pub mod Paths
use enterprise_system.Prelude.{
  Bool, true, false, Option, none, some, List, [], ◌∷◌, ◌++◌, map, if◌then◌else◌, Text, codes,
}

-- An error of a property: the constraints that it breaks, by their names and with their messages, if there are
-- any, and the errors of its own properties.
mutual
  pub data ValidationError : Type 0 where
    invalid :
        (property : Text) (constraints : Option (List (Text × Text))) (children : Errors)
        → ValidationError

  pub data Errors : Type 0 where
    no_errors : Errors
    add_error : ValidationError → Errors → Errors

pub record FormattedError : Type 0 where
  pub field : Text
  pub message : Text
  pub constraints : List Text

-- `xs.join('; ')`
unfoldable pub join_messages : List Text → Text
join_messages [] = []
join_messages (m ∷ []) = m
join_messages (m ∷ n ∷ ms) = m ++ codes "; " ++ join_messages (n ∷ ms)

-- `parentPath ? ... : error.property`
unfoldable pub field_path : Text → Text → Text
field_path [] property = property
field_path (c ∷ parent) property = (c ∷ parent) ++ b'.' ∷ property

-- What the constraints of an error add.
unfoldable pub formatted_constraints : Text → Option (List (Text × Text)) → List FormattedError
unfolding join_messages
formatted_constraints field none = []
formatted_constraints field (some constraints) =
    record {
      field = field;
      message = join_messages (map (λ (c : Text × Text). c.1) constraints);
      constraints = map (λ (c : Text × Text). c.0) constraints;
    }
    ∷ []

-- `formatValidationErrors`
unfoldable mutual
  pub format_validation_errors : Errors → Text → List FormattedError
  format_validation_errors no_errors parent = []
  format_validation_errors (add_error e errors) parent =
      format_validation_error e parent ++ format_validation_errors errors parent

  pub format_validation_error : ValidationError → Text → List FormattedError
  format_validation_error (invalid property constraints children) parent =
      formatted_constraints (field_path parent property) constraints
      ++ format_validation_errors children (field_path parent property)

-- The failures of the result.
pub data InvalidInput : Type 0 where
  body_required : InvalidInput
  validation_failed : List FormattedError → InvalidInput

-- What the decorated method gives: a failure of the validation, or what the method does with the instance.
module _ {Input Dto R : Type 0} (is_instance : Input → Option Dto)
    (plain_to_instance : Bool → Input → Dto) (validate : Bool → Dto → Errors)
    (fail : InvalidInput → R) (method : Dto → R) where
  abbrev run_valid : Errors → Dto → R
  run_valid no_errors dto = method dto
  run_valid (add_error e errors) dto =
      fail (validation_failed (format_validation_errors (add_error e errors) []))

  abbrev instance_of : Bool → Bool → Input → Dto
  instance_of skip strip input =
      if skip
      then (elim (is_instance input) [ none ↦ plain_to_instance strip input | some dto ↦ dto ])
      else plain_to_instance strip input

  -- `skip` and `strip` are the two options of the metadata, which are false without them.
  unfoldable pub validate_input : Bool → Bool → Option Input → R
  unfolding format_validation_errors
  validate_input skip strip none = fail body_required
  validate_input skip strip (some input) =
      let dto = instance_of skip strip input in run_valid (validate strip dto) dto
