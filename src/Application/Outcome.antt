-- ===== src/Application/Outcome.antt =====
-- `Result` of the application layer (src/application/result.ts). A result is made by `ok` or `fail` alone, as
-- the constructor of the class is private, and it is frozen.
pub mod Combine
use enterprise_system.Prelude.{Bool, true, false, List, [], ◌∷◌, Except, throw}
use enterprise_system.Prelude.Throwing as Throwing

pub data Result (T E : Type 0) : Type 0 where
  ok : T → Result T E
  fail : E → Result T E

-- What the accessors throw.
pub data Misuse : Type 0 where
  value_of_failed error_of_successful : Misuse

module _ {T E : Type 0} where
  unfoldable pub is_failure : Result T E → Bool
  is_failure (ok v) = false
  is_failure (fail e) = true

  unfoldable pub get_value : Result T E → Except Misuse T
  get_value (ok v) = Throwing.ok v
  get_value (fail e) = throw value_of_failed

  unfoldable pub get_error : Result T E → Except Misuse E
  get_error (ok v) = throw error_of_successful
  get_error (fail e) = Throwing.ok e

  unfoldable pub get_or_default : T → Result T E → T
  get_or_default d (ok v) = v
  get_or_default d (fail e) = d

  unfoldable pub get_or_else : (E → T) → Result T E → T
  get_or_else f (ok v) = v
  get_or_else f (fail e) = f e

module _ {T U E : Type 0} where
  unfoldable pub map : (T → U) → Result T E → Result U E
  map f (ok v) = ok (f v)
  map f (fail e) = fail e

  unfoldable pub flat_map : (T → Result U E) → Result T E → Result U E
  flat_map f (ok v) = f v
  flat_map f (fail e) = fail e

  unfoldable pub match : (T → U) → (E → U) → Result T E → U
  match f g (ok v) = f v
  match f g (fail e) = g e

module _ {T E F : Type 0} where
  unfoldable pub map_error : (E → F) → Result T E → Result T F
  map_error f (ok v) = ok v
  map_error f (fail e) = fail (f e)

module _ {T E : Type 0} where
  -- `results.map((r) => r.getValue())`
  unfoldable pub values : List (Result T E) → Except Misuse (List T)
  unfolding get_value
  values [] = Throwing.ok []
  values (r ∷ rs) = elim (get_value r) [
    | throw m ↦ throw m
    | Throwing.ok v ↦ elim (values rs) [ throw m ↦ throw m | Throwing.ok vs ↦ Throwing.ok (v ∷ vs) ]
  ]

  -- `Result.combine`: the loop over `rest` looks for a failure, and then the values of all are taken.
  unfoldable pub combine_from :
      List (Result T E) → List (Result T E) → Except Misuse (Result (List T) E)
  unfolding is_failure get_error values
  combine_from all [] = elim (values all) [
    | throw m ↦ throw m
    | Throwing.ok vs ↦ Throwing.ok (ok vs)
  ]
  combine_from all (r ∷ rest) =
      let later = combine_from all rest in
      elim (is_failure r) [
        | true ↦ elim (get_error r) [ throw m ↦ throw m | Throwing.ok e ↦ Throwing.ok (fail e) ]
        | false ↦ later
      ]

  unfoldable pub combine : List (Result T E) → Except Misuse (Result (List T) E)
  unfolding combine_from
  combine results = combine_from results results
