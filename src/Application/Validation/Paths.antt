-- ===== src/Application/Validation/Paths.antt =====
-- Where the formatted errors stand.
use mathlib.Core.Path.{ap₂}
use mathlib.Core.List.{map-append, append_assoc}
use enterprise_system.Prelude.{
  ◌≡◌, ◌≢◌, Option, none, some, List, [], ◌∷◌, ◌++◌, map, Text, refl, sym, ap, ◌∙◌, All, All-append,
}
use enterprise_system.Application.Validation.{
  ValidationError, invalid, Errors, no_errors, add_error, FormattedError, field_path,
  formatted_constraints, format_validation_errors, format_validation_error,
}

-- The way to a property from the top: the names of the properties, joined by dots.
abbrev pub dotted : List Text → Text
dotted [] = []
dotted (p ∷ []) = p
dotted (p ∷ q ∷ path) = p ++ b'.' ∷ dotted (q ∷ path)

abbrev pub one_if : Option (List (Text × Text)) → List Text → List (List Text)
one_if none path = []
one_if (some constraints) path = path ∷ []

-- The ways to the properties that break a constraint, in the order of the errors.
unfoldable mutual
  pub broken : Errors → List Text → List (List Text)
  broken no_errors path = []
  broken (add_error e errors) path = broken_by e path ++ broken errors path

  pub broken_by : ValidationError → List Text → List (List Text)
  broken_by (invalid property constraints children) path =
      one_if constraints (path ++ property ∷ []) ++ broken children (path ++ property ∷ [])

-- No property of the errors has an empty name.
unfoldable mutual
  pub IsNamed : Errors → Type 0
  IsNamed no_errors = Unit
  IsNamed (add_error e errors) = IsNamedError e × IsNamed errors

  pub IsNamedError : ValidationError → Type 0
  IsNamedError (invalid property constraints children) = (property ≢ []) × IsNamed children

field_path-solid : (s p : Text) → s ≢ [] → field_path s p ≡ s ++ b'.' ∷ p
unfolding field_path
field_path-solid [] p h = absurd (h refl)
field_path-solid (c ∷ s) p h = refl

dotted-solid : (q : Text) (path : List Text) → q ≢ [] → dotted (q ∷ path) ≢ []
dotted-solid q [] h = h
dotted-solid [] (r ∷ path) h = absurd (h refl)
dotted-solid (c ∷ q) (r ∷ path) h = cc

dotted-append :
    (path : List Text) (p : Text)
    → All (λ q. q ≢ []) path
    → dotted (path ++ p ∷ []) ≡ field_path (dotted path) p
unfolding field_path
dotted-append [] p h = refl
dotted-append (q ∷ []) p (h, _) = sym (field_path-solid q p h)
dotted-append (q ∷ r ∷ path) p (h, (k, hs)) =
    ap (λ t. q ++ b'.' ∷ t)
      (dotted-append (r ∷ path) p (k, hs)
        ∙ field_path-solid (dotted (r ∷ path)) p (dotted-solid r path k))
    ∙ sym (append_assoc q (b'.' ∷ dotted (r ∷ path)) (b'.' ∷ p))
    ∙ sym (field_path-solid (dotted (q ∷ r ∷ path)) p (dotted-solid q (r ∷ path) h))

formatted_constraints-one_if :
    (c : Option (List (Text × Text))) (path : List Text) (field : Text)
    → field ≡ dotted path
    → map (λ (f : FormattedError). f.field) (formatted_constraints field c)
      ≡ map dotted (one_if c path)
unfolding formatted_constraints
formatted_constraints-one_if none path field e = refl
formatted_constraints-one_if (some c) path field e = ap (λ t. t ∷ []) e

mutual
  unfolding format_validation_errors broken IsNamed

  errors_lem :
      (errors : Errors) (path : List Text) (parent : Text)
      → IsNamed errors
      → All (λ q. q ≢ []) path
      → parent ≡ dotted path
      → map (λ (f : FormattedError). f.field) (format_validation_errors errors parent)
        ≡ map dotted (broken errors path)
  errors_lem no_errors path parent n h e = refl
  errors_lem (add_error x errors) path parent (m, n) h e =
      map-append (λ (f : FormattedError). f.field) (format_validation_error x parent)
        (format_validation_errors errors parent)
      ∙ ap₂ (λ (a b : List Text). a ++ b) (error_lem x path parent m h e)
          (errors_lem errors path parent n h e)
      ∙ sym (map-append dotted (broken_by x path) (broken errors path))

  error_lem :
      (x : ValidationError) (path : List Text) (parent : Text)
      → IsNamedError x
      → All (λ q. q ≢ []) path
      → parent ≡ dotted path
      → map (λ (f : FormattedError). f.field) (format_validation_error x parent)
        ≡ map dotted (broken_by x path)
  error_lem (invalid property c children) path parent (m, n) h e =
      let here : field_path parent property ≡ dotted (path ++ property ∷ []) =
        ap (λ t. field_path t property) e ∙ sym (dotted-append path property h) in
      map-append (λ (f : FormattedError). f.field)
        (formatted_constraints (field_path parent property) c)
        (format_validation_errors children (field_path parent property))
      ∙ ap₂ (λ (a b : List Text). a ++ b)
          (formatted_constraints-one_if c (path ++ property ∷ []) (field_path parent property) here)
          (errors_lem children (path ++ property ∷ []) (field_path parent property) n
            (All-append (λ q. q ≢ []) path (property ∷ []) h (m, tt)) here)
      ∙ sym (
          map-append dotted (one_if c (path ++ property ∷ []))
            (broken children (path ++ property ∷ [])))

-- If no property has an empty name, the formatted errors stand at the ways, joined by dots, from the top to
-- every property that breaks a constraint, each once and in the order of the errors.
pub format_validation_errors-broken :
    (errors : Errors)
    → IsNamed errors
    → map (λ (f : FormattedError). f.field) (format_validation_errors errors [])
      ≡ map dotted (broken errors [])
format_validation_errors-broken errors n = errors_lem errors [] [] n tt refl
