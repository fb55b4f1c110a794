-- ===== src/Application/Audit/Harmless.antt =====
-- What the audit keeps of the value that a method returns.
use enterprise_system.Prelude.{
  ◌≡◌, true, List, [], ◌∷◌, any, Option-cases, inl, inr, Text, text_eq, refl, All,
}
use enterprise_system.Observability.Logger.{
  Value, Fields, object, end, field, find, primitive, nothing, array,
}
use enterprise_system.Application.Audit.{allowed, pick, or_omitted, sanitize_value}

-- No entry of an object stands under a name that is not in a list.
abbrev pub OnlyKeys : List Text → Fields → Type 0
OnlyKeys names end = Unit
OnlyKeys names (field key value fields) = (any (text_eq key) names ≡ true) × OnlyKeys names fields

pick-OnlyKeys :
    (names keys : List Text) (fields : Fields)
    → All (λ k. any (text_eq k) names ≡ true) keys
    → OnlyKeys names (pick keys fields)
unfolding pick
pick-OnlyKeys names [] fields h = tt
pick-OnlyKeys names (key ∷ keys) fields (k, h) = elim (Option-cases (find key fields)) [
  | inl e ↦ rw (e, pick) (pick-OnlyKeys names keys fields h)
  | inr (v, e) ↦ rw (e, pick) (k, pick-OnlyKeys names keys fields h)
]

-- What stands in an audit entry for a value: entries under the names that are allowed alone, or a mark.
abbrev pub Harmless : Value → Type 0
Harmless (object fields) = OnlyKeys allowed fields
Harmless v = Unit

or_omitted-Harmless : (fields : Fields) → OnlyKeys allowed fields → Harmless (or_omitted fields)
unfolding or_omitted
or_omitted-Harmless end h = tt
or_omitted-Harmless (field key value fields) h = h

allowed-All : All (λ k. any (text_eq k) allowed ≡ true) allowed
unfolding any text_eq allowed
allowed-All = (refl, (refl, (refl, (refl, (refl, (refl, tt))))))

-- Of a value that is returned the audit keeps no entry but those under the names that are allowed.
pub sanitize_value-Harmless : (v : Value) → Harmless (sanitize_value v)
unfolding sanitize_value
sanitize_value-Harmless nothing = tt
sanitize_value-Harmless (primitive t) = tt
sanitize_value-Harmless (array items) = tt
sanitize_value-Harmless (object fields) =
    or_omitted-Harmless (pick allowed fields) (pick-OnlyKeys allowed allowed fields allowed-All)
