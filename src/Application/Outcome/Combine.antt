-- ===== src/Application/Outcome/Combine.antt =====
-- That `combine` gives the values of all results or the first failure.
use enterprise_system.Prelude.{◌≡◌, ◌⊎◌, inl, inr, ◌∙◌, ap, List, [], ◌∷◌, refl, Except, arith}
use enterprise_system.Prelude.Throwing as Throwing
use enterprise_system.Application.Outcome.{
  Result, Misuse, ok, fail, get_value, get_error, is_failure, values, combine_from, combine,
}

module _ {T E : Type 0} where
  -- The first failure, if there is one, else the values in their order.
  abbrev pub combined : List (Result T E) → Result (List T) E
  combined [] = ok []
  combined (fail e ∷ rs) = fail e
  combined (ok v ∷ rs) = elim (combined rs) [ ok vs ↦ ok (v ∷ vs) | fail e ↦ fail e ]

  -- What the loop gives on the results that are left.
  abbrev looped :
      Except Misuse (Result (List T) E) → Result (List T) E → Except Misuse (Result (List T) E)
  looped end (ok vs) = end
  looped end (fail e) = Throwing.ok (fail e)

  Result-cases : (r : Result (List T) E) → ((vs : List T) × (r ≡ ok vs)) ⊎ ((e : E) × (r ≡ fail e))
  Result-cases (ok vs) = inl (vs, refl)
  Result-cases (fail e) = inr (e, refl)

  combine_from-looped :
      (all rs : List (Result T E))
      → combine_from all rs ≡ looped (combine_from all []) (combined rs)
  unfolding combine_from is_failure get_error
  combine_from-looped all [] = refl
  combine_from-looped all (fail e ∷ rs) = refl
  combine_from-looped all (ok v ∷ rs) = elim (Result-cases (combined rs)) [
    | inl (vs, e) ↦ combine_from-looped all rs ∙ rw e refl
    | inr (x, e) ↦ combine_from-looped all rs ∙ rw e refl
  ]

  values-combined :
      (rs : List (Result T E)) (vs : List T) → combined rs ≡ ok vs → values rs ≡ Throwing.ok vs
  unfolding values get_value
  values-combined [] vs h = let same : [] ≡ vs = cc in ap (λ us. Throwing.ok us) same
  values-combined (fail e ∷ rs) vs h = absurd (ground arith)
  values-combined (ok v ∷ rs) vs h = elim (Result-cases (combined rs)) [
    | inl (us, e) ↦
        let h' = rw e at h in
        let same : v ∷ us ≡ vs = cc in rw (values-combined rs us e) (ap (λ ws. Throwing.ok ws) same)
    | inr (x, e) ↦ absurd (let h' = rw e at h in ground arith)
  ]

  -- combine gives the first failure, if there is one, else the values in their order, and throws nothing.
  pub combine-combined : (rs : List (Result T E)) → combine rs ≡ Throwing.ok (combined rs)
  unfolding combine combine_from
  combine-combined rs = elim (Result-cases (combined rs)) [
    | inl (vs, e) ↦
        combine_from-looped rs rs ∙ rw e (rw (values-combined rs vs e, combine_from) refl)
    | inr (x, e) ↦ combine_from-looped rs rs ∙ rw e refl
  ]
