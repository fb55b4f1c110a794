-- ===== src/Prelude/Trimmed.antt =====
-- That `trim` of a trimmed text is the text.
use mathlib.Core.List.{reverse, reverse-append, reverse-reverse}
use Prim.Native.Nat.{ℕ}
use mathlib.Core.Path.{◌≡◌, refl, sym, ap, ◌∙◌}
use mathlib.Core.Logic.{inl, inr}
use mathlib.Core.Bool.{false}
use mathlib.Core.List.{[], ◌∷◌, ◌++◌}
use enterprise_system.Prelude.Tests.{Bool-cases}
use enterprise_system.Prelude.Texts.{Text, is_space, trim_start, trim}

trim_start_idem : (s : Text) → trim_start (trim_start s) ≡ trim_start s
unfolding trim_start
trim_start_idem [] = refl
trim_start_idem (c ∷ s) = elim (Bool-cases (is_space c)) [
  | inl e ↦ rw e (trim_start_idem s)
  | inr e ↦ rw (e, trim_start) (rw e refl)
]

-- What `trim_start` keeps is an end of the text.
trim_start-suffix : (s : Text) → (w : Text) × (s ≡ w ++ trim_start s)
unfolding trim_start
trim_start-suffix [] = ([], refl)
trim_start-suffix (c ∷ s) = elim (Bool-cases (is_space c)) [
  | inl e ↦ (let (w, p) = trim_start-suffix s in (c ∷ w, rw e (ap (λ t. c ∷ t) p)))
  | inr e ↦ ([], rw e refl)
]

trim_start-solid : (s : Text) (c : ℕ) (t : Text) → trim_start s ≡ c ∷ t → is_space c ≡ false
unfolding trim_start
trim_start-solid [] c t h = cc
trim_start-solid (d ∷ s) c t h = elim (Bool-cases (is_space d)) [
  | inl e ↦ trim_start-solid s c t (rw e at h)
  | inr e ↦ (let h' : d ∷ s ≡ c ∷ t = rw e at h in let same : d ≡ c = cc in rw (← same) e)
]

-- A beginning of a text without white space in front has none either.
trim_start-prefix : (v w : Text) → trim_start (v ++ w) ≡ v ++ w → trim_start v ≡ v
unfolding trim_start
trim_start-prefix [] w h = refl
trim_start-prefix (c ∷ v) w h = rw (trim_start-solid (c ∷ v ++ w) c (v ++ w) h) refl

pub trim_idem : (s : Text) → trim (trim s) ≡ trim s
unfolding trim
trim_idem s =
    let u = trim_start s in
    let v = trim_start (reverse u) in
    let (w, p) = trim_start-suffix (reverse u) in
    let split : u ≡ reverse v ++ reverse w =
      sym (reverse-reverse u) ∙ ap reverse p ∙ reverse-append w v in
    let front : trim_start (reverse v) ≡ reverse v =
      trim_start-prefix (reverse v) (reverse w)
        (ap trim_start (sym split) ∙ trim_start_idem s ∙ split) in
    ap (λ x. reverse (trim_start (reverse x))) front
    ∙ ap (λ x. reverse (trim_start x)) (reverse-reverse v)
    ∙ ap reverse (trim_start_idem (reverse u))
