-- ===== src/Common/Pagination/Sorted.antt =====
-- The rows of a query in its order, for an order that tells any two of them apart.
use enterprise_system.Prelude.{
  ℕ, suc, ◌≡◌, Bool, true, false, List, [], ◌∷◌, length, refl, ap, ◌∙◌, arith, if◌then◌else◌,
  Bool-cases, inl, inr, ◌&&◌, All,
}

-- The rows in an order: each is put before the first that does not come before it.
abbrev insert : {A : Type 0} → (A → A → Bool) → A → List A → List A
insert before x [] = x ∷ []
insert before x (y ∷ ys) =
    let rest = insert before x ys in if before x y then x ∷ y ∷ ys else y ∷ rest

abbrev pub sort : {A : Type 0} → (A → A → Bool) → List A → List A
sort before [] = []
sort before (x ∷ xs) = insert before x (sort before xs)

-- How often a test holds of rows.
abbrev pub times : {A : Type 0} → (A → Bool) → List A → ℕ
times p [] = 0
times p (x ∷ xs) = let rest = times p xs in if p x then suc rest else rest

length-insert :
    {A : Type 0} (before : A → A → Bool) (x : A) (xs : List A)
    → length (insert before x xs) ≡ suc (length xs)
length-insert before x [] = refl
length-insert before x (y ∷ ys) = elim (Bool-cases (before x y)) [
  | inl e ↦ rw e refl
  | inr e ↦ rw e (ap suc (length-insert before x ys))
]

pub length-sort :
    {A : Type 0} (before : A → A → Bool) (xs : List A) → length (sort before xs) ≡ length xs
length-sort before [] = refl
length-sort before (x ∷ xs) =
    length-insert before x (sort before xs) ∙ ap suc (length-sort before xs)

times-insert :
    {A : Type 0} (p : A → Bool) (before : A → A → Bool) (x : A) (xs : List A)
    → times p (insert before x xs) ≡ times p (x ∷ xs)
times-insert p before x [] = refl
times-insert p before x (y ∷ ys) = elim (Bool-cases (before x y)) [
  | inl e ↦ rw e refl
  | inr e ↦ rw e (ground (arith, times-insert p before x ys))
]

-- Sorting keeps each row as often as it is there.
pub times-sort :
    {A : Type 0} (p : A → Bool) (before : A → A → Bool) (xs : List A)
    → times p (sort before xs) ≡ times p xs
times-sort p before [] = refl
times-sort p before (x ∷ xs) =
    times-insert p before x (sort before xs) ∙ ground (arith, times-sort p before xs)

-- Each row comes before the next.
abbrev pub IsOrdered : {A : Type 0} → (A → A → Bool) → List A → Type 0
IsOrdered before [] = Unit
IsOrdered before (x ∷ []) = Unit
IsOrdered before (x ∷ y ∷ ys) = (before x y ≡ true) × IsOrdered before (y ∷ ys)

-- Of any two rows one comes before the other.
abbrev pub IsTotal : {A : Type 0} → (A → A → Bool) → Type 0
IsTotal {A} before = (x y : A) → before x y ≡ false → before y x ≡ true

-- The order tells any two of the rows apart.
abbrev pub Apart : {A : Type 0} → (A → A → Bool) → List A → Type 0
Apart before [] = Unit
Apart before (x ∷ xs) = All (λ y. (before x y && before y x) ≡ false) xs × Apart before xs

insert-IsOrdered :
    {A : Type 0} (before : A → A → Bool) (x : A) (xs : List A)
    → IsTotal before
    → IsOrdered before xs
    → IsOrdered before (insert before x xs)
insert-IsOrdered before x [] t h = tt
insert-IsOrdered before x (y ∷ []) t h = elim (Bool-cases (before x y)) [
  | inl e ↦ rw e (e, tt)
  | inr e ↦ rw e (t x y e, tt)
]
insert-IsOrdered before x (y ∷ z ∷ zs) t (b, h) =
    let rest = insert-IsOrdered before x (z ∷ zs) t h in
    elim (Bool-cases (before x y)) [
      | inl e ↦ rw e (e, (b, h))
      | inr e ↦ elim (Bool-cases (before x z)) [
        | inl f ↦ rw (e, f) (t x y e, rw f at rest)
        | inr f ↦ rw (e, f) (b, rw f at rest)
      ]
    ]

pub sort-IsOrdered :
    {A : Type 0} (before : A → A → Bool) (xs : List A)
    → IsTotal before
    → IsOrdered before (sort before xs)
sort-IsOrdered before [] t = tt
sort-IsOrdered before (x ∷ xs) t =
    insert-IsOrdered before x (sort before xs) t (sort-IsOrdered before xs t)
