-- ===== src/Presentation/Filters/Titles.antt =====
-- That the two filters give a code the same title.
use enterprise_system.Prelude.{
  ℕ, ◌+◌, ◌≡◌, Bool, true, false, List, [], ◌∷◌, map, refl, ap, ◌∙◌, sym, Text, ◌==◌, leb, ◌&&◌,
  ◌||◌, if◌then◌else◌, All, arith, Bool-cases, inl, inr, ==_iff,
}
use enterprise_system.Presentation.Filters.{
  lower, upper, is_word, split, capitalize, join, humanize_error_code, upper_first,
  get_human_readable_title,
}

-- A code is made of capital letters and low lines, as those of the enum are.
abbrev pub is_code_unit : ℕ → Bool
is_code_unit c = (leb b'A' c && leb c b'Z') || c == b'_'

abbrev pub IsCode : Text → Type 0
IsCode s = All (λ c. is_code_unit c ≡ true) s

abbrev spaced : Text → Text
spaced s = map (λ c. if c == b'_' then b' ' else c) (map lower s)

-- The words after the first one, which is written in small letters.
abbrev rest_of : List Text → List Text
rest_of [] = []
rest_of (w ∷ ws) = map lower w ∷ map capitalize ws

split-cons : (s : Text) → (w : Text) × (ws : List Text) × (split s ≡ w ∷ ws)
unfolding split
split-cons [] = ([], [], refl)
split-cons (c ∷ s) =
    let (w, ws, e) = split-cons s in
    elim (Bool-cases (c == b'_')) [
      | inl f ↦ ([], w ∷ ws, rw (e, split) (rw f refl))
      | inr f ↦ (c ∷ w, ws, rw (e, split) (rw f refl))
    ]

join-cons : (c : ℕ) (w : Text) (ws : List Text) → join ((c ∷ w) ∷ ws) ≡ c ∷ join (w ∷ ws)
unfolding join
join-cons c w [] = refl
join-cons c w (v ∷ ws) = refl

-- A capital letter of a code and what the two titles make of it.
letter :
    (c : ℕ)
    → is_code_unit c ≡ true
    → (c == b'_') ≡ false
    → (lower c ≡ c + 32)
      × (upper (lower c) ≡ c)
      × (is_word (lower c) ≡ true)
      × ((lower c == b'_') ≡ false)
unfolding lower upper is_word
letter c h n = ground arith

split-line :
    (c : ℕ) (s w : Text) (ws : List Text)
    → split s ≡ w ∷ ws
    → (c == b'_') ≡ true
    → split (c ∷ s) ≡ [] ∷ w ∷ ws
unfolding split
split-line c s w ws e f = rw (e, split) (rw f refl)

split-letter :
    (c : ℕ) (s w : Text) (ws : List Text)
    → split s ≡ w ∷ ws
    → (c == b'_') ≡ false
    → split (c ∷ s) ≡ (c ∷ w) ∷ ws
unfolding split
split-letter c s w ws e f = rw (e, split) (rw f refl)

spaced-line : (c : ℕ) (s : Text) → (c == b'_') ≡ true → spaced (c ∷ s) ≡ b' ' ∷ spaced s
unfolding lower
spaced-line c s f = rw ((==_iff c b'_').0 f) refl

spaced-letter : (c : ℕ) (s : Text) → (lower c == b'_') ≡ false → spaced (c ∷ s) ≡ lower c ∷ spaced s
spaced-letter c s f = rw f refl

upper_first-line : (b : Bool) (t : Text) → upper_first b (b' ' ∷ t) ≡ b' ' ∷ upper_first false t
unfolding upper_first is_word
upper_first-line true t = refl
upper_first-line false t = refl

upper_first-letter :
    (b : Bool) (c : ℕ) (t : Text)
    → is_word c ≡ true
    → upper_first b (c ∷ t) ≡ (if b then c else upper c) ∷ upper_first true t
unfolding upper_first
upper_first-letter true c t h = rw h refl
upper_first-letter false c t h = rw h refl

titles :
    (s : Text)
    → IsCode s
    → (join (rest_of (split s)) ≡ upper_first true (spaced s))
      × (join (map capitalize (split s)) ≡ upper_first false (spaced s))
unfolding join split capitalize upper_first
titles [] h = (refl, refl)
titles (c ∷ s) (k, h) =
    let (w, ws, e) = split-cons s in
    let (p, q) = titles s h in
    let p' = rw e at p in
    let q' = rw e at q in
    elim (Bool-cases (c == b'_')) [
      | inl f ↦ rw (split-line c s w ws e f) (
        ap (λ t. b' ' ∷ t) q'
            ∙ sym (upper_first-line true (spaced s))
            ∙ ap (upper_first true) (sym (spaced-line c s f)),
        ap (λ t. b' ' ∷ t) q'
            ∙ sym (upper_first-line false (spaced s))
            ∙ ap (upper_first false) (sym (spaced-line c s f)),
      )
      | inr f ↦
          let (_, u, i, n) = letter c k f in
          rw (split-letter c s w ws e f) (
            join-cons (lower c) (map lower w) (map capitalize ws)
                ∙ ap (λ t. lower c ∷ t) p'
                ∙ sym (upper_first-letter true (lower c) (spaced s) i)
                ∙ ap (upper_first true) (sym (spaced-letter c s n)),
            join-cons c (map lower w) (map capitalize ws)
                ∙ ap (λ t. c ∷ t) p'
                ∙ ap (λ d. d ∷ upper_first true (spaced s)) (sym u)
                ∙ sym (upper_first-letter false (lower c) (spaced s) i)
                ∙ ap (upper_first false) (sym (spaced-letter c s n)),
          )
    ]

-- For every code of capital letters and low lines, the title that AllExceptionsFilter gives is the one
-- that DomainExceptionFilter gives.
pub humanize_error_code-get_human_readable_title :
    (code : Text) → IsCode code → humanize_error_code code ≡ get_human_readable_title code
unfolding humanize_error_code get_human_readable_title
humanize_error_code-get_human_readable_title code h = (titles code h).1
