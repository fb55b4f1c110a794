-- ===== src/Common/Crypto/Random.antt =====
-- What secureRandom gives.
use native.Mathlib.Nat.{mod-lt}
use enterprise_system.Prelude.{
  ℕ, zero, suc, ◌<◌, ◌%◌, ◌≡◌, true, some, List, [], ◌∷◌, length, get_elem?, any, ◌==◌, refl, ap,
  Text, ok, All, arith,
}
use enterprise_system.Common.Crypto.{pick, secure_random}

-- The character stands in the set.
abbrev pub Among : Text → ℕ → Type 0
Among charset c = any (λ d. d == c) charset ≡ true

get_elem?-Among :
    (charset : Text) (i : ℕ)
    → i < length charset
    → (c : ℕ) × (get_elem? charset i ≡ some c) × Among charset c
unfolding any
get_elem?-Among [] i h = absurd (omega arith)
get_elem?-Among (c ∷ charset) zero h = (c, refl, ground arith)
get_elem?-Among (c ∷ charset) (suc i) h =
    let (d, e, a) = get_elem?-Among charset i (omega arith) in (d, e, ground arith)

pick-Among :
    (charset : Text) (bytes : List ℕ)
    → 0 < length charset
    → (length (pick charset bytes) ≡ length bytes) × All (Among charset) (pick charset bytes)
unfolding pick
pick-Among charset [] h = (refl, tt)
pick-Among charset (b ∷ bytes) h =
    let (c, e, a) = get_elem?-Among charset (b % length charset) (mod-lt b h) in
    let (l, m) = pick-Among charset bytes h in rw (e, pick) (ap suc l, (a, m))

-- For a positive length and a set of characters that is not empty, secureRandom gives a text of that length
-- made of the characters of the set.
pub secure_random-Among :
    (c : ℕ) (charset : Text) (b : ℕ) (bytes : List ℕ)
    → (s : Text) × (secure_random (length (b ∷ bytes)) (c ∷ charset) (b ∷ bytes) ≡ ok s)
      × (length s ≡ length (b ∷ bytes))
      × All (Among (c ∷ charset)) s
unfolding secure_random
secure_random-Among c charset b bytes =
    let (l, m) = pick-Among (c ∷ charset) (b ∷ bytes) (omega arith) in
    (pick (c ∷ charset) (b ∷ bytes), refl, l, m)
