-- ===== src/Domain/Identity/Generated.antt =====
-- That an id which the fallback generates is a UUID.
use enterprise_system.Prelude.{
  ℕ, ◌+◌, ◌%◌, ◌<◌, ◌≡◌, ◌≢◌, not, all, Bool, true, [], ◌∷◌, length, All, Text, IsSolid, is_space,
  trim, trim-id, ok, refl, arith, Bool-cases, inl, inr, ◌==◌,
}
use enterprise_system.Regex.{one, times, Matches, done, unit_of, both}
use enterprise_system.Regex.Decides.{test_iff}
use enterprise_system.Domain.Identity.{
  is_hex, is_variant, uuid_v4_regex, is_uuid_v4, from_string, hex_digit, fill_template,
  generate_uuid_v4, uuid_template,
}

hex_digit-is_hex : (d : ℕ) → d < 16 → is_hex (hex_digit d) ≡ true
unfolding is_hex hex_digit
hex_digit-is_hex d h = ground arith

hex_digit-is_variant : (d : ℕ) → is_variant (hex_digit (8 + d % 4)) ≡ true
unfolding is_variant hex_digit
hex_digit-is_variant d = ground arith

times-Matches :
    (p : ℕ → Bool) (s : Text) → All (λ c. p c ≡ true) s → Matches (times (length s) (one p)) s
unfolding times
times-Matches p [] h = done
times-Matches p (c ∷ s) (h, hs) = both refl (unit_of h) (times-Matches p s hs)

generated-Matches :
    (random : ℕ → ℕ) → ((k : ℕ) → random k < 16) → Matches uuid_v4_regex (generate_uuid_v4 random)
unfolding generate_uuid_v4 uuid_v4_regex
generated-Matches random h =
    let x : (k : ℕ) → is_hex (hex_digit (random k)) ≡ true =
      λ k. hex_digit-is_hex (random k) (h k) in
    let d : ℕ → ℕ = λ k. hex_digit (random k) in
    both refl
      (times-Matches is_hex (d 0 ∷ d 1 ∷ d 2 ∷ d 3 ∷ d 4 ∷ d 5 ∷ d 6 ∷ d 7 ∷ [])
        (x 0, (x 1, (x 2, (x 3, (x 4, (x 5, (x 6, (x 7, tt)))))))))
      (both refl (unit_of refl) (
        both refl
          (times-Matches is_hex (d 8 ∷ d 9 ∷ d 10 ∷ d 11 ∷ []) (x 8, (x 9, (x 10, (x 11, tt)))))
          (both refl (unit_of refl) (
            both refl (unit_of refl) (
              both refl (times-Matches is_hex (d 12 ∷ d 13 ∷ d 14 ∷ []) (x 12, (x 13, (x 14, tt))))
                (both refl (unit_of refl) (
                  both refl (unit_of (hex_digit-is_variant (random 15))) (
                    both refl
                      (times-Matches is_hex (d 16 ∷ d 17 ∷ d 18 ∷ []) (x 16, (x 17, (x 18, tt))))
                      (both refl (unit_of refl) (
                        times-Matches is_hex
                          (d 19
                            ∷ d 20
                            ∷ d 21
                            ∷ d 22
                            ∷ d 23
                            ∷ d 24
                            ∷ d 25
                            ∷ d 26
                            ∷ d 27
                            ∷ d 28
                            ∷ d 29
                            ∷ d 30
                            ∷ [])
                          (
                            x 19,
                            (
                              x 20,
                              (
                                x 21,
                                (
                                  x 22,
                                  (
                                    x 23,
                                    (x 24, (x 25, (x 26, (x 27, (x 28, (x 29, (x 30, tt))))))),
                                  ),
                                ),
                              ),
                            ),
                          )))))))))))

hex_digit-IsSolid : (d : ℕ) → d < 16 → IsSolid (hex_digit d)
unfolding is_space hex_digit
hex_digit-IsSolid d h = ground arith

fill_template-IsSolid :
    (random : ℕ → ℕ) (k : ℕ) (s : Text)
    → ((j : ℕ) → random j < 16)
    → All IsSolid s
    → All IsSolid (fill_template random k s)
unfolding fill_template
fill_template-IsSolid random k [] h a = tt
fill_template-IsSolid random k (c ∷ s) h (solid, a) =
    let next = fill_template-IsSolid random (k + 1) s h a in
    let same = fill_template-IsSolid random k s h a in
    elim (Bool-cases (c == b'x')) [
      | inl e ↦ rw e (hex_digit-IsSolid (random k) (h k), next)
      | inr e ↦ elim (Bool-cases (c == b'y')) [
        | inl f ↦ rw e (rw f (hex_digit-IsSolid (8 + random k % 4) (omega arith), next))
        | inr f ↦ rw e (rw f (solid, same))
      ]
    ]

all-IsSolid : (s : Text) → all (λ c. not (is_space c)) s ≡ true → All IsSolid s
unfolding all
all-IsSolid [] h = tt
all-IsSolid (c ∷ s) h = (ground arith, all-IsSolid s (ground arith))

template-IsSolid : All IsSolid uuid_template
unfolding all is_space
template-IsSolid = all-IsSolid uuid_template refl

from_string-valid :
    (s : Text)
    → s ≢ []
    → is_uuid_v4 s ≡ true
    → trim s ≡ s
    → from_string s ≡ ok (record { value = s })
unfolding from_string
from_string-valid [] n v t = absurd (n refl)
from_string-valid (c ∷ s) n v t = rw t (rw v refl)

generated-solid : (random : ℕ → ℕ) → generate_uuid_v4 random ≢ []
unfolding generate_uuid_v4
generated-solid random = cc

trim-generate :
    (random : ℕ → ℕ)
    → ((k : ℕ) → random k < 16)
    → trim (generate_uuid_v4 random) ≡ generate_uuid_v4 random
unfolding generate_uuid_v4
trim-generate random h =
    trim-id (fill_template random 0 uuid_template)
      (fill_template-IsSolid random 0 uuid_template h template-IsSolid)

-- Whatever digits below 16 are drawn, the id that the fallback makes of them is a UUID of version 4, and
-- fromString reads it back as it is.
pub from_string-generate_uuid_v4 :
    (random : ℕ → ℕ)
    → ((k : ℕ) → random k < 16)
    → (is_uuid_v4 (generate_uuid_v4 random) ≡ true)
      × (from_string (generate_uuid_v4 random) ≡ ok (record { value = generate_uuid_v4 random }))
unfolding is_uuid_v4
from_string-generate_uuid_v4 random h =
    let valid = (test_iff uuid_v4_regex (generate_uuid_v4 random)).1 (generated-Matches random h) in
    (
      valid,
      from_string-valid (generate_uuid_v4 random) (generated-solid random) valid
          (trim-generate random h),
    )
