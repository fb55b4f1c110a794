-- ===== src/Common/Crypto/Compare.antt =====
-- What the comparisons of secrets and of passwords answer.
use enterprise_system.Prelude.{
  ℕ, suc, ◌≡◌, ◌↔◌, Bool, true, false, some, List, [], ◌∷◌, ◌++◌, length, ◌==◌, refl, sym, ap, ◌∙◌,
  Text, codes, text_eq, text_eq_iff, text_eq_refl, ok, Bool-cases, ==_iff, inl, inr, arith, All,
}
use enterprise_system.Common.Crypto.{
  Node, timing_safe_equal, constant_time_compare, hmac_sign, hmac_verify, first_part, after_part,
  verify_key, verify_parts, verify_password, hash_password,
}

-- What Node documents: UTF-8 tells the texts apart that are well formed, hexadecimal digits are read back
-- and are no colons, a key is as long as was asked for, and an HMAC in hex is well formed.
pub record Documented (node : Node) : Type 1 where
  pub WellFormed : Text → Type 0
  pub utf8_injective :
      (a b : Text) → WellFormed a → WellFormed b → node.utf8 a ≡ node.utf8 b → a ≡ b
  pub hmac_WellFormed : (k t : Text) → WellFormed (node.hmac k t)
  pub from_to_hex : (b : List ℕ) → node.from_hex (node.to_hex b) ≡ b
  pub to_hex_digits :
      (x : ℕ) (b : List ℕ)
      → (c : ℕ) × (s : Text) × (node.to_hex (x ∷ b) ≡ c ∷ s)
        × All (λ d. (d == b':') ≡ false) (c ∷ s)
  pub scrypt_length : (p : Text) (s : List ℕ) (n : ℕ) → length (node.scrypt p s n) ≡ n

length-zero : (a : List ℕ) → length a ≡ 0 → a ≡ []
length-zero [] h = refl
length-zero (x ∷ a) h = absurd (omega arith)

length-suc : (n : ℕ) (a : List ℕ) → length a ≡ suc n → (x : ℕ) × (b : List ℕ) × (a ≡ x ∷ b)
length-suc n [] h = absurd (omega arith)
length-suc n (x ∷ a) h = (x, a, refl)

text_eq-length : (a b : List ℕ) → text_eq a b ≡ true → length a ≡ length b
text_eq-length a b h = ap length ((text_eq_iff a b).0 h)

timing_safe_equal_lem :
    (a b : List ℕ) → length a ≡ length b → timing_safe_equal a b ≡ ok (text_eq a b)
unfolding timing_safe_equal
timing_safe_equal_lem a b h = rw ((==_iff (length a) (length b)).1 h) refl

module _ (node : Node) where
  constant_time_compare_lem :
      (a b : Text) → constant_time_compare node a b ≡ ok (text_eq (node.utf8 a) (node.utf8 b))
  unfolding constant_time_compare
  constant_time_compare_lem a b = elim (Bool-cases (length (node.utf8 a) == length (node.utf8 b))) [
    | inl e ↦ rw e refl
    | inr e ↦ rw e (elim (Bool-cases (text_eq (node.utf8 a) (node.utf8 b))) [
      | inl f ↦ absurd (let g = text_eq-length (node.utf8 a) (node.utf8 b) f in ground arith)
      | inr f ↦ rw f refl
    ])
  ]

  module _ (laws : Documented node) where
    -- The comparison of well-formed texts never throws, and answers true exactly if they are equal.
    constant_time_compare_iff :
        (a b : Text)
        → laws.WellFormed a
        → laws.WellFormed b
        → (constant_time_compare node a b ≡ ok true) ↔ (a ≡ b)
    constant_time_compare_iff a b u v = (
      λ h.
          let e : text_eq (node.utf8 a) (node.utf8 b) ≡ true = cc (constant_time_compare_lem a b) in
          laws.utf8_injective a b u v ((text_eq_iff _ _).0 e),
      λ h. rw h (constant_time_compare_lem b b ∙ ap ok (text_eq_refl (node.utf8 b))),
    )

    -- A well-formed signature is accepted exactly if it is the one that is made for the data and the secret;
    -- any other is refused, and nothing is thrown.
    pub hmac_verify_iff :
        (text signature secret : Text)
        → laws.WellFormed signature
        → ((hmac_verify node text signature secret ≡ ok true)
            ↔ (signature ≡ hmac_sign node text secret))
          × ((b : Bool) × (hmac_verify node text signature secret ≡ ok b))
    unfolding hmac_verify hmac_sign
    hmac_verify_iff text signature secret u = (
      constant_time_compare_iff signature (hmac_sign node text secret) u
          (laws.hmac_WellFormed secret text),
      (_, constant_time_compare_lem signature (hmac_sign node text secret)),
    )

first_part-colon :
    (s t : Text)
    → All (λ d. (d == b':') ≡ false) s
    → (first_part (s ++ codes ":" ++ t) ≡ s) × (after_part (s ++ codes ":" ++ t) ≡ some t)
unfolding first_part after_part
first_part-colon [] t h = (refl, refl)
first_part-colon (c ∷ s) t (k, h) =
    let (p, q) = first_part-colon s t h in rw k (ap (λ r. c ∷ r) p, q)

first_part-whole : (s : Text) → All (λ d. (d == b':') ≡ false) s → first_part s ≡ s
unfolding first_part
first_part-whole [] h = refl
first_part-whole (c ∷ s) (k, h) = rw k (ap (λ r. c ∷ r) (first_part-whole s h))

module _ (node : Node) where
  -- A stored hash of two parts in which no colon stands.
  verify_password_lem :
      (p : Text) (c d : ℕ) (s h : Text)
      → All (λ d. (d == b':') ≡ false) (c ∷ s)
      → All (λ d. (d == b':') ≡ false) (d ∷ h)
      → verify_password node p ((c ∷ s) ++ codes ":" ++ (d ∷ h)) ≡ verify_key node p (c ∷ s) (d ∷ h)
  unfolding verify_password verify_parts
  verify_password_lem p c d s h k l =
      let (e, f) = first_part-colon (c ∷ s) (d ∷ h) k in
      rw (f, verify_password) (rw e (rw (first_part-whole (d ∷ h) l) refl))

  module _ (laws : Documented node) where
    verify_key_lem :
        (p s h : Text)
        → verify_key node p s h
          ≡ ok (
              text_eq
                (node.scrypt p (node.from_hex s) (length (node.from_hex h)))
                (node.from_hex h))
    unfolding verify_key
    verify_key_lem p s h =
        timing_safe_equal_lem _ (node.from_hex h)
          (laws.scrypt_length p (node.from_hex s) (length (node.from_hex h)))

    -- A stored hash of two parts, neither of them empty or with a colon in it, of which the second decodes to no
    -- bytes at all, as "zz" does, accepts every password: over a scrypt whose keys have the length that is asked
    -- for, the key that is compared has length 0.
    pub verify_password-malformed :
        (p : Text) (c d : ℕ) (s h : Text)
        → All (λ d. (d == b':') ≡ false) (c ∷ s)
        → All (λ d. (d == b':') ≡ false) (d ∷ h)
        → node.from_hex (d ∷ h) ≡ []
        → verify_password node p ((c ∷ s) ++ codes ":" ++ (d ∷ h)) ≡ ok true
    verify_password-malformed p c d s h k l e =
        let key = node.scrypt p (node.from_hex (c ∷ s)) 0 in
        let empty : key ≡ [] = length-zero key (laws.scrypt_length p (node.from_hex (c ∷ s)) 0) in
        verify_password_lem p c d s h k l
        ∙ verify_key_lem p (c ∷ s) (d ∷ h)
        ∙ rw e (ap ok ((text_eq_iff key []).1 empty))

    -- Against the hash of a password a password is accepted exactly if the two have the same key, so that the
    -- one that was hashed always is.
    pub verify_password-hash_password :
        (p q : Text) (x : ℕ) (salt : List ℕ)
        → verify_password node q (hash_password node p (x ∷ salt))
          ≡ ok (text_eq (node.scrypt q (x ∷ salt) 64) (node.scrypt p (x ∷ salt) 64))
    unfolding hash_password
    verify_password-hash_password p q x salt =
        let key = node.scrypt p (x ∷ salt) 64 in
        let (y, k, e) = length-suc 63 key (laws.scrypt_length p (x ∷ salt) 64) in
        let (c, s, f, u) = laws.to_hex_digits x salt in
        let (d, h, g, v) = laws.to_hex_digits y k in
        let g' : node.to_hex key ≡ d ∷ h = ap node.to_hex e ∙ g in
        let salt_back : node.from_hex (c ∷ s) ≡ x ∷ salt =
          ap node.from_hex (sym f) ∙ laws.from_to_hex (x ∷ salt) in
        let key_back : node.from_hex (d ∷ h) ≡ key =
          ap node.from_hex (sym g') ∙ laws.from_to_hex key in
        ap (λ t. verify_password node q (t ++ codes ":" ++ node.to_hex key)) f
        ∙ ap (λ t. verify_password node q ((c ∷ s) ++ codes ":" ++ t)) g'
        ∙ verify_password_lem q c d s h u v
        ∙ verify_key_lem q (c ∷ s) (d ∷ h)
        ∙ rw key_back (rw salt_back (rw (laws.scrypt_length p (x ∷ salt) 64) refl))
