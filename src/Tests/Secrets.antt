-- ===== src/Tests/Secrets.antt =====
-- The helpers of secrets and the encryption over simple functions in the place of those of Node.
use enterprise_system.Prelude.{
  ℕ, zero, suc, ◌+◌, ◌-◌, ◌≤◌, ◌≡◌, true, false, List, [], ◌∷◌, ◌++◌, map, length, refl, ap, ◌==◌,
  leb, if◌then◌else◌, Text, codes, text_eq, text_eq_iff, text_eq_refl, Except, ok, throw, All,
  arith, Bool-cases, inl, inr,
}
use enterprise_system.Common.Crypto.{Node, verify_password}
use enterprise_system.Common.Crypto.Compare as Compare
use enterprise_system.Common.Crypto.Compare.{
  hmac_verify_iff, verify_password-malformed, verify_password-hash_password,
}
use enterprise_system.Security.Encryption.{Crypto, EncryptedData, initialize_keys, encrypt, decrypt}
use enterprise_system.Security.Encryption.Rotation as Rotation
use enterprise_system.Security.Encryption.Rotation.{decrypt-encrypt, decrypt-re_encrypt, decrypt-ok}

abbrev repeat : ℕ → ℕ → List ℕ
repeat x zero = []
repeat x (suc n) = x ∷ repeat x n

-- Digits are the numbers from 256 on, and reading stops at the first that is none.
abbrev digits : List ℕ → Text
digits b = map (λ x. x + 256) b

abbrev bytes : Text → List ℕ
bytes [] = []
bytes (d ∷ s) = let rest = bytes s in if leb 256 d then (d - 256) ∷ rest else []

abbrev simple : Node
simple = record {
  utf8 = λ s. s;
  to_hex = digits;
  from_hex = bytes;
  hmac = λ k t. k ++ t;
  scrypt = λ p s n. repeat (length p + length s) n;
}

bytes-digits : (b : List ℕ) → bytes (digits b) ≡ b
bytes-digits [] = refl
bytes-digits (x ∷ b) = ground (arith, bytes-digits b)

digits-colon : (b : List ℕ) → All (λ d. (d == b':') ≡ false) (digits b)
digits-colon [] = tt
digits-colon (x ∷ b) = (ground arith, digits-colon b)

repeat-length : (x n : ℕ) → length (repeat x n) ≡ n
repeat-length x zero = refl
repeat-length x (suc n) = ap suc (repeat-length x n)

simple-Documented : Compare.Documented simple
simple-Documented = record {
  WellFormed = λ s. Unit;
  utf8_injective = λ a b u v e. e;
  hmac_WellFormed = λ k t. tt;
  from_to_hex = bytes-digits;
  to_hex_digits = λ x b. (x + 256, digits b, refl, digits-colon (x ∷ b));
  scrypt_length = λ p s n. repeat-length _ n;
}

verify_password-malformed_example : verify_password simple (codes "any") (codes "aa:zz") ≡ ok true
verify_password-malformed_example =
    verify_password-malformed simple simple-Documented (codes "any") b'a' b'z' (codes "a")
      (codes "z") (ground arith) (ground arith) refl

-- A cipher whose tag is its key and its vector.
abbrev unsealed : ℕ → List ℕ → List ℕ → List ℕ → Except Text (List ℕ)
unsealed k iv tag c = if text_eq tag (k ∷ iv) then ok c else throw (codes "bad tag")

abbrev plain : Crypto ℕ
plain = record {
  scrypt = λ master v. v + length master;
  seal = λ k iv b. (b, k ∷ iv);
  open_sealed = unsealed;
  to_base64 = λ b. b;
  from_base64 = λ s. s;
  to_utf8 = λ s. s;
  from_utf8 = λ b. b;
}

unsealed-ok : (k : ℕ) (iv tag c b : List ℕ) → unsealed k iv tag c ≡ ok b → (c ≡ b) × (tag ≡ k ∷ iv)
unsealed-ok k iv tag c b h = elim (Bool-cases (text_eq tag (k ∷ iv))) [
  | inl e ↦ let h' = rw e at h in (cc, (text_eq_iff tag (k ∷ iv)).0 e)
  | inr e ↦ absurd (let h' = rw e at h in ground arith)
]

plain-Documented : Rotation.Documented plain
plain-Documented = record {
  WellFormed = λ s. Unit;
  from_to_base64 = λ b. refl;
  from_to_utf8 = λ s w. refl;
  open_seal = λ k iv b. rw (text_eq_refl (k ∷ iv)) refl;
  seal_open = unsealed-ok;
}

decrypt-encrypt_example :
    (d : EncryptedData) × (encrypt plain
        (initialize_keys plain (codes "master") 1)
        (1 ∷ 2 ∷ [])
        (codes "secret")
      ≡ ok d)
    × (decrypt plain (initialize_keys plain (codes "master") 3) d ≡ ok (codes "secret"))
unfolding plain-Documented
decrypt-encrypt_example =
    decrypt-encrypt plain plain-Documented (codes "master") 1 3 (1 ∷ 2 ∷ []) b's' (codes "ecret")
      (omega arith) (omega arith) tt

abbrev stored : EncryptedData
stored = record { ciphertext = codes "secret"; iv = 1 ∷ []; tag = 8 ∷ 1 ∷ []; key_version = 2 }

decrypt-ok_example :
    (b : List ℕ) × (codes "secret" ≡ b)
    × (1 ≤ 2)
    × (2 ≤ 3)
    × (stored.ciphertext ≡ b)
    × (stored.tag ≡ 8 ∷ 1 ∷ [])
unfolding decrypt initialize_keys text_eq
decrypt-ok_example =
    decrypt-ok plain plain-Documented (codes "master") 3 stored (codes "secret") refl
