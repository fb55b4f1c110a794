-- ===== src/Security/Encryption/Rotation.antt =====
-- That what was encrypted is read back after any rotation of the keys, and that what is read was encrypted.
use enterprise_system.Prelude.{
  ℕ, zero, suc, ◌+◌, ◌≤◌, ◌<◌, ◌≡◌, false, none, some, List, ◌∷◌, ◌==◌, refl, ◌⊎◌, sym, ap, ◌∙◌,
  Text, Except, ok, throw, Bool-cases, ==_iff, ltb, leb, inl, inr, arith,
}
use enterprise_system.Security.Encryption.{
  opened, Crypto, EncryptedData, EncryptionKey, find_version, get_key_by_version, get_current_key,
  derive, initialize_keys, seal_with, encrypt, decrypt_with, decrypt, re_encrypt,
}

-- What Node documents: base 64 and the UTF-8 of a well-formed text are read back, a sealed text is opened with
-- its key and vector, and a tag that fits is that of the bytes it gives.
pub record Documented {Key : Type 0} (crypto : Crypto Key) : Type 1 where
  pub WellFormed : Text → Type 0
  pub from_to_base64 : (b : List ℕ) → crypto.from_base64 (crypto.to_base64 b) ≡ b
  pub from_to_utf8 : (s : Text) → WellFormed s → crypto.from_utf8 (crypto.to_utf8 s) ≡ s
  pub open_seal :
      (k : Key) (iv b : List ℕ)
      → crypto.open_sealed k iv (crypto.seal k iv b).1 (crypto.seal k iv b).0 ≡ ok b
  pub seal_open :
      (k : Key) (iv tag c b : List ℕ)
      → crypto.open_sealed k iv tag c ≡ ok b
      → (c ≡ (crypto.seal k iv b).0) × (tag ≡ (crypto.seal k iv b).1)

module _ {Key : Type 0} (crypto : Crypto Key) where
  find_version-derive :
      (master : Text) (v n w : ℕ)
      → v ≤ w
      → w < v + n
      → find_version w (derive crypto master v n)
        ≡ some (record { key = crypto.scrypt master w; version = w })
  unfolding find_version derive
  find_version-derive master v zero w h l = absurd (omega arith)
  find_version-derive master v (suc n) w h l = elim (Bool-cases (v == w)) [
    | inl e ↦ rw e (let same : v ≡ w = (==_iff v w).0 e in rw same refl)
    | inr e ↦ rw e (find_version-derive master (v + 1) n w (ground arith) (omega arith))
  ]

  -- A version is one of those from `v` on, or none.
  inside-cases : (v n w : ℕ) → ((v ≤ w) × (w < v + n)) ⊎ ((w < v) ⊎ (v + n ≤ w))
  inside-cases v n w = elim (Bool-cases (leb v w)) [
    | inr e ↦ inr (inl (ground arith))
    | inl e ↦ elim (Bool-cases (ltb w (v + n))) [
      | inl f ↦ inl (ground arith, ground arith)
      | inr f ↦ inr (inr (ground arith))
    ]
  ]

  find_version-outside :
      (master : Text) (v n w : ℕ)
      → ((w < v) ⊎ (v + n ≤ w))
      → find_version w (derive crypto master v n) ≡ none
  unfolding find_version derive
  find_version-outside master v zero w o = refl
  find_version-outside master v (suc n) w o =
      let differs : (v == w) ≡ false = ground arith in
      rw differs (find_version-outside master (v + 1) n w (ground arith))

  encrypt-ok :
      (master : Text) (n : ℕ) (iv : List ℕ) (c : ℕ) (s : Text)
      → 1 ≤ n
      → encrypt crypto (initialize_keys crypto master n) iv (c ∷ s)
        ≡ ok (seal_with crypto (record { key = crypto.scrypt master n; version = n }) iv (c ∷ s))
  unfolding encrypt get_current_key initialize_keys
  encrypt-ok master n iv c s h = rw (find_version-derive master 1 n n h (omega arith), encrypt) refl

  decrypt-known :
      (master : Text) (n : ℕ) (d : EncryptedData)
      → 1 ≤ d.key_version
      → d.key_version ≤ n
      → decrypt crypto (initialize_keys crypto master n) d
        ≡ decrypt_with crypto
            (record { key = crypto.scrypt master d.key_version; version = d.key_version })
            d
  unfolding decrypt get_key_by_version initialize_keys
  decrypt-known master n d h l =
      rw (find_version-derive master 1 n d.key_version h (omega arith), decrypt) refl

  module _ (laws : Documented crypto) where
    decrypt_with-seal_with :
        (k : EncryptionKey Key) (iv : List ℕ) (s : Text)
        → laws.WellFormed s
        → decrypt_with crypto k (seal_with crypto k iv s) ≡ ok s
    unfolding decrypt_with seal_with opened
    decrypt_with-seal_with k iv s w =
        let (c, t) = crypto.seal k.key iv (crypto.to_utf8 s) in
        let back = laws.open_seal k.key iv (crypto.to_utf8 s) in
        let read : crypto.open_sealed k.key (crypto.from_base64 (crypto.to_base64 iv))
              (crypto.from_base64 (crypto.to_base64 t)) (crypto.from_base64 (crypto.to_base64 c))
            ≡ ok (crypto.to_utf8 s) =
          cc (laws.from_to_base64 iv, laws.from_to_base64 t, laws.from_to_base64 c, back) in
        ap (opened crypto) read ∙ ap ok (laws.from_to_utf8 s w)

    -- With at least one version a well-formed text that is not empty is encrypted, and it is read back by every
    -- service that has the same master key and as many versions or more.
    pub decrypt-encrypt :
        (master : Text) (n m : ℕ) (iv : List ℕ) (c : ℕ) (s : Text)
        → 1 ≤ n
        → n ≤ m
        → laws.WellFormed (c ∷ s)
        → (d : EncryptedData) × (encrypt crypto (initialize_keys crypto master n) iv (c ∷ s) ≡ ok d)
          × (decrypt crypto (initialize_keys crypto master m) d ≡ ok (c ∷ s))
    unfolding seal_with
    decrypt-encrypt master n m iv c s h l w =
        let k : EncryptionKey Key = record { key = crypto.scrypt master n; version = n } in
        let d = seal_with crypto k iv (c ∷ s) in
        (
          d,
          encrypt-ok master n iv c s h,
          decrypt-known master m d h l ∙ decrypt_with-seal_with k iv (c ∷ s) w,
        )

    -- What a service of more versions reads of old data it encrypts anew with its last version, and reads the
    -- same.
    pub decrypt-re_encrypt :
        (master : Text) (n m : ℕ) (iv new_iv : List ℕ) (c : ℕ) (s : Text)
        → 1 ≤ n
        → n ≤ m
        → laws.WellFormed (c ∷ s)
        → (d d' : EncryptedData) × (encrypt crypto (initialize_keys crypto master n) iv (c ∷ s)
            ≡ ok d)
          × (re_encrypt crypto (initialize_keys crypto master m) new_iv d ≡ ok d')
          × (d'.key_version ≡ m)
          × (decrypt crypto (initialize_keys crypto master m) d' ≡ ok (c ∷ s))
    unfolding re_encrypt seal_with
    decrypt-re_encrypt master n m iv new_iv c s h l w =
        let (d, e, f) = decrypt-encrypt master n m iv c s h l w in
        let k : EncryptionKey Key = record { key = crypto.scrypt master m; version = m } in
        let d' = seal_with crypto k new_iv (c ∷ s) in
        (
          d,
          d',
          e,
          rw (f, re_encrypt) (encrypt-ok master m new_iv c s (omega arith)),
          refl,
          decrypt-known master m d' (omega arith) (omega arith)
              ∙ decrypt_with-seal_with k new_iv (c ∷ s) w,
        )

    opened-ok :
        (r : Except Text (List ℕ)) (s : Text)
        → opened crypto r ≡ ok s
        → (b : List ℕ) × (r ≡ ok b) × (s ≡ crypto.from_utf8 b)
    unfolding opened
    opened-ok (throw e) s h = absurd (ground arith)
    opened-ok (ok b) s h = (b, refl, cc)

    -- What is read was sealed: with the key of a version that the service has, the vector and the tag of the data.
    pub decrypt-ok :
        (master : Text) (n : ℕ) (d : EncryptedData) (s : Text)
        → decrypt crypto (initialize_keys crypto master n) d ≡ ok s
        → (b : List ℕ) × (s ≡ crypto.from_utf8 b)
          × (1 ≤ d.key_version)
          × (d.key_version ≤ n)
          × (crypto.from_base64 d.ciphertext
              ≡ (crypto.seal (crypto.scrypt master d.key_version) (crypto.from_base64 d.iv) b).0)
          × (crypto.from_base64 d.tag
              ≡ (crypto.seal (crypto.scrypt master d.key_version) (crypto.from_base64 d.iv) b).1)
    unfolding decrypt get_key_by_version initialize_keys decrypt_with
    decrypt-ok master n d s h = elim (inside-cases 1 n d.key_version) [
      | inl (u, v) ↦
          let k = crypto.scrypt master d.key_version in
          let read = sym (decrypt-known master n d u (omega arith)) ∙ h in
          let (b, e, f) = opened-ok _ s read in
          let (p, q) = laws.seal_open k _ _ _ b e in (b, f, u, omega arith, p, q)
      | inr o ↦ absurd (
          let g = rw (find_version-outside master 1 n d.key_version o, decrypt) at h in
          ground arith)
    ]
