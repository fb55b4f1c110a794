-- ===== src/Security/Encryption.antt =====
-- `EncryptionService` (src/security/encryption/encryption.service.ts) over the functions of Node that it
-- calls. A buffer is the list of its bytes; the random initialization vector of an encryption is an argument.
pub mod Rotation
use enterprise_system.Prelude.{
  ℕ, zero, suc, ◌+◌, Bool, true, false, Option, none, some, List, [], ◌∷◌, ◌++◌, length, ◌==◌,
  if◌then◌else◌, Text, codes, text_eq, Except, ok, throw,
}

-- `scrypt` of the master key and the version in the salt; AES-256-GCM of the key, the vector and the bytes:
-- the ciphertext and the tag, and the bytes back or the error of a tag that does not fit; base 64 and UTF-8.
pub record Crypto (Key : Type 0) : Type 0 where
  pub scrypt : Text → ℕ → Key
  pub seal : Key → List ℕ → List ℕ → List ℕ × List ℕ
  pub open_sealed : Key → List ℕ → List ℕ → List ℕ → Except Text (List ℕ)
  pub to_base64 : List ℕ → Text
  pub from_base64 : Text → List ℕ
  pub to_utf8 : Text → List ℕ
  pub from_utf8 : List ℕ → Text

pub record EncryptedData : Type 0 where
  pub ciphertext : Text
  pub iv : Text
  pub tag : Text
  pub key_version : ℕ

pub record EncryptionKey (Key : Type 0) : Type 0 where
  pub key : Key
  pub version : ℕ

pub record Service (Key : Type 0) : Type 0 where
  pub keys : List (EncryptionKey Key)
  pub current_key_version : ℕ

-- What the service throws, and what the cipher does.
pub data Failure : Type 0 where
  empty_plaintext no_current_key lengths_differ : Failure
  key_version_not_found : ℕ → Failure
  cipher : Text → Failure

module _ {Key : Type 0} where
  -- `keys.find((k) => k.version === version)`
  unfoldable pub find_version : ℕ → List (EncryptionKey Key) → Option (EncryptionKey Key)
  find_version v [] = none
  find_version v (k ∷ ks) = let rest = find_version v ks in if k.version == v then some k else rest

  unfoldable pub get_key_by_version : ℕ → Service Key → Option (EncryptionKey Key)
  unfolding find_version
  get_key_by_version v s = find_version v s.keys

  unfoldable pub get_current_key : Service Key → Except Failure (EncryptionKey Key)
  unfolding find_version
  get_current_key s = elim (find_version s.current_key_version s.keys) [
    | none ↦ throw no_current_key
    | some k ↦ ok k
  ]

module _ {Key : Type 0} (crypto : Crypto Key) where
  -- The loop that derives the keys, from version `v` on, with `n` versions left.
  unfoldable pub derive : Text → ℕ → ℕ → List (EncryptionKey Key)
  derive master v zero = []
  derive master v (suc n) =
      record { key = crypto.scrypt master v; version = v } ∷ derive master (v + 1) n

  -- `initializeKeys`, of the master key and the number of versions.
  unfoldable pub initialize_keys : Text → ℕ → Service Key
  unfolding derive
  initialize_keys master versions = record {
    keys = derive master 1 versions;
    current_key_version = versions;
  }

  unfoldable pub seal_with : EncryptionKey Key → List ℕ → Text → EncryptedData
  seal_with k iv plaintext =
      let (encrypted, tag) = crypto.seal k.key iv (crypto.to_utf8 plaintext) in
      record {
        ciphertext = crypto.to_base64 encrypted;
        iv = crypto.to_base64 iv;
        tag = crypto.to_base64 tag;
        key_version = k.version;
      }

  unfoldable pub encrypt : Service Key → List ℕ → Text → Except Failure EncryptedData
  unfolding get_current_key seal_with
  encrypt s iv [] = throw empty_plaintext
  encrypt s iv (c ∷ plaintext) = elim (get_current_key s) [
    | throw e ↦ throw e
    | ok k ↦ ok (seal_with k iv (c ∷ plaintext))
  ]

  unfoldable pub opened : Except Text (List ℕ) → Except Failure Text
  opened (throw e) = throw (cipher e)
  opened (ok bytes) = ok (crypto.from_utf8 bytes)

  unfoldable pub decrypt_with : EncryptionKey Key → EncryptedData → Except Failure Text
  unfolding opened
  decrypt_with k d = opened (
      crypto.open_sealed k.key (crypto.from_base64 d.iv) (crypto.from_base64 d.tag)
        (crypto.from_base64 d.ciphertext))

  unfoldable pub decrypt : Service Key → EncryptedData → Except Failure Text
  unfolding get_key_by_version decrypt_with
  decrypt s d = elim (get_key_by_version d.key_version s) [
    | none ↦ throw (key_version_not_found d.key_version)
    | some k ↦ decrypt_with k d
  ]

  unfoldable pub re_encrypt : Service Key → List ℕ → EncryptedData → Except Failure EncryptedData
  unfolding decrypt encrypt
  re_encrypt s iv d = elim (decrypt s d) [
    | throw e ↦ throw e
    | ok plaintext ↦ encrypt s iv plaintext
  ]

  -- `timingSafeCompare`: the lengths of the texts are compared, and `timingSafeEqual` wants buffers of one
  -- length.
  unfoldable pub timing_safe_compare : Text → Text → Except Failure Bool
  unfolding text_eq
  timing_safe_compare a b =
      if length a == length b
      then if length (crypto.to_utf8 a) == length (crypto.to_utf8 b)
        then ok (text_eq (crypto.to_utf8 a) (crypto.to_utf8 b))
        else throw lengths_differ
      else ok false
