-- ===== src/Common/Crypto.antt =====
-- The cryptographic helpers (src/common/utils/crypto.util.ts) over the functions of Node that they call. A
-- buffer is the list of its bytes, and random bytes are arguments.
pub mod Compare
pub mod Random
use enterprise_system.Prelude.{
  ℕ, zero, suc, ◌%◌, Bool, true, false, Option, none, some, List, [], ◌∷◌, ◌++◌, length, get_elem?,
  ◌==◌, if◌then◌else◌, Text, codes, text_eq, Except, ok, throw,
}

-- `Buffer.from(s, 'utf8')`, `b.toString('hex')`, `Buffer.from(s, 'hex')`, the digest of an HMAC in hex of the
-- secret and the data, and `scrypt` of the password, the salt and the length of the key.
pub record Node : Type 0 where
  pub utf8 : Text → List ℕ
  pub to_hex : List ℕ → Text
  pub from_hex : Text → List ℕ
  pub hmac : Text → Text → Text
  pub scrypt : Text → List ℕ → ℕ → List ℕ

-- What the helpers and the functions of Node throw.
pub data RangeError : Type 0 where
  length_not_positive charset_empty lengths_differ : RangeError

-- `timingSafeEqual(a, b)`, which wants buffers of one length.
unfoldable pub timing_safe_equal : List ℕ → List ℕ → Except RangeError Bool
unfolding text_eq
timing_safe_equal a b = if length a == length b then ok (text_eq a b) else throw lengths_differ

-- The characters for the bytes, one for each.
unfoldable pub pick : Text → List ℕ → Text
pick charset [] = []
pick charset (b ∷ bytes) = elim (get_elem? charset (b % length charset)) [
  | none ↦ codes "undefined" ++ pick charset bytes
  | some c ↦ c ∷ pick charset bytes
]

-- `secureRandom`, where the random bytes are as many as the length says.
unfoldable pub secure_random : ℕ → Text → List ℕ → Except RangeError Text
unfolding pick
secure_random zero charset bytes = throw length_not_positive
secure_random (suc n) [] bytes = throw charset_empty
secure_random (suc n) (c ∷ charset) bytes = ok (pick (c ∷ charset) bytes)

-- The first two parts of `storedHash.split(':')`.
unfoldable pub first_part : Text → Text
first_part [] = []
first_part (c ∷ s) = let rest = first_part s in if c == b':' then [] else c ∷ rest

unfoldable pub after_part : Text → Option Text
after_part [] = none
after_part (c ∷ s) = let rest = after_part s in if c == b':' then some s else rest

module _ (node : Node) where
  unfoldable pub hmac_sign : Text → Text → Text
  hmac_sign text secret = node.hmac secret text

  -- `constantTimeCompare`: buffers of different lengths are no call of `timingSafeEqual` on both.
  unfoldable pub constant_time_compare : Text → Text → Except RangeError Bool
  unfolding timing_safe_equal
  constant_time_compare a b =
      if length (node.utf8 a) == length (node.utf8 b)
      then timing_safe_equal (node.utf8 a) (node.utf8 b)
      else ok false

  unfoldable pub hmac_verify : Text → Text → Text → Except RangeError Bool
  unfolding constant_time_compare hmac_sign
  hmac_verify text signature secret = constant_time_compare signature (hmac_sign text secret)

  -- `hashPassword`, with its random salt: the salt and the key of 64 bytes in hex.
  unfoldable pub hash_password : Text → List ℕ → Text
  hash_password password salt =
      node.to_hex salt ++ codes ":" ++ node.to_hex (node.scrypt password salt 64)

  -- Compares the key of the password with the one that is stored.
  unfoldable pub verify_key : Text → Text → Text → Except RangeError Bool
  unfolding timing_safe_equal
  verify_key password salt_hex hash_hex =
      timing_safe_equal
        (node.scrypt password (node.from_hex salt_hex) (length (node.from_hex hash_hex)))
        (node.from_hex hash_hex)

  unfoldable pub verify_parts : Text → Text → Text → Except RangeError Bool
  unfolding verify_key
  verify_parts password [] hash_hex = ok false
  verify_parts password (c ∷ salt) [] = ok false
  verify_parts password (c ∷ salt) (d ∷ hash) = verify_key password (c ∷ salt) (d ∷ hash)

  unfoldable pub verify_password : Text → Text → Except RangeError Bool
  unfolding first_part after_part verify_parts
  verify_password password stored_hash = elim (after_part stored_hash) [
    | none ↦ ok false
    | some rest ↦ verify_parts password (first_part stored_hash) (first_part rest)
  ]
