-- ===== src/Domain/Identity.antt =====
-- UniqueId (src/domain/value-objects/unique-id.vo.ts). The random generator is outside: an id that
-- `create` returns is an argument of the code that calls it.
pub mod Generated
use enterprise_system.Prelude.{
  ℕ, ◌+◌, ◌%◌, codes, ltb, Bool, true, ◌&&◌, ◌||◌, [], ◌∷◌, ◌≡◌, ◌↔◌, ap, leb, ◌==◌,
}
use enterprise_system.Prelude.{if◌then◌else◌, Text, text_eq, text_eq_iff, trim, Except, ok, throw}
use enterprise_system.Regex.{Regex, one, seq, unit, times, test}
use enterprise_system.Domain.Fault.{Fault, error, id_empty, id_invalid}

pub record UniqueId : Type 0 where
  pub value : Text

-- `[0-9a-f]` under the flag `i`
unfoldable pub is_hex : ℕ → Bool
is_hex c = (leb b'0' c && leb c b'9') || (leb b'a' c && leb c b'f') || (leb b'A' c && leb c b'F')

-- `[89ab]` under the flag `i`
unfoldable pub is_variant : ℕ → Bool
is_variant c = c == b'8' || c == b'9' || c == b'a' || c == b'b' || c == b'A' || c == b'B'

-- `UUID_V4_REGEX`
unfoldable pub uuid_v4_regex : Regex
unfolding is_hex is_variant times
uuid_v4_regex = seq (times 8 (one is_hex)) (
    seq (unit b'-') (
      seq (times 4 (one is_hex)) (
        seq (unit b'-') (
          seq (unit b'4') (
            seq (times 3 (one is_hex)) (
              seq (unit b'-') (
                seq (one is_variant)
                  (seq (times 3 (one is_hex)) (seq (unit b'-') (times 12 (one is_hex)))))))))))

-- `UUID_V4_REGEX.test(s)`
unfoldable pub is_uuid_v4 : Text → Bool
unfolding uuid_v4_regex test
is_uuid_v4 s = test uuid_v4_regex s

unfoldable pub from_string : Text → Except Fault UniqueId
from_string [] = throw (error id_empty)
from_string (c ∷ s) =
    let trimmed = trim (c ∷ s) in
    if is_uuid_v4 trimmed
    then ok (record { value = trimmed })
    else throw (error (id_invalid trimmed))

-- `a.equals(b)`
unfoldable pub id_eq : UniqueId → UniqueId → Bool
id_eq a b = text_eq a.value b.value

pub id_eq_iff : (a b : UniqueId) → (id_eq a b ≡ true) ↔ (a ≡ b)
unfolding id_eq
id_eq_iff a b = (
  λ e. let p = (text_eq_iff a.value b.value).0 e in λ i. record { value = p i },
  λ e. (text_eq_iff a.value b.value).1 (ap (λ (x : UniqueId). x.value) e),
)

-- `v.toString(16)` of a digit.
unfoldable pub hex_digit : ℕ → ℕ
hex_digit d = if ltb d 10 then b'0' + d else 87 + d

-- `template.replace(/[xy]/g, ...)`, from the k-th of the random digits on; `(r & 0x3) | 0x8` is 8 and the
-- remainder by 4.
unfoldable pub fill_template : (ℕ → ℕ) → ℕ → Text → Text
unfolding hex_digit
fill_template random k [] = []
fill_template random k (c ∷ s) =
    let next = fill_template random (k + 1) s in
    let same = fill_template random k s in
    if c == b'x'
    then hex_digit (random k) ∷ next
    else if c == b'y'
    then hex_digit (8 + random k % 4) ∷ next
    else c ∷ same

abbrev pub uuid_template : Text
uuid_template = codes "xxxxxxxx-xxxx-4xxx-yxxx-xxxxxxxxxxxx"

-- `generateUuidV4` without `crypto.randomUUID`, of the digits `(Math.random() * 16) | 0`.
unfoldable pub generate_uuid_v4 : (ℕ → ℕ) → Text
unfolding fill_template
generate_uuid_v4 random = fill_template random 0 uuid_template
