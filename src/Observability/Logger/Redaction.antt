-- ===== src/Observability/Logger/Redaction.antt =====
-- That what is logged holds no secret.
use enterprise_system.Prelude.{
  ◌≡◌, true, false, refl, ap, Text, Bool-cases, inl, inr, arith, text_eq, text_eq_iff,
}
use enterprise_system.Observability.Logger.{
  Value, Items, Fields, nothing, primitive, array, object, nil, cons, end, field, is_sensitive,
  redacted, redact, redact_items, redact_fields, put, spread,
}

-- At no depth does a key of a secret hold anything but the mark.
unfoldable mutual
  pub Clean : Value → Type 0
  Clean nothing = Unit
  Clean (primitive p) = Unit
  Clean (array items) = CleanItems items
  Clean (object fields) = CleanFields fields

  pub CleanItems : Items → Type 0
  CleanItems nil = Unit
  CleanItems (cons v items) = Clean v × CleanItems items

  pub CleanFields : Fields → Type 0
  CleanFields end = Unit
  CleanFields (field key v fields) =
      (is_sensitive key ≡ true → v ≡ redacted) × Clean v × CleanFields fields

-- Two values that differ under the keys of secrets alone.
unfoldable mutual
  pub Alike : Value → Value → Type 0
  Alike nothing nothing = Unit
  Alike (primitive p) (primitive q) = p ≡ q
  Alike (array items) (array others) = AlikeItems items others
  Alike (object fields) (object others) = AlikeFields fields others
  Alike _ _ = ⊥

  pub AlikeItems : Items → Items → Type 0
  AlikeItems nil nil = Unit
  AlikeItems (cons v items) (cons w others) = Alike v w × AlikeItems items others
  AlikeItems _ _ = ⊥

  pub AlikeFields : Fields → Fields → Type 0
  AlikeFields end end = Unit
  AlikeFields (field k v fields) (field j w others) =
      (k ≡ j) × (is_sensitive k ≡ false → Alike v w) × AlikeFields fields others
  AlikeFields _ _ = ⊥

mutual
  unfolding redact Clean

  redacted-Clean : (v : Value) → Clean (redact v)
  redacted-Clean nothing = tt
  redacted-Clean (primitive p) = tt
  redacted-Clean (array items) = redacted_items-Clean items
  redacted-Clean (object fields) = redacted_fields-Clean fields

  redacted_items-Clean : (items : Items) → CleanItems (redact_items items)
  redacted_items-Clean nil = tt
  redacted_items-Clean (cons v items) = (redacted-Clean v, redacted_items-Clean items)

  pub redacted_fields-Clean : (fields : Fields) → CleanFields (redact_fields fields)
  redacted_fields-Clean end = tt
  redacted_fields-Clean (field key v fields) = elim (Bool-cases (is_sensitive key)) [
    | inl e ↦ rw e (λ h. refl, tt, redacted_fields-Clean fields)
    | inr e ↦ rw e (λ h. absurd (ground arith), redacted-Clean v, redacted_fields-Clean fields)
  ]

mutual
  unfolding redact Alike

  redacted-Alike : (v w : Value) → Alike v w → redact v ≡ redact w
  redacted-Alike nothing nothing h = refl
  redacted-Alike nothing (primitive q) h = absurd h
  redacted-Alike nothing (array others) h = absurd h
  redacted-Alike nothing (object others) h = absurd h
  redacted-Alike (primitive p) nothing h = absurd h
  redacted-Alike (primitive p) (primitive q) h = ap primitive h
  redacted-Alike (primitive p) (array others) h = absurd h
  redacted-Alike (primitive p) (object others) h = absurd h
  redacted-Alike (array items) nothing h = absurd h
  redacted-Alike (array items) (primitive q) h = absurd h
  redacted-Alike (array items) (array others) h = ap array (redacted_items-Alike items others h)
  redacted-Alike (array items) (object others) h = absurd h
  redacted-Alike (object fields) nothing h = absurd h
  redacted-Alike (object fields) (primitive q) h = absurd h
  redacted-Alike (object fields) (array others) h = absurd h
  redacted-Alike (object fields) (object others) h =
      ap object (redacted_fields-Alike fields others h)

  redacted_items-Alike : (v w : Items) → AlikeItems v w → redact_items v ≡ redact_items w
  redacted_items-Alike nil nil h = refl
  redacted_items-Alike nil (cons w others) h = absurd h
  redacted_items-Alike (cons v items) nil h = absurd h
  redacted_items-Alike (cons v items) (cons w others) (h, k) =
      cc (redacted-Alike v w h, redacted_items-Alike items others k)

  redacted_fields-Alike : (v w : Fields) → AlikeFields v w → redact_fields v ≡ redact_fields w
  redacted_fields-Alike end end h = refl
  redacted_fields-Alike end (field j w others) h = absurd h
  redacted_fields-Alike (field k v fields) end h = absurd h
  redacted_fields-Alike (field k v fields) (field j w others) (e, h, r) =
      let rest = redacted_fields-Alike fields others r in
      elim (Bool-cases (is_sensitive k)) [
        | inl f ↦ rw (← e) (rw f (ap (λ t. field k redacted t) rest))
        | inr f ↦ rw (← e) (rw f (cc (redacted-Alike v w (h f), rest)))
      ]

mutual
  unfolding redact Clean

  Clean-redact : (v : Value) → Clean v → redact v ≡ v
  Clean-redact nothing h = refl
  Clean-redact (primitive p) h = refl
  Clean-redact (array items) h = ap array (CleanItems-redact items h)
  Clean-redact (object fields) h = ap object (CleanFields-redact fields h)

  CleanItems-redact : (items : Items) → CleanItems items → redact_items items ≡ items
  CleanItems-redact nil h = refl
  CleanItems-redact (cons v items) (h, k) = cc (Clean-redact v h, CleanItems-redact items k)

  CleanFields-redact : (fields : Fields) → CleanFields fields → redact_fields fields ≡ fields
  CleanFields-redact end h = refl
  CleanFields-redact (field k v fields) (s, h, r) =
      let rest = CleanFields-redact fields r in
      elim (Bool-cases (is_sensitive k)) [
        | inl e ↦ rw e (let mark = s e in cc (mark, rest))
        | inr e ↦ rw e (cc (Clean-redact v h, rest))
      ]

-- Values that differ under the keys of secrets alone, at any depth, are redacted to one value.
pub redact-Alike : (v w : Value) → Alike v w → redact v ≡ redact w
redact-Alike v w h = redacted-Alike v w h

-- What is redacted holds the mark alone under every key of a secret, at any depth, and is not changed by being
-- redacted again, as no such value is.
pub redact-Clean : (v : Value) → Clean (redact v) × (redact (redact v) ≡ redact v)
redact-Clean v = (redacted-Clean v, Clean-redact (redact v) (redacted-Clean v))

put-Clean :
    (k : Text) (v : Value) (fields : Fields)
    → (is_sensitive k ≡ true → v ≡ redacted)
    → Clean v
    → CleanFields fields
    → CleanFields (put k v fields)
unfolding put Clean
put-Clean k v end s c h = (s, c, tt)
put-Clean k v (field j w fields) s c (t, d, h) =
    let rest = put-Clean k v fields s c h in
    elim (Bool-cases (text_eq j k)) [
      | inl e ↦ rw e (rw ((text_eq_iff j k).0 e) s, c, h)
      | inr e ↦ rw e (t, d, rest)
    ]

pub spread-Clean : (a b : Fields) → CleanFields a → CleanFields b → CleanFields (spread a b)
unfolding spread Clean
spread-Clean a end h k = h
spread-Clean a (field key v fields) h (s, c, k) =
    spread-Clean (put key v a) fields (put-Clean key v a s c h) k
