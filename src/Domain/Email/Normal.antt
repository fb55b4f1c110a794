-- ===== src/Domain/Email/Normal.antt =====
-- What an accepted email address looks like: it is normal, and it splits at its one at sign.
use enterprise_system.Prelude.{
  ℕ, ◌≤◌, Bool, true, false, ◌≡◌, ◌≢◌, [], ◌∷◌, ◌++◌, some, refl, ◌==◌, Text, arith, All, trim-id,
  IsSolid, is_space, ltb, length, trim, ok, ◌∙◌, sym, ap,
}
use mathlib.Core.List.{append_assoc}
use mathlib.Core.Path.{ap₂}
use enterprise_system.Regex.{one, plus, Matches}
use enterprise_system.Regex.Decides.{test_iff, seq-inv, one-inv}
use enterprise_system.Regex.Classes.{Only, Only-up_to, Matches-All}
use enterprise_system.Domain.Email.Grammar.{
  is_alnum, is_local, is_inner, label, domain, email_regex, is_email,
}
use enterprise_system.Domain.Email.{
  Email, max_length, lower, to_lower_case, create, split_at, local_part, domain_part,
}

-- The lower case of a lower case is itself.
lower_twice : (c : ℕ) → to_lower_case (lower c) ≡ lower c
unfolding to_lower_case
lower_twice c = ground arith

to_lower_case-append : (s t : Text) → to_lower_case (s ++ t) ≡ to_lower_case s ++ to_lower_case t
unfolding to_lower_case
to_lower_case-append [] t = refl
to_lower_case-append (c ∷ s) t =
    rw (to_lower_case-append s t) (rw (append_assoc (lower c) (to_lower_case s) (to_lower_case t)))

pub to_lower_case_idem : (s : Text) → to_lower_case (to_lower_case s) ≡ to_lower_case s
unfolding to_lower_case
to_lower_case_idem [] = refl
to_lower_case_idem (c ∷ s) =
    to_lower_case-append (lower c) (to_lower_case s)
    ∙ ap₂ (λ (x y : Text). x ++ y) (lower_twice c) (to_lower_case_idem s)

-- The code units of an address: printing ASCII.
abbrev IsPrinting : ℕ → Type 0
IsPrinting c = (33 ≤ c) × (c ≤ 126)

alnum-IsPrinting : (c : ℕ) → is_alnum c ≡ true → IsPrinting c × ((c == b'@') ≡ false)
unfolding is_alnum
alnum-IsPrinting c h = ground arith

inner-IsPrinting : (c : ℕ) → is_inner c ≡ true → IsPrinting c × ((c == b'@') ≡ false)
unfolding is_inner
inner-IsPrinting c h = ground arith

local-IsPrinting : (c : ℕ) → is_local c ≡ true → IsPrinting c × ((c == b'@') ≡ false)
unfolding is_local
local-IsPrinting c h = ground arith

printing-IsSolid : (c : ℕ) → IsPrinting c → IsSolid c
unfolding is_space
printing-IsSolid c h = ground arith

module _ (P : ℕ → Type 0) (alnum : (c : ℕ) → is_alnum c ≡ true → P c)
    (inner : (c : ℕ) → is_inner c ≡ true → P c) where
  label-Only : Only P label
  unfolding label
  label-Only = (alnum, (tt, (Only-up_to P 61 (one is_inner) inner, alnum)))

  domain-Only : ((c : ℕ) → (c == b'.') ≡ true → P c) → Only P domain
  unfolding domain
  domain-Only dot = (label-Only, (dot, label-Only))

  email-Only :
      ((c : ℕ) → is_local c ≡ true → P c)
      → ((c : ℕ) → (c == b'@') ≡ true → P c)
      → ((c : ℕ) → (c == b'.') ≡ true → P c)
      → Only P email_regex
  unfolding email_regex
  email-Only loc at dot = ((loc, loc), (at, domain-Only dot))

-- An address has no white space.
email-IsSolid : (s : Text) → is_email s ≡ true → All IsSolid s
unfolding is_email
email-IsSolid s h =
    Matches-All IsSolid email_regex
      (email-Only IsSolid (λ c e. printing-IsSolid c (alnum-IsPrinting c e).0)
        (λ c e. printing-IsSolid c (inner-IsPrinting c e).0)
        (λ c e. printing-IsSolid c (local-IsPrinting c e).0)
        (λ c e. printing-IsSolid c (ground arith)) (λ c e. printing-IsSolid c (ground arith)))
      ((test_iff email_regex s).0 h)

abbrev IsFree : ℕ → Type 0
IsFree c = (c == b'@') ≡ false

-- A text without an at sign is one piece, and one at sign makes two.
split_at-free : (s : Text) → All IsFree s → split_at s ≡ s ∷ []
unfolding split_at
split_at-free [] h = refl
split_at-free (c ∷ s) (p, h) = rw (split_at-free s h) (rw p)

split_at-two : (s t : Text) → All IsFree s → All IsFree t → split_at (s ++ b'@' ∷ t) ≡ s ∷ t ∷ []
unfolding split_at
split_at-two [] t h k = rw (split_at-free t k)
split_at-two (c ∷ s) t (p, h) k = rw (split_at-two s t h k) (rw p)

-- The parts of an address, on the two sides of its one at sign.
pub record Splits (s l d : Text) : Type 0 where
  pub join : s ≡ l ++ b'@' ∷ d
  pub not_empty : l ≢ []
  pub local_free : All IsFree l
  pub domain_free : All IsFree d

plus-ne-nil : {p : ℕ → Bool} {s : Text} → Matches (plus (one p)) s → s ≢ []
plus-ne-nil m e = let (a, b, es, n, k) = seq-inv m in let (c, ea, h) = one-inv n in cc (rw ea at es)

at_sign : (c : ℕ) → (c == b'@') ≡ true → c ≡ b'@'
at_sign c h = ground arith

email-Splits : (s : Text) → is_email s ≡ true → (l : Text) × (d : Text) × Splits s l d
unfolding is_email email_regex
email-Splits s h =
    let (l, rest, es, ml, mr) = seq-inv ((test_iff email_regex s).0 h) in
    let (a, d, er, ma, md) = seq-inv mr in
    let (c, ea, hc) = one-inv ma in
    (
      l,
      d,
      record {
        join =
            es
            ∙ ap (λ x. l ++ x) (er ∙ ap (λ x. x ++ d) (ea ∙ ap (λ (x : ℕ). x ∷ []) (at_sign c hc)));
        not_empty = plus-ne-nil ml;
        local_free =
            Matches-All IsFree (plus (one is_local))
              ((λ c e. (local-IsPrinting c e).1), (λ c e. (local-IsPrinting c e).1)) ml;
        domain_free =
            Matches-All IsFree domain
              (domain-Only IsFree (λ c e. (alnum-IsPrinting c e).1)
                (λ c e. (inner-IsPrinting c e).1) (λ c e. ground arith))
              md;
      },
    )

-- What `create` has checked.
record IsNormal (s : Text) : Type 0 where
  fits : ltb max_length (length s) ≡ false
  grammar : is_email s ≡ true
  lowered : to_lower_case s ≡ s

create-IsNormal : (raw : Text) (e : Email) → create raw ≡ ok e → IsNormal e.value
unfolding create
create-IsNormal [] e h = cc
create-IsNormal (c ∷ raw) e h =
    let s = to_lower_case (trim (c ∷ raw)) in
    let same : s ≡ e.value = ground arith in
    record {
      fits = rw (← same) (ground arith);
      grammar = rw (← same) (ground arith);
      lowered = rw (← same) (to_lower_case_idem (trim (c ∷ raw)));
    }

-- The value of an address that was accepted.
pub create-value : (raw : Text) (e : Email) → create raw ≡ ok e → e.value ≡ to_lower_case (trim raw)
unfolding create
create-value [] e h = cc
create-value (c ∷ raw) e h = ground arith

create_normal : (s : Text) → s ≢ [] → IsNormal s → create s ≡ ok (record { value = s })
unfolding create
create_normal [] n h = absurd (n refl)
create_normal (c ∷ s) n h =
    rw (trim-id (c ∷ s) (email-IsSolid (c ∷ s) h.grammar)) (rw h.lowered (ground arith))

append-ne-nil : (l : Text) (c : ℕ) (d : Text) → l ++ c ∷ d ≢ []
append-ne-nil [] c d = cc
append-ne-nil (x ∷ l) c d = cc

normal-ne-nil : (s : Text) → is_email s ≡ true → s ≢ []
normal-ne-nil s h e = let (l, d, p) = email-Splits s h in append-ne-nil l b'@' d (sym p.join ∙ e)

-- The normal form of an accepted address is accepted again, and is its own normal form.
pub create-create : (raw : Text) (e : Email) → create raw ≡ ok e → create e.value ≡ ok e
create-create raw e h =
    let n = create-IsNormal raw e h in create_normal e.value (normal-ne-nil e.value n.grammar) n

-- An accepted address is its local part, an at sign and its domain, and neither part holds an at
-- sign; the local part is not empty. The two getters return these parts.
pub parts-create :
    (raw : Text) (e : Email)
    → create raw ≡ ok e
    → (l : Text) × (d : Text) × (local_part e ≡ some l)
      × (domain_part e ≡ some d)
      × Splits e.value l d
unfolding local_part domain_part
parts-create raw e h =
    let (l, d, p) = email-Splits e.value (create-IsNormal raw e h).grammar in
    let pieces : split_at e.value ≡ l ∷ d ∷ [] =
      ap split_at p.join ∙ split_at-two l d p.local_free p.domain_free in
    (l, d, rw pieces, rw pieces, p)
