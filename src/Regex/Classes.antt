-- ===== src/Regex/Classes.antt =====
-- What the classes of an expression say of the texts that it matches.
use enterprise_system.Prelude.{ℕ, zero, suc, true, ◌≡◌, Text, All, All-append}
use enterprise_system.Regex.{
  Regex, nothing, empty, one, seq, alt, star, up_to, times, Matches, done, unit_of, both, left,
  right, stop, more,
}

module _ (P : ℕ → Type 0) where
  -- Every class of the expression has only code units with `P`.
  abbrev pub Only : Regex → Type 0
  Only nothing = Unit
  Only empty = Unit
  Only (one p) = (c : ℕ) → p c ≡ true → P c
  Only (seq q r) = Only q × Only r
  Only (alt q r) = Only q × Only r
  Only (star r) = Only r

  pub Only-up_to : (n : ℕ) (r : Regex) → Only r → Only (up_to n r)
  unfolding up_to
  Only-up_to zero r h = tt
  Only-up_to (suc n) r h = (tt, (h, Only-up_to n r h))

  pub Only-times : (n : ℕ) (r : Regex) → Only r → Only (times n r)
  unfolding times
  Only-times zero r h = tt
  Only-times (suc n) r h = (h, Only-times n r h)

  pub Matches-All : (r : Regex) {s : Text} → Only r → Matches r s → All P s
  Matches-All _ h done = tt
  Matches-All _ h (unit_of {c = c} e) = (h c e, tt)
  Matches-All (seq q r) h (both {s = s} {t = t} e m n) =
      rw e (All-append P s t (Matches-All q h.0 m) (Matches-All r h.1 n))
  Matches-All (alt q r) h (left m) = Matches-All q h.0 m
  Matches-All (alt q r) h (right m) = Matches-All r h.1 m
  Matches-All _ h stop = tt
  Matches-All (star r) h (more {s = s} {t = t} e m n) =
      rw e (All-append P s t (Matches-All r h m) (Matches-All (star r) h n))
