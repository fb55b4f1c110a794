-- ===== src/Regex/Decides.antt =====
-- `test` decides the language of an expression.
use enterprise_system.Prelude.{
  ℕ, Bool, true, [], ◌∷◌, ◌++◌, ◌≡◌, ◌↔◌, ◌⊎◌, inl, inr, ap, refl, sym, ◌∙◌, Text, arith,
  Bool-cases,
}
use enterprise_system.Regex.{
  Regex, nothing, empty, one, seq, alt, star, nullable, after, test, Matches, done, unit_of, both,
  left, right, stop, more,
}

-- Which side of a join a leading code unit stands in.
append-eq-nil : (a b : Text) → a ++ b ≡ [] → (a ≡ []) × (b ≡ [])
append-eq-nil [] b e = (refl, e)
append-eq-nil (x ∷ a) b e = (cc, cc)

append-eq-cons :
    (a b : Text) {c : ℕ} {s : Text}
    → a ++ b ≡ c ∷ s
    → ((a ≡ []) × (b ≡ c ∷ s)) ⊎ ((d : Text) × (a ≡ c ∷ d) × (s ≡ d ++ b))
append-eq-cons [] b e = inl (refl, e)
append-eq-cons (x ∷ a) b e = inr (a, cc, cc)

module _ {q r : Regex} {u : Text} where
  pub seq-inv :
      Matches (seq q r) u → (s : Text) × (t : Text) × (u ≡ s ++ t) × Matches q s × Matches r t
  seq-inv (both {s = s} {t = t} e m n) = (s, t, e, m, n)

  pub alt-inv : Matches (alt q r) u → Matches q u ⊎ Matches r u
  alt-inv (left m) = inl m
  alt-inv (right m) = inr m

pub nothing-inv : {u : Text} → Matches nothing u → ⊥
nothing-inv m = elim m [ ]

pub empty-inv : {u : Text} → Matches empty u → u ≡ []
empty-inv done = refl

pub one-inv : {p : ℕ → Bool} {u : Text} → Matches (one p) u → (c : ℕ) × (u ≡ c ∷ []) × (p c ≡ true)
one-inv (unit_of {c = c} h) = (c, refl, h)

nullable_sound : (r : Regex) → nullable r ≡ true → Matches r []
unfolding nullable
nullable_sound nothing h = cc
nullable_sound empty h = done
nullable_sound (one p) h = cc
nullable_sound (seq q r) h =
    both refl (nullable_sound q (ground arith)) (nullable_sound r (ground arith))
nullable_sound (alt q r) h = elim (Bool-cases (nullable q)) [
  | inl e ↦ left (nullable_sound q e)
  | inr e ↦ right (nullable_sound r (ground arith))
]
nullable_sound (star r) h = stop

nullable_complete : (r : Regex) {u : Text} → Matches r u → u ≡ [] → nullable r ≡ true
unfolding nullable
nullable_complete _ done e = refl
nullable_complete _ (unit_of h) e = cc
nullable_complete (seq q r) (both {s = s} {t = t} p m n) e =
    let (ea, eb) = append-eq-nil s t (sym p ∙ e) in
    ground (arith, nullable_complete q m ea, nullable_complete r n eb)
nullable_complete (alt q r) (left m) e = ground (arith, nullable_complete q m e)
nullable_complete (alt q r) (right m) e = ground (arith, nullable_complete r m e)
nullable_complete _ stop e = refl
nullable_complete _ (more p m n) e = refl

-- One code unit goes to the left part, or to the right one where the left matches nothing.
seq_after_sound :
    (c : ℕ) (q r : Regex) (s : Text)
    → ((t : Text) → Matches (after c q) t → Matches q (c ∷ t))
    → (Matches (after c r) s → Matches r (c ∷ s))
    → Matches (after c (seq q r)) s
    → Matches (seq q r) (c ∷ s)
unfolding after
seq_after_sound c q r s hq hr m = elim (Bool-cases (nullable q)) [
  | inl e ↦ elim (alt-inv (rw e at m)) [
    | inl n ↦ here n
    | inr n ↦ both refl (nullable_sound q e) (hr n)
  ]
  | inr e ↦ here (rw e at m)
]
  where
    here : Matches (seq (after c q) r) s → Matches (seq q r) (c ∷ s)
    here n = let (a, b, e, n, k) = seq-inv n in both (ap (λ x. c ∷ x) e) (hq a n) k

after_sound : (c : ℕ) (r : Regex) (s : Text) → Matches (after c r) s → Matches r (c ∷ s)
unfolding after
after_sound c nothing s m = absurd (nothing-inv m)
after_sound c empty s m = absurd (nothing-inv m)
after_sound c (one p) s m = elim (Bool-cases (p c)) [
  | inl e ↦ rw (empty-inv (rw e at m)) (unit_of e)
  | inr e ↦ absurd (nothing-inv (rw e at m))
]
after_sound c (seq q r) s m = seq_after_sound c q r s (after_sound c q) (after_sound c r s) m
after_sound c (alt q r) s m = elim (alt-inv m) [
  | inl n ↦ left (after_sound c q s n)
  | inr n ↦ right (after_sound c r s n)
]
after_sound c (star r) s m =
    let (a, b, e, n, k) = seq-inv m in more (ap (λ x. c ∷ x) e) (after_sound c r a n) k

module _ (c : ℕ) (q r : Regex) (s : Text) where
  seq_here : Matches (seq (after c q) r) s → Matches (after c (seq q r)) s
  unfolding after
  seq_here m = elim (Bool-cases (nullable q)) [ inl e ↦ rw e (left m) | inr e ↦ rw e m ]

  seq_skip : nullable q ≡ true → Matches (after c r) s → Matches (after c (seq q r)) s
  unfolding after
  seq_skip e m = rw e (right m)

after_complete :
    (c : ℕ) (r : Regex) (s : Text) {u : Text} → Matches r u → u ≡ c ∷ s → Matches (after c r) s
unfolding after
after_complete c _ s done e = cc
after_complete c _ s (unit_of {p = p} {c = d} h) e =
    let same : d ≡ c = cc in let rest : [] ≡ s = cc in rw (← rest) (rw (← same) (rw h done))
after_complete c (seq q r) s (both {s = a} {t = b} p m n) e =
    elim (append-eq-cons a b (sym p ∙ e)) [
      | inl (ea, eb) ↦ seq_skip c q r s (nullable_complete q m ea) (after_complete c r s n eb)
      | inr (d, ea, es) ↦ seq_here c q r s (both es (after_complete c q d m ea) n)
    ]
after_complete c (alt q r) s (left m) e = left (after_complete c q s m e)
after_complete c (alt q r) s (right m) e = right (after_complete c r s m e)
after_complete c _ s stop e = cc
after_complete c (star r) s (more {s = a} {t = b} p m n) e = elim (append-eq-cons a b (sym p ∙ e)) [
  | inl (ea, eb) ↦ after_complete c (star r) s n eb
  | inr (d, ea, es) ↦ both es (after_complete c r d m ea) n
]

test_sound : (r : Regex) (s : Text) → test r s ≡ true → Matches r s
unfolding test
test_sound r [] h = nullable_sound r h
test_sound r (c ∷ s) h = after_sound c r s (test_sound (after c r) s h)

test_complete : (r : Regex) (s : Text) → Matches r s → test r s ≡ true
unfolding test
test_complete r [] m = nullable_complete r m refl
test_complete r (c ∷ s) m = test_complete (after c r) s (after_complete c r (s) m refl)

-- The test of an anchored expression accepts exactly the texts of its language.
pub test_iff : (r : Regex) (s : Text) → (test r s ≡ true) ↔ Matches r s
test_iff r s = (test_sound r s, test_complete r s)
