-- ===== src/Common/Pagination/Bounds.antt =====
-- The bounds of a page, and that the two descriptions of a page agree on what follows it.
use native.Mathlib.Nat.{le-div_iff_mul-le, zero-mul}
use enterprise_system.Prelude.{
  ℕ, zero, suc, ◌+◌, ◌*◌, ◌/◌, ◌≤◌, ◌≡◌, Option, none, some, List, min, max, ltb, ltb→lt, lt→ltb,
  Bool-cases, inl, inr, arith, refl, sym, ◌∙◌, ap,
}
use enterprise_system.Common.Pagination.{
  or_default, normalize_offset_pagination, build_offset_meta, is_before, PaginatedResult,
  has_next_page, has_previous_page, has_cursor,
}
use enterprise_system.Common.Pagination.Cover.{ceil_div_lem}

-- Whatever is asked for, the page is at least 1 and has 1 to 100 items, and normalizing it again changes nothing.
pub normalize_offset_pagination-le :
    (page limit : Option ℕ)
    → let p = normalize_offset_pagination page limit in
      (1 ≤ p.page)
      × (1 ≤ p.limit)
      × (p.limit ≤ 100)
      × (normalize_offset_pagination (some p.page) (some p.limit) ≡ p)
unfolding normalize_offset_pagination or_default
normalize_offset_pagination-le page limit =
    let a = or_default 1 page in
    let b = or_default 20 limit in
    let again : max 1 (max 1 a) ≡ max 1 a = omega arith in
    let bounded : min (max 1 (min (max 1 b) 100)) 100 ≡ min (max 1 b) 100 = omega arith in
    (omega arith, omega arith, omega arith, cc (again, bounded))

before-product : (p l total : ℕ) → ltb (suc p) ((total + l) / suc l) ≡ ltb (p * suc l + suc l) total
before-product p l total =
    let (f, g) = le-div_iff_mul-le {k = suc l} {x = suc (suc p)} {y = total + l} (omega arith) in
    let product : suc (suc p) * suc l ≡ p * suc l + suc l + suc l = omega arith in
    elim (Bool-cases (ltb (p * suc l + suc l) total)) [
      | inl e ↦ rw e (
          let b = g (omega (arith, ltb→lt (p * suc l + suc l) total e)) in
          lt→ltb (suc p) ((total + l) / suc l) b)
      | inr e ↦ rw e (elim (Bool-cases (ltb (suc p) ((total + l) / suc l))) [
        | inl h ↦ absurd (let b = f (ltb→lt (suc p) ((total + l) / suc l) h) in ground arith)
        | inr h ↦ h
      ])
    ]

previous-product : (p l : ℕ) → ltb 1 (suc p) ≡ ltb 0 (p * suc l)
previous-product zero l = rw (zero-mul (suc l)) refl
previous-product (suc p) l =
    lt→ltb 1 (suc (suc p)) (omega arith) ∙ sym (lt→ltb 0 (suc p * suc l) (omega arith))

-- The metadata of a page and the result of a list with its offset agree on whether a page comes after it and
-- before it.
pub build_offset_meta-has_next_page :
    {T : Type 0} (p l total : ℕ) (items : List T)
    → let r : PaginatedResult T = record {
      items = items;
      total = total;
      limit = suc l;
      offset = p * suc l;
      next_cursor = none;
    } in
      ((build_offset_meta (suc p) (suc l) total).has_next ≡ has_next_page r)
      × ((build_offset_meta (suc p) (suc l) total).has_previous ≡ has_previous_page r)
unfolding build_offset_meta has_next_page has_previous_page has_cursor is_before
build_offset_meta-has_next_page p l total items =
    (ap (is_before (suc p)) (ceil_div_lem total l) ∙ before-product p l total, previous-product p l)
