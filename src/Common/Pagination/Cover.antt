-- ===== src/Common/Pagination/Cover.antt =====
-- That the pages of a list are the list.
use native.Mathlib.Nat.{lt-div-mul-add, zero-add, zero-mul}
use native.Mathlib.Numerals.{unary_clauses}
use enterprise_system.Prelude.{
  ℕ, zero, suc, ◌+◌, ◌*◌, ◌/◌, ◌≤◌, ◌<◌, ◌≡◌, List, [], ◌∷◌, ◌++◌, map, take, drop, length, refl,
  sym, ap, ◌∙◌, arith, Text, Except, ok, throw, Option, none, some, Bool, true, filter,
}
use enterprise_system.Common.Pagination.{
  pages, ceil_div, forward, skip_of, where_of, OffsetPagination, Delegate, FoundPage, counted,
  find_paginated,
}
use enterprise_system.Common.Pagination.Sorted.{
  sort, length-sort, times, times-sort, IsOrdered, IsTotal, Apart, sort-IsOrdered,
}

take-add : {A : Type 0} (m n : ℕ) (xs : List A) → take (m + n) xs ≡ take m xs ++ take n (drop m xs)
take-add zero n xs = rw (zero-add n) refl
take-add (suc m) zero [] = simp unary_clauses refl
take-add (suc m) (suc n) [] = simp unary_clauses refl
take-add (suc m) n (x ∷ xs) =
    let e : suc m + n ≡ suc (m + n) = omega arith in
    ap (λ k. take k (x ∷ xs)) e ∙ ap (λ t. x ∷ t) (take-add m n xs)

take_all : {A : Type 0} (n : ℕ) (xs : List A) → length xs ≤ n → take n xs ≡ xs
take_all zero [] h = refl
take_all zero (x ∷ xs) h = absurd (omega arith)
take_all (suc n) [] h = refl
take_all (suc n) (x ∷ xs) h = ap (λ t. x ∷ t) (take_all n xs (omega arith))

map-append : {A B : Type 0} (f : A → B) (xs ys : List A) → map f (xs ++ ys) ≡ map f xs ++ map f ys
map-append f [] ys = refl
map-append f (x ∷ xs) ys = ap (λ t. f x ∷ t) (map-append f xs ys)

pub ceil_div_lem : (n l : ℕ) → ceil_div n (suc l) ≡ pages ((n + l) / suc l)
unfolding ceil_div
ceil_div_lem zero l = refl
ceil_div_lem (suc n) l = refl

ceil_div-covers : (n l k : ℕ) → ceil_div n (suc l) ≡ pages k → n ≤ k * suc l
ceil_div-covers n l k h =
    let same : pages ((n + l) / suc l) ≡ pages k = sym (ceil_div_lem n l) ∙ h in
    let count : (n + l) / suc l ≡ k = cc in
    let b : n + l < (n + l) / suc l * suc l + suc l = lt-div-mul-add (omega arith) in
    let b' = rw count at b in omega arith

-- What Prisma documents of a table that is only read, for a query with neither `cursor` nor `distinct` in an order
-- that tells any two rows of the condition apart: a slice of these rows in that order. And the number of the rows of
-- a condition.
pub record Documented {Model Where Unique Order Data Db : Type 0}
    (delegate : Delegate Model Where Unique Order Data Db) : Type 0 where
  pub table : Db → List Model
  pub matches : Option Where → Model → Bool
  pub before : List Order → Model → Model → Bool
  pub total : (o : List Order) → IsTotal (before o)
  pub transitive :
      (o : List Order) (x y z : Model)
      → before o x y ≡ true
      → before o y z ≡ true
      → before o x z ≡ true
  pub find_many_slice :
      (c : Option Where) (o : List Order) (s n : ℕ) (db : Db)
      → Apart (before o) (filter (matches c) (table db))
      → delegate.find_many
          (some (record { condition = c; order_by = o; cursor = none; distinct = [] }))
          (forward s)
          n
          db
        ≡ (ok (take n (drop s (sort (before o) (filter (matches c) (table db))))), db)
  pub count_length :
      (c : Option Where) (db : Db)
      → delegate.count_rows c db ≡ (ok (length (filter (matches c) (table db))), db)

module _ {Model Where Unique Order Data Db Domain : Type 0}
    (delegate : Delegate Model Where Unique Order Data Db) (to_domain : Model → Domain)
    (by_id : Text → Unique) where
  abbrev pub items_of : Except Text (FoundPage Domain) → List Domain
  items_of (ok p) = p.items
  items_of (throw e) = []

  -- The query for a page.
  abbrev pub query : ℕ → ℕ → Option Where → List Order → Db → Except Text (FoundPage Domain) × Db
  query limit page c o db =
      find_paginated delegate to_domain by_id (record { page = page; limit = limit })
        (some (record { condition = c; order_by = o; cursor = none; distinct = [] })) db

  -- The items of the first pages of a size, one after the other.
  abbrev pub walk : ℕ → ℕ → Option Where → List Order → Db → List Domain
  walk limit zero c o db = []
  walk limit (suc k) c o db = walk limit k c o db ++ items_of (query limit (suc k) c o db).0

  module _ (laws : Documented delegate) where
    -- The rows of a condition in an order.
    abbrev rows : Option Where → List Order → Db → List Model
    rows c o db = sort (laws.before o) (filter (laws.matches c) (laws.table db))

    length-rows :
        (c : Option Where) (o : List Order) (db : Db)
        → length (filter (laws.matches c) (laws.table db)) ≡ length (rows c o db)
    length-rows c o db = sym (length-sort (laws.before o) (filter (laws.matches c) (laws.table db)))

    find_paginated_lem :
        (k limit : ℕ) (c : Option Where) (o : List Order) (db : Db)
        → Apart (laws.before o) (filter (laws.matches c) (laws.table db))
        → query limit (suc k) c o db ≡ (
          ok (record {
            items = map to_domain (take limit (drop (k * limit) (rows c o db)));
            total = length (rows c o db);
            page = suc k;
            limit = limit;
            total_pages = ceil_div (length (rows c o db)) limit;
          }),
          db,
        )
    unfolding find_paginated counted skip_of where_of
    find_paginated_lem k limit c o db t =
        let page : OffsetPagination = record { page = suc k; limit = limit } in
        ap
          (λ (r : Except Text (List Model) × Db).
            counted delegate to_domain by_id page r.0 (delegate.count_rows c r.1))
          (laws.find_many_slice c o (k * limit) limit db t)
        ∙ ap
            (λ r.
              counted delegate to_domain by_id page
                (ok (take limit (drop (k * limit) (rows c o db)))) r)
            (laws.count_length c db ∙ ap (λ n. (ok n, db)) (length-rows c o db))

    walk-take :
        (limit k : ℕ) (c : Option Where) (o : List Order) (db : Db)
        → Apart (laws.before o) (filter (laws.matches c) (laws.table db))
        → walk limit k c o db ≡ map to_domain (take (k * limit) (rows c o db))
    walk-take limit zero c o db t = rw (zero-mul limit) refl
    walk-take limit (suc k) c o db t =
        let page = take limit (drop (k * limit) (rows c o db)) in
        let next : suc k * limit ≡ k * limit + limit = omega arith in
        ap (λ r. walk limit k c o db ++ items_of r.0) (find_paginated_lem k limit c o db t)
        ∙ ap (λ xs. xs ++ map to_domain page) (walk-take limit k c o db t)
        ∙ sym (map-append to_domain (take (k * limit) (rows c o db)) page)
        ∙ ap (map to_domain) (sym (take-add (k * limit) limit (rows c o db)))
        ∙ ap (λ n. map to_domain (take n (rows c o db))) (sym next)

    -- For an order that tells any two rows of the condition apart, and neither cursor nor distinct, every page of a table that is
    -- only read gives the number of its pages, and the pages up to that number are the rows of the condition:
    -- in the order, and each row as often as the table has it.
    pub find_paginated-walk :
        (k l n : ℕ) (c : Option Where) (o : List Order) (db : Db)
        → Apart (laws.before o) (filter (laws.matches c) (laws.table db))
        → (p : FoundPage Domain) × (query (suc l) (suc k) c o db ≡ (ok p, db))
          × (p.total_pages ≡ pages n
              → (found : List Model) × (walk (suc l) n c o db ≡ map to_domain found)
                × IsOrdered (laws.before o) found
                × ((test : Model → Bool)
                    → times test found ≡ times test (filter (laws.matches c) (laws.table db))))
    find_paginated-walk k l n c o db t = (
      _,
      find_paginated_lem k (suc l) c o db t,
      λ e. (
        rows c o db,
        walk-take (suc l) n c o db t
            ∙ ap (map to_domain)
                (take_all (n * suc l) (rows c o db) (ceil_div-covers (length (rows c o db)) l n e)),
        sort-IsOrdered (laws.before o) (filter (laws.matches c) (laws.table db)) (laws.total o),
        λ test. times-sort test (laws.before o) (filter (laws.matches c) (laws.table db)),
      ),
    )
