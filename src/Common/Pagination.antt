-- ===== src/Common/Pagination.antt =====
-- Pagination: `normalizeOffsetPagination` and the metadata of a page (src/common/types/pagination.type.ts), the
-- result of a list (src/application/dto/pagination.dto.ts), and the query for a page of the base repository
-- (src/infrastructure/database/base.repository.ts).
pub mod Cover
pub mod Sorted
pub mod Bounds
use enterprise_system.Prelude.{
  ℕ, zero, suc, ◌+◌, ◌*◌, ◌/◌, ◌%◌, min, max, Bool, true, false, ◌||◌, Option, none, some, List, [],
  ◌∷◌, length, map, ltb, get_elem?, get_last, if◌then◌else◌, Text, Except, ok, throw,
}

pub record OffsetPagination : Type 0 where
  pub page : ℕ
  pub limit : ℕ

-- `value ?? d`
unfoldable pub or_default : ℕ → Option ℕ → ℕ
or_default d none = d
or_default d (some n) = n

abbrev pub max_limit : ℕ
max_limit = 100

-- `normalizeOffsetPagination` of numbers that are not negative.
unfoldable pub normalize_offset_pagination : Option ℕ → Option ℕ → OffsetPagination
unfolding or_default
normalize_offset_pagination page limit = record {
  page = max 1 (or_default 1 page);
  limit = min (max 1 (or_default 20 limit)) max_limit;
}

-- `Math.ceil(total / limit)`: a number, or what a division by 0 gives.
pub data Pages : Type 0 where
  pages : ℕ → Pages
  infinity not_a_number : Pages

unfoldable pub ceil_div : ℕ → ℕ → Pages
ceil_div zero zero = not_a_number
ceil_div (suc n) zero = infinity
ceil_div n (suc l) = pages ((n + l) / suc l)

-- `page < totalPages`
unfoldable pub is_before : ℕ → Pages → Bool
is_before page (pages n) = ltb page n
is_before page infinity = true
is_before page not_a_number = false

pub record OffsetPaginationMeta : Type 0 where
  pub page : ℕ
  pub limit : ℕ
  pub total_items : ℕ
  pub total_pages : Pages
  pub has_next : Bool
  pub has_previous : Bool

unfoldable pub build_offset_meta : ℕ → ℕ → ℕ → OffsetPaginationMeta
unfolding ceil_div is_before
build_offset_meta page limit total_items = record {
  page = page;
  limit = limit;
  total_items = total_items;
  total_pages = ceil_div total_items limit;
  has_next = is_before page (ceil_div total_items limit);
  has_previous = ltb 1 page;
}

pub record CursorPaginationMeta : Type 0 where
  pub start_cursor : Option Text
  pub end_cursor : Option Text
  pub has_next_page : Bool
  pub has_previous_page : Bool

-- `buildCursorMeta`, of the ids of the nodes.
unfoldable pub build_cursor_meta : List Text → ℕ → Bool → CursorPaginationMeta
unfolding get_last
build_cursor_meta ids first has_more = record {
  start_cursor = get_elem? ids 0;
  end_cursor = get_last ids;
  has_next_page = has_more;
  has_previous_page = false;
}

-- `PaginatedResult` of the application layer.
pub record PaginatedResult (T : Type 0) : Type 0 where
  pub items : List T
  pub total : ℕ
  pub limit : ℕ
  pub offset : ℕ
  pub next_cursor : Option Text

-- `this.nextCursor`, which counts if it is not empty.
unfoldable pub has_cursor : Option Text → Bool
has_cursor none = false
has_cursor (some []) = false
has_cursor (some (c ∷ s)) = true

module _ {T : Type 0} where
  unfoldable pub has_next_page : PaginatedResult T → Bool
  unfolding has_cursor
  has_next_page r = if has_cursor r.next_cursor then true else ltb (r.offset + r.limit) r.total

  unfoldable pub has_previous_page : PaginatedResult T → Bool
  has_previous_page r = ltb 0 r.offset

  unfoldable pub count : PaginatedResult T → ℕ
  count r = length r.items

-- `(page - 1) * limit`, which is negative for a page 0.
pub data Skip : Type 0 where
  forward backward : ℕ → Skip

unfoldable pub skip_of : OffsetPagination → Skip
skip_of p = elim p.page [ zero ↦ backward p.limit | suc n ↦ forward (n * p.limit) ]

-- `findManyArgs`, but for what the rows are to hold.
pub record FindManyArgs (Where Unique Order : Type 0) : Type 0 where
  pub condition : Option Where
  pub order_by : List Order
  pub cursor : Option Unique
  pub distinct : List Text

-- `findManyArgs?.where`
unfoldable pub where_of :
    {Where Unique Order : Type 0} → Option (FindManyArgs Where Unique Order) → Option Where
where_of none = none
where_of (some args) = args.condition

-- The table of a model: the calls of the delegate of Prisma that the base repository makes.
pub record Delegate (Model Where Unique Order Data Db : Type 0) : Type 0 where
  pub find_unique : Unique → Db → Except Text (Option Model) × Db
  pub find_many :
      Option (FindManyArgs Where Unique Order) → Skip → ℕ → Db → Except Text (List Model) × Db
  pub count_rows : Option Where → Db → Except Text ℕ × Db
  pub create_model : Data → Db → Except Text Model × Db
  pub update_model : Unique → Data → Db → Except Text Model × Db
  pub delete_model : Unique → Db → Except Text Model × Db

-- What `findPaginated` returns.
pub record FoundPage (Domain : Type 0) : Type 0 where
  pub items : List Domain
  pub total : ℕ
  pub page : ℕ
  pub limit : ℕ
  pub total_pages : Pages

-- A repository: how a model is read, and how an entity is written and named. Errors are logged and thrown again.
module _ {Model Where Unique Order Data Db Domain : Type 0}
    (delegate : Delegate Model Where Unique Order Data Db) (to_domain : Model → Domain)
    (by_id : Text → Unique) where
  abbrev mapped : {A B : Type 0} → (A → B) → Except Text A × Db → Except Text B × Db
  mapped f (ok a, db) = (ok (f a), db)
  mapped f (throw e, db) = (throw e, db)

  abbrev option_map : Option Model → Option Domain
  option_map none = none
  option_map (some m) = some (to_domain m)

  unfoldable pub find_by_id : Text → Db → Except Text (Option Domain) × Db
  find_by_id id db = mapped option_map (delegate.find_unique (by_id id) db)

  -- The rows and their number: the two queries start together, here in the order in which they are written.
  unfoldable pub counted :
      OffsetPagination
      → Except Text (List Model)
      → Except Text ℕ × Db
      → Except Text (FoundPage Domain) × Db
  unfolding ceil_div
  counted p (throw e) (n, db) = (throw e, db)
  counted p (ok rows) (throw e, db) = (throw e, db)
  counted p (ok rows) (ok total, db) = (
    ok (record {
      items = map to_domain rows;
      total = total;
      page = p.page;
      limit = p.limit;
      total_pages = ceil_div total p.limit;
    }),
    db,
  )

  unfoldable pub find_paginated :
      OffsetPagination
      → Option (FindManyArgs Where Unique Order)
      → Db
      → Except Text (FoundPage Domain) × Db
  unfolding counted skip_of where_of
  find_paginated p args db =
      let (rows, db') = delegate.find_many args (skip_of p) p.limit db in
      counted p rows (delegate.count_rows (where_of args) db')

  unfoldable pub create : (Domain → Data) → Domain → Db → Except Text Domain × Db
  create to_create_input entity db =
      mapped to_domain (delegate.create_model (to_create_input entity) db)

  unfoldable pub update : (Domain → Data) → (Domain → Text) → Domain → Db → Except Text Domain × Db
  update to_update_input id_of entity db =
      mapped to_domain (delegate.update_model (by_id (id_of entity)) (to_update_input entity) db)

  unfoldable pub delete : Text → Db → Except Text (Unit {0}) × Db
  delete id db = mapped (λ m. tt) (delegate.delete_model (by_id id) db)
