-- ===== src/Tests/Pages.antt =====
-- Pages of a concrete table, and the audit of a concrete method.
use enterprise_system.Prelude.{
  ℕ, ◌≡◌, ◌++◌, true, false, Bool, Option, ltb, leb, ◌==◌, if◌then◌else◌, filter, arith, none, some,
  List, [], ◌∷◌, length, take, drop, map, refl, ◌+◌, Text, codes, Except, ok, throw,
}
use enterprise_system.Common.Pagination.{
  build_offset_meta, FindManyArgs, Delegate, FoundPage, Skip, forward, backward, find_paginated,
  pages,
}
use enterprise_system.Common.Pagination.Cover.{Documented, query, walk, find_paginated-walk}
use enterprise_system.Common.Pagination.Sorted.{sort, times, IsOrdered, IsTotal, Apart}
use enterprise_system.Presentation.Envelope.{Request, page, wrap, transform}
use enterprise_system.Presentation.Envelope.Twice.{
  as_page_meta, pagination_of, transform-build_offset_meta,
}
use enterprise_system.Observability.Logger.{Value, object, field, end, primitive}
use enterprise_system.Application.Audit.{
  AuditMetadata, AuditEntry, Returned, failed, sanitize_payload, audited,
}
use enterprise_system.Application.Audit.Entries.{
  has_returned, Accounted, kept_payload, audited_lem, audited-written,
}

-- A table of numbers that is only read. A condition is a bound, and an order says whether it is the falling one.
abbrev slice : Skip → ℕ → List ℕ → Except Text (List ℕ)
slice (forward s) n rows = ok (take n (drop s rows))
slice (backward s) n rows = throw (codes "Invalid skip")

abbrev is_below : Option ℕ → ℕ → Bool
is_below none n = true
is_below (some bound) n = ltb n bound

abbrev comes_before : List Bool → ℕ → ℕ → Bool
comes_before (true ∷ o) m n = leb n m
comes_before _ m n = leb m n

abbrev selected : Option (FindManyArgs ℕ Text Bool) → List ℕ → List ℕ
selected none rows = rows
selected (some args) rows =
    sort (comes_before args.order_by) (filter (is_below args.condition) rows)

abbrev table : Delegate ℕ ℕ Text Bool ℕ (List ℕ)
table = record {
  find_unique = λ id rows. (ok none, rows);
  find_many = λ args s n rows. (slice s n (selected args rows), rows);
  count_rows = λ c rows. (ok (length (filter (is_below c) rows)), rows);
  create_model = λ x rows. (ok x, x ∷ rows);
  update_model = λ id x rows. (throw (codes "Record to update not found"), rows);
  delete_model = λ id rows. (throw (codes "Record to delete does not exist"), rows);
}

comes_before-IsTotal : (o : List Bool) → IsTotal (comes_before o)
comes_before-IsTotal [] m n h = ground arith
comes_before-IsTotal (true ∷ o) m n h = ground arith
comes_before-IsTotal (false ∷ o) m n h = ground arith

comes_before_trans :
    (o : List Bool) (k m n : ℕ)
    → comes_before o k m ≡ true
    → comes_before o m n ≡ true
    → comes_before o k n ≡ true
comes_before_trans [] k m n h h' = ground arith
comes_before_trans (true ∷ o) k m n h h' = ground arith
comes_before_trans (false ∷ o) k m n h h' = ground arith

table-Documented : Documented table
table-Documented = record {
  table = λ rows. rows;
  matches = is_below;
  before = comes_before;
  total = comes_before-IsTotal;
  transitive = comes_before_trans;
  find_many_slice = λ c o s n rows t. refl;
  count_length = λ c rows. refl;
}

abbrev plain_id : Text → Text
plain_id id = id

abbrev keep : ℕ → ℕ
keep n = n

abbrev numbers : List ℕ
numbers = 3 ∷ 1 ∷ 9 ∷ 5 ∷ 4 ∷ 2 ∷ []

numbers-Apart : Apart (comes_before (true ∷ [])) (filter (is_below (some 9)) numbers)
unfolding filter
numbers-Apart = (
  (refl, (refl, (refl, (refl, tt)))),
  ((refl, (refl, (refl, tt))), ((refl, (refl, tt)), ((refl, tt), (tt, tt)))),
)

-- The numbers below 9 in falling order, by pages of two.
find_paginated-walk_example :
    (p : FoundPage ℕ) × (query table keep plain_id 2 1 (some 9) (true ∷ []) numbers
      ≡ (ok p, numbers))
    × (p.total_pages ≡ pages 3
        → (found : List ℕ) × (walk table keep plain_id 2 3 (some 9) (true ∷ []) numbers
            ≡ map keep found)
          × IsOrdered (comes_before (true ∷ [])) found
          × ((test : ℕ → Bool)
              → times test found ≡ times test (filter (is_below (some 9)) numbers)))
unfolding table-Documented
find_paginated-walk_example =
    find_paginated-walk table keep plain_id table-Documented 0 1 3 (some 9) (true ∷ []) numbers
      numbers-Apart

three_pages :
    (query table keep plain_id 2 3 (some 9) (true ∷ []) numbers).0
    ≡ ok (record { items = 1 ∷ []; total = 5; page = 3; limit = 2; total_pages = pages 3 })
unfolding find_paginated filter
three_pages = refl

abbrev list_request : Request
list_request = record {
  header_id = none;
  context_id = some (codes "r1");
  self_link = codes "/api/v1/users";
}

transform-build_offset_meta_example :
    let body = page (codes "c" ∷ codes "d" ∷ []) 5 2 2 in
    (pagination_of (transform none (codes "10:00") body)
      ≡ some (as_page_meta (build_offset_meta 2 2 5)))
    × (pagination_of
          (transform none (codes "10:01") (wrap list_request (codes "10:00") (codes "1.0.0") body))
        ≡ none)
transform-build_offset_meta_example =
    transform-build_offset_meta list_request none (codes "10:00") (codes "1.0.0") (codes "10:01")
      (codes "c" ∷ codes "d" ∷ []) 5 2 2

-- A log in that counts its calls and fails.
abbrev login_audit : AuditMetadata
login_audit = record {
  action = codes "user.authenticate";
  resource = codes "User";
  include_payload = true;
  include_result = true;
}

abbrev failing : Value → ℕ → Except Text Returned × ℕ
failing input calls = (ok (failed (codes "Invalid credentials")), calls + 1)

abbrev login_input : Value
login_input = object (
    field (codes "email") (primitive (codes "a@b.c"))
      (field (codes "password") (primitive (codes "hunter2")) end))

-- The entry with a duration of 30 cannot be written.
abbrev unwritable : AuditEntry → Option Text
unwritable e = elim e.duration [
  | some d ↦ if d == 30 then some (codes "Do not know how to serialize a BigInt") else none
  | none ↦ none
]

abbrev writable : AuditEntry → Option Text
writable e = none

audited_lem_example :
    let run = audited unwritable login_audit failing login_input none 100 130 131 (0, []) in
    (run.1.0 ≡ (failing login_input 0).1)
    × Accounted (kept_payload login_audit login_input) (failing login_input 0).0 [] run.0 run.1.1
audited_lem_example = audited_lem unwritable login_audit failing login_input none 100 130 131 0 []

audited-written_example :
    let run = audited writable login_audit failing login_input none 100 130 131 (0, []) in
    (run.0 ≡ (failing login_input 0).0)
    × ((e : AuditEntry) × (run.1.1 ≡ [] ++ e ∷ [])
        × (e.success ≡ some (has_returned (failing login_input 0).0)))
audited-written_example =
    audited-written writable login_audit failing login_input none 100 130 131 0 [] (λ e. refl)
      (λ message h. absurd (ground arith))

-- The method returned, and what is thrown is the error of writing its entry.
thrown_after :
    (audited unwritable login_audit failing login_input none 100 130 131 (0, [])).0
    ≡ throw (codes "Do not know how to serialize a BigInt")
unfolding audited
thrown_after = refl

hidden_password :
    sanitize_payload login_input
    ≡ object (
        field
          (codes "email")
          (primitive (codes "a@b.c"))
          (field (codes "password") (primitive (codes "[REDACTED]")) end))
unfolding sanitize_payload
hidden_password = refl
