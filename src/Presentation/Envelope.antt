-- ===== src/Presentation/Envelope.antt =====
-- The two interceptors that put a response into an envelope: `TransformInterceptor` of
-- src/common/interceptors/transform.interceptor.ts, which src/main.ts installs, and the one of
-- src/presentation/rest/interceptors/transform.interceptor.ts, which the presentation module installs. A body
-- is what their tests tell apart; the time and the ids of a request are arguments.
pub mod Twice
use enterprise_system.Prelude.{
  ℕ, Bool, true, false, Option, none, some, List, [], ◌∷◌, ltb, if◌then◌else◌, Text, codes,
}
use enterprise_system.Common.Pagination.{Pages, ceil_div, is_before}

pub record PageMeta : Type 0 where
  pub total : ℕ
  pub page : ℕ
  pub limit : ℕ
  pub total_pages : Pages
  pub has_next : Bool
  pub has_prev : Bool

-- The metadata of a response, with what either interceptor or a route may put there.
pub record Meta : Type 0 where
  pub timestamp : Option Text
  pub request_id : Option Text
  pub version : Option Text
  pub pagination : Option PageMeta

-- What a route returns and what an interceptor makes of it: null, undefined or a primitive; a buffer or a
-- stream; an array; an object with `data` and `meta`; one with `items` and `total`; another object.
pub data Body : Type 0 where
  simple stream entity : Text → Body
  array : List Text → Body
  envelope : (content : Body) (meta : Meta) (self_link : Option Text) → Body
  page : (items : List Text) (total number limit : ℕ) → Body

-- `{ ...a, ...b }`: what b has comes first.
abbrev pub or_else : {A : Type 0} → Option A → Option A → Option A
or_else a none = a
or_else a (some b) = some b

unfoldable pub spread_meta : Meta → Meta → Meta
spread_meta a b = record {
  timestamp = or_else a.timestamp b.timestamp;
  request_id = or_else a.request_id b.request_id;
  version = or_else a.version b.version;
  pagination = or_else a.pagination b.pagination;
}

-- `Array.isArray(obj.data)`
unfoldable pub is_array : Body → Bool
is_array (array items) = true
is_array _ = false

-- What the interceptor reads of a request: the id in the header, the one of the context, and the address.
pub record Request : Type 0 where
  pub header_id : Option Text
  pub context_id : Option Text
  pub self_link : Text

-- `header || context || 'unknown'`
unfoldable pub known_id : Option Text → Option Text → Text
known_id (some (c ∷ s)) context = c ∷ s
known_id _ (some (c ∷ s)) = c ∷ s
known_id _ _ = codes "unknown"

-- `intercept` of the common interceptor, which wraps all but an envelope of an array.
unfoldable pub wrap : Request → (time version : Text) → Body → Body
unfolding spread_meta is_array known_id
wrap request time version body =
    let own : Meta = record {
      timestamp = some time;
      request_id = some (known_id request.header_id request.context_id);
      version = some version;
      pagination = none;
    } in
    let wrapped = envelope body own (some request.self_link) in
    elim body [
      | simple _ ↦ wrapped
      | stream _ ↦ wrapped
      | entity _ ↦ wrapped
      | array _ ↦ wrapped
      | envelope content meta self_link ↦
          if is_array content then envelope content (spread_meta own meta) self_link else wrapped
      | page _ _ _ _ ↦ wrapped
    ]

-- `intercept` of the interceptor of the presentation module; `request_id` is that of the request, if it has one.
unfoldable pub transform : Option Text → Text → Body → Body
unfolding ceil_div is_before
transform request_id time body =
    let meta : Meta = record {
      timestamp = some time;
      request_id = request_id;
      version = none;
      pagination = none;
    } in
    elim body [
      | envelope content meta' self_link ↦ envelope content meta' self_link
      | stream s ↦ stream s
      | page items total number limit ↦
          let total_pages = ceil_div total limit in
          envelope (array items)
            (record meta {
              pagination = some (record {
                total = total;
                page = number;
                limit = limit;
                total_pages = total_pages;
                has_next = is_before number total_pages;
                has_prev = ltb 1 number;
              });
            })
            none
      | simple s ↦ envelope (simple s) meta none
      | entity s ↦ envelope (entity s) meta none
      | array items ↦ envelope (array items) meta none
    ]
