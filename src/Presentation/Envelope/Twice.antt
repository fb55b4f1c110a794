-- ===== src/Presentation/Envelope/Twice.antt =====
-- What becomes of a page in the two interceptors.
use enterprise_system.Prelude.{ℕ, ◌≡◌, Option, none, some, List, Text, refl, Bool-cases, inl, inr}
use enterprise_system.Common.Pagination.{OffsetPaginationMeta, build_offset_meta}
use enterprise_system.Presentation.Envelope.{
  PageMeta, Body, simple, stream, entity, array, envelope, page, Request, is_array, wrap, transform,
}

abbrev pub as_page_meta : OffsetPaginationMeta → PageMeta
as_page_meta m = record {
  total = m.total_items;
  page = m.page;
  limit = m.limit;
  total_pages = m.total_pages;
  has_next = m.has_next;
  has_prev = m.has_previous;
}

-- The pagination in the metadata of a body.
abbrev pub pagination_of : Body → Option PageMeta
pagination_of (envelope content meta self_link) = meta.pagination
pagination_of _ = none

-- What the common interceptor returns is an envelope, which the other passes on.
pub transform-wrap :
    (request : Request) (id : Option Text) (time version later : Text) (body : Body)
    → transform id later (wrap request time version body) ≡ wrap request time version body
unfolding transform wrap
transform-wrap request id time version later (simple s) = refl
transform-wrap request id time version later (stream s) = refl
transform-wrap request id time version later (entity s) = refl
transform-wrap request id time version later (array items) = refl
transform-wrap request id time version later (page items total number limit) = refl
transform-wrap request id time version later (envelope content meta link) =
    elim (Bool-cases (is_array content)) [ inl e ↦ rw e refl | inr e ↦ rw e refl ]

-- A page that goes through the interceptor of the presentation module alone gets the metadata that
-- `buildOffsetMeta` gives it; one that went through the common interceptor first gets none, and stays in the
-- data of the response with its items.
pub transform-build_offset_meta :
    (request : Request) (id : Option Text) (time version later : Text) (items : List Text)
    (total number limit : ℕ)
    → let body = page items total number limit in
      (pagination_of (transform id time body)
        ≡ some (as_page_meta (build_offset_meta number limit total)))
      × (pagination_of (transform id later (wrap request time version body)) ≡ none)
unfolding transform wrap build_offset_meta
transform-build_offset_meta request id time version later items total number limit = (refl, refl)
