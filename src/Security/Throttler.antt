-- ===== src/Security/Throttler.antt =====
-- `ThrottlerGuard` (src/security/rate-limiting/throttler.guard.ts). A time is the value of `Date.now()`
-- at the place where the code reads it, in milliseconds.
pub mod Window
pub mod Keys
use enterprise_system.Prelude.{
  ℕ, ◌+◌, ◌-◌, ◌*◌, ◌/◌, Bool, true, false, not, Option, none, some, List, [], ◌∷◌, ◌++◌, ltb, leb,
  ◌==◌, if◌then◌else◌, Text, codes, trim, Except, ok, throw,
}
use enterprise_system.Prelude.Dict.{Dict, lookup, insert, keep}

pub record RateLimitEntry : Type 0 where
  pub count : ℕ
  pub reset_time : ℕ

-- The options of an endpoint's decorator.
pub record RateLimitOptions : Type 0 where
  pub limit : ℕ
  pub window_seconds : ℕ
  pub key_prefix : Option Text

-- The header `x-forwarded-for`.
pub data Forwarded : Type 0 where
  absent : Forwarded
  single : Text → Forwarded
  many : List Text → Forwarded

pub record Request : Type 0 where
  pub forwarded : Forwarded
  pub ip : Option Text
  pub user_id : Option Text

-- The headers of the response.
pub record Headers : Type 0 where
  pub retry_after : Option ℕ
  pub limit : ℕ
  pub remaining : ℕ
  pub reset : ℕ

-- `too_many_requests` carries `retryAfter`; `type_error` is a member of `undefined`.
pub data Refusal : Type 0 where
  too_many_requests : ℕ → Refusal
  type_error : Refusal

-- `Math.ceil(ms / 1000)`
abbrev pub ceil_seconds : ℕ → ℕ
ceil_seconds ms = (ms + 999) / 1000

-- `s.split(',')[0]`
unfoldable pub before_comma : Text → Text
before_comma [] = []
before_comma (c ∷ s) = let rest = before_comma s in if c == b',' then [] else c ∷ rest

abbrev or_local : Option Text → Text
or_local none = codes "127.0.0.1"
or_local (some ip) = ip

unfoldable pub get_client_ip : Request → Except Refusal Text
unfolding before_comma
get_client_ip r = elim r.forwarded [
  | absent ↦ ok (or_local r.ip)
  | single [] ↦ ok (or_local r.ip)
  | single (c ∷ s) ↦ ok (trim (before_comma (c ∷ s)))
  | many [] ↦ throw type_error
  | many (s ∷ ss) ↦ ok (trim s)
]

abbrev or_else : {A : Type 0} → Option A → A → A
or_else none d = d
or_else (some a) d = a

abbrev key_of : Text → Option Text → Text → Text
key_of prefix (some (c ∷ id)) ip = prefix ++ codes ":user:" ++ c ∷ id
key_of prefix _ ip = prefix ++ codes ":ip:" ++ ip

-- The limit, the window in seconds and the key prefix that hold for the endpoint.
pub record Limits : Type 0 where
  pub limit : ℕ
  pub window_seconds : ℕ
  pub key_prefix : Text

unfoldable pub limits : ℕ → ℕ → Option RateLimitOptions → Limits
limits default_limit default_window none = record {
  limit = default_limit;
  window_seconds = default_window;
  key_prefix = codes "rl";
}
limits default_limit default_window (some o) = record {
  limit = o.limit;
  window_seconds = o.window_seconds;
  key_prefix = or_else o.key_prefix (codes "rl");
}

-- `setRateLimitHeaders`, which reads the clock again. Subtraction on ℕ is `Math.max(0, …)`.
abbrev set_headers : ℕ → ℕ → ℕ → ℕ → Headers
set_headers limit count window_seconds later = record {
  retry_after = none;
  limit = limit;
  remaining = limit - count;
  reset = ceil_seconds (later + window_seconds * 1000);
}

abbrev Store : Type 0
Store = Dict RateLimitEntry

pub record Reply : Type 0 where
  pub decision : Except Refusal (Unit {0})
  pub headers : Headers
  pub store : Dict RateLimitEntry

-- `!entry || now > entry.resetTime`
abbrev pub is_new : ℕ → Option RateLimitEntry → Bool
is_new now none = true
is_new now (some e) = ltb e.reset_time now

-- `now` is the first reading of the clock and `later` the second.
decide : ℕ → ℕ → Limits → Text → Option RateLimitEntry → Store → Reply
decide now later l key none store = record {
  decision = ok tt;
  headers = set_headers l.limit 1 l.window_seconds later;
  store = insert key (record { count = 1; reset_time = now + l.window_seconds * 1000 }) store;
}
decide now later l key (some e) store =
    if ltb e.reset_time now
    then record {
      decision = ok tt;
      headers = set_headers l.limit 1 l.window_seconds later;
      store = insert key (record { count = 1; reset_time = now + l.window_seconds * 1000 }) store;
    }
    else if leb l.limit e.count
    then record {
      decision = throw (too_many_requests (ceil_seconds (e.reset_time - now)));
      headers = record {
        retry_after = some (ceil_seconds (e.reset_time - now));
        limit = l.limit;
        remaining = 0;
        reset = ceil_seconds e.reset_time;
      };
      store = store;
    }
    else record {
      decision = ok tt;
      headers = set_headers l.limit (e.count + 1) l.window_seconds later;
      store = insert key (record e { count = e.count + 1 }) store;
    }

-- A request of a key, at the limits of its endpoint.
unfoldable pub check : ℕ → ℕ → Limits → Text → Store → Reply
unfolding decide
check now later l key store = decide now later l key (lookup key store) store

-- `canActivate`: the key of the request, and the check. What `getClientIp` throws leaves the store alone.
unfoldable pub can_activate : ℕ → ℕ → Limits → Request → Store → Except Refusal Reply
unfolding get_client_ip check
can_activate now later l r store = elim (get_client_ip r) [
  | ok ip ↦ ok (check now later l (key_of l.key_prefix r.user_id ip) store)
  | throw e ↦ throw e
]

-- `cleanup`
unfoldable pub cleanup : ℕ → Store → Store
unfolding keep
cleanup now store = keep (λ (e : RateLimitEntry). not (ltb e.reset_time now)) store
