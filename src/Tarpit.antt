-- ===== src/Tarpit.antt =====
-- internal/tarpit/response_cache.go: the rendered responses that are kept. Times and durations are
-- nanoseconds; a negative cap counts as 0, which the program treats alike, and the time to live is
-- not negative. The lock is left out.
pub mod Keeping
pub mod Profiles
pub mod Routes
pub mod Handling
pub mod Coherence
pub mod Identity
pub mod Bounds
mod Samples
use veilgate.Prelude.{
  ℕ, ◌+◌, ◌-◌, ◌%◌, Bool, not, ◌&&◌, Option, none, some, List, [], ◌∷◌, ◌++◌, Bytes, bytes_eq,
  nat_eq, codes, ltb, leb, ◌==◌, if◌then◌else◌, Map, lookup, insert, has, retain, length, to_lower,
}

-- `Response`
pub record TarpitResponse : Type 0 where
  pub status : ℕ
  pub content_type : Bytes
  pub body : Bytes
  pub headers : List (Bytes × Bytes)

pub record CacheEntry : Type 0 where
  pub resp : TarpitResponse
  pub expires_at : ℕ

pub record ResponseCache : Type 0 where
  pub entries : Map Bytes CacheEntry
  pub ttl : ℕ
  pub max_size : ℕ

-- `NewResponseCache`
abbrev pub new_response_cache : ℕ → ℕ → ResponseCache
new_response_cache ttl max_size = record { entries = []; ttl = ttl; max_size = max_size }

-- `cacheKey`
unfoldable pub response_key : Bytes → Bytes → Bytes
response_key client path = client ++ (codes "|" ++ to_lower path)

-- `now.After(e.expiresAt)`
abbrev pub is_past : ℕ → CacheEntry → Bool
is_past now e = ltb e.expires_at now

abbrev fresh_response : ℕ → Option CacheEntry → Option TarpitResponse
fresh_response now none = none
fresh_response now (some e) = if is_past now e then none else some e.resp

-- `Get`
unfoldable pub get_response : ℕ → Bytes → Bytes → ResponseCache → Option TarpitResponse
get_response now client path c = fresh_response now (lookup (response_key client path) c.entries)

unfoldable pub stale_count : ℕ → Map Bytes CacheEntry → ℕ
stale_count now [] = 0
stale_count now ((k, e) ∷ m) =
    let rest = stale_count now m in if is_past now e then rest + 1 else rest

-- The entries without that stale one, counted from 0.
unfoldable pub evict_stale : ℕ → ℕ → Map Bytes CacheEntry → Map Bytes CacheEntry
evict_stale now n [] = []
evict_stale now n ((k, e) ∷ m) =
    let rest = evict_stale now (if is_past now e then n - 1 else n) m in
    if is_past now e && n == 0 then m else (k, e) ∷ rest

abbrev pub stored :
    ℕ → Bytes → TarpitResponse → Map Bytes CacheEntry → ResponseCache → ResponseCache
stored now key resp m c = record c {
  entries = insert key (record { resp = resp; expires_at = now + c.ttl }) m;
}

abbrev pub is_full : Bytes → ResponseCache → Bool
is_full key c = not (has key c.entries) && leb c.max_size (length c.entries)

-- `Set`. The range over the map stops at the first stale entry that it meets, in no fixed order:
-- `order` says which one that is.
unfoldable pub set_response : ℕ → ℕ → Bytes → Bytes → TarpitResponse → ResponseCache → ResponseCache
set_response now order client path resp c =
    let key = response_key client path in
    let stale = stale_count now c.entries in
    if not (is_full key c)
    then stored now key resp c.entries c
    else if stale == 0
    then c
    else stored now key resp (evict_stale now (order % stale) c.entries) c

-- `GC`
unfoldable pub collect_responses : ℕ → ResponseCache → ResponseCache
collect_responses now c = record c { entries = retain (λ e. not (is_past now e)) c.entries }

-- `Len`
abbrev pub cached_responses : ResponseCache → ℕ
cached_responses c = length c.entries
