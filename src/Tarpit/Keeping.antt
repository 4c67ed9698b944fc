-- ===== src/Tarpit/Keeping.antt =====
-- internal/tarpit/response_cache.go: what the cache keeps, and how much.
use veilgate.Prelude.{
  ℕ, ◌≡◌, ◌≤◌, ◌<◌, ◌+◌, ◌-◌, ◌%◌, arith, refl, false, not, none, some, [], ◌∷◌, Bytes, bytes_eq,
  bytes_beq_iff, nat_eq, ◌==◌, Map, IsMap, lookup, length, insert-IsMap, retain-IsMap,
  lookup-insert, lookup-retain, length-insert, length-filter, if◌then◌else◌,
}
use veilgate.Tarpit.{
  TarpitResponse, CacheEntry, ResponseCache, response_key, is_past, stale_count, evict_stale,
  is_full, set_response, collect_responses,
}

lookup-evict_stale-none :
    (now n : ℕ) (k : Bytes) (m : Map Bytes CacheEntry)
    → lookup k m ≡ none
    → lookup k (evict_stale now n m) ≡ none
unfolding lookup evict_stale
lookup-evict_stale-none now n k [] h = refl
lookup-evict_stale-none now n k ((j, e) ∷ m) h =
    ground (arith, lookup-evict_stale-none now (if is_past now e then n - 1 else n) k m)

evict_stale-IsMap : (now n : ℕ) (m : Map Bytes CacheEntry) → IsMap m → IsMap (evict_stale now n m)
unfolding evict_stale
evict_stale-IsMap now n [] h = tt
evict_stale-IsMap now n ((j, e) ∷ m) h = ground (
  arith,
  lookup-evict_stale-none now (if is_past now e then n - 1 else n) j m,
  evict_stale-IsMap now (if is_past now e then n - 1 else n) m h.1,
)

-- An entry that is not stale is not evicted.
lookup-evict_stale :
    (now n : ℕ) (k : Bytes) (x : CacheEntry) (m : Map Bytes CacheEntry)
    → lookup k m ≡ some x
    → is_past now x ≡ false
    → lookup k (evict_stale now n m) ≡ some x
unfolding lookup evict_stale
lookup-evict_stale now n k x [] h s = cc
lookup-evict_stale now n k x ((j, e) ∷ m) h s =
    ground (arith, lookup-evict_stale now (if is_past now e then n - 1 else n) k x m)

length-evict_stale :
    (now n : ℕ) (m : Map Bytes CacheEntry)
    → n < stale_count now m
    → length (evict_stale now n m) + 1 ≡ length m
unfolding evict_stale stale_count
length-evict_stale now n [] h = absurd (omega arith)
length-evict_stale now n ((j, e) ∷ m) h =
    ground (arith, length-evict_stale now (if is_past now e then n - 1 else n) m)

-- No key has two entries, and there are no more entries than the cap allows.
abbrev pub IsCache : ResponseCache → Type 0
IsCache c = IsMap c.entries × (length c.entries ≤ c.max_size)

pub set_response-IsCache :
    (now order : ℕ) (client path : Bytes) (resp : TarpitResponse) (c : ResponseCache)
    → IsCache c
    → IsCache (set_response now order client path resp c)
unfolding set_response
set_response-IsCache now order client path resp c (m, le) =
    let key = response_key client path in
    let e : CacheEntry = record { resp = resp; expires_at = now + c.ttl } in
    let n = order % stale_count now c.entries in
    let kept = evict_stale now n c.entries in
    (
      ground (
        arith,
        insert-IsMap key e c.entries m,
        insert-IsMap key e kept (evict_stale-IsMap now n c.entries m),
      ),
      ground (
        arith,
        length-insert key e c.entries,
        length-insert key e kept,
        length-evict_stale now n c.entries,
      ),
    )

-- An entry of another key outlives it, unless it is stale.
pub set_response-keeps :
    (now order : ℕ) (client path : Bytes) (resp : TarpitResponse) (c : ResponseCache)
    → (k : Bytes) (x : CacheEntry) → lookup k c.entries ≡ some x
    → is_past now x ≡ false
    → response_key client path == k ≡ false
    → lookup k (set_response now order client path resp c).entries ≡ some x
unfolding set_response
set_response-keeps now order client path resp c k x l s d =
    let key = response_key client path in
    let e : CacheEntry = record { resp = resp; expires_at = now + c.ttl } in
    let n = order % stale_count now c.entries in
    ground (
      arith,
      lookup-insert key k e c.entries,
      lookup-insert key k e (evict_stale now n c.entries),
      lookup-evict_stale now n k x c.entries l s,
    )

-- Where there is room, or the key has an entry, the response is stored.
pub set_response-stores :
    (now order : ℕ) (client path : Bytes) (resp : TarpitResponse) (c : ResponseCache)
    → is_full (response_key client path) c ≡ false
    → lookup (response_key client path) (set_response now order client path resp c).entries
      ≡ some (record { resp = resp; expires_at = now + c.ttl })
unfolding set_response
set_response-stores now order client path resp c h =
    let key = response_key client path in
    let e : CacheEntry = record { resp = resp; expires_at = now + c.ttl } in
    ground (arith, lookup-insert key key e c.entries, bytes_beq_iff key key)

pub collect_responses-IsCache :
    (now : ℕ) (c : ResponseCache) → IsCache c → IsCache (collect_responses now c)
unfolding collect_responses
collect_responses-IsCache now c (m, le) = (
  retain-IsMap (λ e. not (is_past now e)) c.entries m,
  omega (arith, length-filter (λ (kv : Bytes × CacheEntry). not (is_past now kv.1)) c.entries),
)

pub collect_responses-keeps :
    (now : ℕ) (c : ResponseCache) (k : Bytes) (x : CacheEntry)
    → IsMap c.entries
    → lookup k c.entries ≡ some x
    → is_past now x ≡ false
    → lookup k (collect_responses now c).entries ≡ some x
unfolding collect_responses
collect_responses-keeps now c k x m l s =
    ground (arith, lookup-retain (λ e. not (is_past now e)) k c.entries m)
