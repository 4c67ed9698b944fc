-- ===== src/Blueprint.antt =====
-- internal/blueprint/matcher.go: the route table, the uncached tests, and `Lookup` over its cache.
pub mod Matching
pub mod Documented
pub mod Cache
pub mod Slots
pub mod Turns
pub mod Races
mod Samples
use veilgate.Prelude.{
  ℕ, ◌+◌, ◌-◌, Bool, true, false, ◌&&◌, ◌||◌, not, List, [], ◌∷◌, ◌++◌, map, Option, none, some,
  Bytes, ◌==◌, nat_eq, bytes_eq, bytes_beq, ltb, leb, if◌then◌else◌, length, head?, any, is_empty,
  trim, split, to_lower, Map, lookup, insert, has,
}
use mathlib.Core.List.{get_last?}

abbrev pub slash : ℕ
slash = b'/'

abbrev pub max_cache_entries : ℕ
max_cache_entries = 4096

pub record Seg : Type 0 where
  pub literal : Bytes
  pub is_param : Bool

abbrev pub Route : Type 0
Route = List Seg

pub record PathEntry : Type 0 where
  pub in_ns : Bool
  pub matched : Bool

-- The fields of `Matcher` that are fixed once it is built. The namespace is a set of literals.
pub record Table : Type 0 where
  pub routes : List Route
  pub namespace : Map Bytes (Unit {0})

-- `cache_len` is the counter of claimed slots, an atomic in the source.
pub record Matcher : Type 0 where
  pub table : Table
  pub cache : Map Bytes PathEntry
  pub cache_len : ℕ

-- `strings.Trim(path, "/")`, which is also the cache's key
unfoldable pub cache_key : Bytes → Bytes
cache_key path = trim (λ c. c == slash) path

unfoldable pub split_path : Bytes → List Bytes
unfolding cache_key
split_path p = let t = cache_key p in if is_empty t then [] else split slash t

abbrev pub is_byte : ℕ → Option ℕ → Bool
is_byte c none = false
is_byte c (some d) = d == c

abbrev pub last? : Bytes → Option ℕ
last? [] = none
last? (c ∷ []) = some c
last? (_ ∷ d ∷ s) = last? (d ∷ s)

abbrev pub is_placeholder : Bytes → Bool
is_placeholder p = ltb 2 (length p) && (is_byte b'{' (head? p) && is_byte b'}' (last? p))

unfoldable pub parse_seg : Bytes → Seg
parse_seg p =
    if is_placeholder p
    then record { literal = []; is_param = true }
    else record { literal = to_lower p; is_param = false }

unfoldable pub parse_route : Bytes → Route
unfolding parse_seg split_path
parse_route path = map parse_seg (split_path path)

-- one round of the loop of `buildMatcher`
unfoldable pub add_route : Table → Route → Table
add_route m [] = m
add_route m (s ∷ r) = record {
  routes = m.routes ++ (s ∷ r) ∷ [];
  namespace = if s.is_param then m.namespace else insert s.literal tt m.namespace;
}

unfoldable pub add_routes : Table → List Bytes → Table
unfolding add_route parse_route
add_routes m [] = m
add_routes m (p ∷ paths) = add_routes (add_route m (parse_route p)) paths

unfoldable pub build_matcher : List Bytes → Matcher
unfolding add_routes
build_matcher paths = record {
  table = add_routes (record { routes = []; namespace = [] }) paths;
  cache = [];
  cache_len = 0;
}

unfoldable pub first_known : Map Bytes (Unit {0}) → List Bytes → Bool
first_known ns [] = false
first_known ns (first ∷ _) = has (to_lower first) ns

unfoldable pub in_namespace : Table → Bytes → Bool
unfolding first_known split_path
in_namespace m path = first_known m.namespace (split_path path)

abbrev pub seg_fits : Seg → Bytes → Bool
seg_fits s part = s.is_param || s.literal == to_lower part

-- The inner loop. The caller has compared the lengths, so `parts[i]` is in range.
unfoldable pub segs_fit : Route → List Bytes → Bool
segs_fit [] parts = true
segs_fit (s ∷ r) [] = false
segs_fit (s ∷ r) (p ∷ parts) = seg_fits s p && segs_fit r parts

unfoldable pub route_fits : List Bytes → Route → Bool
unfolding segs_fit
route_fits parts r = length r == length parts && segs_fit r parts

unfoldable pub matches : Table → Bytes → Bool
unfolding route_fits split_path
matches m path = any (route_fits (split_path path)) m.routes

-- What `Lookup` computes on a cache miss.
unfoldable pub evaluate : Table → Bytes → PathEntry
unfolding in_namespace matches
evaluate m path = record {
  in_ns = in_namespace m path;
  matched = if in_namespace m path then matches m path else false;
}

-- `cacheLen.Add(1)`
abbrev pub claim : Matcher → Matcher
claim m = record m { cache_len = m.cache_len + 1 }

-- `cacheLen.Add(-1)`, which follows a claim, so the counter is not 0
abbrev pub release : Matcher → Matcher
release m = record m { cache_len = m.cache_len - 1 }

-- the write of `LoadOrStore` on a key that is absent
abbrev pub store : Matcher → Bytes → PathEntry → Matcher
store m key entry = record m { cache = insert key entry m.cache }

unfoldable pub remember : Matcher → Bytes → PathEntry → Matcher
remember m key entry =
    let claimed = claim m in
    if leb claimed.cache_len max_cache_entries
    then (if has key claimed.cache then release claimed else store claimed key entry)
    else release claimed

-- `Lookup`: the matcher afterwards, and the pair (inNamespace, matched)
unfoldable pub lookup_path : Matcher → Bytes → Matcher × PathEntry
unfolding remember evaluate cache_key
lookup_path m path =
    let key = cache_key path in
    elim (lookup key m.cache) [
      | some e ↦ (m, e)
      | none ↦ (remember m key (evaluate m.table path), evaluate m.table path)
    ]

-- `Matches` and `InNamespace`
unfoldable pub matches_cached : Matcher → Bytes → Matcher × Bool
unfolding lookup_path
matches_cached m path = let (m', e) = lookup_path m path in (m', e.matched)

unfoldable pub in_namespace_cached : Matcher → Bytes → Matcher × Bool
unfolding lookup_path
in_namespace_cached m path = let (m', e) = lookup_path m path in (m', e.in_ns)

-- `IsEmpty`, `RouteCount`, `CacheLen`
abbrev pub is_empty_matcher : Matcher → Bool
is_empty_matcher m = length m.table.routes == 0

abbrev pub route_count : Matcher → ℕ
route_count m = length m.table.routes
