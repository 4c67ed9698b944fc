-- ===== src/Blueprint/Cache.antt =====
-- internal/blueprint/matcher.go: `Lookup` answers what the uncached tests answer, and its cache
-- stays within its bound.
use veilgate.Prelude.{
  ◌≤◌, ◌≡◌, refl, arith, Bytes, bytes_eq, bytes_beq_iff, some, none, length, length-insert, lookup,
  insert, lookup-insert, insert-IsMap, IsMap, Option-cases, inl, inr,
}
use veilgate.Blueprint.{
  PathEntry, Table, Matcher, max_cache_entries, cache_key, split_path, build_matcher, in_namespace,
  matches, evaluate, remember, lookup_path,
}

pub record IsValid (m : Matcher) : Type 0 where
  pub bounded : m.cache_len ≤ max_cache_entries
  pub counted : m.cache_len ≡ length m.cache
  pub unique : IsMap m.cache
  pub right :
      (path : Bytes) (e : PathEntry)
      → lookup (cache_key path) m.cache ≡ some e
      → e ≡ evaluate m.table path

pub evaluate-cache_key :
    (t : Table) (p q : Bytes) → cache_key p ≡ cache_key q → evaluate t p ≡ evaluate t q
unfolding evaluate in_namespace matches split_path
evaluate-cache_key t p q e = ground arith

pub build_matcher-IsValid : (paths : _) → IsValid (build_matcher paths)
unfolding build_matcher lookup
build_matcher-IsValid paths = record {
  bounded = omega arith;
  counted = refl;
  unique = tt;
  right = λ path e h. cc;
}

-- The entry that is written is right for each path that has its key.
pub stored_right :
    (m : Matcher) (p q : Bytes) (e : PathEntry)
    → ((path : Bytes) (f : PathEntry)
        → lookup (cache_key path) m.cache ≡ some f
        → f ≡ evaluate m.table path)
    → lookup (cache_key q) (insert (cache_key p) (evaluate m.table p) m.cache) ≡ some e
    → e ≡ evaluate m.table q
stored_right m p q e right h = ground (
  arith,
  right q e,
  evaluate-cache_key m.table p q,
  bytes_beq_iff (cache_key p) (cache_key q),
  lookup-insert (cache_key p) (cache_key q) (evaluate m.table p) m.cache,
)

remember-IsValid :
    (m : Matcher) (path : Bytes)
    → IsValid m
    → lookup (cache_key path) m.cache ≡ none
    → IsValid (remember m (cache_key path) (evaluate m.table path))
unfolding remember
remember-IsValid m path v absent = record {
  bounded = ground arith;
  counted = ground (arith, length-insert (cache_key path) (evaluate m.table path) m.cache);
  unique = ground (arith, insert-IsMap (cache_key path) (evaluate m.table path) m.cache v.unique);
  right = λ q e h. ground (arith, v.right q e, stored_right m path q e v.right);
}

-- `Lookup` returns the uncached answer.
pub lookup_path-evaluate :
    (m : Matcher) (path : Bytes) → IsValid m → (lookup_path m path).1 ≡ evaluate m.table path
unfolding lookup_path
lookup_path-evaluate m path v = elim (Option-cases (lookup (cache_key path) m.cache)) [
  | inl miss ↦ rw (miss, lookup_path)
  | inr (e, hit) ↦ rw (hit, lookup_path) (v.right path e hit)
]

-- `Lookup` keeps the cache valid: bounded, counted and right.
pub lookup_path-IsValid : (m : Matcher) (path : Bytes) → IsValid m → IsValid (lookup_path m path).0
lookup_path-IsValid m path v = elim (Option-cases (lookup (cache_key path) m.cache)) [
  | inl miss ↦ unfold lookup_path in rw (miss, lookup_path) (remember-IsValid m path v miss)
  | inr (e, hit) ↦ unfold lookup_path in rw (hit, lookup_path) v
]
