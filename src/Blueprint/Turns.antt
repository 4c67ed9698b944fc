-- ===== src/Blueprint/Turns.antt =====
-- internal/blueprint/matcher.go: one atomic step of a call of `Lookup`, among others in progress.
use veilgate.Prelude.{
  ℕ, ◌+◌, ◌≤◌, ◌≡◌, arith, some, Bytes, bytes_eq, length, length-insert, lookup, insert-IsMap,
  IsMap, has, Bool-cases, Option-cases, inl, inr, leb, ◌∙◌, ap, sym,
}
use veilgate.Blueprint.{PathEntry, Table, Matcher, max_cache_entries, cache_key, evaluate}
use veilgate.Blueprint.Cache.{stored_right}
use veilgate.Blueprint.Slots.{
  Stage, loading, claiming, storing, releasing, done, step, claimed, filling, StageRight,
}

-- `held` slots are claimed beyond the entries, and `owed` of these are about to be filled.
pub record Core (t : Table) (held owed : ℕ) (m : Matcher) : Type 0 where
  pub same_table : m.table ≡ t
  pub counted : m.cache_len ≡ length m.cache + held
  pub bounded : length m.cache + owed ≤ max_cache_entries
  pub unique : IsMap m.cache
  pub right :
      (path : Bytes) (e : PathEntry)
      → lookup (cache_key path) m.cache ≡ some e
      → e ≡ evaluate m.table path

pub Core-resp :
    {t : Table} {m : Matcher} (a b c d : ℕ) → a ≡ c → b ≡ d → Core t a b m → Core t c d m
Core-resp a b c d p q k = record {
  same_table = k.same_table;
  counted = omega arith;
  bounded = omega arith;
  unique = k.unique;
  right = k.right;
}

abbrev pub Stepped : Table → ℕ → ℕ → Bytes → Matcher × Stage → Type 0
Stepped t held owed path (m, s) =
    Core t (claimed s + held) (filling s + owed) m × StageRight t path s

step_loading :
    (t : Table) (held owed : ℕ) (path : Bytes) (m : Matcher)
    → Core t held owed m
    → Stepped t held owed path (step path loading m)
unfolding step
step_loading t held owed path m k = elim (Option-cases (lookup (cache_key path) m.cache)) [
  | inl miss ↦
      rw (miss, step) (Core-resp held owed _ _ (omega arith) (omega arith) k, rw k.same_table)
  | inr (e, hit) ↦
      rw (hit, step)
        (
          Core-resp held owed _ _ (omega arith) (omega arith) k,
          rw (k.right path e hit) (rw k.same_table),
        )
]

step_claiming :
    (t : Table) (held owed : ℕ) (path : Bytes) (e : PathEntry) (m : Matcher)
    → owed ≤ held
    → Core t held owed m
    → e ≡ evaluate t path
    → Stepped t held owed path (step path (claiming e) m)
unfolding step
step_claiming t held owed path e m le k h =
    elim (Bool-cases (leb (m.cache_len + 1) max_cache_entries)) [
      | inl fits ↦ rw (fits) (
        record {
          same_table = k.same_table;
          counted = omega arith;
          bounded = ground arith;
          unique = k.unique;
          right = k.right;
        },
        h,
      )
      | inr full ↦ rw (full) (
        record {
          same_table = k.same_table;
          counted = omega arith;
          bounded = ground arith;
          unique = k.unique;
          right = k.right;
        },
        h,
      )
    ]

step_storing :
    (t : Table) (held owed : ℕ) (path : Bytes) (e : PathEntry) (m : Matcher)
    → Core t (1 + held) (1 + owed) m
    → e ≡ evaluate t path
    → Stepped t held owed path (step path (storing e) m)
unfolding step
step_storing t held owed path e m k h = elim (Bool-cases (has (cache_key path) m.cache)) [
  | inl there ↦ rw (there) (
    record {
      same_table = k.same_table;
      counted = k.counted;
      bounded = omega arith;
      unique = k.unique;
      right = k.right;
    },
    h,
  )
  | inr absent ↦ rw (absent) (
    record {
      same_table = k.same_table;
      counted = ground (arith, length-insert (cache_key path) e m.cache);
      bounded = ground (arith, length-insert (cache_key path) e m.cache);
      unique = insert-IsMap (cache_key path) e m.cache k.unique;
      right = λ q f g.
          stored_right m path q f k.right
            (rw (h ∙ ap (λ u. evaluate u path) (sym k.same_table)) at g);
    },
    h,
  )
]

step_releasing :
    (t : Table) (held owed : ℕ) (path : Bytes) (e : PathEntry) (m : Matcher)
    → Core t (1 + held) owed m
    → e ≡ evaluate t path
    → Stepped t held owed path (step path (releasing e) m)
unfolding step
step_releasing t held owed path e m k h = (
  record {
    same_table = k.same_table;
    counted = omega arith;
    bounded = omega arith;
    unique = k.unique;
    right = k.right;
  },
  h,
)

pub step-Core :
    (t : Table) (held owed : ℕ) (path : Bytes) (s : Stage) (m : Matcher)
    → owed ≤ held
    → Core t (claimed s + held) (filling s + owed) m
    → StageRight t path s
    → Stepped t held owed path (step path s m)
step-Core t held owed path loading m le k h =
    step_loading t held owed path m (Core-resp _ _ held owed (omega arith) (omega arith) k)
step-Core t held owed path (claiming e) m le k h =
    step_claiming t held owed path e m le (Core-resp _ _ held owed (omega arith) (omega arith) k) h
step-Core t held owed path (storing e) m le k h = step_storing t held owed path e m k h
step-Core t held owed path (releasing e) m le k h =
    step_releasing t held owed path e m
      (Core-resp _ _ (1 + held) owed (omega arith) (omega arith) k) h
step-Core t held owed path (done e) m le k h = unfold step in (k, h)
