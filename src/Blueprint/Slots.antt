-- ===== src/Blueprint/Slots.antt =====
-- internal/blueprint/matcher.go: any number of calls of `Lookup` at once. A call is cut at its atomic
-- operations on the cache and the counter, and a schedule lets the calls take turns.
use veilgate.Prelude.{
  ℕ, zero, suc, ◌+◌, ◌≡◌, List, [], ◌∷◌, none, some, Bytes, bytes_eq, leb, if◌then◌else◌, lookup,
  has,
}
use veilgate.Blueprint.{
  PathEntry, Table, Matcher, max_cache_entries, cache_key, evaluate, claim, release, store,
}

-- Where a call stands: before `cache.Load`, before `cacheLen.Add(1)`, before `LoadOrStore`, before
-- `cacheLen.Add(-1)`, and at its return.
pub data Stage : Type 0 where
  loading : Stage
  claiming : PathEntry → Stage
  storing : PathEntry → Stage
  releasing : PathEntry → Stage
  done : PathEntry → Stage

pub record Call : Type 0 where
  pub path : Bytes
  pub stage : Stage

pub record World : Type 0 where
  pub matcher : Matcher
  pub calls : List Call

-- One atomic operation of a call.
unfoldable pub step : Bytes → Stage → Matcher → Matcher × Stage
step path loading m = elim (lookup (cache_key path) m.cache) [
  | some e ↦ (m, done e)
  | none ↦ (m, claiming (evaluate m.table path))
]
step path (claiming e) m =
    (claim m, if leb (claim m).cache_len max_cache_entries then storing e else releasing e)
step path (storing e) m =
    if has (cache_key path) m.cache then (m, releasing e) else (store m (cache_key path) e, done e)
step path (releasing e) m = (release m, done e)
step path (done e) m = (m, done e)

-- The call with the number takes its next step; a number that no call has changes nothing.
unfoldable pub turn : ℕ → Matcher → List Call → Matcher × List Call
turn n m [] = (m, [])
turn zero m (c ∷ cs) =
    let (m', s) = step c.path c.stage m in (m', record { path = c.path; stage = s } ∷ cs)
turn (suc n) m (c ∷ cs) = let (m', cs') = turn n m cs in (m', c ∷ cs')

pub data Event : Type 0 where
  arrive : Bytes → Event
  go : ℕ → Event

unfoldable pub happen : Event → World → World
unfolding turn
happen (arrive path) w = record w { calls = record { path = path; stage = loading } ∷ w.calls }
happen (go n) w = let (m, cs) = turn n w.matcher w.calls in record { matcher = m; calls = cs }

unfoldable pub run : List Event → World → World
unfolding happen
run [] w = w
run (e ∷ es) w = run es (happen e w)

-- How many slots the calls have claimed and not yet filled or given back, and how many of these
-- are about to be filled.
abbrev pub claimed : Stage → ℕ
claimed (storing _) = 1
claimed (releasing _) = 1
claimed _ = 0

abbrev pub filling : Stage → ℕ
filling (storing _) = 1
filling _ = 0

abbrev pub total : (Stage → ℕ) → List Call → ℕ
total f [] = 0
total f (c ∷ cs) = f c.stage + total f cs

-- What a call holds in hand is right for its path.
abbrev pub StageRight : Table → Bytes → Stage → Type 0
StageRight t path loading = Unit {0}
StageRight t path (claiming e) = e ≡ evaluate t path
StageRight t path (storing e) = e ≡ evaluate t path
StageRight t path (releasing e) = e ≡ evaluate t path
StageRight t path (done e) = e ≡ evaluate t path
