-- ===== src/Blueprint/Races.antt =====
-- internal/blueprint/matcher.go: what holds of `Lookup` under every interleaving of its calls.
use veilgate.Prelude.{
  ℕ, zero, suc, ◌+◌, ◌≤◌, ◌≡◌, refl, arith, List, [], ◌∷◌, Bytes, bytes_eq, length, lookup, All,
}
use veilgate.Blueprint.{PathEntry, Table, Matcher, max_cache_entries, evaluate, build_matcher}
use veilgate.Blueprint.Slots.{
  claiming, storing, releasing, Stage, loading, storing, done, Call, World, step, turn, Event,
  arrive, go, happen, run, claimed, filling, total, StageRight,
}
use veilgate.Blueprint.Turns.{Core, Core-resp, step-Core}
use veilgate.Blueprint.{lookup_path}

abbrev AllRight : Table → List Call → Type 0
AllRight t = All (λ c. StageRight t c.path c.stage)

abbrev Turned : Table → ℕ → ℕ → Matcher × List Call → Type 0
Turned t held owed (m, cs) =
    Core t (total claimed cs + held) (total filling cs + owed) m × AllRight t cs

filling-le-claimed : (s : Stage) → filling s ≤ claimed s
filling-le-claimed loading = omega arith
filling-le-claimed (storing _) = omega arith
filling-le-claimed _ = omega arith

total-le : (cs : List Call) → total filling cs ≤ total claimed cs
total-le [] = omega arith
total-le (c ∷ cs) = omega (arith, total-le cs, filling-le-claimed c.stage)

turn-Core :
    (t : Table) (held owed n : ℕ) (m : Matcher) (cs : List Call)
    → owed ≤ held
    → Core t (total claimed cs + held) (total filling cs + owed) m
    → AllRight t cs
    → Turned t held owed (turn n m cs)
unfolding turn
turn-Core t held owed n m [] le k h = (k, tt)
turn-Core t held owed zero m (c ∷ cs) le k h =
    let (k', h') =
      step-Core t (total claimed cs + held) (total filling cs + owed) c.path c.stage m
        (omega (arith, total-le cs)) (Core-resp _ _ _ _ (omega arith) (omega arith) k) h.0 in
    (Core-resp _ _ _ _ (omega arith) (omega arith) k', (h', h.1))
turn-Core t held owed (suc n) m (c ∷ cs) le k h =
    let (k', h') =
      turn-Core t (claimed c.stage + held) (filling c.stage + owed) n m cs
        (omega (arith, filling-le-claimed c.stage))
        (Core-resp _ _ _ _ (omega arith) (omega arith) k) h.1 in
    (Core-resp _ _ _ _ (omega arith) (omega arith) k', (h.0, h'))

-- Between two atomic operations.
pub record IsConsistent (t : Table) (w : World) : Type 0 where
  pub core : Core t (total claimed w.calls) (total filling w.calls) w.matcher
  pub calls_right : All (λ c. StageRight t c.path c.stage) w.calls

happen-IsConsistent :
    (t : Table) (e : Event) (w : World) → IsConsistent t w → IsConsistent t (happen e w)
unfolding happen
happen-IsConsistent t (arrive path) w i = record {
  core = Core-resp _ _ _ _ (omega arith) (omega arith) i.core;
  calls_right = (tt, i.calls_right);
}
happen-IsConsistent t (go n) w i =
    let (k, h) =
      turn-Core t 0 0 n w.matcher w.calls (omega arith)
        (Core-resp _ _ _ _ (omega arith) (omega arith) i.core) i.calls_right in
    record { core = Core-resp _ _ _ _ (omega arith) (omega arith) k; calls_right = h }

-- Every schedule of calls keeps the counter, the cache and what each call holds consistent.
pub run-IsConsistent :
    (t : Table) (es : List Event) (w : World) → IsConsistent t w → IsConsistent t (run es w)
unfolding run
run-IsConsistent t [] w i = i
run-IsConsistent t (e ∷ es) w i = run-IsConsistent t es (happen e w) (happen-IsConsistent t e w i)

abbrev pub fresh : List Bytes → World
fresh paths = record { matcher = build_matcher paths; calls = [] }

fresh-IsConsistent : (paths : List Bytes) → IsConsistent (build_matcher paths).table (fresh paths)
unfolding build_matcher lookup
fresh-IsConsistent paths = record {
  core = record {
    same_table = refl;
    counted = omega arith;
    bounded = omega arith;
    unique = tt;
    right = λ path e h. cc;
  };
  calls_right = tt;
}

abbrev pub AllDone : List Call → Type 0
AllDone = All (λ c. (e : PathEntry) × (c.stage ≡ done e))

none_claimed : (cs : List Call) → AllDone cs → total claimed cs ≡ 0
none_claimed [] h = refl
none_claimed (c ∷ cs) h = ground (arith, none_claimed cs h.1)

-- A call that has returned answered what the uncached tests answer for its path.
abbrev pub Answered : Table → Call → Type 0
Answered t c = elim c.stage [ done e ↦ e ≡ evaluate t c.path | _ ↦ Unit {0} ]

-- From a fresh matcher, under every interleaving: the cache never passes its bound, and every call
-- that has returned answered what the uncached tests answer for its path.
pub race_free :
    (paths : List Bytes) (es : List Event)
    → let w = run es (fresh paths) in
      (length w.matcher.cache ≤ max_cache_entries)
      × All (Answered (build_matcher paths).table) w.calls
race_free paths es =
    let i : IsConsistent (build_matcher paths).table (run es (fresh paths)) =
      run-IsConsistent _ es _ (fresh-IsConsistent paths) in
    (omega (arith, i.core.bounded), answered _ _ i.calls_right)
  where
    done_right :
        (t : Table) (path : Bytes) (s : Stage)
        → StageRight t path s
        → Answered t (record { path = path; stage = s })
    done_right t path (done e) h = h
    done_right t path loading h = tt
    done_right t path (claiming e) h = tt
    done_right t path (storing e) h = tt
    done_right t path (releasing e) h = tt

    answered : (t : Table) (cs : List Call) → AllRight t cs → All (Answered t) cs
    answered t [] h = tt
    answered t (c ∷ cs) h = (done_right t c.path c.stage h.0, answered t cs h.1)

-- From a fresh matcher, under every interleaving, the counter is the number of entries once all
-- calls have returned: no slot is lost.
pub run-counted :
    (paths : List Bytes) (es : List Event)
    → AllDone (run es (fresh paths)).calls
    → (run es (fresh paths)).matcher.cache_len ≡ length (run es (fresh paths)).matcher.cache
run-counted paths es d =
    let i : IsConsistent (build_matcher paths).table (run es (fresh paths)) =
      run-IsConsistent _ es _ (fresh-IsConsistent paths) in
    omega (arith, i.core.counted, none_claimed _ d)

-- A call that runs alone returns after at most four atomic operations, and is then what `lookup_path`
-- says: the sequential model and the interleaved one agree.
pub alone-lookup_path :
    (m : Matcher) (path : Bytes)
    → run
        (go 0 ∷ go 0 ∷ go 0 ∷ go 0 ∷ [])
        (record { matcher = m; calls = record { path = path; stage = loading } ∷ [] })
      ≡ record {
        matcher = (lookup_path m path).0;
        calls = record { path = path; stage = done (lookup_path m path).1 } ∷ [];
      }
unfolding run step lookup_path
alone-lookup_path m path = ground arith
