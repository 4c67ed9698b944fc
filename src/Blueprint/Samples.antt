-- ===== src/Blueprint/Samples.antt =====
-- Runs of the matcher, alone and with two calls at once, and the theorems at these.
use veilgate.Prelude.{
  runs, ◌≡◌, ◌≤◌, ◌↔◌, refl, List, [], ◌∷◌, Bytes, codes, true, false, length, All,
}
use veilgate.Blueprint.{
  Matcher, build_matcher, parse_route, split_path, evaluate, lookup_path, max_cache_entries,
}
use veilgate.Blueprint.Matching.{Fits, Among}
use veilgate.Blueprint.Documented.{Covered, evaluate-matched_iff}
use veilgate.Blueprint.Slots.{Event, arrive, go, run}
use veilgate.Blueprint.Races.{fresh, Answered, race_free}

abbrev documented : List Bytes
documented = codes "/api/users/{id}" ∷ codes "/api/Health" ∷ codes "/{tenant}/x" ∷ []

abbrev sample : Matcher
unfolding build_matcher
sample = build_matcher documented

known : evaluate sample.table (codes "/API/users/42/") ≡ record { in_ns = true; matched = true }
unfolding runs evaluate build_matcher
known = refl

missing : (lookup_path sample (codes "/api/admin")).1 ≡ record { in_ns = true; matched = false }
unfolding runs lookup_path build_matcher
missing = refl

-- An inner segment may be empty, and a placeholder takes it.
empty_segment : (evaluate sample.table (codes "/api/users//")).matched ≡ false
unfolding runs evaluate build_matcher
empty_segment = refl

empty_inner :
    (evaluate (build_matcher (codes "/a/{id}/b" ∷ [])).table (codes "/a//b")).matched ≡ true
unfolding runs evaluate build_matcher
empty_inner = refl

evaluate-matched_iff_example :
    ((evaluate (build_matcher documented).table (codes "/api/users/1")).matched ≡ true) ↔ (
      Covered documented (split_path (codes "/api/users/1"))
      × Among (λ p. Fits (parse_route p) (split_path (codes "/api/users/1"))) documented)
evaluate-matched_iff_example = evaluate-matched_iff documented (codes "/api/users/1")

-- Two calls for one path, one step each in turn.
abbrev turns : List Event
turns =
    arrive (codes "/api/health")
    ∷ arrive (codes "/api/health/")
    ∷ go 0
    ∷ go 1
    ∷ go 0
    ∷ go 1
    ∷ go 0
    ∷ go 1
    ∷ go 1
    ∷ []

race_free_example :
    (length (run turns (fresh documented)).matcher.cache ≤ max_cache_entries)
    × All (Answered (build_matcher documented).table) (run turns (fresh documented)).calls
race_free_example = race_free documented turns
