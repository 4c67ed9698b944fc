-- ===== src/Detector/Scorer/Custom.antt =====
-- internal/detector/scorer_custom.go: the operator's registry of signals. A custom signal with
-- negative points is not modelled; regular expressions are an argument.
use veilgate.Prelude.{
  ℕ, Bool, false, not, ◌&&◌, ◌||◌, Option, none, some, List, [], ◌∷◌, Bytes, codes, ltb, ◌==◌,
  nat_eq, bytes_eq, if◌then◌else◌, is_empty, all, contains, has_prefix, has_suffix, to_lower,
  equal_fold, Map, lookup,
}
use veilgate.Http.{header_get}
use veilgate.Detector.Scorer.{Signal, signal, no_signal, Hit, user_agent}

pub record SignalEntry : Type 0 where
  pub enabled : Bool
  pub points : ℕ

pub record Condition : Type 0 where
  pub kind : Bytes
  pub name : Bytes
  pub value : Bytes

pub record CustomSignal : Type 0 where
  pub name : Bytes
  pub description : Bytes
  pub enabled : Bool
  pub points : ℕ
  pub conditions : List Condition

pub record Signals : Type 0 where
  pub signals : Map Bytes SignalEntry
  pub custom_signals : List CustomSignal

-- What the registry makes of one signal.
abbrev pub configured : Option SignalEntry → Signal → Option Signal
configured none sig = some sig
configured (some entry) sig =
    if not entry.enabled
    then none
    else if ltb 0 entry.points
    then some (signal sig.name entry.points sig.reason)
    else some sig

abbrev pub keep_some : Option Signal → List Signal → List Signal
keep_some none rest = rest
keep_some (some sig) rest = sig ∷ rest

-- `applySignalConfig`
unfoldable pub apply_signal_config : Map Bytes SignalEntry → List Signal → List Signal
apply_signal_config entries [] = []
apply_signal_config entries (sig ∷ sigs) =
    keep_some (configured (lookup sig.name entries) sig) (apply_signal_config entries sigs)

-- `matchCondition`; `regex` says whether a pattern compiles and matches a path.
unfoldable pub match_condition : (Bytes → Bytes → Bool) → Hit → Condition → Bool
match_condition regex hit cond =
    let r = hit.request in
    let path = to_lower r.path in
    let val = to_lower cond.value in
    if cond.kind == codes "path_prefix"
    then has_prefix path val
    else if cond.kind == codes "path_contains"
    then contains path val
    else if cond.kind == codes "path_suffix"
    then has_suffix path val
    else if cond.kind == codes "path_regex"
    then regex cond.value r.path
    else if cond.kind == codes "ua_contains"
    then contains (to_lower (user_agent r)) val
    else if cond.kind == codes "header_present"
    then not (is_empty (header_get cond.name r))
    else if cond.kind == codes "header_value"
    then contains (to_lower (header_get cond.name r)) val
    else if cond.kind == codes "query_contains"
    then contains (to_lower hit.raw_query) val
    else if cond.kind == codes "method"
    then equal_fold r.method cond.value
    else false

abbrev pub is_live : CustomSignal → Bool
is_live cs = cs.enabled && (not (cs.points == 0) && not (is_empty cs.conditions))

-- `scoreCustomSignals`
unfoldable pub score_custom_signals : (Bytes → Bytes → Bool) → List CustomSignal → Hit → List Signal
score_custom_signals regex [] hit = []
score_custom_signals regex (cs ∷ css) hit =
    let rest = score_custom_signals regex css hit in
    if is_live cs && all (match_condition regex hit) cs.conditions
    then signal cs.name cs.points cs.description ∷ rest
    else rest

-- `scoreAPIBlueprintMiss`, given whether the path is in the namespace and matched; `none` where
-- there is no blueprint, or an empty one.
unfoldable pub score_api_blueprint_miss : Option (Bool × Bool) → Signal
score_api_blueprint_miss none = no_signal
score_api_blueprint_miss (some (in_namespace, matched)) =
    if not in_namespace || matched
    then no_signal
    else signal (codes "api_blueprint_miss") 15
        (codes "path is in the API namespace but not in the blueprint")
