-- ===== src/Blueprint/Documented.antt =====
-- internal/blueprint/matcher.go: what a path has to do with the blueprint for `Lookup` to answer
-- that it is in the namespace, or that it is matched.
use mathlib.Core.List.{Memᴰ}
use veilgate.Prelude.{
  subst, ap, ◌≡◌, refl, sym, ◌↔◌, ◌⊎◌, inl, inr, ◌≢◌, arith, true, false, List, [], ◌∷◌, map, Bytes,
  bytes_eq, bytes_beq_iff, to_lower, has, lookup, lookup-insert, Bool-cases,
}
use veilgate.Blueprint.{
  Seg, Route, Table, split_path, parse_seg, parse_route, is_placeholder, first_known, add_route,
  add_routes, build_matcher, in_namespace, matches, evaluate,
}
use veilgate.Blueprint.Matching.{
  Fits, end, param, same, Among, earlier, routes→, routes←, matches_iff,
}

abbrev empty_table : Table
empty_table = record { routes = []; namespace = [] }

abbrev pub StartsWith : Bytes → Route → Type 0
StartsWith lit q = (s : Seg) × (r : Route) × (q ≡ s ∷ r) × (s.is_param ≡ false) × (s.literal ≡ lit)

-- A documented path whose first segment is the literal.
abbrev pub Literal : Bytes → Bytes → Type 0
Literal lit p = StartsWith lit (parse_route p)

-- A documented path whose first segment is a literal, the lower case of `first`.
abbrev pub Opens : Bytes → Bytes → Type 0
Opens first p = Literal (to_lower first) p

add_route-has→ :
    (m : Table) (lit : Bytes) (q : Route)
    → has lit (add_route m q).namespace ≡ true
    → (has lit m.namespace ≡ true) ⊎ StartsWith lit q
unfolding add_route
add_route-has→ m lit [] h = inl h
add_route-has→ m lit (s ∷ q) h = elim (Bool-cases s.is_param) [
  | inl p ↦ inl (rw p at h)
  | inr lone ↦ elim (Bool-cases (bytes_eq.beq s.literal lit)) [
    | inl e ↦ inr (s, q, refl, lone, (bytes_beq_iff s.literal lit).0 e)
    | inr n ↦ inl (ground (arith, lookup-insert s.literal lit tt m.namespace))
  ]
]

add_route-has :
    (m : Table) (lit : Bytes) (q : Route)
    → (has lit m.namespace ≡ true) ⊎ StartsWith lit q
    → has lit (add_route m q).namespace ≡ true
unfolding add_route
add_route-has m lit [] (inl h) = h
add_route-has m lit [] (inr (s, r, e, _, _)) = cc
add_route-has m lit (s ∷ q) (inl h) = ground (arith, lookup-insert s.literal lit tt m.namespace)
add_route-has m lit (s ∷ q) (inr (t, r, e, lone, l)) =
    ground (arith, lookup-insert s.literal lit tt m.namespace, bytes_beq_iff s.literal lit)

has→ :
    (m : Table) (lit : Bytes) (paths : List Bytes)
    → has lit (add_routes m paths).namespace ≡ true
    → (has lit m.namespace ≡ true) ⊎ Among (Literal lit) paths
unfolding add_routes
has→ m lit [] h = inl h
has→ m lit (p ∷ paths) h = elim (has→ (add_route m (parse_route p)) lit paths h) [
  | inr a ↦ inr (earlier a)
  | inl here ↦ elim (add_route-has→ m lit (parse_route p) here) [
    | inl old ↦ inl old
    | inr l ↦ inr (p, Memᴰ.head refl, l)
  ]
]

has_kept :
    (m : Table) (lit : Bytes) (paths : List Bytes)
    → has lit m.namespace ≡ true
    → has lit (add_routes m paths).namespace ≡ true
unfolding add_routes
has_kept m lit [] h = h
has_kept m lit (p ∷ paths) h =
    has_kept (add_route m (parse_route p)) lit paths (add_route-has m lit _ (inl h))

has← :
    {p : Bytes} (m : Table) (lit : Bytes) {paths : List Bytes}
    → Memᴰ p paths
    → Literal lit p
    → has lit (add_routes m paths).namespace ≡ true
unfolding add_routes
has← m lit (Memᴰ.head {x = q} {xs = paths} e) h =
    has_kept (add_route m (parse_route q)) lit paths (rw (← e) (add_route-has m lit _ (inr h)))
has← m lit (Memᴰ.tail {x = q} d) h = has← (add_route m (parse_route q)) lit d h

-- The first segment of the path opens a documented path.
abbrev pub Covered : List Bytes → List Bytes → Type 0
Covered paths [] = ⊥
Covered paths (first ∷ _) = Among (Opens first) paths

first_known_iff :
    (paths parts : List Bytes)
    → (first_known (build_matcher paths).table.namespace parts ≡ true) ↔ Covered paths parts
unfolding first_known build_matcher lookup
first_known_iff paths [] = (λ h. cc, λ h. absurd h)
first_known_iff paths (first ∷ _) = (
  λ h. elim (has→ empty_table (to_lower first) paths h) [ inl none_yet ↦ cc | inr a ↦ a ],
  λ a. has← empty_table (to_lower first) a.1 a.2,
)

-- A path lies in the namespace of a blueprint exactly if its first segment is, up to case, the
-- first segment of a documented path and no placeholder there.
pub in_namespace_iff :
    (paths : List Bytes) (path : Bytes)
    → (in_namespace (build_matcher paths).table path ≡ true) ↔ Covered paths (split_path path)
unfolding in_namespace
in_namespace_iff paths path = first_known_iff paths (split_path path)

Fits-nonempty : {r : Route} {part : Bytes} {parts : List Bytes} → Fits r (part ∷ parts) → r ≢ []
Fits-nonempty (param _ _) = λ e. cc
Fits-nonempty (same _ _) = λ e. cc

route-RouteAmong :
    (paths parts : List Bytes)
    → Covered paths parts
    → ((r : Route) × Memᴰ r (build_matcher paths).table.routes × Fits r parts)
      ↔ Among (λ p. Fits (parse_route p) parts) paths
unfolding build_matcher
route-RouteAmong paths [] c = absurd c
route-RouteAmong paths (part ∷ parts) c = (
  λ (r, m, f). elim (routes→ empty_table r paths m) [
    | inl nowhere ↦ elim nowhere [ ]
    | inr (p, d, (e, _)) ↦ (p, d, rw e f)
  ],
  λ (p, d, f). (parse_route p, routes← empty_table d (Fits-nonempty f), f),
)

-- `Lookup` calls a path matched exactly if a documented path fits it, segment by segment, and its
-- first segment opens a documented path.
pub evaluate-matched_iff :
    (paths : List Bytes) (path : Bytes)
    → ((evaluate (build_matcher paths).table path).matched ≡ true) ↔ (
        Covered paths (split_path path) × Among (λ p. Fits (parse_route p) (split_path path)) paths)
unfolding evaluate
evaluate-matched_iff paths path = (
  λ h.
      let c : Covered paths (split_path path) = (in_namespace_iff paths path).0 (ground arith) in
      let fits : matches (build_matcher paths).table path ≡ true = ground arith in
      (c, (route-RouteAmong paths _ c).0 ((matches_iff (build_matcher paths).table path).0 fits)),
  λ (c, a).
      rw ((in_namespace_iff paths path).1 c)
        ((matches_iff (build_matcher paths).table path).1 ((route-RouteAmong paths _ c).1 a)),
)

parse-Fits : (parts : List Bytes) → Fits (map parse_seg parts) parts
unfolding parse_seg
parse-Fits [] = end
parse-Fits (p ∷ parts) = elim (Bool-cases (is_placeholder p)) [
  | inl h ↦ param (rw h) (parse-Fits parts)
  | inr h ↦ same (rw h) (parse-Fits parts)
]

Opens-path :
    (path first : Bytes) (rest : List Bytes)
    → split_path path ≡ first ∷ rest
    → (parse_seg first).is_param ≡ false
    → Opens first path
unfolding parse_route parse_seg
Opens-path path first rest e lone =
    (parse_seg first, map parse_seg rest, ap (map parse_seg) e, lone, ground arith)

-- A documented path that does not begin with a placeholder is in the namespace and matched.
pub documented_path-matched :
    (paths : List Bytes) (path : Bytes)
    → Memᴰ path paths
    → (first : Bytes) (rest : List Bytes) → split_path path ≡ first ∷ rest
    → (parse_seg first).is_param ≡ false
    → (evaluate (build_matcher paths).table path).matched ≡ true
documented_path-matched paths path d first rest e lone = (evaluate-matched_iff paths path).1 (
  subst (λ parts. Covered paths parts) (sym e) (path, d, Opens-path path first rest e lone),
  (path, d, unfold parse_route in parse-Fits (split_path path)),
)
