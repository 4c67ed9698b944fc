-- ===== src/Blueprint/Matching.antt =====
-- internal/blueprint/matcher.go: what the scan over the routes decides, and what the table that is
-- built from a blueprint answers.
use mathlib.Core.List.{Memᴰ}
use veilgate.Prelude.{
  ◌≡◌, refl, sym, ◌↔◌, ◌⊎◌, inl, inr, ◌≢◌, arith, true, List, [], ◌∷◌, ◌++◌, Bytes, nat_eq,
  bytes_eq, bytes_beq_iff, any, to_lower, Bool-cases, ||-true,
}
use veilgate.Blueprint.{
  Seg, Route, Table, split_path, parse_route, add_route, add_routes, route_fits, matches,
}

-- A route fits the segments of a path: one segment each, a literal up to case, a placeholder freely.
pub data Fits : Route → List Bytes → Type 0 where
  end : Fits [] []
  param :
      {s : Seg} {r : Route} {p : Bytes} {parts : List Bytes}
      → s.is_param ≡ true
      → Fits r parts
      → Fits (s ∷ r) (p ∷ parts)
  same :
      {s : Seg} {r : Route} {p : Bytes} {parts : List Bytes}
      → s.literal ≡ to_lower p
      → Fits r parts
      → Fits (s ∷ r) (p ∷ parts)

Fits-cons :
    {s : Seg} {r : Route} {p : Bytes} {parts : List Bytes}
    → ((s.is_param ≡ true) ⊎ (s.literal ≡ to_lower p))
    → Fits r parts
    → Fits (s ∷ r) (p ∷ parts)
Fits-cons (inl h) f = param h f
Fits-cons (inr h) f = same h f

route_fits→Fits : (r : Route) (parts : List Bytes) → route_fits parts r ≡ true → Fits r parts
unfolding route_fits
route_fits→Fits [] [] h = end
route_fits→Fits [] (p ∷ parts) h = absurd (ground arith)
route_fits→Fits (s ∷ r) [] h = absurd (ground arith)
route_fits→Fits (s ∷ r) (p ∷ parts) h =
    Fits-cons (ground (arith, bytes_beq_iff s.literal (to_lower p)))
      (route_fits→Fits r parts (ground arith))

Fits→route-Fits : {r : Route} {parts : List Bytes} → Fits r parts → route_fits parts r ≡ true
unfolding route_fits
Fits→route-Fits end = refl
Fits→route-Fits (param h f) = ground (arith, Fits→route-Fits f)
Fits→route-Fits (same {s} {p} h f) =
    ground (arith, Fits→route-Fits f, bytes_beq_iff s.literal (to_lower p))

abbrev pub Among : (Bytes → Type 0) → List Bytes → Type 0
Among P paths = (p : Bytes) × Memᴰ p paths × P p

any→Memᴰ :
    (parts : List Bytes) (rs : List Route)
    → any (route_fits parts) rs ≡ true
    → (r : Route) × Memᴰ r rs × Fits r parts
any→Memᴰ parts [] h = cc
any→Memᴰ parts (r ∷ rs) h = elim (Bool-cases (route_fits parts r)) [
  | inl fits ↦ (r, Memᴰ.head refl, route_fits→Fits r parts fits)
  | inr no_fit ↦ let (q, m, f) = any→Memᴰ parts rs (ground arith) in (q, Memᴰ.tail m, f)
]

Memᴰ→any :
    (parts : List Bytes) {r : Route} {rs : List Route}
    → Memᴰ r rs
    → Fits r parts
    → any (route_fits parts) rs ≡ true
Memᴰ→any parts {r} (Memᴰ.head {xs = rs} e) f =
    rw (← e)
      ((||-true (route_fits parts r) (any (route_fits parts) rs)).1 (inl (Fits→route-Fits f)))
Memᴰ→any parts (Memᴰ.tail {x = q} {xs = rs} m) f =
    (||-true (route_fits parts q) (any (route_fits parts) rs)).1 (inr (Memᴰ→any parts m f))

-- The scan over the routes answers true exactly if some route of the table fits the path.
pub matches_iff :
    (m : Table) (path : Bytes)
    → (matches m path ≡ true) ↔ ((r : Route) × Memᴰ r m.routes × Fits r (split_path path))
unfolding matches
matches_iff m path = (any→Memᴰ _ m.routes, λ f. Memᴰ→any _ f.1 f.2)

abbrev pub RouteAmong : List Bytes → Route → Type 0
RouteAmong paths r = Among (λ p. (parse_route p ≡ r) × (r ≢ [])) paths

nonempty : (s : Seg) (r : Route) → s ∷ r ≢ []
nonempty s r = λ e. cc

more {ℓ} : {A : Type ℓ} {x : A} (xs ys : List A) → Memᴰ x xs → Memᴰ x (xs ++ ys)
more [] ys m = elim m [ ]
more (y ∷ xs) ys (Memᴰ.head e) = Memᴰ.head e
more (y ∷ xs) ys (Memᴰ.tail m) = Memᴰ.tail (more xs ys m)

last_one {ℓ} : {A : Type ℓ} {x : A} (xs : List A) → Memᴰ x (xs ++ x ∷ [])
last_one [] = Memᴰ.head refl
last_one (y ∷ xs) = Memᴰ.tail (last_one xs)

split_more {ℓ} : {A : Type ℓ} {x y : A} (xs : List A) → Memᴰ x (xs ++ y ∷ []) → Memᴰ x xs ⊎ (x ≡ y)
split_more [] (Memᴰ.head e) = inr e
split_more [] (Memᴰ.tail m) = elim m [ ]
split_more (z ∷ xs) (Memᴰ.head e) = inl (Memᴰ.head e)
split_more (z ∷ xs) (Memᴰ.tail m) = elim (split_more xs m) [
  | inl n ↦ inl (Memᴰ.tail n)
  | inr e ↦ inr e
]

pub earlier :
    {P : Bytes → Type 0} {q : Bytes} {paths : List Bytes} → Among P paths → Among P (q ∷ paths)
earlier a = (a.0, Memᴰ.tail a.1, a.2)

add_route-kept : (m : Table) (r q : Route) → Memᴰ r m.routes → Memᴰ r (add_route m q).routes
unfolding add_route
add_route-kept m r [] h = h
add_route-kept m r (s ∷ q) h = more m.routes _ h

add_route-new : (m : Table) (r : Route) → r ≢ [] → Memᴰ r (add_route m r).routes
unfolding add_route
add_route-new m [] h = absurd (h refl)
add_route-new m (s ∷ q) h = last_one m.routes

add_route-routes :
    (m : Table) (r q : Route)
    → Memᴰ r (add_route m q).routes
    → Memᴰ r m.routes ⊎ ((q ≡ r) × (r ≢ []))
unfolding add_route
add_route-routes m r [] h = inl h
add_route-routes m r (s ∷ q) h = elim (split_more m.routes h) [
  | inl old ↦ inl old
  | inr e ↦ inr (sym e, rw e (nonempty s q))
]

pub routes→ :
    (m : Table) (r : Route) (paths : List Bytes)
    → Memᴰ r (add_routes m paths).routes
    → Memᴰ r m.routes ⊎ RouteAmong paths r
unfolding add_routes
routes→ m r [] h = inl h
routes→ m r (p ∷ paths) h = elim (routes→ (add_route m (parse_route p)) r paths h) [
  | inr a ↦ inr (earlier a)
  | inl here ↦ elim (add_route-routes m r (parse_route p) here) [
    | inl old ↦ inl old
    | inr e ↦ inr (p, Memᴰ.head refl, e)
  ]
]

routes_kept :
    (m : Table) (r : Route) (paths : List Bytes)
    → Memᴰ r m.routes
    → Memᴰ r (add_routes m paths).routes
unfolding add_routes
routes_kept m r [] h = h
routes_kept m r (p ∷ paths) h =
    routes_kept (add_route m (parse_route p)) r paths (add_route-kept m r _ h)

pub routes← :
    {p : Bytes} (m : Table) {paths : List Bytes}
    → Memᴰ p paths
    → parse_route p ≢ []
    → Memᴰ (parse_route p) (add_routes m paths).routes
unfolding add_routes
routes← {p} m (Memᴰ.head {xs = paths} e) h =
    routes_kept (add_route m _) (parse_route p) paths (rw (← e) (add_route-new m (parse_route p) h))
routes← m (Memᴰ.tail {x = q} d) h = routes← (add_route m (parse_route q)) d h
