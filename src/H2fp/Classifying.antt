-- ===== src/H2fp/Classifying.antt =====
-- internal/h2fp/h2fp.go: where a classification comes from.
use veilgate.Prelude.{
  ℕ, ◌≡◌, ◌≤◌, ◌-◌, ◌⊎◌, ◌≢◌, ◌↔◌, inl, inr, arith, refl, sym, ap, ◌∙◌, true, false, not, ◌&&◌,
  Option, none, some, List, [], ◌∷◌, Bytes, bytes_eq, bytes_beq_iff, nat_eq, ◌==◌, if◌then◌else◌,
  is_empty, Map, IsMap, lookup, insert, lookup-insert, lookup-retain, lookup-retain_kept,
  insert-IsMap, retain-IsMap, Option-cases, Bool-cases,
}
use veilgate.H2fp.{
  Settings, join_commas, h2_fingerprint, H2Match, H2Entry, add_rows, apply_rows, weakened,
  classify_settings, H2Capture, H2Store, new_h2_store, put_settings, is_outdated, get_settings,
  collect_settings, looks_minimal, minimal_match, or_minimal, classify_remote,
}

-- The match of the last row with that key, which is not empty.
unfoldable pub last_row : (H2Entry → Bytes) → Bytes → List H2Entry → Option H2Match
last_row key k [] = none
last_row key k (r ∷ rows) = elim (last_row key k rows) [
  | some m ↦ some m
  | none ↦ if not (is_empty (key r)) && key r == k then some r.matched else none
]

abbrev or_else : Option H2Match → Option H2Match → Option H2Match
or_else (some m) other = some m
or_else none other = other

lookup-add_rows :
    (key : H2Entry → Bytes) (k : Bytes) (rows : List H2Entry) (m : Map Bytes H2Match)
    → lookup k (add_rows key rows m) ≡ or_else (last_row key k rows) (lookup k m)
unfolding add_rows last_row
lookup-add_rows key k [] m = refl
lookup-add_rows key k (r ∷ rows) m = ground (
  arith,
  lookup-add_rows key k rows (if is_empty (key r) then m else insert (key r) r.matched m),
  lookup-insert (key r) k r.matched m,
)

lookup-apply_rows :
    (key : H2Entry → Bytes) (k : Bytes) (rows : List H2Entry)
    → lookup k (add_rows key rows []) ≡ last_row key k rows
unfolding lookup
lookup-apply_rows key k rows = ground (arith, lookup-add_rows key k rows [])

pub data H2Call : Type 0 where
  putting : ℕ → Bytes → Settings → H2Call
  collecting : ℕ → H2Call

-- The store after calls of a new one, the newest call first.
unfoldable pub store_after : ℕ → List H2Call → H2Store
store_after ttl [] = new_h2_store ttl
store_after ttl (putting now remote settings ∷ older) =
    put_settings now remote settings (store_after ttl older)
store_after ttl (collecting now ∷ older) = collect_settings now (store_after ttl older)

-- The newest capture for that address.
abbrev pub Captured : Bytes → Settings → ℕ → List H2Call → Type 0
Captured remote settings t [] = ⊥
Captured remote settings t (putting now r s ∷ older) =
    ((r ≡ remote) × (s ≡ settings) × (now ≡ t)) ⊎ ((r ≢ remote) × Captured remote settings t older)
Captured remote settings t (collecting now ∷ older) = Captured remote settings t older

store_after-IsMap : (ttl : ℕ) (calls : List H2Call) → IsMap (store_after ttl calls).captures
unfolding store_after
store_after-IsMap ttl [] = tt
store_after-IsMap ttl (putting now remote settings ∷ older) =
    insert-IsMap remote (record { settings = settings; captured_at = now })
      (store_after ttl older).captures (store_after-IsMap ttl older)
store_after-IsMap ttl (collecting now ∷ older) =
    retain-IsMap (λ (e : H2Capture). not (is_outdated (store_after ttl older).ttl now e))
      (store_after ttl older).captures (store_after-IsMap ttl older)

store_after-Captured :
    (ttl : ℕ) (calls : List H2Call) (remote : Bytes) (x : H2Capture)
    → lookup remote (store_after ttl calls).captures ≡ some x
    → Captured remote x.settings x.captured_at calls
unfolding store_after
store_after-Captured ttl [] remote x l = unfold lookup in cc
store_after-Captured ttl (putting now r s ∷ older) remote x l =
    let new : H2Capture = record { settings = s; captured_at = now } in
    let q : (if r == remote then some new else lookup remote (store_after ttl older).captures)
        ≡ some x =
      sym (lookup-insert r remote new (store_after ttl older).captures) ∙ l in
    elim (Bool-cases (r == remote)) [
      | inl same ↦
          let i : new ≡ x = ground arith in
          inl (
            (bytes_beq_iff r remote).0 same,
            ap (λ (y : H2Capture). y.settings) i,
            ap (λ (y : H2Capture). y.captured_at) i,
          )
      | inr other ↦ inr (
        λ c. ground (arith, bytes_beq_iff r remote, c),
        store_after-Captured ttl older remote x (ground arith),
      )
    ]
store_after-Captured ttl (collecting now ∷ older) remote x l =
    let s = store_after ttl older in
    let k : lookup remote s.captures ≡ some x = ground (
      arith,
      Option-cases (lookup remote s.captures),
      lookup-retain (λ (e : H2Capture). not (is_outdated s.ttl now e)) remote s.captures
          (store_after-IsMap ttl older),
    ) in
    store_after-Captured ttl older remote x k

-- Nothing is later than that time.
abbrev pub Until : ℕ → List H2Call → Type 0
Until t [] = Unit {0}
Until t (putting now remote settings ∷ older) = (now ≤ t) × Until t older
Until t (collecting now ∷ older) = (now ≤ t) × Until t older

-- The newest capture is in the store as long as it is not too old.
Captured-stored :
    (ttl : ℕ) (calls : List H2Call) (remote : Bytes) (settings : Settings) (t now : ℕ)
    → Captured remote settings t calls
    → Until now calls
    → now - t ≤ (store_after ttl calls).ttl
    → lookup remote (store_after ttl calls).captures
      ≡ some (record { settings = settings; captured_at = t })
unfolding store_after
Captured-stored ttl [] remote settings t now c u le = absurd c
Captured-stored ttl (putting p r s ∷ older) remote settings t now (inl (i, j, k)) (n, u) le =
    let x : H2Capture = record { settings = s; captured_at = p } in
    let y : H2Capture = record { settings = settings; captured_at = t } in
    let same : x ≡ y = λ q. record { settings = j q; captured_at = k q } in
    lookup-insert r remote x (store_after ttl older).captures
    ∙ (ground (arith, bytes_beq_iff r remote) ∙ ap (λ (z : H2Capture). some z) same)
Captured-stored ttl (putting p r s ∷ older) remote settings t now (inr (d, c)) (n, u) le =
    let x : H2Capture = record { settings = s; captured_at = p } in
    let rest = Captured-stored ttl older remote settings t now c u le in
    let other : r == remote ≡ false = elim (Bool-cases (r == remote)) [
      | inl e ↦ absurd (d ((bytes_beq_iff r remote).0 e))
      | inr e ↦ e
    ] in
    lookup-insert r remote x (store_after ttl older).captures ∙ rw other rest
Captured-stored ttl (collecting p ∷ older) remote settings t now c (n, u) le =
    let s = store_after ttl older in
    lookup-retain_kept (λ (e : H2Capture). not (is_outdated s.ttl p e)) remote
      (record { settings = settings; captured_at = t }) s.captures
      (Captured-stored ttl older remote settings t now c u le) (ground arith)

-- The last row for the fingerprint, or else for the order of the pseudo-headers, with less confidence,
-- or else, where no row matches, settings left at their defaults.
abbrev pub Explained : (Bytes → Bytes) → List H2Entry → Settings → H2Match → Type 0
Explained sha1 rows s m =
    let by_hash = last_row (λ (r : H2Entry). r.hash) (h2_fingerprint sha1 s) rows in
    let by_order = last_row (λ (r : H2Entry). r.pseudo) (join_commas s.pseudo) rows in
    (by_hash ≡ some m)
    ⊎ (((by_hash ≡ none) × (weakened by_order ≡ some m) × (m.confidence ≤ 60))
        ⊎ ((by_hash ≡ none) × (by_order ≡ none) × (looks_minimal s ≡ true) × (m ≡ minimal_match)))

-- No row has an empty key.
last_row-blank : (key : H2Entry → Bytes) (rows : List H2Entry) → last_row key [] rows ≡ none
unfolding last_row
last_row-blank key [] = refl
last_row-blank key (r ∷ rows) = ground (arith, last_row-blank key rows, bytes_beq_iff (key r) [])

join_commas-blank : (xs : List Bytes) → is_empty xs ≡ true → join_commas xs ≡ []
unfolding join_commas
join_commas-blank [] h = refl
join_commas-blank (x ∷ xs) h = cc

-- The database and the test for defaults, by the rows.
by_rows :
    (sha1 : Bytes → Bytes) (rows : List H2Entry) (s : Settings)
    → or_minimal s (classify_settings sha1 (apply_rows rows) s)
      ≡ or_minimal s (
          or_else
            (last_row (λ (r : H2Entry). r.hash) (h2_fingerprint sha1 s) rows)
            (weakened (last_row (λ (r : H2Entry). r.pseudo) (join_commas s.pseudo) rows)))
unfolding classify_settings
by_rows sha1 rows s =
    let hash = lookup-apply_rows (λ (r : H2Entry). r.hash) (h2_fingerprint sha1 s) rows in
    let order = lookup-apply_rows (λ (r : H2Entry). r.pseudo) (join_commas s.pseudo) rows in
    elim (Bool-cases (is_empty s.pseudo)) [
      | inl e ↦
          let blank : last_row (λ (r : H2Entry). r.pseudo) (join_commas s.pseudo) rows ≡ none =
            ap (λ k. last_row (λ (r : H2Entry). r.pseudo) k rows) (join_commas-blank s.pseudo e)
            ∙ last_row-blank (λ (r : H2Entry). r.pseudo) rows in
          ground (arith, hash)
      | inr e ↦ ground (arith, hash, order)
    ]

chosen :
    (s : Settings) (by_hash by_order : Option H2Match) (m : H2Match)
    → or_minimal s (or_else by_hash (weakened by_order)) ≡ some m
    → (by_hash ≡ some m)
      ⊎ (((by_hash ≡ none) × (weakened by_order ≡ some m) × (m.confidence ≤ 60))
          ⊎ ((by_hash ≡ none) × (by_order ≡ none) × (looks_minimal s ≡ true) × (m ≡ minimal_match)))
chosen s (some x) by_order m h = inl h
chosen s none (some y) m h = inr (inl (refl, h, ground arith))
chosen s none none m h = inr (inr (refl, refl, ground arith, ground arith))

chosen_back :
    (s : Settings) (by_hash by_order : Option H2Match) (m : H2Match)
    → (by_hash ≡ some m)
      ⊎ (((by_hash ≡ none) × (weakened by_order ≡ some m) × (m.confidence ≤ 60))
          ⊎ ((by_hash ≡ none) × (by_order ≡ none) × (looks_minimal s ≡ true) × (m ≡ minimal_match)))
    → or_minimal s (or_else by_hash (weakened by_order)) ≡ some m
chosen_back s by_hash by_order m (inl h) = ground arith
chosen_back s by_hash by_order m (inr (inl (n, h, le))) = ground arith
chosen_back s by_hash by_order m (inr (inr (n, o, d, q))) = ground arith

-- At a time no earlier than any capture and collection of a new store, a classification of an address
-- is given exactly if it is explained by the newest settings captured for it, no longer ago than the
-- time to live: it is that of the last row for their fingerprint; or else that of the last row for the
-- order of their pseudo-headers, with a confidence of at most 60; or else, where no row matches, it is
-- the one for settings that look like a library's.
pub classify_remote_iff :
    (sha1 : Bytes → Bytes) (rows : List H2Entry) (ttl : ℕ) (calls : List H2Call)
    → (now : ℕ) (remote : Bytes) (m : H2Match) → Until now calls
    → (classify_remote sha1 (apply_rows rows) now remote (store_after ttl calls) ≡ some m) ↔ (
        (settings : Settings) × (t : ℕ) × Captured remote settings t calls
        × (now - t ≤ (store_after ttl calls).ttl)
        × Explained sha1 rows settings m)
unfolding classify_remote get_settings
classify_remote_iff sha1 rows ttl calls now remote m u = (
  λ h. elim (Option-cases (lookup remote (store_after ttl calls).captures)) [
    | inl e ↦ absurd (ground arith)
    | inr (x, e) ↦ (
      x.settings,
      x.captured_at,
      store_after-Captured ttl calls remote x e,
      ground arith,
      chosen x.settings _ _ m (sym (by_rows sha1 rows x.settings) ∙ ground arith),
    )
  ],
  λ (settings, t, c, le, why).
      let l = Captured-stored ttl calls remote settings t now c u le in
      let q = by_rows sha1 rows settings ∙ chosen_back settings _ _ m why in ground (arith, l, q),
)
