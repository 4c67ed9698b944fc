-- ===== src/Prelude/Maps.antt =====
-- Go maps as association lists with one entry for each key.
use Prim.Native.Nat.{◌+◌}
use mathlib.Core.Path.{◌≡◌, refl}
use mathlib.Core.Bool.{Bool, true}
use mathlib.Core.List.{List, [], ◌∷◌}
use mathlib.Core.Logic.{inl, inr}
use mathlib.Core.Option.{Option, none, some}
use native.Mathlib.Omega.{arith}
use veilgate.Prelude.Tests.{Eq, ◌==◌, if◌then◌else◌, is_some, Bool-cases}
use veilgate.Prelude.Lists.{length, filter}

abbrev pub Map : Type 0 → Type 0 → Type 0
Map K V = List (K × V)

module _ {K V : Type 0} ⦃e : Eq K⦄ where
  -- `v, ok := m[k]`
  unfoldable pub lookup : K → Map K V → Option V
  lookup k [] = none
  lookup k ((l, u) ∷ rest) = if l == k then some u else lookup k rest

  -- `m[k] = v`
  unfoldable pub insert : K → V → Map K V → Map K V
  insert k v [] = (k, v) ∷ []
  insert k v ((l, u) ∷ rest) =
      let rest' = insert k v rest in if l == k then (k, v) ∷ rest else (l, u) ∷ rest'

  abbrev pub has : K → Map K V → Bool
  has k m = is_some (lookup k m)

  -- `for k, v := range m { if !keep { delete(m, k) } }`
  abbrev pub retain : (V → Bool) → Map K V → Map K V
  retain keep m = filter (λ kv. keep kv.1) m

  -- No key has two entries.
  abbrev pub IsMap : Map K V → Type 0
  IsMap [] = Unit {0}
  IsMap ((k, v) ∷ m) = (lookup k m ≡ none) × IsMap m

  pub lookup-insert :
      (k j : K) (new : V) (m : Map K V)
      → lookup j (insert k new m) ≡ (if k == j then some new else lookup j m)
  unfolding lookup insert
  lookup-insert k j new [] = refl
  lookup-insert k j new ((l, u) ∷ rest) =
      ground (arith, e.beq_iff k j, e.beq_iff l k, e.beq_iff l j, lookup-insert k j new rest)

  pub insert-IsMap : (k : K) (v : V) (m : Map K V) → IsMap m → IsMap (insert k v m)
  unfolding lookup insert
  insert-IsMap k v [] h = (refl, tt)
  insert-IsMap k v ((j, w) ∷ m) h = elim (Bool-cases (j == k)) [
    | inl same ↦ ground (arith, e.beq_iff j k)
    | inr other ↦ rw other (
      ground (arith, lookup-insert k j v m, e.beq_iff j k, e.beq_iff k j),
      insert-IsMap k v m h.1,
    )
  ]

  pub length-insert :
      (k : K) (v : V) (m : Map K V)
      → length (insert k v m) ≡ (if has k m then length m else length m + 1)
  unfolding lookup insert
  length-insert k v [] = omega arith
  length-insert k v ((j, w) ∷ m) = ground (arith, length-insert k v m)

  lookup-retain-none :
      (keep : V → Bool) (k : K) (m : Map K V) → lookup k m ≡ none → lookup k (retain keep m) ≡ none
  unfolding lookup
  lookup-retain-none keep k [] h = refl
  lookup-retain-none keep k ((j, w) ∷ m) h = ground (arith, lookup-retain-none keep k m)

  pub lookup-retain :
      (keep : V → Bool) (k : K) (m : Map K V)
      → IsMap m
      → lookup k (retain keep m)
        ≡ elim (lookup k m) [ none ↦ none | some v ↦ if keep v then some v else none ]
  unfolding lookup
  lookup-retain keep k [] h = refl
  lookup-retain keep k ((j, w) ∷ m) h =
      ground (arith, lookup-retain keep k m h.1, lookup-retain-none keep k m, e.beq_iff j k)

  pub retain-IsMap : (keep : V → Bool) (m : Map K V) → IsMap m → IsMap (retain keep m)
  retain-IsMap keep [] h = tt
  retain-IsMap keep ((j, w) ∷ m) h =
      ground (arith, lookup-retain-none keep j m, retain-IsMap keep m h.1)

module _ {K V : Type 0} ⦃e : Eq K⦄ where
  -- `delete(m, k)`
  unfoldable pub remove : K → Map K V → Map K V
  remove k [] = []
  remove k ((l, u) ∷ rest) = let rest' = remove k rest in if l == k then rest' else (l, u) ∷ rest'

  pub lookup-remove :
      (k j : K) (m : Map K V) → lookup j (remove k m) ≡ (if k == j then none else lookup j m)
  unfolding lookup remove
  lookup-remove k j [] = ground arith
  lookup-remove k j ((l, u) ∷ rest) =
      ground (arith, e.beq_iff k j, e.beq_iff l k, e.beq_iff l j, lookup-remove k j rest)

  pub remove-IsMap : (k : K) (m : Map K V) → IsMap m → IsMap (remove k m)
  unfolding remove
  remove-IsMap k [] h = tt
  remove-IsMap k ((l, u) ∷ rest) h = ground (arith, remove-IsMap k rest h.1, lookup-remove k l rest)

module _ {K V : Type 0} ⦃e : Eq K⦄ where
  -- The first entry of a key stays the first, where it is kept.
  pub lookup-retain_kept :
      (keep : V → Bool) (k : K) (v : V) (m : Map K V)
      → lookup k m ≡ some v
      → keep v ≡ true
      → lookup k (retain keep m) ≡ some v
  unfolding lookup
  lookup-retain_kept keep k v [] h t = cc
  lookup-retain_kept keep k v ((j, w) ∷ m) h t = ground (arith, lookup-retain_kept keep k v m)
