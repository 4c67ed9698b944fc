-- ===== src/Prelude/Search.antt =====
-- Where a text is found in another one, and in what the other one is a beginning of.
use Prim.Native.Nat.{ℕ, suc, ◌+◌, ◌≤◌}
use mathlib.Core.Path.{◌≡◌, refl}
use mathlib.Core.Logic.{inl, inr}
use mathlib.Core.Bool.{true}
use mathlib.Core.Option.{none, some, none-ne-some}
use mathlib.Core.List.{[], ◌∷◌, ◌++◌}
use native.Mathlib.Omega.{arith}
use veilgate.Prelude.Tests.{Bool-cases, Option-cases, ◌==◌, nat_eq}
use veilgate.Prelude.Lists.{length}
use veilgate.Prelude.Text.{Bytes, has_prefix, contains, index, cut}

has_prefix-append : (s t p : Bytes) → length p ≤ length s → has_prefix (s ++ t) p ≡ has_prefix s p
unfolding has_prefix
has_prefix-append [] [] [] h = refl
has_prefix-append [] (b ∷ t) [] h = refl
has_prefix-append [] t (d ∷ p) h = absurd (omega arith)
has_prefix-append (c ∷ s) t [] h = refl
has_prefix-append (c ∷ s) t (d ∷ p) h = ground (arith, has_prefix-append s t p)

has_prefix-length : (s p : Bytes) → has_prefix s p ≡ true → length p ≤ length s
unfolding has_prefix
has_prefix-length [] [] h = omega arith
has_prefix-length [] (d ∷ p) h = cc
has_prefix-length (c ∷ s) [] h = omega arith
has_prefix-length (c ∷ s) (d ∷ p) h = ground (arith, has_prefix-length s p)

module _ (d : ℕ) (p : Bytes) where
  pub index-bound : (s : Bytes) {i : ℕ} → index s (d ∷ p) ≡ some i → i + length (d ∷ p) ≤ length s
  unfolding index
  index-bound [] h = cc
  index-bound (c ∷ s) {i} h = elim (Option-cases (index s (d ∷ p))) [
    | inl e ↦ ground (arith, has_prefix-length (c ∷ s) (d ∷ p))
    | inr (j, e) ↦ ground (arith, has_prefix-length (c ∷ s) (d ∷ p), index-bound s {i = j} e)
  ]

  pub index-append :
      (s t : Bytes) {i : ℕ} → index s (d ∷ p) ≡ some i → index (s ++ t) (d ∷ p) ≡ some i
  unfolding index
  index-append [] t h = cc
  index-append (c ∷ s) t {i} h = elim (Option-cases (index s (d ∷ p))) [
    | inl e ↦ ground (arith, has_prefix-length (c ∷ s) (d ∷ p), has_prefix-append (c ∷ s) t (d ∷ p))
    | inr (j, e) ↦ ground (
      arith,
      has_prefix-append (c ∷ s) t (d ∷ p),
      index-bound s {i = j} e,
      index-append s t {i = j} e,
    )
  ]

  pub index-prefix :
      (s t : Bytes) {i : ℕ}
      → index (s ++ t) (d ∷ p) ≡ some i
      → i + length (d ∷ p) ≤ length s
      → index s (d ∷ p) ≡ some i
  unfolding index
  index-prefix [] t h le = absurd (omega arith)
  index-prefix (c ∷ s) t {i} h le = elim (Bool-cases (has_prefix (c ∷ s) (d ∷ p))) [
    | inl e ↦ ground (arith, has_prefix-length (c ∷ s) (d ∷ p), has_prefix-append (c ∷ s) t (d ∷ p))
    | inr e ↦ elim (Option-cases (index (s ++ t) (d ∷ p))) [
      | inl o ↦ ground (arith, has_prefix-append (c ∷ s) t (d ∷ p))
      | inr (j, o) ↦ ground (arith, has_prefix-append (c ∷ s) t (d ∷ p), index-prefix s t {i = j} o)
    ]
  ]

  pub contains-index :
      (s : Bytes) → contains s (d ∷ p) ≡ true → (i : ℕ) × (index s (d ∷ p) ≡ some i)
  unfolding index contains
  contains-index [] h = cc
  contains-index (c ∷ s) h = elim (Bool-cases (has_prefix (c ∷ s) (d ∷ p))) [
    | inl e ↦ (0, rw e)
    | inr e ↦ let (i, o) = contains-index s (ground arith) in (suc i, rw (e, o))
  ]

  pub index-contains : (s : Bytes) {i : ℕ} → index s (d ∷ p) ≡ some i → contains s (d ∷ p) ≡ true
  unfolding index contains
  index-contains [] h = cc
  index-contains (c ∷ s) {i} h = elim (Option-cases (index s (d ∷ p))) [
    | inl e ↦ ground arith
    | inr (j, e) ↦ ground (arith, index-contains s {i = j} e)
  ]

-- Where a byte first occurs is where a text is cut at it.
pub cut-append : (sep : ℕ) (s t : Bytes) → cut sep s ≡ none → cut sep (s ++ (sep ∷ t)) ≡ some (s, t)
unfolding cut
cut-append sep [] t h = ground arith
cut-append sep (c ∷ s) t h = elim (Option-cases (cut sep s)) [
  | inl e ↦ ground (arith, cut-append sep s t e)
  | inr ((a, b), e) ↦ ground arith
]

pub cut-join : (sep : ℕ) (v s t : Bytes) → cut sep v ≡ some (s, t) → v ≡ s ++ (sep ∷ t)
unfolding cut
cut-join sep [] s t h = cc
cut-join sep (c ∷ v) s t h = elim (Bool-cases (c == sep)) [
  | inl same ↦ ground arith
  | inr other ↦ elim (Option-cases (cut sep v)) [
    | inl e ↦ ground arith
    | inr ((a, b), e) ↦ ground (arith, cut-join sep v a b e)
  ]
]

pub cut-first : (sep : ℕ) (v s t : Bytes) → cut sep v ≡ some (s, t) → cut sep s ≡ none
unfolding cut
cut-first sep [] s t h = absurd (none-ne-some _ h)
cut-first sep (c ∷ v) s t h = elim (Bool-cases (c == sep)) [
  | inl same ↦ ground arith
  | inr other ↦ elim (Option-cases (cut sep v)) [
    | inl e ↦ ground arith
    | inr ((a, b), e) ↦ ground (arith, cut-first sep v a b e)
  ]
]
