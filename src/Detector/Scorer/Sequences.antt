-- ===== src/Detector/Scorer/Sequences.antt =====
-- internal/detector/scorer_toolchain.go and scorer_behavioral.go: the stages of an attack in a history,
-- and how often a target is encoded twice.
use mathlib.Core.Bool.{false≢true}
use veilgate.Prelude.{
  ℕ, zero, suc, ◌≡◌, ◌≤◌, ◌<◌, ◌↔◌, ◌*◌, ◌-◌, ◌⊎◌, inl, inr, refl, sym, ap, ◌∙◌, subst, arith, true,
  List, [], ◌∷◌, Bytes, Bool-cases, ◌==◌, bytes_eq, bytes_beq_iff, if◌then◌else◌, length,
}
use veilgate.Detector.Tracker.{ClientEvent}
use veilgate.Detector.Scorer.Toolchain.{
  stages_after, follows, neighbours, pipeline, score_toolchain_hmm,
}
use veilgate.Detector.Scorer.Behaviour.{is_double_enc, count_from, count_double_enc}

-- The texts occur in the list, in their order.
pub data Subsequence : List Bytes → List Bytes → Type 0 where
  done : {ys : List Bytes} → Subsequence [] ys
  pick : {x : Bytes} {xs ys : List Bytes} → Subsequence xs ys → Subsequence (x ∷ xs) (x ∷ ys)
  skip : {y : Bytes} {xs ys : List Bytes} → Subsequence xs ys → Subsequence xs (y ∷ ys)

without_first : {x : Bytes} {xs ys : List Bytes} → Subsequence (x ∷ xs) ys → Subsequence xs ys
without_first (pick s) = skip s
without_first (skip s) = skip (without_first s)

follows-Subsequence : (want seq : List Bytes) → follows want seq ≡ true → Subsequence want seq
unfolding follows
follows-Subsequence [] seq h = done
follows-Subsequence (w ∷ want) [] h = absurd (false≢true h)
follows-Subsequence (w ∷ want) (st ∷ seq) h = elim (Bool-cases (st == w)) [
  | inl e ↦
      let same = (bytes_beq_iff st w).0 e in
      subst (λ x. Subsequence (x ∷ want) (st ∷ seq)) same
        (pick (
          follows-Subsequence want seq
            (sym (ap (λ b. follows (if b then want else w ∷ want) seq) e) ∙ h)))
  | inr e ↦ skip (
      follows-Subsequence (w ∷ want) seq
        (sym (ap (λ b. follows (if b then want else w ∷ want) seq) e) ∙ h))
]

rest_of : {x y : Bytes} {xs ys : List Bytes} → Subsequence (x ∷ xs) (y ∷ ys) → Subsequence xs ys
rest_of (pick s) = s
rest_of (skip s) = without_first s

first_or_later :
    {x y : Bytes} {xs ys : List Bytes}
    → Subsequence (x ∷ xs) (y ∷ ys)
    → (y ≡ x) ⊎ Subsequence (x ∷ xs) ys
first_or_later (pick s) = inl refl
first_or_later (skip s) = inr s

Subsequence-follows : (want seq : List Bytes) → Subsequence want seq → follows want seq ≡ true
unfolding follows
Subsequence-follows [] seq s = refl
Subsequence-follows (w ∷ want) [] s = elim s [ ]
Subsequence-follows (w ∷ want) (y ∷ seq) s = elim (Bool-cases (y == w)) [
  | inl e ↦
      ap (λ b. follows (if b then want else w ∷ want) seq) e
      ∙ Subsequence-follows want seq (rest_of s)
  | inr e ↦ elim (first_or_later s) [
    | inl same ↦ absurd (false≢true (sym e ∙ (bytes_beq_iff y w).1 same))
    | inr later ↦
        ap (λ b. follows (if b then want else w ∷ want) seq) e
        ∙ Subsequence-follows (w ∷ want) seq later
  ]
]

neighbours-points : (seq : List Bytes) → (neighbours seq).points < 20
unfolding neighbours
neighbours-points [] = omega arith
neighbours-points (a ∷ []) = omega arith
neighbours-points (a ∷ b ∷ seq) = ground (arith, neighbours-points (b ∷ seq))

two_stages : (seq : List Bytes) → Subsequence pipeline seq → 2 ≤ length seq
two_stages [] s = elim s [ ]
two_stages (a ∷ []) s = elim (rest_of s) [ ]
two_stages (a ∷ b ∷ seq) s = omega arith

-- The signal of a whole attack, worth 20 points, is given exactly to a history of at least five events
-- whose stages hold recon, probe and exploit in this order, others between them or not.
pub score_toolchain_hmm_iff :
    (events : List ClientEvent)
    → ((score_toolchain_hmm events).points ≡ 20)
      ↔ ((5 ≤ length events) × Subsequence pipeline (stages_after [] events))
score_toolchain_hmm_iff events = (forth, back)
  where
    forth :
        (score_toolchain_hmm events).points ≡ 20
        → (5 ≤ length events) × Subsequence pipeline (stages_after [] events)
    forth h =
        let few = neighbours-points (stages_after [] events) in
        let fired : (5 ≤ length events) × (follows pipeline (stages_after [] events) ≡ true) = (
          unfold score_toolchain_hmm in ground arith,
          unfold score_toolchain_hmm in ground arith,
        ) in
        (fired.0, follows-Subsequence pipeline (stages_after [] events) fired.1)

    back :
        (5 ≤ length events) × Subsequence pipeline (stages_after [] events)
        → (score_toolchain_hmm events).points ≡ 20
    back (long, s) =
        let f = Subsequence-follows pipeline (stages_after [] events) s in
        let two = two_stages (stages_after [] events) s in
        unfold score_toolchain_hmm in ground arith

is_double_enc-length : (s : Bytes) → is_double_enc s ≡ true → 5 ≤ length s
is_double_enc-length [] h = absurd (false≢true h)
is_double_enc-length (a ∷ []) h = absurd (false≢true h)
is_double_enc-length (a ∷ b ∷ []) h = absurd (false≢true h)
is_double_enc-length (a ∷ b ∷ c ∷ []) h = absurd (false≢true h)
is_double_enc-length (a ∷ b ∷ c ∷ d ∷ []) h = absurd (false≢true h)
is_double_enc-length (a ∷ b ∷ c ∷ d ∷ e ∷ s) h = omega arith

count_from-bound : (left : ℕ) (s : Bytes) → 5 * count_from left s ≤ length s - left
unfolding count_from
count_from-bound zero [] = omega arith
count_from-bound (suc left) [] = omega arith
count_from-bound (suc left) (c ∷ s) = omega (arith, count_from-bound left s)
count_from-bound zero (c ∷ s) = elim (Bool-cases (is_double_enc (c ∷ s))) [
  | inl e ↦ rw e (omega (arith, count_from-bound 4 s, is_double_enc-length (c ∷ s) e))
  | inr e ↦ rw e (omega (arith, count_from-bound 0 s))
]

-- The occurrences that are counted do not overlap: each takes five bytes of the text.
pub count_double_enc-bound : (s : Bytes) → 5 * count_double_enc s ≤ length s
count_double_enc-bound s = omega (arith, count_from-bound 0 s)
