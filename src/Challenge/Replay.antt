-- ===== src/Challenge/Replay.antt =====
-- internal/challenge/challenge.go: `seenNonces` over a sequence of calls of `verifyPOW`.
use mathlib.Core.Bool.{false≢true}
use mathlib.Core.Option.{some-injective}
use veilgate.Prelude.{
  ℕ, ◌≡◌, ◌≤◌, ◌<◌, ◌+◌, ◌⊎◌, inl, inr, sym, ap, ◌∙◌, subst, arith, true, false, not, some, List,
  [], ◌∷◌, Bytes, ltb, has, lookup, Bool-cases, Option-cases, bytes_eq, bytes_beq_iff, leb, IsMap,
  insert-IsMap, retain-IsMap, lookup-insert, lookup-retain,
}
use veilgate.Http.{Request}
use veilgate.Challenge.{ChallengeRules, VerifyRequest, Env, Seen, challenge_ttl}
use veilgate.Challenge.Proof.{
  parse_nonce, nonce_key, decoded, Judged, load_or_store, verify_solution, verify_decoded,
  verify_pow,
}
use veilgate.Challenge.Accepts.{unexpired, accepted_call, verify_pow_iff, InWindow}

load_or_store-IsMap :
    (now ttl : ℕ) (key : Bytes) (seen : Seen)
    → IsMap seen
    → IsMap (load_or_store now ttl key seen).seen
unfolding load_or_store
load_or_store-IsMap now ttl key seen m =
    let kept : IsMap (unexpired now seen) = retain-IsMap (λ t. not (ltb t now)) seen m in
    elim (Bool-cases (has key (unexpired now seen))) [
      | inl h ↦ rw h kept
      | inr h ↦ rw h (insert-IsMap key (now + ttl) (unexpired now seen) kept)
    ]

-- An entry that does not expire before now outlives every call.
load_or_store-keeps :
    (now ttl : ℕ) (key k : Bytes) (t : ℕ) (seen : Seen)
    → IsMap seen
    → lookup k seen ≡ some t
    → now ≤ t
    → lookup k (load_or_store now ttl key seen).seen ≡ some t
unfolding load_or_store
load_or_store-keeps now ttl key k t seen m e le = ground (
  arith,
  lookup-retain (λ x. not (ltb x now)) k seen m,
  lookup-insert key k (now + ttl) (unexpired now seen),
  bytes_beq_iff key k,
)

load_or_store-stores :
    (now ttl : ℕ) (key : Bytes) (seen : Seen)
    → has key (unexpired now seen) ≡ false
    → lookup key (load_or_store now ttl key seen).seen ≡ some (now + ttl)
unfolding load_or_store
load_or_store-stores now ttl key seen h =
    ground (arith, lookup-insert key key (now + ttl) (unexpired now seen), bytes_beq_iff key key)

module _ (env : Env) (secret : Bytes) (max_ttl : ℕ) (cr : ChallengeRules) where
  abbrev ttl : ℕ
  ttl = challenge_ttl max_ttl cr

  -- A call leaves the entries alone, or is that of `LoadOrStore` with some key.
  abbrev Effect : ℕ → Seen → Judged → Type 0
  Effect now seen o =
      (o.seen ≡ seen) ⊎ ((key : Bytes) × (o.seen ≡ (load_or_store now ttl key seen).seen))

  verify_solution-Effect :
      (now : ℕ) (seen : Seen) (req : VerifyRequest) (issued : ℕ)
      → Effect now seen (verify_solution env secret max_ttl cr now seen req issued)
  unfolding verify_solution
  verify_solution-Effect now seen req issued = elim (Option-cases (parse_nonce env req.nonce)) [
    | inl e ↦ inl (ground arith)
    | inr (n, e) ↦
        let o = verify_solution env secret max_ttl cr now seen req issued in
        let key = nonce_key req.challenge n in
        let either : (o.seen ≡ seen) ⊎ (o.seen ≡ (load_or_store now ttl key seen).seen) =
          ground arith in
        elim either [ inl q ↦ inl q | inr q ↦ inr (key, q) ]
  ]

  verify_decoded-Effect :
      (now : ℕ) (seen : Seen) (req : VerifyRequest)
      → Effect now seen (verify_decoded env secret max_ttl cr now seen req)
  verify_decoded-Effect now seen req = elim (Option-cases (env.clock.parse_nano req.ts)) [
    | inl e ↦ inl (unfold verify_decoded in ground arith)
    | inr (issued, e) ↦
        let o = verify_decoded env secret max_ttl cr now seen req in
        let further = verify_solution env secret max_ttl cr now seen req issued in
        let either : (o.seen ≡ seen) ⊎ (o.seen ≡ further.seen) =
          unfold verify_decoded in ground arith in
        elim either [
          | inl q ↦ inl q
          | inr q ↦ elim (verify_solution-Effect now seen req issued) [
            | inl p ↦ inl (q ∙ p)
            | inr (key, p) ↦ inr (key, q ∙ p)
          ]
        ]
  ]

  verify_pow-Effect :
      (now : ℕ) (seen : Seen) (r : Request)
      → Effect now seen (verify_pow env secret max_ttl cr now seen r)
  verify_pow-Effect now seen r = elim (Option-cases (decoded env r)) [
    | inl e ↦
        let q : (verify_pow env secret max_ttl cr now seen r).seen ≡ seen =
          unfold verify_pow in rw (e, verify_pow) in
        inl q
    | inr (req, e) ↦
        let q : verify_pow env secret max_ttl cr now seen r
            ≡ verify_decoded env secret max_ttl cr now seen req =
          unfold verify_pow in rw (e, verify_pow) in
        subst (Effect now seen) (sym q) (verify_decoded-Effect now seen req)
  ]

  pub verify_pow-IsMap :
      (now : ℕ) (seen : Seen) (r : Request)
      → IsMap seen
      → IsMap (verify_pow env secret max_ttl cr now seen r).seen
  verify_pow-IsMap now seen r m = elim (verify_pow-Effect now seen r) [
    | inl q ↦ subst (λ s. IsMap s) (sym q) m
    | inr (key, q) ↦ subst (λ s. IsMap s) (sym q) (load_or_store-IsMap now ttl key seen m)
  ]

  verify_pow-keeps :
      (now : ℕ) (seen : Seen) (r : Request) (key : Bytes) (t : ℕ)
      → IsMap seen
      → now ≤ t
      → lookup key seen ≡ some t
      → lookup key (verify_pow env secret max_ttl cr now seen r).seen ≡ some t
  verify_pow-keeps now seen r k t m le e = elim (verify_pow-Effect now seen r) [
    | inl q ↦ ap (lookup k) q ∙ e
    | inr (key, q) ↦ ap (lookup k) q ∙ load_or_store-keeps now ttl key k t seen m e le
  ]

  -- The entries after calls at the given times.
  unfoldable pub seen_after : List (ℕ × Request) → Seen → Seen
  seen_after [] seen = seen
  seen_after ((now, r) ∷ calls) seen =
      seen_after calls (verify_pow env secret max_ttl cr now seen r).seen

  -- No call is later than that time.
  abbrev pub Until : ℕ → List (ℕ × Request) → Type 0
  Until t [] = Unit {0}
  Until t ((now, r) ∷ calls) = (now ≤ t) × Until t calls

  seen_after-IsMap :
      (calls : List (ℕ × Request)) (seen : Seen) → IsMap seen → IsMap (seen_after calls seen)
  unfolding seen_after
  seen_after-IsMap [] seen m = m
  seen_after-IsMap ((now, r) ∷ calls) seen m =
      seen_after-IsMap calls (verify_pow env secret max_ttl cr now seen r).seen
        (verify_pow-IsMap now seen r m)

  seen_after-keeps :
      (calls : List (ℕ × Request)) (seen : Seen) (key : Bytes) (t : ℕ)
      → IsMap seen
      → Until t calls
      → lookup key seen ≡ some t
      → lookup key (seen_after calls seen) ≡ some t
  unfolding seen_after
  seen_after-keeps [] seen key t m u e = e
  seen_after-keeps ((now, r) ∷ calls) seen key t m (le, u) e =
      seen_after-keeps calls (verify_pow env secret max_ttl cr now seen r).seen key t
        (verify_pow-IsMap now seen r m) u (verify_pow-keeps now seen r key t m le e)

  Until-le : (calls : List (ℕ × Request)) (s t : ℕ) → s ≤ t → Until s calls → Until t calls
  Until-le [] s t le u = tt
  Until-le ((now, r) ∷ calls) s t le (a, u) = (omega arith, Until-le calls s t le u)

  has-unexpired :
      (now t : ℕ) (key : Bytes) (seen : Seen)
      → IsMap seen
      → now ≤ t
      → lookup key seen ≡ some t
      → has key (unexpired now seen) ≡ true
  has-unexpired now t key seen m le e =
      ground (arith, lookup-retain (λ x. not (ltb x now)) key seen m)

  -- The proof is that of a challenge issued at a time, with its nonce.
  abbrev pub Proves : Request → Bytes → ℕ → ℕ → Type 0
  Proves r challenge issued nonce =
      (req : VerifyRequest) × (decoded env r ≡ some req)
      × (req.challenge ≡ challenge)
      × (env.clock.parse_nano req.ts ≡ some issued)
      × (parse_nonce env req.nonce ≡ some nonce)

  -- An accepted proof is in its window, is not among the entries, and is stored.
  accepted_proof :
      (now : ℕ) (seen : Seen) (r : Request) (challenge : Bytes) (issued nonce : ℕ)
      → Proves r challenge issued nonce
      → (verify_pow env secret max_ttl cr now seen r).ok ≡ true
      → InWindow env secret max_ttl cr now issued
        × (has (nonce_key challenge nonce) (unexpired now seen) ≡ false)
        × (verify_pow env secret max_ttl cr now seen r
            ≡ load_or_store now ttl (nonce_key challenge nonce) seen)
  accepted_proof now seen r challenge issued nonce (req, d, c, p, n) h =
      let (req', issued', d', i, w, (nonce', n', s, fresh)) =
        (verify_pow_iff env secret max_ttl cr now seen r).0 h in
      let same : req' ≡ req = some-injective _ _ (sym d' ∙ d) in
      let same_nonce : nonce' ≡ nonce =
        some-injective _ _ (sym n' ∙ (ap (λ q. parse_nonce env q.nonce) same ∙ n)) in
      let same_time : issued' ≡ issued =
        some-injective _ _ (sym i.2 ∙ (ap (λ q. env.clock.parse_nano q.ts) same ∙ p)) in
      let key : nonce_key req'.challenge nonce' ≡ nonce_key challenge nonce =
        ap (λ q. nonce_key q.challenge nonce') same
        ∙ (ap (λ x. nonce_key x nonce') c ∙ ap (nonce_key challenge) same_nonce) in
      (
        subst (InWindow env secret max_ttl cr now) same_time w,
        ap (λ x. has x (unexpired now seen)) (sym key) ∙ fresh,
        accepted_call env secret max_ttl cr now seen r req' issued' nonce' d' i w n' s
            ∙ ap (λ x. load_or_store now ttl x seen) key,
      )

  accepted-stored :
      (now : ℕ) (seen : Seen) (r : Request) (challenge : Bytes) (issued nonce : ℕ)
      → Proves r challenge issued nonce
      → (verify_pow env secret max_ttl cr now seen r).ok ≡ true
      → lookup (nonce_key challenge nonce) (verify_pow env secret max_ttl cr now seen r).seen
        ≡ some (now + ttl)
  accepted-stored now seen r challenge issued nonce proof h =
      let (_, fresh, call) = accepted_proof now seen r challenge issued nonce proof h in
      ap (λ o. lookup (nonce_key challenge nonce) o.seen) call
      ∙ load_or_store-stores now ttl (nonce_key challenge nonce) seen fresh

  -- The proof is refused where it is still among the entries, or out of its window.
  refused_again :
      (now : ℕ) (seen : Seen) (r : Request) (challenge : Bytes) (issued nonce : ℕ)
      → Proves r challenge issued nonce
      → (has (nonce_key challenge nonce) (unexpired now seen) ≡ true) ⊎ (issued + ttl < now)
      → (verify_pow env secret max_ttl cr now seen r).ok ≡ false
  refused_again now seen r challenge issued nonce proof why =
      elim (Bool-cases (verify_pow env secret max_ttl cr now seen r).ok) [
        | inr h ↦ h
        | inl h ↦
            let (window, fresh, _) = accepted_proof now seen r challenge issued nonce proof h in
            elim why [
              | inl k ↦ absurd (false≢true (sym fresh ∙ k))
              | inr late ↦ absurd (omega (arith, late, window.1))
            ]
      ]

  -- Under rules that stay the same, a proof that is accepted no earlier than its challenge was issued
  -- is refused at every later time, whatever calls come before, and between them up to that time.
  pub verify_pow-replay :
      (before between : List (ℕ × Request)) (first again : ℕ) (r r' : Request) (challenge : Bytes)
      (issued nonce : ℕ)
      → Proves r challenge issued nonce
      → Proves r' challenge issued nonce
      → issued ≤ first
      → Until again between
      → (verify_pow env secret max_ttl cr first (seen_after before []) r).ok ≡ true
      → (verify_pow env secret max_ttl cr again
          (seen_after between
            (verify_pow env secret max_ttl cr first (seen_after before []) r).seen)
          r').ok
        ≡ false
  verify_pow-replay before between first again r r' challenge issued nonce p p' le u h =
      let start = seen_after before [] in
      let m = seen_after-IsMap before [] tt in
      let then_seen = (verify_pow env secret max_ttl cr first start r).seen in
      let stored = accepted-stored first start r challenge issued nonce p h in
      let m' = verify_pow-IsMap first start r m in
      refused_again again (seen_after between then_seen) r' challenge issued nonce p'
        (elim (Bool-cases (leb again (first + ttl))) [
          | inr late ↦ inr (ground arith)
          | inl early ↦ inl (
              has-unexpired again (first + ttl) (nonce_key challenge nonce)
                (seen_after between then_seen) (seen_after-IsMap between then_seen m')
                (ground arith)
                (seen_after-keeps between then_seen (nonce_key challenge nonce) (first + ttl) m'
                  (Until-le between again (first + ttl) (ground arith) u) stored))
        ])
