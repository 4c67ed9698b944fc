-- ===== src/Challenge/Accepts.antt =====
-- internal/challenge/challenge.go: which solutions `verifyPOW` accepts, and what it remembers.
use mathlib.Core.Bool.{false≢true}
use veilgate.Prelude.{
  ℕ, ◌≡◌, ◌≤◌, ◌+◌, ◌*◌, ◌↔◌, inl, inr, sym, ap, ◌∙◌, arith, true, false, not, some, Bytes, ltb,
  ◌-◌, has, retain, Option-cases, bytes_eq, ◌==◌, bytes_beq_iff,
}
use veilgate.Http.{Request}
use veilgate.Challenge.{
  ChallengeRules, VerifyRequest, Env, Seen, minute, sign, challenge_payload, challenge_ttl,
}
use veilgate.Challenge.Proof.{
  parse_nonce, nonce_key, is_solution, missing_field, decoded, load_or_store, verify_solution,
  verify_decoded, verify_pow,
}

-- The entries that have not expired.
abbrev pub unexpired : ℕ → Seen → Seen
unexpired now seen = retain (λ expires. not (ltb expires now)) seen

load_or_store_iff :
    (now ttl : ℕ) (key : Bytes) (seen : Seen)
    → ((load_or_store now ttl key seen).ok ≡ true) ↔ (has key (unexpired now seen) ≡ false)
unfolding load_or_store
load_or_store_iff now ttl key seen = ground arith

module _ (env : Env) (secret : Bytes) (max_ttl : ℕ) (cr : ChallengeRules) where
  -- The time of issue lies within the lifetime and at most two minutes ahead.
  abbrev pub InWindow : ℕ → ℕ → Type 0
  InWindow now issued = (issued ≤ now + 2 * minute) × (now ≤ issued + challenge_ttl max_ttl cr)

  -- The server has signed the challenge together with its time of issue.
  abbrev pub IssuedAt : VerifyRequest → ℕ → Type 0
  IssuedAt req issued =
      (missing_field req ≡ false)
      × (req.sig ≡ sign env secret (challenge_payload req.challenge req.ts))
      × (env.clock.parse_nano req.ts ≡ some issued)

  -- It is solved, and not yet among the entries.
  abbrev pub FreshSolution : ℕ → Seen → VerifyRequest → Type 0
  FreshSolution now seen req =
      (nonce : ℕ) × (parse_nonce env req.nonce ≡ some nonce)
      × (is_solution env cr req.challenge nonce ≡ true)
      × (has (nonce_key req.challenge nonce) (unexpired now seen) ≡ false)

  abbrev pub Accepts : ℕ → Seen → Request → Type 0
  Accepts now seen r =
      (req : VerifyRequest) × (issued : ℕ) × (decoded env r ≡ some req)
      × IssuedAt req issued
      × InWindow now issued
      × FreshSolution now seen req

  solution-InWindow :
      (now : ℕ) (seen : Seen) (req : VerifyRequest) (issued nonce : ℕ)
      → InWindow now issued
      → parse_nonce env req.nonce ≡ some nonce
      → is_solution env cr req.challenge nonce ≡ true
      → verify_solution env secret max_ttl cr now seen req issued
        ≡ load_or_store now (challenge_ttl max_ttl cr) (nonce_key req.challenge nonce) seen
  solution-InWindow now seen req issued nonce (a, b) p s =
      let u : ltb (now + 2 * minute) issued ≡ false = ground arith in
      let v : ltb (challenge_ttl max_ttl cr) (now - issued) ≡ false = ground arith in
      unfold verify_solution in rw (u, v, p, s, verify_solution)

  verify_solution_forth :
      (now : ℕ) (seen : Seen) (req : VerifyRequest) (issued : ℕ)
      → (verify_solution env secret max_ttl cr now seen req issued).ok ≡ true
      → InWindow now issued × FreshSolution now seen req
  unfolding verify_solution
  verify_solution_forth now seen req issued h = elim (Option-cases (parse_nonce env req.nonce)) [
    | inl e ↦ absurd (false≢true (ground arith))
    | inr (nonce, e) ↦ (
      (ground arith, ground arith),
      (
        nonce,
        e,
        ground arith,
        ground (
          arith,
          load_or_store_iff now (challenge_ttl max_ttl cr) (nonce_key req.challenge nonce) seen,
        ),
      ),
    )
  ]

  abbrev Signed : VerifyRequest → Type 0
  Signed req = req.sig ≡ sign env secret (challenge_payload req.challenge req.ts)

  verify_decoded_forth :
      (now : ℕ) (seen : Seen) (req : VerifyRequest)
      → (verify_decoded env secret max_ttl cr now seen req).ok ≡ true
      → (issued : ℕ) × IssuedAt req issued × InWindow now issued × FreshSolution now seen req
  unfolding verify_decoded
  verify_decoded_forth now seen req h = elim (Option-cases (env.clock.parse_nano req.ts)) [
    | inl e ↦ absurd (false≢true (ground arith))
    | inr (issued, e) ↦
        let solved : (verify_solution env secret max_ttl cr now seen req issued).ok ≡ true =
          ground arith in
        let signed : Signed req = ground (
          arith,
          bytes_beq_iff req.sig (sign env secret (challenge_payload req.challenge req.ts)),
        ) in
        let (w, f) = verify_solution_forth now seen req issued solved in
        (issued, (ground arith, signed, e), w, f)
  ]

  verify_decoded_back :
      (now : ℕ) (seen : Seen) (req : VerifyRequest) (issued : ℕ)
      → IssuedAt req issued
      → verify_decoded env secret max_ttl cr now seen req
        ≡ verify_solution env secret max_ttl cr now seen req issued
  verify_decoded_back now seen req issued (m, s, p) =
      let signed : (req.sig == sign env secret (challenge_payload req.challenge req.ts)) ≡ true =
        (bytes_beq_iff _ _).1 s in
      unfold verify_decoded in rw (m, signed, p, verify_decoded)

  -- What an accepted call does.
  pub accepted_call :
      (now : ℕ) (seen : Seen) (r : Request) (req : VerifyRequest) (issued nonce : ℕ)
      → decoded env r ≡ some req
      → IssuedAt req issued
      → InWindow now issued
      → parse_nonce env req.nonce ≡ some nonce
      → is_solution env cr req.challenge nonce ≡ true
      → verify_pow env secret max_ttl cr now seen r
        ≡ load_or_store now (challenge_ttl max_ttl cr) (nonce_key req.challenge nonce) seen
  accepted_call now seen r req issued nonce d i w p s =
      let q : verify_pow env secret max_ttl cr now seen r
          ≡ verify_decoded env secret max_ttl cr now seen req =
        unfold verify_pow in rw (d, verify_pow) in
      q
      ∙ (verify_decoded_back now seen req issued i
          ∙ solution-InWindow now seen req issued nonce w p s)

  -- `verifyPOW` accepts exactly the fresh solutions, in the window, of challenges that the server has
  -- signed.
  pub verify_pow_iff :
      (now : ℕ) (seen : Seen) (r : Request)
      → ((verify_pow env secret max_ttl cr now seen r).ok ≡ true) ↔ Accepts now seen r
  verify_pow_iff now seen r = (forth, back)
    where
      forth : (verify_pow env secret max_ttl cr now seen r).ok ≡ true → Accepts now seen r
      forth h = elim (Option-cases (decoded env r)) [
        | inl e ↦
            let q : (verify_pow env secret max_ttl cr now seen r).ok ≡ false =
              unfold verify_pow in rw (e, verify_pow) in
            absurd (false≢true (sym q ∙ h))
        | inr (req, e) ↦
            let q : verify_pow env secret max_ttl cr now seen r
                ≡ verify_decoded env secret max_ttl cr now seen req =
              unfold verify_pow in rw (e, verify_pow) in
            let (issued, i, w, f) =
              verify_decoded_forth now seen req (ap (λ o. o.ok) (sym q) ∙ h) in
            (req, issued, e, i, w, f)
      ]

      back : Accepts now seen r → (verify_pow env secret max_ttl cr now seen r).ok ≡ true
      back (req, issued, d, i, w, (nonce, p, s, fresh)) =
          ap (λ o. o.ok) (accepted_call now seen r req issued nonce d i w p s)
          ∙ (load_or_store_iff _ _ _ _).1 fresh
