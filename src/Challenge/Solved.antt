-- ===== src/Challenge/Solved.antt =====
-- internal/challenge/challenge.go: a challenge from the page that poses it to the request that
-- carries the token.
use mathlib.Core.Bool.{false≢true}
use veilgate.Prelude.{
  ℕ, ◌≡◌, ◌≤◌, ◌+◌, ◌↔◌, inl, inr, sym, ap, ◌∙◌, arith, Bool, true, false, ◌&&◌, some, [], Bytes,
  codes, ◌==◌, bytes_eq, bytes_beq_iff, has, Bool-cases, &&-true, is_empty,
}
use veilgate.Http.{Request}
use veilgate.Challenge.{VerifyRequest, Env, Handler, challenge_ttl, sign, challenge_payload}
use veilgate.Challenge.Tokens.{new_token}
use veilgate.Challenge.Proof.{
  parse_nonce, nonce_key, is_solution, missing_field, decoded, verify_pow,
}
use veilgate.Challenge.Accepts.{unexpired, Accepts, verify_pow_iff}
use veilgate.Challenge.Answers.{Arrival}
use veilgate.Challenge.Pages.{
  Templates, Posed, pose, serve_challenge, serve_html_challenge, serve_spa_challenge,
  compile_template, spa_answer, html_answer,
}
use veilgate.Challenge.Handling.{solved_answer, verify, serve_http}

module _ (env : Env) {T : Type 0} (templates : Templates T) where
  abbrev is_verification : Handler T → Request → Bool
  is_verification h r = r.path == h.rules.verify_path && r.method == codes "POST"

  verify-accepted :
      (at : Arrival) (h : Handler T) (r : Request)
      → Accepts env h.secret h.max_ttl h.rules at.now h.seen_nonces r
      → (verify env templates at h r).1
        ≡ solved_answer h.rules at r
            (new_token env h.secret at.now)
            (challenge_ttl h.max_ttl h.rules)
  verify-accepted at h r a =
      let ok : (verify_pow env h.secret h.max_ttl h.rules at.now h.seen_nonces r).ok ≡ true =
        (verify_pow_iff env h.secret h.max_ttl h.rules at.now h.seen_nonces r).1 a in
      unfold verify in rw ok

  serve_http-verify :
      (at : Arrival) (h : Handler T) (r : Request)
      → r.path ≡ h.rules.verify_path
      → r.method ≡ codes "POST"
      → serve_http env templates at h r ≡ verify env templates at h r
  serve_http-verify at h r path post =
      let e : is_verification h r ≡ true = (&&-true _ _).1 (
        (bytes_beq_iff r.path h.rules.verify_path).1 path,
        (bytes_beq_iff r.method (codes "POST")).1 post,
      ) in
      unfold serve_http in rw e

  serve_http-challenge :
      (at : Arrival) (h : Handler T) (r : Request)
      → is_verification h r ≡ false
      → serve_http env templates at h r ≡ serve_challenge env templates at h r
  serve_http-challenge at h r e = unfold serve_http in rw e

  -- A cookie is given to an accepted solution only.
  verify-cookies :
      (at : Arrival) (h : Handler T) (r : Request)
      → is_empty (verify env templates at h r).1.cookies ≡ false
      → Accepts env h.secret h.max_ttl h.rules at.now h.seen_nonces r
  verify-cookies at h r given =
      elim (Bool-cases (verify_pow env h.secret h.max_ttl h.rules at.now h.seen_nonces r).ok) [
        | inl ok ↦ (verify_pow_iff env h.secret h.max_ttl h.rules at.now h.seen_nonces r).0 ok
        | inr no_ok ↦
            let q : is_empty (verify env templates at h r).1.cookies ≡ true =
              unfold verify in rw no_ok in
            absurd (false≢true (sym given ∙ q))
      ]

  -- What a client sends back of a challenge, with a number.
  abbrev pub Answers : VerifyRequest → Posed → ℕ → Type 0
  Answers req p nonce =
      (req.challenge ≡ p.challenge)
      × (req.ts ≡ p.ts)
      × (req.sig ≡ p.sig)
      × (parse_nonce env req.nonce ≡ some nonce)
      × (missing_field req ≡ false)

  -- A challenge that was posed at a time, answered with a solution from then until its lifetime is
  -- over, and not answered with that solution before, is verified: the answer carries the token.
  pub serve_http-solved :
      (at : Arrival) (h : Handler T) (r : Request) (posed_at nonce : ℕ) (challenge : Bytes)
      (req : VerifyRequest)
      → r.path ≡ h.rules.verify_path
      → r.method ≡ codes "POST"
      → env.clock.parse_nano (env.clock.format_nano posed_at) ≡ some posed_at
      → decoded env r ≡ some req
      → Answers req (pose env h.secret h.rules posed_at challenge) nonce
      → is_solution env h.rules challenge nonce ≡ true
      → posed_at ≤ at.now
      → at.now ≤ posed_at + challenge_ttl h.max_ttl h.rules
      → has (nonce_key challenge nonce) (unexpired at.now h.seen_nonces) ≡ false
      → (serve_http env templates at h r).1
        ≡ solved_answer h.rules at r
            (new_token env h.secret at.now)
            (challenge_ttl h.max_ttl h.rules)
  unfolding pose
  serve_http-solved at h r posed_at nonce challenge req path post clock d (c, t, g, n, m) s early
        late fresh =
      let sig : req.sig ≡ sign env h.secret (challenge_payload req.challenge req.ts) =
        g
        ∙ ap (sign env h.secret) (
            ap (λ x. challenge_payload x (env.clock.format_nano posed_at)) (sym c)
            ∙ ap (challenge_payload req.challenge) (sym t)) in
      let accepted : Accepts env h.secret h.max_ttl h.rules at.now h.seen_nonces r = (
        req,
        posed_at,
        d,
        (m, sig, ap env.clock.parse_nano t ∙ clock),
        (omega arith, late),
        (
          nonce,
          n,
          ap (λ x. is_solution env h.rules x nonce) c ∙ s,
          ap (λ x. has (nonce_key x nonce) (unexpired at.now h.seen_nonces)) c ∙ fresh,
        ),
      ) in
      ap (λ o. o.1) (serve_http-verify at h r path post) ∙ verify-accepted at h r accepted

  serve_html_challenge-cookies :
      (at : Arrival) (h : Handler T) (r : Request)
      → (serve_html_challenge env templates at h r).1.cookies ≡ []
  unfolding serve_html_challenge html_answer compile_template
  serve_html_challenge-cookies at h r = ground arith

  serve_challenge-cookies :
      (at : Arrival) (h : Handler T) (r : Request)
      → (serve_challenge env templates at h r).1.cookies ≡ []
  unfolding serve_challenge serve_spa_challenge spa_answer
  serve_challenge-cookies at h r = ground (arith, serve_html_challenge-cookies at h r)

  -- Only the verification path gives cookies, to POST requests whose solution is accepted.
  pub serve_http-cookies_iff :
      (at : Arrival) (h : Handler T) (r : Request)
      → (is_empty (serve_http env templates at h r).1.cookies ≡ false) ↔ (
          (r.path ≡ h.rules.verify_path)
          × (r.method ≡ codes "POST")
          × Accepts env h.secret h.max_ttl h.rules at.now h.seen_nonces r)
  unfolding solved_answer
  serve_http-cookies_iff at h r = (forth, back)
    where
      back :
          ((r.path ≡ h.rules.verify_path)
            × (r.method ≡ codes "POST")
            × Accepts env h.secret h.max_ttl h.rules at.now h.seen_nonces r)
          → is_empty (serve_http env templates at h r).1.cookies ≡ false
      back (path, post, a) =
          ap (λ o. is_empty o.1.cookies) (serve_http-verify at h r path post)
          ∙ ap (λ o. is_empty o.cookies) (verify-accepted at h r a)

      forth :
          is_empty (serve_http env templates at h r).1.cookies ≡ false
          → (r.path ≡ h.rules.verify_path)
            × (r.method ≡ codes "POST")
            × Accepts env h.secret h.max_ttl h.rules at.now h.seen_nonces r
      forth given = elim (Bool-cases (is_verification h r)) [
        | inl e ↦
            let (path, post) = (&&-true _ _).0 e in
            let path' = (bytes_beq_iff r.path h.rules.verify_path).0 path in
            let post' = (bytes_beq_iff r.method (codes "POST")).0 post in
            (
              path',
              post',
              verify-cookies at h r (
                  ap (λ o. is_empty o.1.cookies) (sym (serve_http-verify at h r path' post'))
                  ∙ given),
            )
        | inr e ↦
            let q = ap (λ o. is_empty o.1.cookies) (serve_http-challenge at h r e) in
            let none_given = ap is_empty (serve_challenge-cookies at h r) in
            absurd (false≢true (sym given ∙ (q ∙ none_given)))
      ]
