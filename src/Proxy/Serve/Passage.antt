-- ===== src/Proxy/Serve/Passage.antt =====
-- internal/proxy/proxy.go: which requests `serve` lets through to the upstream.
use mathlib.Core.Bool.{false≢true}
use veilgate.Prelude.{
  subst, ℕ, ◌≡◌, ◌≢◌, ◌↔◌, ◌⊎◌, inl, inr, refl, sym, ◌∙◌, arith, Bool, true, false, Option, none,
  some, Bytes, codes, is_some, Bool-cases, Option-cases, has_prefix,
}
use veilgate.Http.{Request, Reply, error_reply, status_bad_request}
use veilgate.Proxy.ClientIp.{Addresses, resolve_client_ip}
use veilgate.Proxy.Decision.{
  Decision, real, challenge, tarpit, decide, after_credentials, after_credentials-tarpit_iff,
  is_tarpit,
}
use veilgate.Proxy.Upload.{
  Best, match_upload_policy, bad_request_framing, reject_bad_request_framing,
  upload_verifier_policy, Enforced,
}
use veilgate.Proxy.Upload.Demands.{
  Framed, bad_request_framing_iff, Meets, enforce_upload_policy_iff,
}
use veilgate.Proxy.Serve.{
  Target, replied, upstream_preflight, websocket_tunnel, grpc_upstream, upstream, Server, Served,
  is_preflight, preflight_reply, is_held, choose_target, challenge_passed, check_credential,
  enforce, enforced_on, policy_of, answer, judge, serve_upload, serve_framed, serve, stop,
  own_endpoint,
}

-- The upstream gets the request, by whatever proxy.
abbrev pub reaches_upstream : Target → Bool
reaches_upstream upstream_preflight = true
reaches_upstream websocket_tunnel = true
reaches_upstream grpc_upstream = true
reaches_upstream (upstream _) = true
reaches_upstream _ = false

-- A decision that lets a request through: one that holds nobody, or a challenge that nobody serves.
abbrev pub LetsThrough : Bool → Decision → Type 0
LetsThrough has_challenge d = (is_held d ≡ false) ⊎ ((d ≡ challenge) × (has_challenge ≡ false))

choose_target-LetsThrough :
    (has_challenge : Bool) (policy : Option ℕ) (d : Decision) (r : Request)
    → reaches_upstream (choose_target has_challenge policy d r) ≡ true
    → LetsThrough has_challenge d
unfolding choose_target
choose_target-LetsThrough hc policy d r h = ground arith

module _ (a : Addresses) {S : Type 0} (server : Server a S) where
  abbrev Through : Served S → Type 0
  Through o =
      (d : Decision) × (o.decided ≡ some d) × LetsThrough (is_some server.challenge_handler) d

  answer-Through :
      (client : Bytes) (best : Option Best) (d : Decision) (s : S) (r : Request)
      → reaches_upstream (answer a server client best d s r).target ≡ true
      → Through (answer a server client best d s r)
  unfolding answer
  answer-Through client best d s r h = (d, refl, choose_target-LetsThrough _ _ d r h)

  -- The decision of a request with a score, before credentials are looked at.
  abbrev pub scored : S → Request → Decision
  scored s r =
      decide server.mode server.thresholds
        (server.score (resolve_client_ip a r server.trusted_proxies) s r).1

  -- Whatever the credentials, some decision is answered, and it is to tarpit exactly if the score
  -- says so.
  pub judge-answer :
      (best : Option Best) (auth : Bool) (s : S) (r : Request)
      → (d : Decision) × (s' : S) × (r' : Request) × (judge a server best auth s r
          ≡ answer a server (resolve_client_ip a r server.trusted_proxies) best d s' r')
        × ((d ≡ tarpit) ↔ (scored s r ≡ tarpit))
  unfolding judge
  judge-answer best auth s r =
      let after = (server.score (resolve_client_ip a r server.trusted_proxies) s r).0 in
      let c = check_credential a server (upload_verifier_policy (policy_of best)) after r in
      elim (Bool-cases (is_tarpit (scored s r))) [
        | inl t ↦ (scored s r, after, r, rw t, (λ e. e, λ e. e))
        | inr t ↦ elim (Bool-cases auth) [
          | inl u ↦
              (real, after, r, rw (t, u), (λ e. cc, λ e. absurd (not_tarpit (scored s r) t e)))
          | inr u ↦ (
            after_credentials (scored s r) c.passed,
            c.state,
            c.request,
            rw (t, u),
            after_credentials-tarpit_iff (scored s r) c.passed,
          )
        ]
      ]
    where
      not_tarpit : (d : Decision) → is_tarpit d ≡ false → d ≢ tarpit
      not_tarpit d t e = false≢true (ground arith)

  judge-Through :
      (best : Option Best) (auth : Bool) (s : S) (r : Request)
      → reaches_upstream (judge a server best auth s r).target ≡ true
      → Through (judge a server best auth s r)
  judge-Through best auth s r h =
      let (d, s', r', e, _) = judge-answer best auth s r in
      let client = resolve_client_ip a r server.trusted_proxies in
      subst Through (sym e)
        (answer-Through client best d s' r' (subst (λ o. reaches_upstream o.target ≡ true) e h))

  -- The request meets the policy that is chosen for its path, where there is one.
  abbrev pub PolicyMet : S → Request → Option Best → Type 0
  PolicyMet s r none = Unit {0}
  PolicyMet s r (some b) =
      Meets server.verifiers (challenge_passed a server server.challenge_handler)
        server.parse_media_type b.policy s r

  abbrev chosen : Request → Option Best
  chosen r = match_upload_policy server.upload_policies r.path

  enforced_on-Through :
      (b : Best) (e : Enforced S) (o : Option Reply)
      → e.blocked ≡ o
      → reaches_upstream (enforced_on a server b e).target ≡ true
      → Through (enforced_on a server b e) × (e.blocked ≡ none)
  enforced_on-Through b e none k h =
      let q : enforced_on a server b e ≡ judge a server (some b) e.auth_accepted e.state e.request =
        rw (k, enforced_on) in
      (
        subst Through (sym q) (
            judge-Through (some b) e.auth_accepted e.state e.request
              (subst (λ u. reaches_upstream u.target ≡ true) q h)),
        k,
      )
  enforced_on-Through b e (some reply) k h = absurd (false≢true (ground arith))

  serve_upload-Through :
      (s : S) (r : Request)
      → reaches_upstream (serve_upload a server s r).target ≡ true
      → Through (serve_upload a server s r) × PolicyMet s r (chosen r)
  serve_upload-Through s r h =
      elim (Option-cases (match_upload_policy server.upload_policies r.path)) [
        | inl e ↦
            let q : serve_upload a server s r ≡ judge a server none false s r =
              unfold serve_upload in rw (e, serve_upload) in
            (
              subst Through (sym q) (
                  judge-Through none false s r (subst (λ u. reaches_upstream u.target ≡ true) q h)),
              subst (PolicyMet s r) (sym e) tt,
            )
        | inr (b, e) ↦
            let x = enforce a server b.policy s r in
            let q : serve_upload a server s r ≡ enforced_on a server b x =
              unfold serve_upload in rw (e, serve_upload) in
            let (through, free) =
              enforced_on-Through b x x.blocked refl
                (subst (λ u. reaches_upstream u.target ≡ true) q h) in
            let met =
              (enforce_upload_policy_iff server.verifiers
                  (challenge_passed a server server.challenge_handler) server.parse_media_type
                  b.policy s r).0.0
                free in
            (subst Through (sym q) through, subst (PolicyMet s r) (sym e) met)
      ]

  -- Why a request reached the upstream: as a preflight that is not for the program's own paths, or
  -- past its upload policy with a decision that lets it through.
  abbrev pub Ways : S → Request → Served S → Type 0
  Ways s r o =
      ((is_preflight r ≡ true) × (has_prefix r.path (codes "/_g/") ≡ false) × (o.decided ≡ none))
      ⊎ ((is_preflight r ≡ false) × Through o × PolicyMet s r (chosen r))

  pub own_endpoint-not_upstream :
      (r : Request) (t : Target) → own_endpoint a server r ≡ some t → reaches_upstream t ≡ false
  unfolding own_endpoint
  own_endpoint-not_upstream r t h = ground arith

  past_endpoints :
      (s : S) (r : Request) (o : Option Target)
      → own_endpoint a server r ≡ o
      → is_preflight r ≡ false
      → reaches_upstream (serve_framed a server s r).target ≡ true
      → Through (serve_framed a server s r) × PolicyMet s r (chosen r)
  past_endpoints s r none e p h =
      let q : serve_framed a server s r ≡ serve_upload a server s r =
        unfold serve_framed in rw (p, e, serve_framed) in
      let (through, met) =
        serve_upload-Through s r (subst (λ u. reaches_upstream u.target ≡ true) q h) in
      (subst Through (sym q) through, met)
  past_endpoints s r (some t) e p h =
      let q : serve_framed a server s r ≡ stop a server s r t =
        unfold serve_framed in rw (p, e, serve_framed) in
      absurd (
        false≢true (
          sym (own_endpoint-not_upstream r t e)
          ∙ subst (λ u. reaches_upstream u.target ≡ true) q h))

  passed_preflight :
      (s : S) (r : Request)
      → is_preflight r ≡ true
      → reaches_upstream (serve_framed a server s r).target ≡ true
      → (is_preflight r ≡ true)
        × (has_prefix r.path (codes "/_g/") ≡ false)
        × ((serve_framed a server s r).decided ≡ none)
  passed_preflight s r p h = elim (Bool-cases (has_prefix r.path (codes "/_g/"))) [
    | inl own ↦ absurd (false≢true (subst (λ u. reaches_upstream u.target ≡ true) (replies own) h))
    | inr other ↦ (p, other, unfold serve_framed in rw (p, other, serve_framed))
  ]
    where
      replies :
          has_prefix r.path (codes "/_g/") ≡ true
          → serve_framed a server s r ≡ stop a server s r (replied (preflight_reply r))
      replies own = unfold serve_framed in rw (p, own, serve_framed)

  serve_framed-Ways :
      (s : S) (r : Request)
      → reaches_upstream (serve_framed a server s r).target ≡ true
      → Ways s r (serve_framed a server s r)
  serve_framed-Ways s r h = elim (Bool-cases (is_preflight r)) [
    | inl p ↦ inl (passed_preflight s r p h)
    | inr p ↦ let (t, m) = past_endpoints s r (own_endpoint a server r) refl p h in inr (p, t, m)
  ]

  -- The upstream is reached in two ways only: by a preflight of the upstream's own, which is passed on
  -- unscored, or by a request that has met its upload policy, if it has one, and whose decision
  -- holds nobody (a challenge lets through only where no handler serves challenges). In both cases
  -- there is one way to find the end of the request's body.
  pub serve-Passed :
      (s : S) (r : Request)
      → reaches_upstream (serve a server s r).target ≡ true
      → Framed r × Ways s r (serve a server s r)
  serve-Passed s r h = elim (Option-cases (bad_request_framing r)) [
    | inr (code, e) ↦
        absurd (false≢true (subst (λ u. reaches_upstream u.target ≡ true) (refused code e) h))
    | inl e ↦
        let q : serve a server s r ≡ serve_framed a server s r =
          unfold serve reject_bad_request_framing in rw (e, serve, reject_bad_request_framing) in
        (
          (bad_request_framing_iff r).0 e,
          subst (Ways s r) (sym q)
              (serve_framed-Ways s r (subst (λ u. reaches_upstream u.target ≡ true) q h)),
        )
  ]
    where
      refused :
          (code : Bytes)
          → bad_request_framing r ≡ some code
          → serve a server s r ≡ stop a server s r (replied (error_reply r status_bad_request code))
      refused code e =
          unfold serve reject_bad_request_framing in rw (e, serve, reject_bad_request_framing)
