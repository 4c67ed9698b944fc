-- ===== src/System/Decisions.antt =====
-- What a honeypot path and a solved challenge mean for the proxy's answer.
use veilgate.Prelude.{
  ℕ, ◌≡◌, ◌≤◌, ◌⊎◌, inl, inr, refl, sym, ap, ◌∙◌, subst, arith, Bool, true, false, not, none, some,
  Bytes, Bool-cases, ◌+◌, [], if◌then◌else◌,
}
use veilgate.Http.{Request}
use veilgate.Verifier.{verify, verify_except}
use veilgate.Proxy.ClientIp.{Addresses, resolve_client_ip}
use veilgate.Proxy.Decision.{
  Mode, tarpit_mode, auto_mode, Thresholds, Decision, decide, tarpit, real, after_credentials,
  is_tarpit,
}
use veilgate.Proxy.Upload.{
  match_upload_policy, credential_accepted, bad_request_framing, reject_bad_request_framing,
}
use veilgate.Proxy.Protocols.{is_http2_websocket_connect}
use veilgate.Proxy.Serve.{
  Server, Served, is_preflight, serve, serve_framed, serve_upload, own_endpoint, judge, answer,
  check_credential, choose_target,
}
use veilgate.Proxy.Serve.Passage.{reaches_upstream, scored}
use veilgate.Proxy.Serve.Attack.{serve-attack}
use veilgate.Challenge.{rules_ttl}
use veilgate.Challenge.Tokens.{new_token, passed}
use veilgate.Challenge.Lifetime.{ReadsBack, Carries, passed_under-Carries}
use veilgate.Detector.Scorer.Total.{is_trusted, is_honeypot}
use veilgate.Detector.Scorer.Honeypots.{honeypot_points}
use veilgate.System.{SystemState, Wiring, hit_of, wired, scored_by}

tarpit_range :
    (m : Mode) (t : Thresholds) (total : ℕ)
    → (m ≡ tarpit_mode) ⊎ (m ≡ auto_mode)
    → t.tarpit_at ≤ total
    → decide m t total ≡ tarpit
unfolding decide
tarpit_range m t total (inl e) h = ground arith
tarpit_range m t total (inr e) h = ground arith

tarpit_of : (d : Decision) → is_tarpit d ≡ true → d ≡ tarpit
tarpit_of d e = ground arith

lifted : (d : Decision) → is_tarpit d ≡ false → after_credentials d true ≡ real
unfolding after_credentials
lifted d e = ground arith

credential-passed :
    {S : Type 0} (p : S → Request → Bool) (policy : Bytes) (s : S) (r : Request)
    → p s r ≡ true
    → (credential_accepted none (some p) policy s r).passed ≡ true
unfolding credential_accepted verify verify_except
credential-passed p policy s r h = ground arith

credential-request :
    {S : Type 0} (p : S → Request → Bool) (policy : Bytes) (s : S) (r : Request)
    → (credential_accepted none (some p) policy s r).request ≡ r
unfolding credential_accepted verify verify_except
credential-request p policy s r = ground arith

-- A request that is not tarpitted goes to the upstream by the way of its protocol.
open_target :
    (trapped : Bool) (r : Request)
    → is_http2_websocket_connect r ≡ false
    → reaches_upstream (choose_target true none (if trapped then tarpit else real) r) ≡ not trapped
unfolding choose_target
open_target trapped r h = ground arith

module _ (a : Addresses) {T : Type 0} (w : Wiring) (base : Server a (SystemState T)) where
  abbrev client_of : Request → Bytes
  client_of r = resolve_client_ip a r base.trusted_proxies

  -- In a mode that tarpits from 50 points or less, and without a registry of signals, a request for a
  -- path of the honeypot list does not reach the upstream, whatever it carries, unless its client is
  -- trusted, its path has an upload policy or it is a preflight.
  pub serve-honeypot :
      (s : SystemState T) (r : Request)
      → (base.mode ≡ tarpit_mode) ⊎ (base.mode ≡ auto_mode)
      → base.thresholds.tarpit_at ≤ 50
      → w.config.signals ≡ none
      → is_trusted w.config w.callees (client_of r) ≡ false
      → is_honeypot w.config r ≡ true
      → is_preflight r ≡ false
      → match_upload_policy base.upload_policies r.path ≡ none
      → reaches_upstream (serve a (wired w base) s r).target ≡ false
  serve-honeypot s r mode low plain untrusted trap p u =
      let points =
        honeypot_points w.config w.callees w.now (client_of r) (hit_of w.parts r) s.scorer untrusted
          trap plain in
      let enough : base.thresholds.tarpit_at ≤ (scored_by w (client_of r) s r).1 = ground arith in
      serve-attack a (wired w base) s r p u
        (tarpit_range base.mode base.thresholds (scored_by w (client_of r) s r).1 mode enough)

  -- The state and the total of the scorer for a request.
  abbrev after_score : SystemState T → Request → SystemState T
  after_score s r = (scored_by w (client_of r) s r).0

  solved-passed :
      (s : SystemState T) (r : Request) (t issued : ℕ)
      → base.verifiers ≡ none
      → ReadsBack w.env s.handler.secret t issued
      → Carries w.env s.handler.secret r s.handler.rules (new_token w.env s.handler.secret t)
      → w.now ≤ issued + rules_ttl s.handler.rules
      → (check_credential a (wired w base) [] (after_score s r) r).passed ≡ true
  solved-passed s r t issued v reads c le =
      let ok : passed w.env w.now s.handler r ≡ true =
        unfold passed in
        passed_under-Carries w.env s.handler.secret t issued w.now s.handler.rules r reads c le in
      subst
        (λ ch.
          (credential_accepted ch (some (λ (x : SystemState T) q. passed w.env w.now x.handler q))
            [] (after_score s r) r).passed
          ≡ true)
        (sym v)
        (credential-passed (λ (x : SystemState T) q. passed w.env w.now x.handler q) []
          (after_score s r) r ok)

  judge-solved :
      (s : SystemState T) (r : Request) (t issued : ℕ)
      → base.verifiers ≡ none
      → ReadsBack w.env s.handler.secret t issued
      → Carries w.env s.handler.secret r s.handler.rules (new_token w.env s.handler.secret t)
      → w.now ≤ issued + rules_ttl s.handler.rules
      → (s' : SystemState T) × (judge a (wired w base) none false s r
          ≡ answer a
              (wired w base)
              (client_of r)
              none
              (if is_tarpit (scored a (wired w base) s r) then tarpit else real)
              s'
              r)
  judge-solved s r t issued v reads c le =
      let ok = solved-passed s r t issued v reads c le in
      let d = scored a (wired w base) s r in
      let cred = check_credential a (wired w base) [] (after_score s r) r in
      let same : cred.request ≡ r =
        subst
          (λ ch.
            (credential_accepted ch (some (λ (x : SystemState T) q. passed w.env w.now x.handler q))
              [] (after_score s r) r).request
            ≡ r)
          (sym v)
          (credential-request (λ (x : SystemState T) q. passed w.env w.now x.handler q) []
            (after_score s r) r) in
      let reply = answer a (wired w base) (client_of r) none in
      elim (Bool-cases (is_tarpit d)) [
        | inl e ↦
            let q : judge a (wired w base) none false s r ≡ reply d (after_score s r) r =
              unfold judge in rw e refl in
            let k : d ≡ (if is_tarpit d then tarpit else real) = tarpit_of d e ∙ rw e refl in
            (after_score s r, q ∙ ap (λ x. reply x (after_score s r) r) k)
        | inr e ↦
            let q : judge a (wired w base) none false s r
                ≡ reply (after_credentials d cred.passed) cred.state cred.request =
              unfold judge in rw e refl in
            let k : after_credentials d cred.passed ≡ (if is_tarpit d then tarpit else real) =
              ap (λ b. after_credentials d b) ok ∙ (lifted d e ∙ rw e refl) in
            (
              cred.state,
              q
                  ∙ (ap (λ x. reply x cred.state cred.request) k
                      ∙ ap (reply (if is_tarpit d then tarpit else real) cred.state) same),
            )
      ]

  serve-judge :
      (s : SystemState T) (r : Request)
      → bad_request_framing r ≡ none
      → is_preflight r ≡ false
      → own_endpoint a (wired w base) r ≡ none
      → match_upload_policy base.upload_policies r.path ≡ none
      → serve a (wired w base) s r ≡ judge a (wired w base) none false s r
  serve-judge s r f p o u =
      let q : serve a (wired w base) s r ≡ serve_framed a (wired w base) s r =
        unfold serve reject_bad_request_framing in rw (f, serve, reject_bad_request_framing) in
      let k : serve_framed a (wired w base) s r ≡ judge a (wired w base) none false s r =
        unfold serve_framed serve_upload in rw (p, o, u, serve_framed, serve_upload) in
      q ∙ k

  -- Where no other verifier is configured, a request that carries a token of a solved challenge, in
  -- the cookie or in the configured header, within the lifetime of the rules, is not challenged again:
  -- it is decided real, or to be tarpitted if its score says so, and reaches the upstream exactly in
  -- the first case. Its framing passes, it is no preflight and no request for an endpoint of the
  -- program's own, its path has no upload policy, and it does not open a WebSocket over HTTP/2.
  pub serve-solved :
      (s : SystemState T) (r : Request) (t issued : ℕ)
      → base.verifiers ≡ none
      → ReadsBack w.env s.handler.secret t issued
      → Carries w.env s.handler.secret r s.handler.rules (new_token w.env s.handler.secret t)
      → w.now ≤ issued + rules_ttl s.handler.rules
      → bad_request_framing r ≡ none
      → is_preflight r ≡ false
      → own_endpoint a (wired w base) r ≡ none
      → match_upload_policy base.upload_policies r.path ≡ none
      → is_http2_websocket_connect r ≡ false
      → ((serve a (wired w base) s r).decided
          ≡ some (if is_tarpit (scored a (wired w base) s r) then tarpit else real))
        × (reaches_upstream (serve a (wired w base) s r).target
            ≡ not (is_tarpit (scored a (wired w base) s r)))
  unfolding answer
  serve-solved s r t issued v reads c le f p o u h =
      let (s', k) = judge-solved s r t issued v reads c le in
      let q = serve-judge s r f p o u ∙ k in
      (
        ap (λ (x : Served (SystemState T)). x.decided) q,
        ap (λ (x : Served (SystemState T)). reaches_upstream x.target) q
            ∙ open_target (is_tarpit (scored a (wired w base) s r)) r h,
      )
