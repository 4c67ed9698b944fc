-- ===== src/Proxy/Serve/Attack.antt =====
-- internal/proxy/proxy.go: what a score in the tarpit's range does to a request.
use veilgate.Prelude.{
  ◌≡◌, refl, ap, ◌∙◌, arith, false, Option, none, some, Bytes, Option-cases, inl, inr,
}
use veilgate.Http.{Request, error_reply, status_bad_request}
use veilgate.Proxy.ClientIp.{Addresses, resolve_client_ip}
use veilgate.Proxy.Decision.{Decision, tarpit}
use veilgate.Proxy.Upload.{
  Best, match_upload_policy, bad_request_framing, reject_bad_request_framing,
}
use veilgate.Proxy.Serve.{
  Target, replied, Server, is_preflight, choose_target, answer, judge, serve_upload, serve_framed,
  serve, stop, own_endpoint,
}
use veilgate.Proxy.Serve.Passage.{reaches_upstream, scored, judge-answer, own_endpoint-not_upstream}

module _ (a : Addresses) {S : Type 0} (server : Server a S) where
  answer-tarpit :
      (client : Bytes) (best : Option Best) (d : Decision) (s : S) (r : Request)
      → d ≡ tarpit
      → reaches_upstream (answer a server client best d s r).target ≡ false
  unfolding answer choose_target
  answer-tarpit client best d s r e = ground arith

  judge-attack :
      (s : S) (r : Request)
      → scored a server s r ≡ tarpit
      → reaches_upstream (judge a server none false s r).target ≡ false
  judge-attack s r e =
      let (d, s', r', q, t) = judge-answer a server none false s r in
      let client = resolve_client_ip a r server.trusted_proxies in
      ap (λ o. reaches_upstream o.target) q ∙ answer-tarpit client none d s' r' (t.1 e)

  framed-attack :
      (s : S) (r : Request) (o : Option Target)
      → own_endpoint a server r ≡ o
      → is_preflight r ≡ false
      → match_upload_policy server.upload_policies r.path ≡ none
      → scored a server s r ≡ tarpit
      → reaches_upstream (serve_framed a server s r).target ≡ false
  framed-attack s r none e p m t =
      let q : serve_framed a server s r ≡ judge a server none false s r =
        unfold serve_framed serve_upload in rw (p, e, m, serve_framed, serve_upload) in
      ap (λ o. reaches_upstream o.target) q ∙ judge-attack s r t
  framed-attack s r (some x) e p m t =
      let q : serve_framed a server s r ≡ stop a server s r x =
        unfold serve_framed in rw (p, e, serve_framed) in
      ap (λ o. reaches_upstream o.target) q ∙ own_endpoint-not_upstream a server r x e

  -- A request for a path without an upload policy whose score makes the decision to tarpit, and
  -- which is no preflight, does not reach the upstream: no credential, cookie or protocol makes up
  -- for the score.
  pub serve-attack :
      (s : S) (r : Request)
      → is_preflight r ≡ false
      → match_upload_policy server.upload_policies r.path ≡ none
      → scored a server s r ≡ tarpit
      → reaches_upstream (serve a server s r).target ≡ false
  serve-attack s r p m t = elim (Option-cases (bad_request_framing r)) [
    | inl e ↦
        let q : serve a server s r ≡ serve_framed a server s r =
          unfold serve reject_bad_request_framing in rw (e, serve, reject_bad_request_framing) in
        ap (λ o. reaches_upstream o.target) q
        ∙ framed-attack s r (own_endpoint a server r) refl p m t
    | inr (code, e) ↦
        let q : serve a server s r
            ≡ stop a server s r (replied (error_reply r status_bad_request code)) =
          unfold serve reject_bad_request_framing in rw (e, serve, reject_bad_request_framing) in
        ap (λ o. reaches_upstream o.target) q
  ]
