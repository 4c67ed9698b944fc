-- ===== src/Challenge/Handling.antt =====
-- internal/challenge/challenge.go: `verify` and `ServeHTTP`, the whole of a call.
use veilgate.Prelude.{
  ℕ, ◌+◌, ◌/◌, ◌&&◌, [], ◌∷◌, ◌++◌, Bytes, codes, ◌==◌, nat_eq, bytes_eq, if◌then◌else◌, trim_space,
  true,
}
use veilgate.Http.{Request, cors_headers, status_ok, status_bad_request}
use veilgate.Challenge.{ChallengeRules, Env, Seen, Handler, second, challenge_ttl}
use veilgate.Challenge.Tokens.{new_token}
use veilgate.Challenge.Proof.{verify_pow}
use veilgate.Challenge.Answers.{
  text, number, message, object, SetCookie, failed_bad_request, failed_unauthorized, solved, Answer,
  Arrival, parse_same_site, request_is_https, or_default,
}
use veilgate.Challenge.Pages.{Templates, serve_challenge}

abbrev verification_failed : ℕ → Answer
verification_failed code = record {
  status = code;
  headers = [];
  cookies = [];
  content = message (codes "challenge verification failed");
  events = (if code == status_bad_request then failed_bad_request else failed_unauthorized) ∷ [];
}

-- The cookie of `verify`.
unfoldable pub token_cookie : ChallengeRules → Arrival → Request → Bytes → ℕ → SetCookie
token_cookie cr at r token ttl = record {
  name = cr.cookie_name;
  value = token;
  path = or_default (codes "/") cr.cookie_path;
  domain = trim_space cr.cookie_domain;
  http_only = true;
  secure = request_is_https at r;
  same_site = parse_same_site cr.cookie_same_site;
  expires = at.now + ttl;
}

unfoldable pub solved_answer : ChallengeRules → Arrival → Request → Bytes → ℕ → Answer
solved_answer cr at r token ttl = record {
  status = status_ok;
  headers = cors_headers r ++ ((codes "Content-Type", codes "application/json") ∷ []);
  cookies = token_cookie cr at r token ttl ∷ [];
  content = object (
      (codes "token", text token)
      ∷ (codes "expires_in", number (ttl / second))
      ∷ (codes "header", text cr.token_header_name)
      ∷ []);
  events = solved ∷ [];
}

module _ (env : Env) {T : Type 0} (templates : Templates T) where
  abbrev pub with_seen : Handler T → Seen → Handler T
  with_seen h seen = record {
    secret = h.secret;
    max_ttl = h.max_ttl;
    rules = h.rules;
    tmpl = h.tmpl;
    tmpl_src = h.tmpl_src;
    seen_nonces = seen;
  }

  -- `verify`
  unfoldable pub verify : Arrival → Handler T → Request → Handler T × Answer
  verify at h r =
      let judged = verify_pow env h.secret h.max_ttl h.rules at.now h.seen_nonces r in
      (
        with_seen h judged.seen,
        if judged.ok
            then solved_answer h.rules at r (new_token env h.secret at.now)
                (challenge_ttl h.max_ttl h.rules)
            else verification_failed judged.code,
      )

  -- `ServeHTTP`
  unfoldable pub serve_http : Arrival → Handler T → Request → Handler T × Answer
  serve_http at h r =
      if r.path == h.rules.verify_path && r.method == codes "POST"
      then verify at h r
      else serve_challenge env templates at h r
