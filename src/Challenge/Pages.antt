-- ===== src/Challenge/Pages.antt =====
-- internal/challenge/challenge.go: the pages that pose a challenge. A page's HTML is what the
-- template package writes, a parameter.
use veilgate.Prelude.{
  ℕ, Bool, true, false, not, ◌&&◌, ◌||◌, Option, none, some, List, [], ◌∷◌, ◌++◌, Bytes, codes,
  ◌==◌, nat_eq, bytes_eq, if◌then◌else◌, is_empty, to_lower, equal_fold, contains, replicate,
}
use veilgate.Http.{
  Request, header_get, cors_headers, status_ok, status_unauthorized, status_unavailable,
}
use veilgate.Challenge.{
  ChallengeRules, Env, Handler, sign, challenge_payload, normalized_difficulty,
}
use veilgate.Challenge.Answers.{
  JsonValue, text, number, page, object, issued_html, issued_spa, Answer, Arrival, http_error,
  new_challenge_nonce, or_default,
}

abbrev pub status_internal : ℕ
status_internal = 500

-- text/template and html/template: `parse` gives `none` for an error, and so does `execute`, which
-- is given the fields of the page. `start_page` parses a source and writes it with one JSON object,
-- `none` where it does not parse.
pub record Templates (T : Type 0) : Type 0 where
  pub parse : Bytes → Option T
  pub execute : T → List (Bytes × Bytes) → Option Bytes
  pub start_page : Bytes → List (Bytes × JsonValue) → Option Bytes
  pub default_start_page : Bytes

module _ {T : Type 0} where
  -- `compileTemplate`: the handler after it, and the template, `none` for an error.
  unfoldable pub compile_template : Templates T → Bytes → Handler T → Handler T × Option T
  compile_template templates src h =
      let fresh : Handler T × Option T = elim (templates.parse src) [
        | none ↦ (h, none)
        | some t ↦ (
          record {
            secret = h.secret;
            max_ttl = h.max_ttl;
            rules = h.rules;
            tmpl = some t;
            tmpl_src = src;
            seen_nonces = h.seen_nonces;
          },
          some t,
        )
      ] in
      elim h.tmpl [ none ↦ fresh | some t ↦ if h.tmpl_src == src then (h, some t) else fresh ]

-- A challenge: its text, its time of issue, the signature of both, and the prefix that the hash of
-- its solution must have.
pub record Posed : Type 0 where
  pub challenge : Bytes
  pub ts : Bytes
  pub sig : Bytes
  pub target : Bytes

unfoldable pub pose : Env → Bytes → ChallengeRules → ℕ → Bytes → Posed
pose env secret cr now challenge =
    let ts = env.clock.format_nano now in
    record {
      challenge = challenge;
      ts = ts;
      sig = sign env secret (challenge_payload challenge ts);
      target = replicate (normalized_difficulty cr.difficulty) b'0';
    }

-- `isXHROrFetch`
unfoldable pub is_xhr_or_fetch : Request → Bool
is_xhr_or_fetch r =
    let dest = to_lower (header_get (codes "Sec-Fetch-Dest") r) in
    let accept = to_lower (header_get (codes "Accept") r) in
    if dest == codes "document" || (dest == codes "iframe" || dest == codes "frame")
    then false
    else if dest == codes "empty" || (dest == codes "object" || dest == codes "embed")
    then true
    else if equal_fold (header_get (codes "X-Requested-With") r) (codes "XMLHttpRequest")
    then true
    else not (is_empty accept)
      && (not (contains accept (codes "text/html"))
          && (contains accept (codes "application/json")
              || contains accept (codes "application/xml")))

abbrev no_cache : List (Bytes × Bytes)
no_cache = (codes "Cache-Control", codes "no-store") ∷ (codes "Pragma", codes "no-cache") ∷ []

-- The headers for a caller from another origin, who may read one more header.
abbrev exposing_headers : Request → List (Bytes × Bytes)
exposing_headers r =
    let origin = header_get (codes "Origin") r in
    if is_empty origin
    then []
    else (codes "Access-Control-Allow-Origin", origin)
      ∷ (codes "Access-Control-Allow-Credentials", codes "true")
      ∷ (codes "Access-Control-Expose-Headers", codes "WWW-Authenticate")
      ∷ (codes "Vary", codes "Origin")
      ∷ []

abbrev token_header : ChallengeRules → Bytes
token_header cr = or_default (codes "X-App-Token") cr.token_header_name

abbrev seed_failed : Answer
seed_failed = http_error status_internal (codes "challenge seed failed")

-- The body of the JSON answer.
unfoldable pub challenge_fields : ChallengeRules → Posed → List (Bytes × JsonValue)
challenge_fields cr p =
    (codes "error", text (codes "challenge_required"))
    ∷ (codes "token_header", text (token_header cr))
    ∷ (codes "verify_path", text cr.verify_path)
    ∷ (codes "challenge", text p.challenge)
    ∷ (codes "target", text p.target)
    ∷ (codes "ts", text p.ts)
    ∷ (codes "sig", text p.sig)
    ∷ (codes "retry_after", number 1)
    ∷ []

-- The fields of the HTML template.
unfoldable pub page_fields : ChallengeRules → Posed → List (Bytes × Bytes)
page_fields cr p =
    (codes "Challenge", p.challenge)
    ∷ (codes "Target", p.target)
    ∷ (codes "ChallengeTS", p.ts)
    ∷ (codes "ChallengeSig", p.sig)
    ∷ (codes "VerifyPath", cr.verify_path)
    ∷ []

unfoldable pub spa_answer : ChallengeRules → Arrival → Request → Posed → Answer
spa_answer cr at r p = record {
  status = status_unauthorized;
  headers =
      exposing_headers r
      ++ (no_cache
          ++ ((codes "Content-Type", codes "application/json")
              ∷ (
                codes "WWW-Authenticate",
                codes "Veilgate-Challenge realm=\"" ++ (at.host ++ codes "\""),
              )
              ∷ []));
  cookies = [];
  content = object (challenge_fields cr p);
  events = issued_spa ∷ [];
}

unfoldable pub html_answer : ChallengeRules → Request → Bytes → Answer
html_answer cr r html = record {
  status = if cr.status_code == 0 then status_unavailable else cr.status_code;
  headers =
      cors_headers r
      ++ (no_cache
          ++ ((codes "Content-Type", or_default (codes "text/html; charset=utf-8") cr.content_type)
              ∷ []));
  cookies = [];
  content = page html;
  events = issued_html ∷ [];
}

unfoldable pub start_fields : ChallengeRules → Arrival → Posed → List (Bytes × JsonValue)
start_fields cr at p =
    (codes "challenge", text p.challenge)
    ∷ (codes "target", text p.target)
    ∷ (codes "ts", text p.ts)
    ∷ (codes "sig", text p.sig)
    ∷ (codes "verify_path", text cr.verify_path)
    ∷ (codes "header", text (token_header cr))
    ∷ (codes "origin", text (or_default (codes "*") at.origin_param))
    ∷ []

unfoldable pub start_answer : Bytes → Answer
start_answer html = record {
  status = status_ok;
  headers =
      (codes "Content-Type", codes "text/html; charset=utf-8")
      ∷ (codes "Cache-Control", codes "no-store")
      ∷ (codes "Pragma", codes "no-cache")
      ∷ (codes "Content-Security-Policy", codes "frame-ancestors *")
      ∷ [];
  cookies = [];
  content = page html;
  events = [];
}

module _ (env : Env) {T : Type 0} (templates : Templates T) where
  -- `ServeStart`
  unfoldable pub serve_start : Arrival → Handler T → Answer
  serve_start at h = elim (new_challenge_nonce at) [
    | none ↦ seed_failed
    | some challenge ↦
        elim (templates.start_page
          (or_default templates.default_start_page h.rules.start_page_template)
          (start_fields h.rules at (pose env h.secret h.rules at.now challenge))) [
            | none ↦ http_error status_internal (codes "template error")
            | some html ↦ start_answer html
          ]
  ]

  -- `serveSPAChallenge`
  unfoldable pub serve_spa_challenge : Arrival → Handler T → Request → Answer
  serve_spa_challenge at h r = elim (new_challenge_nonce at) [
    | none ↦ seed_failed
    | some challenge ↦ spa_answer h.rules at r (pose env h.secret h.rules at.now challenge)
  ]

  abbrev rendered : ChallengeRules → Request → Posed → Option T → Answer
  rendered cr r p none = http_error status_internal (codes "challenge template broken")
  rendered cr r p (some t) = elim (templates.execute t (page_fields cr p)) [
    | none ↦ http_error status_internal (codes "challenge render failed")
    | some html ↦ html_answer cr r html
  ]

  unfoldable pub serve_html_challenge : Arrival → Handler T → Request → Handler T × Answer
  serve_html_challenge at h r = elim (new_challenge_nonce at) [
    | none ↦ (h, seed_failed)
    | some challenge ↦
        let (h', t) = compile_template templates h.rules.html_template h in
        (h', rendered h.rules r (pose env h.secret h.rules at.now challenge) t)
  ]

  -- `serveChallenge`
  unfoldable pub serve_challenge : Arrival → Handler T → Request → Handler T × Answer
  serve_challenge at h r =
      if h.rules.spa_aware_response && is_xhr_or_fetch r
      then (h, serve_spa_challenge at h r)
      else serve_html_challenge at h r
