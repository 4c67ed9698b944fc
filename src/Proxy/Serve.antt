-- ===== src/Proxy/Serve.antt =====
-- internal/proxy/proxy.go: `Server.serve`, the way of a request from the framing test to the
-- handler that answers it. Scoring, the handlers' responses and what the operator's addresses mean
-- are parameters; metrics, logs, traces and the event store are left out.
pub mod Passage
pub mod Attack
use veilgate.Prelude.{
  ℕ, ◌/◌, Bool, true, false, not, ◌&&◌, ◌||◌, List, [], ◌∷◌, ◌++◌, Option, none, some, Bytes, codes,
  ◌==◌, nat_eq, bytes_eq, ltb, if◌then◌else◌, is_empty, is_some, has_prefix,
}
use veilgate.Http.{Request, Reply, header_get, status_no_content}
use veilgate.Verifier.{Chain}
use veilgate.Proxy.ClientIp.{Addresses, resolve_client_ip}
use veilgate.Proxy.Decision.{
  Decision, real, challenge, tarpit, observe, Mode, Thresholds, decide, after_credentials,
  is_tarpit,
}
use veilgate.Proxy.Upload.{
  UploadPolicy, Best, match_upload_policy, reject_bad_request_framing, Enforced,
  enforce_upload_policy, Credential, credential_accepted, upload_verifier_policy,
}
use veilgate.Proxy.Protocols.{
  is_websocket_upgrade, is_grpc, is_http2_websocket_connect, is_js_asset_path, upgrade_blocked,
  grpc_blocked, http2_websocket_unsupported,
}

-- Who answers. An upstream proxy is that of an upload policy, by its number, or the general one.
pub data Target : Type 0 where
  replied : Reply → Target
  upstream_preflight challenge_endpoint discovery start_page : Target
  websocket_tunnel grpc_upstream tarpit_page challenge_page : Target
  upstream : Option ℕ → Target

-- A call of the detector's tracker after the response.
pub data TrackerCall : Type 0 where
  record_status : Bytes → ℕ → Bytes → Bytes → TrackerCall
  record_js_asset : Bytes → TrackerCall
  record_set_cookie : Bytes → TrackerCall

-- What a handler wrote: the status, 0 where it wrote nothing, and whether a Set-Cookie was among
-- the headers.
pub record Response : Type 0 where
  pub status : ℕ
  pub sets_cookie : Bool

-- `passed` is `Passed`, and `start_path` is `none` for a handler that serves no start page.
pub record ChallengeHandler (S : Type 0) : Type 0 where
  pub passed : S → Request → Bool
  pub start_path : Option Bytes

-- `Score` gives the total; `respond` is the response of the handler that answers.
pub record Server (a : Addresses) (S : Type 0) : Type 0 where
  pub mode : Mode
  pub thresholds : Thresholds
  pub upload_policies : List UploadPolicy
  pub trusted_proxies : List (Addresses.Net a)
  pub verifiers : Chain S
  pub challenge_handler : Option (ChallengeHandler S)
  pub has_tracker : Bool
  pub parse_media_type : Bytes → Option Bytes
  pub score : Bytes → S → Request → S × ℕ
  pub respond : Target → S → Request → S × Response

-- `decided` is the decision, where the request came as far as that. `body_limit` is the limit that
-- `withUploadBodyLimit` has put on the body (Proxy/Upload/Limit), 0 for none.
pub record Served (S : Type 0) : Type 0 where
  pub state : S
  pub request : Request
  pub target : Target
  pub decided : Option Decision
  pub body_limit : ℕ
  pub tracker_calls : List TrackerCall

unfoldable pub is_preflight : Request → Bool
is_preflight r =
    r.method == codes "OPTIONS"
    && (not (is_empty (header_get (codes "Origin") r))
        && not (is_empty (header_get (codes "Access-Control-Request-Method") r)))

-- The reply to a preflight for a path of the program's own.
unfoldable pub preflight_reply : Request → Reply
unfolding header_get
preflight_reply r =
    let origin = header_get (codes "Origin") r in
    let wanted = header_get (codes "Access-Control-Request-Headers") r in
    record {
      status = status_no_content;
      headers =
          ((codes "Access-Control-Allow-Origin", origin)
            ∷ (codes "Access-Control-Allow-Credentials", codes "true")
            ∷ (codes "Access-Control-Allow-Methods", codes "GET, POST, OPTIONS")
            ∷ [])
          ++ ((if is_empty wanted then [] else (codes "Access-Control-Allow-Headers", wanted) ∷ [])
              ++ ((codes "Access-Control-Max-Age", codes "3600")
                  ∷ (codes "Vary", codes "Origin")
                  ∷ []));
      body = [];
    }

abbrev is_held : Decision → Bool
is_held tarpit = true
is_held challenge = true
is_held _ = false

abbrev is_real : Decision → Bool
is_real real = true
is_real _ = false

abbrev pub policy_of : Option Best → Option UploadPolicy
policy_of none = none
policy_of (some b) = some b.policy

abbrev limit_of : Option Best → ℕ
limit_of none = 0
limit_of (some b) = b.policy.max_body_bytes

abbrev number_of : Option Best → Option ℕ
number_of none = none
number_of (some b) = some b.position

-- The handler of a request that has a decision, by its protocol and the decision.
unfoldable pub choose_target : Bool → Option ℕ → Decision → Request → Target
choose_target has_challenge policy d r =
    if is_http2_websocket_connect r
    then replied (http2_websocket_unsupported r)
    else if is_websocket_upgrade r
    then (if is_held d then replied (upgrade_blocked r d) else websocket_tunnel)
    else if is_grpc r
    then (if is_held d then replied (grpc_blocked r d) else grpc_upstream)
    else elim d [
      | tarpit ↦ tarpit_page
      | challenge ↦ if has_challenge then challenge_page else upstream policy
      | _ ↦ upstream policy
    ]

-- What the tracker is told after the response of a plain request, where a status was written.
abbrev after_plain : Bytes → Decision → Request → Response → List TrackerCall
after_plain client d r w =
    (record_status client w.status r.path r.method ∷ [])
    ++ ((if is_real d && (w.status / 100 == 2 && is_js_asset_path r.path)
          then record_js_asset client ∷ []
          else [])
        ++ (if is_tarpit d && w.sets_cookie then record_set_cookie client ∷ [] else []))

unfoldable pub tracker_calls :
    Bool → Bytes → Decision → Request → Target → Response → List TrackerCall
tracker_calls has_tracker client d r t w =
    if not (has_tracker && ltb 0 w.status) then [] else elim t [
      | replied _ ↦ []
      | websocket_tunnel ↦ []
      | grpc_upstream ↦ record_status client w.status r.path r.method ∷ []
      | _ ↦ after_plain client d r w
    ]

module _ (a : Addresses) {S : Type 0} (server : Server a S) where
  abbrev challenge_passed : Option (ChallengeHandler S) → Option (S → Request → Bool)
  challenge_passed none = none
  challenge_passed (some h) = some h.passed

  abbrev pub check_credential : Bytes → S → Request → Credential S
  check_credential =
      credential_accepted server.verifiers (challenge_passed server.challenge_handler)

  abbrev pub enforce : UploadPolicy → S → Request → Enforced S
  enforce =
      enforce_upload_policy server.verifiers (challenge_passed server.challenge_handler)
        server.parse_media_type

  -- The program writes its own replies; any other target is a handler.
  abbrev run_handler : Target → S → Request → S × Response
  run_handler (replied _) s r = (s, record { status = 0; sets_cookie = false })
  run_handler t s r = server.respond t s r

  -- From the decision on: the handler answers and the tracker is told.
  unfoldable pub answer : Bytes → Option Best → Decision → S → Request → Served S
  answer client best d s r =
      let t = choose_target (is_some server.challenge_handler) (number_of best) d r in
      let (s', w) = run_handler t s r in
      record {
        state = s';
        request = r;
        target = t;
        decided = some d;
        body_limit = limit_of best;
        tracker_calls = tracker_calls server.has_tracker client d r t w;
      }

  -- The score, the decision and the authenticators. Credentials are looked at only for a request
  -- that is not to be tarpitted, and not again where the upload policy has accepted one.
  unfoldable pub judge : Option Best → Bool → S → Request → Served S
  judge best upload_auth s r =
      let client = resolve_client_ip a r server.trusted_proxies in
      let (s', total) = server.score client s r in
      let d = decide server.mode server.thresholds total in
      let c = check_credential (upload_verifier_policy (policy_of best)) s' r in
      if is_tarpit d
      then answer client best d s' r
      else if upload_auth
      then answer client best real s' r
      else answer client best (after_credentials d c.passed) c.state c.request

  abbrev pub stop : S → Request → Target → Served S
  stop s r t = record {
    state = (run_handler t s r).0;
    request = r;
    target = t;
    decided = none;
    body_limit = 0;
    tracker_calls = [];
  }

  abbrev pub enforced_on : Best → Enforced S → Served S
  enforced_on best e = elim e.blocked [
    | some reply ↦ stop e.state e.request (replied reply)
    | none ↦ judge (some best) e.auth_accepted e.state e.request
  ]

  unfoldable pub serve_upload : S → Request → Served S
  serve_upload s r = elim (match_upload_policy server.upload_policies r.path) [
    | none ↦ judge none false s r
    | some b ↦ enforced_on b (enforce b.policy s r)
  ]

  abbrev is_start : Option (ChallengeHandler S) → Bytes → Bool
  is_start none path = false
  is_start (some h) path = elim h.start_path [ none ↦ false | some p ↦ path == p ]

  -- The program's own endpoints, which are neither scored nor challenged.
  unfoldable pub own_endpoint : Request → Option Target
  own_endpoint r =
      if is_some server.challenge_handler && r.path == codes "/_g/verify"
      then some challenge_endpoint
      else if r.path == codes "/_g/config"
      then some discovery
      else if is_start server.challenge_handler r.path
      then some start_page
      else none

  unfoldable pub serve_framed : S → Request → Served S
  serve_framed s r =
      if is_preflight r
      then (if has_prefix r.path (codes "/_g/")
          then stop s r (replied (preflight_reply r))
          else stop s r upstream_preflight)
      else elim (own_endpoint r) [ some t ↦ stop s r t | none ↦ serve_upload s r ]

  unfoldable pub serve : S → Request → Served S
  serve s r = elim (reject_bad_request_framing r) [
    | some reply ↦ stop s r (replied reply)
    | none ↦ serve_framed s r
  ]
