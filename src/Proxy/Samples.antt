-- ===== src/Proxy/Samples.antt =====
-- Runs of the proxy: two servers, a few requests and connections, and the theorems at these.
use veilgate.Prelude.{
  runs, ℕ, ◌≡◌, ◌≤◌, ◌<◌, ◌↔◌, ◌⊎◌, refl, arith, true, false, not, ◌&&◌, ◌||◌, List, [], ◌∷◌, ◌++◌,
  Option, none, some, Bytes, codes, is_empty, all, cut, has_prefix, is_digit, ◌==◌, nat_eq,
  if◌then◌else◌, take,
}
use veilgate.Http.{Request, header_values, header_get}
use veilgate.Verifier.{Chain, verify}
use veilgate.Proxy.ClientIp.{
  Addresses, resolve_client_ip, resolve_client_ip-rightmost, peer_host, is_trusted_peer, is_client,
  ip_in_any,
}
use veilgate.Proxy.Decision.{
  auto_mode, challenge_mode, decide, Thresholds, diverted_iff, after_credentials, tarpit, challenge,
  tarpit_mode,
}
use veilgate.Proxy.Framing.{bad_http_request_framing}
use veilgate.Proxy.Framing.Smuggling.{OneFraming, is_http1, bad_http_request_framing_iff}
use veilgate.Proxy.Guard.{Read, Conn, accept, check_first_request, finish_check}
use veilgate.Proxy.Guard.Stream.{reads, bytes, Faithful}
use veilgate.Proxy.Guard.Verdict.{reads-accept, check_first_request_iff}
use veilgate.Proxy.Upload.{
  UploadPolicy, Best, match_upload_policy, scan_policies, scan_patterns, upload_path_matches,
  bad_request_framing, reject_bad_request_framing, transfer_codings, enforce_upload_policy,
  credential_accepted, upload_method_allowed, upload_content_type_allowed, media_type_of,
  declared_too_large,
}
use veilgate.Proxy.Upload.Choice.{FirstBest, hits, match_upload_policy-FirstBest}
use veilgate.Proxy.Upload.Demands.{Framed, Meets, enforce_upload_policy_iff}
use veilgate.Proxy.Upload.Limit.{LimitReader}
use veilgate.Proxy.Protocols.{
  is_websocket_upgrade, is_grpc, is_http2_websocket_connect, contains_fold,
}
use veilgate.Proxy.Serve.{
  Server, serve, serve_framed, serve_upload, judge, answer, choose_target, is_preflight,
  own_endpoint,
}
use veilgate.Proxy.Serve.Attack.{serve-attack}
use veilgate.Proxy.Serve.Passage.{reaches_upstream, Ways, serve-Passed}

-- Addresses of digits and dots; a network is what its addresses begin with.
abbrev addresses : Addresses
addresses = record {
  Ip = Bytes;
  Net = Bytes;
  split_host_port = λ s. elim (cut b':' s) [ none ↦ none | some (host, _) ↦ some host ];
  parse_ip = λ s. if not (is_empty s) && all (λ c. is_digit c || c == b'.') s then some s else none;
  contains_ip = λ n ip. has_prefix ip n;
}

abbrev request_with : Bytes → List (Bytes × Bytes) → Request
request_with path headers = record {
  method = codes "POST";
  path = path;
  remote_addr = codes "10.0.0.1:5000";
  proto_major = 1;
  proto_minor = 1;
  headers = headers;
  transfer_encoding = [];
  content_length = some 3;
  body = some (codes "abc");
}

abbrev forwarded : Request
forwarded = request_with (codes "/home") (
    (codes "Content-Length", codes "3")
    ∷ (codes "X-Forwarded-For", codes "1.1.1.1, 9.9.9.9, junk, 10.0.0.2")
    ∷ [])

abbrev upload : Request
upload = request_with (codes "/files/a") ((codes "Content-Type", codes "text/plain") ∷ [])

abbrev files : UploadPolicy
files = record {
  paths = codes "/files/*" ∷ [];
  methods = codes "post" ∷ [];
  max_body_bytes = 3;
  allowed_content_types = codes "text/" ∷ [];
  require_auth = false;
  verifier_policy = [];
}

abbrev media_type : Bytes → Option Bytes
media_type s = some s

abbrev thresholds : Thresholds
thresholds = record { challenge_at = 40; tarpit_at = 70 }

-- A server that scores every request the same.
abbrev scoring : ℕ → Server addresses ℕ
scoring total = record {
  mode = auto_mode;
  thresholds = thresholds;
  upload_policies = files ∷ [];
  trusted_proxies = codes "10." ∷ [];
  verifiers = none;
  challenge_handler = some (record { passed = λ s r. false; start_path = none });
  has_tracker = true;
  parse_media_type = media_type;
  score = λ client s r. (s, total);
  respond = λ t s r. (s, record { status = 200; sets_cookie = false });
}

tarpitted : reaches_upstream (serve addresses (scoring 90) 0 forwarded).target ≡ false
unfolding runs serve reject_bad_request_framing bad_request_framing transfer_codings header_get
    header_values serve_framed is_preflight own_endpoint serve_upload match_upload_policy
    scan_policies scan_patterns upload_path_matches judge decide answer choose_target
    is_http2_websocket_connect is_websocket_upgrade is_grpc contains_fold
tarpitted = refl

serve-Passed_example :
    Framed upload × Ways addresses (scoring 5) 0 upload (serve addresses (scoring 5) 0 upload)
unfolding runs serve reject_bad_request_framing bad_request_framing transfer_codings header_get
    header_values serve_framed is_preflight own_endpoint serve_upload match_upload_policy
    scan_policies scan_patterns upload_path_matches judge decide after_credentials answer
    choose_target is_http2_websocket_connect is_websocket_upgrade is_grpc contains_fold
    enforce_upload_policy credential_accepted upload_method_allowed upload_content_type_allowed
    media_type_of declared_too_large verify
serve-Passed_example = serve-Passed addresses (scoring 5) 0 upload refl

serve-attack_example : reaches_upstream (serve addresses (scoring 90) 0 forwarded).target ≡ false
unfolding runs is_preflight match_upload_policy scan_policies scan_patterns upload_path_matches
    decide
serve-attack_example = serve-attack addresses (scoring 90) 0 forwarded refl refl refl

resolve_client_ip-rightmost_example :
    resolve_client_ip addresses forwarded (codes "10." ∷ []) ≡ codes "9.9.9.9"
unfolding runs peer_host is_trusted_peer ip_in_any is_client header_get header_values
resolve_client_ip-rightmost_example =
    resolve_client_ip-rightmost addresses forwarded (codes "10." ∷ [])
      (codes "1.1.1.1, 9.9.9.9, junk, 10.0.0.2") [] (codes "1.1.1.1" ∷ []) (codes " 9.9.9.9")
      (codes " junk" ∷ codes " 10.0.0.2" ∷ []) refl refl refl refl refl (refl, (refl, tt))

diverted_iff_example :
    let d = after_credentials (decide auto_mode thresholds 50) false in
    ((d ≡ tarpit) ↔ (((auto_mode ≡ tarpit_mode) ⊎ (auto_mode ≡ auto_mode)) × (70 ≤ 50)))
    × ((d ≡ challenge) ↔ (
        (false ≡ false)
        × (40 ≤ 50)
        × ((auto_mode ≡ challenge_mode)
            ⊎ (((auto_mode ≡ tarpit_mode) ⊎ (auto_mode ≡ auto_mode)) × (50 < 70)))))
diverted_iff_example = diverted_iff auto_mode thresholds 50 false

-- two lengths
abbrev smuggled : Bytes
smuggled = codes "GET / HTTP/1.1\r\nContent-Length: 3\r\ncontent-length: 9"

bad_http_request_framing_iff_example : (bad_http_request_framing smuggled ≡ false) ↔ (
    (is_http1 (codes "GET / HTTP/1.1") ≡ false)
    ⊎ OneFraming
        (codes "GET / HTTP/1.1")
        (codes "Content-Length: 3" ∷ codes "content-length: 9" ∷ []))
unfolding runs
bad_http_request_framing_iff_example =
    bad_http_request_framing_iff smuggled (codes "GET / HTTP/1.1")
      (codes "Content-Length: 3" ∷ codes "content-length: 9" ∷ []) refl

abbrev chunk : Bytes → Read
chunk s = record { got = s; failed = false }

-- The second read ends the header block.
abbrev peer : List Read
peer = chunk (codes "GET / HTTP/1.1\r\nHost: a\r") ∷ chunk (codes "\n\r\nbody") ∷ []

abbrev attack : List Read
attack = chunk (smuggled ++ codes "\r\n\r\n") ∷ []

reads-accept_example :
    (out : Bytes) × (c : Conn) × (reads (10 ∷ 4096 ∷ 10 ∷ []) (accept false peer) ≡ some (out, c))
    × Faithful (bytes peer) out c
reads-accept_example = reads-accept false peer 10 (4096 ∷ 10 ∷ [])

check_first_request_iff_example :
    (c : Conn) × (check_first_request (record (accept false peer) { checked = true }) ≡ some c)
    × ((c.closed ≡ true) ↔ (bad_http_request_framing (take 23 (bytes peer)) ≡ true))
unfolding runs
check_first_request_iff_example =
    check_first_request_iff peer 23 (refl, (refl, tt)) refl (omega arith)

abbrev closed_attack : Conn
closed_attack =
    finish_check (record (accept false attack) { checked = true })
      (record { raw = bytes attack; failed = false; rest = [] })

match_upload_policy-FirstBest_example :
    ((match_upload_policy (files ∷ []) (codes "/files/a") ≡ none)
      × (hits 0 (files ∷ []) (codes "/files/a") ≡ []))
    ⊎ ((c : Best) × (match_upload_policy (files ∷ []) (codes "/files/a") ≡ some c)
        × FirstBest c (hits 0 (files ∷ []) (codes "/files/a")))
match_upload_policy-FirstBest_example =
    match_upload_policy-FirstBest (files ∷ []) (codes "/files/a")

abbrev no_verifiers : Chain ℕ
no_verifiers = none

enforce_upload_policy_iff_example :
    let o = enforce_upload_policy no_verifiers none media_type files 0 upload in
    ((o.blocked ≡ none) ↔ Meets no_verifiers none media_type files 0 upload)
    × ((o.auth_accepted ≡ true) ↔ ((o.blocked ≡ none) × (false ≡ true)))
enforce_upload_policy_iff_example =
    enforce_upload_policy_iff no_verifiers none media_type files 0 upload

abbrev body_reads : List Read
body_reads = chunk (codes "ab") ∷ chunk (codes "c") ∷ []

abbrev limited : LimitReader
limited = record { inner = body_reads; remaining = 3; exceeded = false }
