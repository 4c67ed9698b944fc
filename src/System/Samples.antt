-- ===== src/System/Samples.antt =====
-- Examples of the proxy, the scorer and the challenge handler at work together.
use veilgate.Prelude.{
  ◌≡◌, inl, inr, not, refl, arith, true, false, none, some, [], ◌∷◌, Bytes, codes, runs, parse_uint,
  decimal, hex_encode, if◌then◌else◌,
}
use veilgate.Http.{Request}
use veilgate.Verifier.Validators.{cookie, cookie_part, parse_cookie_value}
use veilgate.Proxy.ClientIp.{Addresses}
use veilgate.Proxy.Decision.{auto_mode, tarpit, real, is_tarpit}
use veilgate.Proxy.Protocols.{is_http2_websocket_connect}
use veilgate.Proxy.Upload.{bad_request_framing, match_upload_policy, scan_policies}
use veilgate.Proxy.Serve.{Server, is_preflight, serve, own_endpoint}
use veilgate.Proxy.Serve.Passage.{reaches_upstream, scored}
use veilgate.Challenge.{ChallengeRules, Env, sign}
use veilgate.Challenge.Tokens.{new_token}
use veilgate.Detector.Tracker.{new_tracker}
use veilgate.Detector.Fleet.{new_fleet_tracker}
use veilgate.Detector.Scorer.{Markers, Tier, BehaviouralRules, DetectorRules, no_signal}
use veilgate.Detector.Scorer.Total.{ScorerConfig, Callees}
use veilgate.System.{SystemState, Wiring, wired}
use veilgate.System.Decisions.{serve-honeypot, serve-solved}

-- Addresses are texts, and a network is a list of them.
abbrev texts : Addresses
texts = record {
  Ip = Bytes;
  Net = Bytes;
  split_host_port = λ s. some s;
  parse_ip = λ s. some s;
  contains_ip = λ n s. false;
}

abbrev no_markers : Markers
no_markers = record { points = 0; substrings = []; headers = [] }

abbrev no_tier : Tier
no_tier = record { at = 0; points = 0 }

abbrev no_thresholds : veilgate.Detector.Scorer.Thresholds
no_thresholds = record { min = 0; window_minutes = 0; low = no_tier; mid = no_tier; high = no_tier }

abbrev no_behaviour : BehaviouralRules
no_behaviour = record {
  schema_paths = [];
  auth_path_patterns = [];
  check_limit = 0;
  schema_first_points = 0;
  cache_miss = no_thresholds;
  header_mutation = no_thresholds;
  auth_probe = no_thresholds;
  no_cookie_min = 0;
  no_cookie_points = 0;
  single_points = 0;
  multi_points = 0;
  triple_points = 0;
}

abbrev detector_rules : DetectorRules
detector_rules = record {
  suspicious_user_agents = no_markers;
  browser_hints = [];
  browser_tiers = [];
  empty_user_agent = 0;
  toolchain = record {
    recon_paths = [];
    probe_paths = [];
    exploit_markers = [];
    full = 0;
    partial = 0;
  };
  path_bruteforce = [];
  wordlist_paths = no_markers;
  injection_markers = no_markers;
  oob_interaction = no_markers;
  behavioural = no_behaviour;
}

abbrev sample_config : ScorerConfig
sample_config = record {
  honeypot_paths = codes "/.env" ∷ [];
  trusted_ips = [];
  rules = detector_rules;
  ua_rotation = record { enabled = false; distinct_uas_for_fire = 0; points = 0 };
  fleet_rotation = record { enabled = false; window_seconds = 0; max_fingerprints = 0; tiers = [] };
  signals = none;
}

abbrev nothing_found : Callees
nothing_found = record {
  sha1 = λ s. s;
  family = λ s. s;
  classify = λ s. none;
  tls = λ s. none;
  h2 = λ s. none;
  timing = λ es. no_signal;
  regex = λ p s. false;
  blueprint = λ s. none;
  extract = λ s. [];
  cookies = λ r. [];
  hit_canary = λ s. none;
  learner = λ r st. none;
}

abbrev sample_env : Env
sample_env = record {
  crypto = record { sha256 = λ s. 0 ∷ []; hmac_sha256 = λ key s. s };
  clock = record {
    parse = parse_uint;
    format = decimal;
    parse_nano = parse_uint;
    format_nano = decimal;
  };
  decode = λ s. none;
  unquote = λ s. none;
}

abbrev sample_rules : ChallengeRules
sample_rules = record {
  difficulty = 1;
  token_ttl_minutes = 5;
  cookie_name = codes "vg";
  status_code = 0;
  content_type = [];
  verify_path = codes "/_g/verify";
  cookie_path = [];
  html_template = [];
  cookie_domain = [];
  cookie_same_site = [];
  token_header_name = [];
  spa_aware_response = false;
  start_path = [];
  start_page_template = [];
}

abbrev sample_state : SystemState Bytes
sample_state = record {
  scorer = record { tracker = new_tracker 600; fleet = new_fleet_tracker 600 100 };
  handler = record {
    secret = codes "k";
    max_ttl = 0;
    rules = sample_rules;
    tmpl = none;
    tmpl_src = [];
    seen_nonces = [];
  };
}

abbrev sample_wiring : Wiring
sample_wiring = record {
  config = sample_config;
  callees = nothing_found;
  env = sample_env;
  parts = λ r. record { raw_query = []; query = []; host = []; request_uri = r.path };
  now = 60;
  start_path = none;
}

abbrev sample_server : Server texts (SystemState Bytes)
sample_server = record {
  mode = auto_mode;
  thresholds = record { challenge_at = 20; tarpit_at = 50 };
  upload_policies = [];
  trusted_proxies = [];
  verifiers = none;
  challenge_handler = none;
  has_tracker = true;
  parse_media_type = λ s. none;
  score = λ client s r. (s, 0);
  respond = λ t s r. (s, record { status = 200; sets_cookie = false });
}

abbrev carrying_token : Bytes → Request
carrying_token path = record {
  method = codes "GET";
  path = path;
  remote_addr = codes "198.51.100.7";
  proto_major = 1;
  proto_minor = 1;
  headers = (codes "Cookie", codes "vg=5.35") ∷ [];
  transfer_encoding = [];
  content_length = some 0;
  body = none;
}

serve-honeypot_example :
    reaches_upstream
      (serve texts
        (wired sample_wiring sample_server)
        sample_state
        (carrying_token (codes "/.env"))).target
    ≡ false
unfolding runs is_preflight match_upload_policy scan_policies
serve-honeypot_example =
    serve-honeypot texts sample_wiring sample_server sample_state (carrying_token (codes "/.env"))
      (inr refl) (omega arith) refl refl refl refl refl

serve-solved_example :
    let o =
      serve texts
        (wired sample_wiring sample_server)
        sample_state
        (carrying_token (codes "/home")) in
    let trapped = is_tarpit (
      scored texts
        (wired sample_wiring sample_server)
        sample_state
        (carrying_token (codes "/home"))) in
    (o.decided ≡ some (if trapped then tarpit else real))
    × (reaches_upstream o.target ≡ not trapped)
unfolding runs new_token decimal parse_uint cookie cookie_part parse_cookie_value sign hex_encode
    bad_request_framing is_preflight own_endpoint match_upload_policy is_http2_websocket_connect
serve-solved_example =
    serve-solved texts sample_wiring sample_server sample_state (carrying_token (codes "/home")) 5 5
      refl (refl, refl) (inl refl) (omega arith) refl refl refl refl refl
