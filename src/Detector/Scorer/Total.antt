-- ===== src/Detector/Scorer/Total.antt =====
-- internal/detector/scorer.go: `Score`, all signals of a request and their total. What the scorer
-- calls elsewhere, and what works on floating-point numbers, is an argument. A call takes place at one
-- time. Training the learner is left out.
use veilgate.Prelude.{
  ℕ, ◌+◌, Bool, not, ◌&&◌, ◌||◌, Option, none, some, List, [], ◌∷◌, ◌++◌, Bytes, codes, ltb, ◌==◌,
  nat_eq, ◌*◌, bytes_eq, if◌then◌else◌, is_empty, any, filter, map, trim_space, lookup, insert,
}
use veilgate.Http.{Request, header_get}
use veilgate.Detector.Tracker.{ClientEvent, ClientState, Tracker, record_request, state_of}
use veilgate.Detector.Fleet.{FleetTracker, new_fleet_tracker}
use veilgate.Detector.Scorer.{Signal, signal, Score, Hit, DetectorRules, user_agent}
use veilgate.Detector.Scorer.Headers.{
  Classified, score_headers, score_user_agent, score_sec_fetch, score_accept_encoding,
  score_h3_mismatch, score_h2, mutation_bitmap,
}
use veilgate.Detector.Scorer.Toolchain.{
  score_toolchain, score_toolchain_hmm, score_path_bruteforce, score_wordlist_path, score_injection,
  score_oob, classify_tool_stage,
}
use veilgate.Detector.Scorer.Session.{
  score_request_graph, score_cookie_ecology, score_fanout, score_failure_recovery,
  score_bundle_mining, score_canary_replay, canary_candidates,
}
use veilgate.Detector.Scorer.Behaviour.{
  score_schema_first, score_header_mutation, score_cache_miss_anomaly, score_no_cookie_return,
  score_encoding_chain, score_auth_probe_sequence,
}
use veilgate.Detector.Scorer.Network.{
  UaRotation, FleetRotation, score_tls, score_ip_reputation, score_fleet_rotation,
  score_ua_rotation,
}
use veilgate.Detector.Scorer.Custom.{
  Signals, apply_signal_config, score_custom_signals, score_api_blueprint_miss,
}

-- What a scorer is configured with, less what it calls.
pub record ScorerConfig : Type 0 where
  pub honeypot_paths : List Bytes
  pub trusted_ips : List Bytes
  pub rules : DetectorRules
  pub ua_rotation : UaRotation
  pub fleet_rotation : FleetRotation
  pub signals : Option Signals

-- What changes from call to call.
pub record ScorerState : Type 0 where
  pub tracker : Tracker
  pub fleet : FleetTracker

-- What the scorer calls: the hash and the reduction of user agents of the fleet tracker, the
-- databases (`none` for no match, or where they are not wired), the timing heuristic, regular
-- expressions, the canaries, the cookies' values and the learner.
pub record Callees : Type 0 where
  pub sha1 : Bytes → Bytes
  pub family : Bytes → Bytes
  pub classify : Bytes → Option (Bytes × ℕ)
  pub tls : Bytes → Option Classified
  pub h2 : Bytes → Option Classified
  pub timing : List ClientEvent → Signal
  pub regex : Bytes → Bytes → Bool
  pub blueprint : Bytes → Option (Bool × Bool)
  pub extract : Bytes → List Bytes
  pub cookies : Request → List Bytes
  pub hit_canary : Bytes → Option Bytes
  pub learner : Request → ClientState → Option Signal

-- `NewScorer`: blank entries of the trusted addresses are dropped.
unfoldable pub trusted_of : List Bytes → List Bytes
trusted_of ips = filter (λ ip. not (is_empty ip)) (map trim_space ips)

-- `SetIPReputation` on the fleet tracker, whose times are nanoseconds here: another window makes a
-- new one.
unfoldable pub resized : FleetRotation → FleetTracker → FleetTracker
resized cfg fleet =
    if ltb 0 cfg.window_seconds && not (cfg.window_seconds * 1000000000 == fleet.window)
    then new_fleet_tracker (cfg.window_seconds * 1000000000) cfg.max_fingerprints
    else fleet

-- The event that `Score` records.
unfoldable pub event_of : DetectorRules → ℕ → Hit → ClientEvent
event_of rules now hit =
    let r = hit.request in
    record {
      timestamp = now;
      path = r.path;
      query = hit.raw_query;
      method = r.method;
      status = 0;
      user_agent = user_agent r;
      ja4 = [];
      sec_fetch_dest = header_get (codes "Sec-Fetch-Dest") r;
      has_cookie = not (is_empty (header_get (codes "Cookie") r));
      tool_stage = classify_tool_stage rules.toolchain hit;
      header_bitmap = mutation_bitmap r;
      has_conditional =
          not (is_empty (header_get (codes "If-None-Match") r))
          || not (is_empty (header_get (codes "If-Modified-Since") r));
      has_origin_header = not (is_empty (header_get (codes "Origin") r));
    }

abbrev pub put_client : Bytes → ClientState → Tracker → Tracker
put_client id st t = record t { clients = insert id st t.clients }

abbrev pub is_honeypot : ScorerConfig → Request → Bool
is_honeypot cfg r = any (λ p. p == r.path) cfg.honeypot_paths

-- The state with one more hit of a honeypot, where the request is one.
unfoldable pub honeypotted : Bool → ClientState → ClientState
honeypotted hit st = if hit then record st { honeypot_hits = st.honeypot_hits + 1 } else st

-- The points of such a hit, the first of the client's or a later one.
unfoldable pub honeypot_signals : Bool → ClientState → List Signal
honeypot_signals hit st =
    if hit
    then signal (codes "honeypot_hit") (if ltb 1 st.honeypot_hits then 80 else 50)
        (codes "requested path in honeypot list")
      ∷ []
    else []

-- A signal counts where it has points.
abbrev pub fired : List Signal → List Signal
fired sigs = filter (λ (s : Signal). ltb 0 s.points) sigs

abbrev customs : (Bytes → Bytes → Bool) → Option Signals → Hit → List Signal
customs regex none hit = []
customs regex (some sg) hit = score_custom_signals regex sg.custom_signals hit

abbrev given : Option Signal → List Signal
given none = []
given (some s) = s ∷ []

abbrev pub configured_by : Option Signals → List Signal → List Signal
configured_by none sigs = sigs
configured_by (some sg) sigs = apply_signal_config sg.signals sigs

unfoldable pub points_of : List Signal → ℕ
points_of [] = 0
points_of (s ∷ sigs) = s.points + points_of sigs

-- The total is at most 100.
abbrev pub capped : ℕ → ℕ
capped n = if ltb 100 n then 100 else n

module _ (cfg : ScorerConfig) (callees : Callees) where
  -- The signals that need no fleet tracker, before and after the one that does.
  unfoldable pub early_signals : Bytes → Hit → ClientState → List Signal
  early_signals client hit st =
      let r = hit.request in
      fired (
        score_headers cfg.rules r
        ∷ score_user_agent cfg.rules r
        ∷ callees.timing st.events
        ∷ score_toolchain cfg.rules.toolchain st.events
        ∷ score_path_bruteforce cfg.rules st.events
        ∷ score_wordlist_path cfg.rules r
        ∷ score_injection cfg.rules hit
        ∷ score_oob cfg.rules hit
        ∷ score_ip_reputation (callees.classify client)
        ∷ [])

  unfoldable pub late_signals : ℕ → Hit → ClientState → List Signal
  late_signals now hit st =
      let r = hit.request in
      let b = cfg.rules.behavioural in
      fired (
        score_ua_rotation cfg.ua_rotation st
        ∷ score_tls (callees.tls r.remote_addr)
        ∷ score_h2 (callees.h2 r.remote_addr)
        ∷ score_sec_fetch r
        ∷ score_accept_encoding r
        ∷ score_h3_mismatch r
        ∷ score_request_graph st
        ∷ score_cookie_ecology st
        ∷ score_fanout now st
        ∷ score_failure_recovery st r
        ∷ score_toolchain_hmm st.events
        ∷ score_bundle_mining now st
        ∷ score_header_mutation b st
        ∷ score_schema_first b st.events
        ∷ score_cache_miss_anomaly b st.events
        ∷ score_no_cookie_return b st
        ∷ score_encoding_chain b hit
        ∷ score_auth_probe_sequence b st.events
        ∷ [])

  unfoldable pub last_signals : Bytes → Hit → ClientState → List Signal
  last_signals client hit st =
      customs callees.regex cfg.signals hit
      ++ (fired (
            score_api_blueprint_miss (callees.blueprint hit.request.path)
            ∷ score_canary_replay callees.hit_canary client
                (canary_candidates callees.extract (callees.cookies hit.request) hit)
            ∷ [])
          ++ given (callees.learner hit.request st))

  abbrev pub ja4_of : Request → Bytes
  ja4_of r = header_get (codes "X-Veilgate-JA4") r

  unfoldable pub further_signals : ℕ → Bytes → Hit → ClientState → Signal → List Signal
  further_signals now client hit st fleet_signal =
      early_signals client hit st
      ++ (fired (fleet_signal ∷ []) ++ (late_signals now hit st ++ last_signals client hit st))

  -- The signals, before the registry has its say.
  abbrev pub raw_signals : ℕ → Bytes → Hit → ClientState → Signal → List Signal
  raw_signals now client hit st fleet_signal =
      honeypot_signals (is_honeypot cfg hit.request) st
      ++ further_signals now client hit st fleet_signal

  abbrev pub all_signals : ℕ → Bytes → Hit → ClientState → Signal → List Signal
  all_signals now client hit st fleet_signal =
      configured_by cfg.signals (raw_signals now client hit st fleet_signal)

  abbrev pub is_trusted : Bytes → Bool
  is_trusted client = any (λ ip. ip == client) cfg.trusted_ips

  abbrev trusted_score : Score
  trusted_score = record {
    total = 0;
    signals = signal (codes "trusted_ip") 0 (codes "allowlisted") ∷ [];
  }

  -- From the client's state on, after the request is recorded.
  unfoldable pub score_client : ℕ → Bytes → Hit → ScorerState → ClientState → ScorerState × Score
  score_client now client hit s st =
      let (fleet', fleet_signal) =
        score_fleet_rotation callees.sha1 callees.family cfg.fleet_rotation now client
          (ja4_of hit.request) hit.request s.fleet in
      let sigs = all_signals now client hit st fleet_signal in
      let total = capped (points_of sigs) in
      (
        record {
          tracker = put_client client (record st { score = total }) s.tracker;
          fleet = fleet';
        },
        record { total = total; signals = sigs },
      )

  -- `Score`
  unfoldable pub score : ℕ → Bytes → Hit → ScorerState → ScorerState × Score
  score now client hit s =
      let tracker' = record_request client (event_of cfg.rules now hit) s.tracker in
      let st =
        honeypotted (is_honeypot cfg hit.request) (state_of (lookup client tracker'.clients) now) in
      if is_trusted client
      then (s, trusted_score)
      else score_client now client hit (record { tracker = tracker'; fleet = s.fleet }) st
