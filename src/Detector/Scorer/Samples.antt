-- ===== src/Detector/Scorer/Samples.antt =====
-- Examples and tests for the scorers: a scorer with one honeypot path and quiet databases.
use veilgate.Prelude.{
  ◌≡◌, ◌≤◌, ◌↔◌, refl, arith, false, Option, none, some, List, [], ◌∷◌, Bytes, codes, runs, All,
  length,
}
use veilgate.Proxy.Decision.{Thresholds}
use veilgate.Detector.Tracker.{ClientEvent, new_tracker}
use veilgate.Detector.Fleet.{new_fleet_tracker}
use veilgate.Detector.Scorer.{
  Markers, Tier, ToolchainRules, BehaviouralRules, DetectorRules, Hit, no_signal,
}
use veilgate.Detector.Scorer.Custom.{Signals}
use veilgate.Detector.Scorer.Toolchain.{
  pipeline, stages_after, follows, score_toolchain_hmm, neighbours,
}
use veilgate.Detector.Scorer.Behaviour.{count_double_enc, count_from}
use veilgate.Detector.Scorer.Total.{ScorerConfig, ScorerState, Callees, score}
use veilgate.Detector.Scorer.Bounds.{Enabled, score-Enabled}
use veilgate.Detector.Scorer.Memory.{ScorerCall, scoring, tracking, collecting_fleet, scored_all}
use veilgate.Detector.Tracker.Bounds.{status_of, gc}
use veilgate.Detector.Scorer.Honeypots.{score-honeypot}
use veilgate.Detector.Scorer.Sequences.{Subsequence, score_toolchain_hmm_iff}

abbrev no_markers : Markers
no_markers = record { points = 0; substrings = []; headers = [] }

abbrev no_tier : Tier
no_tier = record { at = 0; points = 0 }

abbrev no_thresholds : veilgate.Detector.Scorer.Thresholds
no_thresholds = record { min = 0; window_minutes = 0; low = no_tier; mid = no_tier; high = no_tier }

abbrev quiet_behaviour : BehaviouralRules
quiet_behaviour = record {
  schema_paths = [];
  auth_path_patterns = [];
  check_limit = 0;
  schema_first_points = 0;
  cache_miss = no_thresholds;
  header_mutation = no_thresholds;
  auth_probe = no_thresholds;
  no_cookie_min = 0;
  no_cookie_points = 0;
  single_points = 0;
  multi_points = 0;
  triple_points = 0;
}

abbrev quiet_rules : DetectorRules
quiet_rules = record {
  suspicious_user_agents = no_markers;
  browser_hints = [];
  browser_tiers = [];
  empty_user_agent = 0;
  toolchain = record {
    recon_paths = [];
    probe_paths = [];
    exploit_markers = [];
    full = 0;
    partial = 0;
  };
  path_bruteforce = [];
  wordlist_paths = no_markers;
  injection_markers = no_markers;
  oob_interaction = no_markers;
  behavioural = quiet_behaviour;
}

abbrev with_signals : Option Signals → ScorerConfig
with_signals signals = record {
  honeypot_paths = codes "/.env" ∷ [];
  trusted_ips = codes "10.0.0.1" ∷ [];
  rules = quiet_rules;
  ua_rotation = record { enabled = false; distinct_uas_for_fire = 0; points = 0 };
  fleet_rotation = record { enabled = false; window_seconds = 0; max_fingerprints = 0; tiers = [] };
  signals = signals;
}

-- A registry that has the honeypot's signal off.
abbrev honeypot_off : Signals
honeypot_off = record {
  signals = (codes "honeypot_hit", record { enabled = false; points = 0 }) ∷ [];
  custom_signals = [];
}

abbrev quiet : Callees
quiet = record {
  sha1 = λ s. s;
  family = λ s. s;
  classify = λ s. none;
  tls = λ s. none;
  h2 = λ s. none;
  timing = λ es. no_signal;
  regex = λ p s. false;
  blueprint = λ s. none;
  extract = λ s. [];
  cookies = λ r. [];
  hit_canary = λ s. none;
  learner = λ r st. none;
}

abbrev asking_for : Bytes → Hit
asking_for path = record {
  request = record {
    method = codes "GET";
    path = path;
    remote_addr = codes "203.0.113.9:4711";
    proto_major = 1;
    proto_minor = 1;
    headers = [];
    transfer_encoding = [];
    content_length = some 0;
    body = none;
  };
  raw_query = [];
  query = [];
  host = codes "shop.example";
  request_uri = path;
}

abbrev fresh_scorer : ScorerState
fresh_scorer = record { tracker = new_tracker 600; fleet = new_fleet_tracker 600 100 }

abbrev sample_thresholds : Thresholds
sample_thresholds = record { challenge_at = 40; tarpit_at = 70 }

score-Enabled_example :
    All
      (Enabled honeypot_off.signals)
      (score
        (with_signals (some honeypot_off))
        quiet
        5
        (codes "198.51.100.7")
        (asking_for (codes "/.env"))
        fresh_scorer).1.signals
unfolding runs
score-Enabled_example =
    score-Enabled (with_signals (some honeypot_off)) quiet 5 (codes "198.51.100.7")
      (asking_for (codes "/.env")) fresh_scorer honeypot_off refl refl

-- Another client, the status of the first one's answer, and both collections.
abbrev between : List ScorerCall
between =
    scoring 7 (codes "192.0.2.4") (asking_for (codes "/"))
    ∷ tracking (status_of (codes "198.51.100.7") 404 (codes "/.env") (codes "GET"))
    ∷ tracking (gc 30 60)
    ∷ collecting_fleet 30 60
    ∷ []

score-honeypot_example :
    (50
      ≤ (score
          (with_signals none)
          quiet
          5
          (codes "198.51.100.7")
          (asking_for (codes "/.env"))
          fresh_scorer).1.total)
    × (80
        ≤ (score (with_signals none) quiet 9 (codes "198.51.100.7") (asking_for (codes "/.env")) (
            scored_all
              (with_signals none)
              quiet
              between
              (score
                (with_signals none)
                quiet
                5
                (codes "198.51.100.7")
                (asking_for (codes "/.env"))
                fresh_scorer).0)).1.total)
unfolding runs
score-honeypot_example =
    score-honeypot (with_signals none) quiet 5 9 (codes "198.51.100.7") (asking_for (codes "/.env"))
      (asking_for (codes "/.env")) fresh_scorer between refl refl refl refl
      (omega arith, (tt, (omega arith, tt)))

abbrev staged : Bytes → ClientEvent
staged stage = record {
  timestamp = 1;
  path = [];
  query = [];
  method = [];
  status = 0;
  user_agent = [];
  ja4 = [];
  sec_fetch_dest = [];
  has_cookie = false;
  tool_stage = stage;
  header_bitmap = [];
  has_conditional = false;
  has_origin_header = false;
}

abbrev attack : List ClientEvent
attack =
    staged (codes "recon")
    ∷ staged []
    ∷ staged (codes "recon")
    ∷ staged (codes "probe")
    ∷ staged (codes "exploit")
    ∷ []

attack_runs : (score_toolchain_hmm attack).points ≡ 20
unfolding runs score_toolchain_hmm stages_after follows neighbours
attack_runs = refl

score_toolchain_hmm_iff_example :
    ((score_toolchain_hmm attack).points ≡ 20)
    ↔ ((5 ≤ length attack) × Subsequence pipeline (stages_after [] attack))
score_toolchain_hmm_iff_example = score_toolchain_hmm_iff attack

count_double_enc_runs : count_double_enc (codes "/a%252e%25%252f") ≡ 2
unfolding count_from
count_double_enc_runs = refl
