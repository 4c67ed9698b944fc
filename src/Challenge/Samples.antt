-- ===== src/Challenge/Samples.antt =====
-- Examples and tests for internal/challenge/challenge.go: hashes that forget what they are given or
-- hand it back, and a clock that writes times as digits.
use veilgate.Prelude.{
  ℕ, ◌≡◌, ◌≤◌, ◌+◌, ◌↔◌, refl, arith, true, false, none, some, List, [], ◌∷◌, Bytes, codes,
  is_empty, if◌then◌else◌, parse_uint, decimal, runs, inl, inr, digits_value, decimal_onto,
  hex_encode, parse_int64, trim_space, trim, trim_left, trim_right,
}
use veilgate.Http.{Request}
use veilgate.Verifier.Validators.{cookie, cookie_part, parse_cookie_value}
use veilgate.Challenge.{
  ChallengeRules, VerifyRequest, Clock, Env, Handler, new_handler, sign, minute, challenge_ttl,
  rules_ttl, normalized_difficulty, max1,
}
use veilgate.Challenge.Tokens.{new_token, valid_token, passed_under}
use veilgate.Challenge.Proof.{
  parse_nonce, is_solution, verify_pow, verify_decoded, verify_solution, load_or_store,
}
use veilgate.Challenge.Answers.{Arrival}
use veilgate.Challenge.Pages.{Templates, pose, compile_template}
use veilgate.Challenge.Handling.{serve_http, solved_answer}
use veilgate.Challenge.Lifetime.{valid_token_iff, passed_under-new_token, IsToken}
use veilgate.Challenge.Accepts.{verify_pow_iff, Accepts}
use veilgate.Challenge.Replay.{verify_pow-replay, seen_after}
use veilgate.Challenge.Compiled.{compile_template-parse, run}
use veilgate.Challenge.Solved.{serve_http-solved, serve_http-cookies_iff}

abbrev digits_clock : Clock
digits_clock = record {
  parse = parse_uint;
  format = decimal;
  parse_nano = parse_uint;
  format_nano = decimal;
}

-- A challenge "c", posed at time 5 and answered with 7.
abbrev proof_request : VerifyRequest
proof_request = record {
  challenge = codes "c";
  nonce = codes "7";
  ts = codes "5";
  sig = codes "706f773a633a35";
}

abbrev sample_env : Env
sample_env = record {
  crypto = record { sha256 = λ s. 0 ∷ []; hmac_sha256 = λ key s. s };
  clock = digits_clock;
  decode = λ s. if is_empty s then none else some proof_request;
  unquote = λ s. none;
}

abbrev sample_rules : ChallengeRules
sample_rules = record {
  difficulty = 1;
  token_ttl_minutes = 5;
  cookie_name = codes "vg";
  status_code = 0;
  content_type = [];
  verify_path = codes "/_g/verify";
  cookie_path = [];
  html_template = codes "page";
  cookie_domain = [];
  cookie_same_site = [];
  token_header_name = codes "X-App-Token";
  spa_aware_response = true;
  start_path = [];
  start_page_template = [];
}

abbrev sample_handler : Handler Bytes
sample_handler = record {
  secret = codes "k";
  max_ttl = 0;
  rules = sample_rules;
  tmpl = none;
  tmpl_src = [];
  seen_nonces = [];
}

abbrev sample_templates : Templates Bytes
sample_templates = record {
  parse = λ s. some s;
  execute = λ t fields. some t;
  start_page = λ s fields. some s;
  default_start_page = codes "start";
}

abbrev posted : List (Bytes × Bytes) → Request
posted headers = record {
  method = codes "POST";
  path = codes "/_g/verify";
  remote_addr = codes "203.0.113.9:4711";
  proto_major = 1;
  proto_minor = 1;
  headers = headers;
  transfer_encoding = [];
  content_length = some 2;
  body = some (codes "{}");
}

abbrev sample_arrival : ℕ → Arrival
sample_arrival now = record {
  host = codes "shop.example";
  over_tls = true;
  origin_param = [];
  now = now;
  random = some (1 ∷ 2 ∷ []);
}

valid_token_iff_example :
    (valid_token sample_env (codes "k") 60 (codes "5.35") sample_rules ≡ true) ↔ (
      (issued : ℕ) × IsToken sample_env (codes "k") (codes "5.35") issued
      × (60 ≤ issued + rules_ttl sample_rules))
valid_token_iff_example = valid_token_iff sample_env (codes "k") 60 (codes "5.35") sample_rules

-- A token that is right, and one with another signature.
valid_token_runs :
    (valid_token sample_env (codes "k") 60 (codes "5.35") sample_rules ≡ true)
    × (valid_token sample_env (codes "k") 60 (codes "5.36") sample_rules ≡ false)
    × (valid_token sample_env (codes "k") 300000000006 (codes "5.35") sample_rules ≡ false)
unfolding valid_token runs parse_uint digits_value decimal decimal_onto hex_encode sign
    challenge_ttl normalized_difficulty max1 is_solution parse_nonce parse_int64 trim_space trim
    trim_left trim_right verify_pow verify_decoded verify_solution load_or_store seen_after
valid_token_runs = (refl, refl, refl)

passed_under-new_token_example :
    passed_under sample_env
      (codes "k")
      60
      (posted ((codes "Cookie", codes "a=b; vg=5.35") ∷ []))
      sample_rules
    ≡ true
unfolding runs new_token decimal parse_uint cookie cookie_part parse_cookie_value sign hex_encode
passed_under-new_token_example =
    passed_under-new_token sample_env (codes "k") 5 5 60 sample_rules
      (posted ((codes "Cookie", codes "a=b; vg=5.35") ∷ [])) (refl, refl) refl (omega arith)

verify_pow_iff_example :
    ((verify_pow sample_env (codes "k") 0 sample_rules 60 [] (posted [])).ok ≡ true)
    ↔ Accepts sample_env (codes "k") 0 sample_rules 60 [] (posted [])
verify_pow_iff_example = verify_pow_iff sample_env (codes "k") 0 sample_rules 60 [] (posted [])

verify_pow_runs :
    ((verify_pow sample_env (codes "k") 0 sample_rules 60 [] (posted [])).ok ≡ true)
    × ((verify_pow sample_env (codes "k") 0 sample_rules 300000000006 [] (posted [])).ok ≡ false)
unfolding runs parse_uint digits_value decimal decimal_onto hex_encode sign challenge_ttl
    normalized_difficulty max1 is_solution parse_nonce parse_int64 trim_space trim trim_left
    trim_right verify_pow verify_decoded verify_solution load_or_store seen_after
verify_pow_runs = (refl, refl)

verify_pow-replay_example :
    (verify_pow sample_env
      (codes "k")
      0
      sample_rules
      100
      (seen_after sample_env
        (codes "k")
        0
        sample_rules
        ((80, posted []) ∷ [])
        (verify_pow sample_env
          (codes "k")
          0
          sample_rules
          60
          (seen_after sample_env (codes "k") 0 sample_rules [] [])
          (posted [])).seen)
      (posted [])).ok
    ≡ false
unfolding runs parse_uint digits_value decimal decimal_onto hex_encode sign challenge_ttl
    normalized_difficulty max1 is_solution parse_nonce parse_int64 trim_space trim trim_left
    trim_right verify_pow verify_decoded verify_solution load_or_store seen_after
verify_pow-replay_example =
    verify_pow-replay sample_env (codes "k") 0 sample_rules [] ((80, posted []) ∷ []) 60 100
      (posted []) (posted []) (codes "c") 5 7 (proof_request, refl, refl, refl, refl)
      (proof_request, refl, refl, refl, refl) (omega arith) (omega arith, tt) refl

serve_http-solved_example :
    (serve_http sample_env sample_templates (sample_arrival 60) sample_handler (posted [])).1
    ≡ solved_answer sample_rules
        (sample_arrival 60)
        (posted [])
        (new_token sample_env (codes "k") 60)
        (challenge_ttl 0 sample_rules)
unfolding pose runs parse_uint digits_value decimal decimal_onto hex_encode sign challenge_ttl
    normalized_difficulty max1 is_solution parse_nonce parse_int64 trim_space trim trim_left
    trim_right verify_pow verify_decoded verify_solution load_or_store seen_after
serve_http-solved_example =
    serve_http-solved sample_env sample_templates (sample_arrival 60) sample_handler (posted []) 5 7
      (codes "c") proof_request refl refl refl refl (refl, refl, refl, refl, refl) refl
      (omega arith) (omega arith) refl

serve_http-cookies_iff_example :
    (is_empty
        (serve_http sample_env sample_templates
          (sample_arrival 60)
          sample_handler
          (posted [])).1.cookies
      ≡ false)
    ↔ ((codes "/_g/verify" ≡ codes "/_g/verify")
        × (codes "POST" ≡ codes "POST")
        × Accepts sample_env (codes "k") 0 sample_rules 60 [] (posted []))
serve_http-cookies_iff_example =
    serve_http-cookies_iff sample_env sample_templates (sample_arrival 60) sample_handler
      (posted [])

compile_template-parse_example :
    (compile_template sample_templates (codes "other") (
      run sample_templates sample_env
        (inr (sample_arrival 1, posted [])
          ∷ inl (some sample_rules)
          ∷ inr (sample_arrival 2, posted [])
          ∷ [])
        (new_handler (codes "k") 2 minute 0))).1
    ≡ some (codes "other")
compile_template-parse_example =
    compile_template-parse sample_templates sample_env
      (inr (sample_arrival 1, posted [])
        ∷ inl (some sample_rules)
        ∷ inr (sample_arrival 2, posted [])
        ∷ [])
      (codes "k") 2 minute 0 (codes "other")
