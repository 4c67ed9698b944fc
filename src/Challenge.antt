-- ===== src/Challenge.antt =====
-- internal/challenge/challenge.go and `ChallengeRules` of internal/rules/extra_loaders.go: the
-- proof-of-work challenge. Times and durations are nanoseconds; a negative number of the source
-- counts as 0, which the program treats alike. Arithmetic on durations is not wrapped: it stays
-- below 2^63 for lifetimes up to 292 years.
pub mod Tokens
pub mod Proof
pub mod Accepts
pub mod Replay
pub mod Answers
pub mod Pages
pub mod Handling
pub mod Lifetime
pub mod Compiled
pub mod Solved
mod Samples
use veilgate.Prelude.{
  ℕ, ◌*◌, ◌/◌, Bool, false, Option, none, some, List, [], ◌++◌, Bytes, codes, ltb, if◌then◌else◌,
  is_empty, Map, hex_encode,
}
use veilgate.Verifier.Disk.{Crypto}

abbrev pub second : ℕ
second = 1000000000

abbrev pub minute : ℕ
minute = 60000000000

pub record ChallengeRules : Type 0 where
  pub difficulty : ℕ
  pub token_ttl_minutes : ℕ
  pub cookie_name : Bytes
  pub status_code : ℕ
  pub content_type : Bytes
  pub verify_path : Bytes
  pub cookie_path : Bytes
  pub html_template : Bytes
  pub cookie_domain : Bytes
  pub cookie_same_site : Bytes
  pub token_header_name : Bytes
  pub spa_aware_response : Bool
  pub start_path : Bytes
  pub start_page_template : Bytes

-- What the client posts. `nonce` is the raw JSON of the field, empty where it is absent.
pub record VerifyRequest : Type 0 where
  pub challenge : Bytes
  pub nonce : Bytes
  pub ts : Bytes
  pub sig : Bytes

-- package time: the layouts RFC3339 and RFC3339Nano; `none` for an error
pub record Clock : Type 0 where
  pub parse : Bytes → Option ℕ
  pub format : ℕ → Bytes
  pub parse_nano : Bytes → Option ℕ
  pub format_nano : ℕ → Bytes

-- What the handler calls of the standard library: the hashes, the clock's layouts, the JSON decoder
-- that allows no unknown field, and `strconv.Unquote`.
pub record Env : Type 0 where
  pub crypto : Crypto
  pub clock : Clock
  pub decode : Bytes → Option VerifyRequest
  pub unquote : Bytes → Option Bytes

-- the entries of `seenNonces`
abbrev pub Seen : Type 0
Seen = Map Bytes ℕ

-- `T` is a compiled template. `seen_nonces` has the time at which each entry expires.
pub record Handler (T : Type 0) : Type 0 where
  pub secret : Bytes
  pub max_ttl : ℕ
  pub rules : ChallengeRules
  pub tmpl : Option T
  pub tmpl_src : Bytes
  pub seen_nonces : Seen

abbrev empty_rules : ChallengeRules
empty_rules = record {
  difficulty = 0;
  token_ttl_minutes = 0;
  cookie_name = [];
  status_code = 0;
  content_type = [];
  verify_path = [];
  cookie_path = [];
  html_template = [];
  cookie_domain = [];
  cookie_same_site = [];
  token_header_name = [];
  spa_aware_response = false;
  start_path = [];
  start_page_template = [];
}

-- The overrides of both constructors, where they are not zero.
unfoldable pub overridden : ℕ → ℕ → ChallengeRules → ChallengeRules
overridden difficulty ttl cr = record {
  difficulty = if ltb 0 difficulty then difficulty else cr.difficulty;
  token_ttl_minutes = if ltb 0 ttl then ttl / minute else cr.token_ttl_minutes;
  cookie_name = cr.cookie_name;
  status_code = cr.status_code;
  content_type = cr.content_type;
  verify_path = cr.verify_path;
  cookie_path = cr.cookie_path;
  html_template = cr.html_template;
  cookie_domain = cr.cookie_domain;
  cookie_same_site = cr.cookie_same_site;
  token_header_name = cr.token_header_name;
  spa_aware_response = cr.spa_aware_response;
  start_path = cr.start_path;
  start_page_template = cr.start_page_template;
}

module _ {T : Type 0} where
  abbrev handler_of : Bytes → ℕ → ChallengeRules → Handler T
  handler_of secret max_ttl cr = record {
    secret = secret;
    max_ttl = max_ttl;
    rules = cr;
    tmpl = none;
    tmpl_src = [];
    seen_nonces = [];
  }

  -- `NewHandler`
  unfoldable pub new_handler : Bytes → ℕ → ℕ → ℕ → Handler T
  new_handler secret difficulty ttl max_ttl =
      handler_of secret max_ttl (overridden difficulty ttl empty_rules)

  -- `NewHandlerFromDir`, with the loader of the rules as an argument; `none` for its error.
  unfoldable pub new_handler_from_dir :
      (Bytes → Option ChallengeRules) → Bytes → Bytes → ℕ → ℕ → ℕ → Option (Handler T)
  new_handler_from_dir load secret dir difficulty ttl max_ttl = elim (load dir) [
    | none ↦ none
    | some cr ↦ some (handler_of secret max_ttl (overridden difficulty ttl cr))
  ]

  -- `SetRules`, and each reload of the holder; a nil holder is `none`.
  unfoldable pub set_rules : Option ChallengeRules → Handler T → Handler T
  set_rules none h = h
  set_rules (some cr) h = record {
    secret = h.secret;
    max_ttl = h.max_ttl;
    rules = cr;
    tmpl = h.tmpl;
    tmpl_src = h.tmpl_src;
    seen_nonces = h.seen_nonces;
  }

  -- `StartPath`; a nil handler is `none`
  unfoldable pub start_path : Option (Handler T) → Bytes
  start_path none = codes "/_g/start"
  start_path (some h) =
      if is_empty h.rules.start_path then codes "/_g/start" else h.rules.start_path

pub record ChallengeDescriptor : Type 0 where
  pub verify_path : Bytes
  pub start_path : Bytes
  pub token_header : Bytes
  pub cookie_name : Bytes

-- `DescribeChallenge`
unfoldable pub describe_challenge : {T : Type 0} → Option (Handler T) → ChallengeDescriptor
describe_challenge none = record {
  verify_path = [];
  start_path = [];
  token_header = [];
  cookie_name = [];
}
describe_challenge (some h) = record {
  verify_path = h.rules.verify_path;
  start_path = start_path (some h);
  token_header = h.rules.token_header_name;
  cookie_name = h.rules.cookie_name;
}

-- `sign`
unfoldable pub sign : Env → Bytes → Bytes → Bytes
sign env secret payload = hex_encode (env.crypto.hmac_sha256 secret payload)

-- `challengePayload`
abbrev pub challenge_payload : Bytes → Bytes → Bytes
challenge_payload challenge ts = codes "pow:" ++ (challenge ++ (codes ":" ++ ts))

-- `max1`
unfoldable pub max1 : ℕ → ℕ
max1 n = if ltb n 1 then 4 else n

-- `normalizedDifficulty`
unfoldable pub normalized_difficulty : ℕ → ℕ
normalized_difficulty n = if ltb 4 (max1 n) then 4 else max1 n

-- The lifetime of the rules: 30 minutes where they give none.
abbrev pub rules_ttl : ChallengeRules → ℕ
rules_ttl cr = if ltb 0 cr.token_ttl_minutes then cr.token_ttl_minutes * minute else 30 * minute

abbrev pub ceiling : ℕ → ℕ
ceiling max_ttl = if ltb 0 max_ttl then max_ttl else 60 * minute

-- `challengeTTL`
unfoldable pub challenge_ttl : ℕ → ChallengeRules → ℕ
challenge_ttl max_ttl cr =
    if ltb (ceiling max_ttl) (rules_ttl cr) then ceiling max_ttl else rules_ttl cr
