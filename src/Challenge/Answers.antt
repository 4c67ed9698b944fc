-- ===== src/Challenge/Answers.antt =====
-- internal/challenge/challenge.go: what the handler answers, and the parameters of one call.
use veilgate.Prelude.{
  ℕ, Bool, ◌||◌, Option, none, some, List, [], Bytes, codes, ◌==◌, bytes_eq, if◌then◌else◌,
  is_empty, trim_space, to_lower, equal_fold, hex_encode,
}
use veilgate.Http.{Request, header_get}

pub data JsonValue : Type 0 where
  text : Bytes → JsonValue
  number : ℕ → JsonValue

-- `message` is what `http.Error` writes, with its own headers; `object` is encoded as JSON.
pub data Content : Type 0 where
  message : Bytes → Content
  page : Bytes → Content
  object : List (Bytes × JsonValue) → Content

pub data SameSite : Type 0 where
  same_site_lax : SameSite
  same_site_none : SameSite
  same_site_strict : SameSite

pub record SetCookie : Type 0 where
  pub name : Bytes
  pub value : Bytes
  pub path : Bytes
  pub domain : Bytes
  pub http_only : Bool
  pub secure : Bool
  pub same_site : SameSite
  pub expires : ℕ

-- The counters and the events of package telemetry.
pub data Event : Type 0 where
  issued_html : Event
  issued_spa : Event
  failed_bad_request : Event
  failed_unauthorized : Event
  solved : Event

pub record Answer : Type 0 where
  pub status : ℕ
  pub headers : List (Bytes × Bytes)
  pub cookies : List SetCookie
  pub content : Content
  pub events : List Event

-- What a call is given besides the request's headers and body: the host, whether it came over TLS,
-- the query's origin, the time, and 16 random bytes (`none` for an error).
pub record Arrival : Type 0 where
  pub host : Bytes
  pub over_tls : Bool
  pub origin_param : Bytes
  pub now : ℕ
  pub random : Option Bytes

-- `http.Error`
abbrev pub http_error : ℕ → Bytes → Answer
http_error code reason = record {
  status = code;
  headers = [];
  cookies = [];
  content = message reason;
  events = [];
}

-- `newChallengeNonce`
unfoldable pub new_challenge_nonce : Arrival → Option Bytes
new_challenge_nonce at = elim at.random [ none ↦ none | some b ↦ some (hex_encode b) ]

-- `parseSameSite`
unfoldable pub parse_same_site : Bytes → SameSite
parse_same_site v =
    let mode = to_lower (trim_space v) in
    if mode == codes "lax"
    then same_site_lax
    else if mode == codes "none"
    then same_site_none
    else same_site_strict

-- `requestIsHTTPS`
unfoldable pub request_is_https : Arrival → Request → Bool
request_is_https at r =
    at.over_tls
    || equal_fold (trim_space (header_get (codes "X-Forwarded-Proto") r)) (codes "https")

abbrev pub or_default : Bytes → Bytes → Bytes
or_default default s = if is_empty s then default else s
