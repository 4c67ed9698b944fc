-- ===== src/Verifier/Callout.antt =====
-- internal/verifier/callout.go: the validator that asks an endpoint of the operator's, and keeps what
-- it accepts. The endpoint, the JSON decoder and the hash are arguments; encoding the request never
-- fails. Durations are nanoseconds; a negative one is `none`.
pub mod History
mod Samples
use veilgate.Prelude.{
  ℕ, ◌+◌, ◌*◌, ◌%◌, Bool, true, false, not, ◌&&◌, ◌||◌, Option, none, some, List, [], Bytes, codes,
  ltb, leb, if◌then◌else◌, is_empty, trim_space, has_prefix, Map, lookup, insert, retain, length,
  bytes_eq,
}
use veilgate.Verifier.Disk.{Crypto, Built, built, config_error}
use veilgate.Verifier.Validators.{Validated, Validator}

-- `HTTPClient` is an argument of the calls.
pub record CalloutConfig : Type 0 where
  pub url : Bytes
  pub cache_ttl : Option ℕ
  pub auth_header : Bytes
  pub auth_value : Bytes
  pub timeout : ℕ

pub record CalloutEntry : Type 0 where
  pub client : Bytes
  pub expires_at : ℕ

-- `ttl` is the `CacheTTL` that the constructor has settled.
pub record CalloutValidator : Type 0 where
  pub cfg : CalloutConfig
  pub ttl : ℕ
  pub cache : Map Bytes CalloutEntry

abbrev pub nanoseconds : ℕ
nanoseconds = 1000000000

abbrev with_ttl : CalloutConfig → ℕ → CalloutValidator
with_ttl cfg ttl = record {
  cfg = record {
    url = cfg.url;
    cache_ttl = cfg.cache_ttl;
    auth_header = cfg.auth_header;
    auth_value = cfg.auth_value;
    timeout = if ltb 0 cfg.timeout then cfg.timeout else 5 * nanoseconds;
  };
  ttl = if ltb 0 ttl then ttl else 30 * nanoseconds;
  cache = [];
}

-- `NewCalloutValidator`
unfoldable pub new_callout_validator : CalloutConfig → Built CalloutValidator
new_callout_validator cfg =
    if is_empty cfg.url
    then config_error (codes "hmac verifier: callout validator: url is required")
    else if not (has_prefix cfg.url (codes "http://") || has_prefix cfg.url (codes "https://"))
    then config_error (codes "hmac verifier: callout validator: url must be http(s)")
    else elim cfg.cache_ttl [
      | none ↦ config_error (codes "hmac verifier: callout validator: cache_ttl must be >= 0")
      | some ttl ↦ built (with_ttl cfg ttl)
    ]

-- The body of an answer: `cache_ttl` are seconds, below 2^63, and 0 where it is absent or negative.
pub record CalloutResponse : Type 0 where
  pub client : Bytes
  pub cache_ttl : ℕ

-- What the endpoint answers to a value: the status and the body up to 64 KiB, `none` for a transport
-- error. The call is given the time before and the time after it.
pub record Callout : Type 0 where
  pub endpoint : Bytes → Option (ℕ × Bytes)
  pub decode : Bytes → Option CalloutResponse
  pub now : ℕ
  pub after : ℕ

-- What `callout` returns: a client and a lifetime (0 for none), or the reason of a refusal.
pub data Outcome : Type 0 where
  vouched : Bytes → ℕ → Outcome
  declined : Bytes → Outcome

-- `time.Duration(seconds) * time.Second` wraps to 64 bits; a negative result counts as none.
unfoldable pub lifetime : ℕ → ℕ
lifetime seconds =
    let wrapped = (seconds * nanoseconds) % 18446744073709551616 in
    if leb 9223372036854775808 wrapped then 0 else wrapped

abbrev metadata : Option CalloutResponse → Outcome
metadata none = vouched [] 0
metadata (some parsed) = vouched parsed.client (lifetime parsed.cache_ttl)

unfoldable pub callout : Callout → Bytes → Outcome
callout w value = elim (w.endpoint value) [
  | none ↦ declined (codes "callout transport error")
  | some (status, body) ↦
      if ltb status 200 || leb 300 status
      then declined (codes "callout rejected")
      else if is_empty (trim_space body)
      then vouched [] 0
      else metadata (w.decode body)
]

-- How long an answer is kept.
abbrev pub effective_ttl : ℕ → ℕ → ℕ
effective_ttl default ttl = if ltb 0 ttl && ltb ttl default then ttl else default

abbrev pub with_cache : CalloutValidator → Map Bytes CalloutEntry → CalloutValidator
with_cache v cache = record { cfg = v.cfg; ttl = v.ttl; cache = cache }

abbrev pub refused : CalloutValidator → Bytes → Validated CalloutValidator
refused v reason = record { state = v; client = []; ok = false; reason = reason }

abbrev pub vouch : CalloutValidator → Bytes → Validated CalloutValidator
vouch v client = record { state = v; client = client; ok = true; reason = [] }

module _ (crypto : Crypto) where
  unfoldable pub call_out : Callout → CalloutValidator → Bytes → Validated CalloutValidator
  call_out w v value = elim (callout w value) [
    | declined reason ↦ refused v reason
    | vouched client ttl ↦
        vouch
          (with_cache v (
            insert (crypto.sha256 value)
              (record { client = client; expires_at = w.after + effective_ttl v.ttl ttl }) v.cache))
          client
  ]

  -- `CalloutValidator.Validate`
  unfoldable pub callout_validate : Callout → CalloutValidator → Bytes → Validated CalloutValidator
  callout_validate w v value =
      if is_empty value
      then refused v (codes "value empty")
      else elim (lookup (crypto.sha256 value) v.cache) [
        | none ↦ call_out w v value
        | some entry ↦
            if ltb w.now entry.expires_at then vouch v entry.client else call_out w v value
      ]

  unfoldable pub callout_validator : Callout → Validator CalloutValidator
  callout_validator w = record { kind = codes "callout"; validate = callout_validate w }

-- `CacheSize`
abbrev pub cache_size : CalloutValidator → ℕ
cache_size v = length v.cache

-- `purgeExpired`
unfoldable pub purge_expired : ℕ → CalloutValidator → CalloutValidator
purge_expired now v = with_cache v (retain (λ e. not (ltb e.expires_at now)) v.cache)
