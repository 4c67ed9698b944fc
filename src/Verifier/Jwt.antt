-- ===== src/Verifier/Jwt.antt =====
-- internal/verifier/jwt.go: the validator of signed tokens. The token library, the JWKS endpoint, the
-- JSON decoder and base64 are arguments. `refreshLoop` is a call of `refresh_keys` at each tick.
pub mod Keys
pub mod Trust
mod Samples
use veilgate.Prelude.{
  ℕ, ◌+◌, ◌*◌, ◌%◌, Bool, true, false, not, ◌&&◌, ◌||◌, Option, none, some, List, [], ◌∷◌, Bytes,
  codes, ◌==◌, nat_eq, bytes_eq, ltb, leb, if◌then◌else◌, is_empty, has_prefix, to_upper, Map,
  lookup, insert, length, any,
}
use veilgate.Verifier.Disk.{Built, built, config_error, disk_error}
use veilgate.Verifier.Validators.{Validated, Validator}

-- `HTTPClient` is an argument of the calls.
pub record JwtConfig : Type 0 where
  pub jwks_url : Bytes
  pub issuer : Bytes
  pub audience : Bytes
  pub client_claim : Bytes
  pub algorithms : List Bytes
  pub refresh_interval : ℕ

pub data Curve : Type 0 where
  p256 : Curve
  p384 : Curve
  p521 : Curve

pub data PublicKey : Type 0 where
  rsa : ℕ → ℕ → PublicKey
  ecdsa : Curve → ℕ → ℕ → PublicKey

pub record Jwk : Type 0 where
  pub kty : Bytes
  pub kid : Bytes
  pub n : Bytes
  pub e : Bytes
  pub crv : Bytes
  pub x : Bytes
  pub y : Bytes

pub record JwtValidator : Type 0 where
  pub cfg : JwtConfig
  pub keys : Map Bytes PublicKey
  pub last_refresh : ℕ

-- A claim's value, as far as the validator looks at it; `none` in an array is no string.
pub data Claim : Type 0 where
  text : Bytes → Claim
  array : List (Option Bytes) → Claim
  other : Claim

-- The token library. `unverified` is what `Parse` does before it asks for the key: it decodes the
-- token, checks its algorithm against the allowed ones, and gives the algorithm and the `kid`,
-- empty where there is none. `verified` is what it does with the key: the signature and the times;
-- it gives the claims. `none` is an error.
pub record JwtLibrary : Type 0 where
  pub unverified : List Bytes → Bytes → Option (Bytes × Bytes)
  pub verified : Bytes → PublicKey → Option (Map Bytes Claim)

-- The endpoint's answer at the time of a call: the status, and the keys that are decoded of the
-- first megabyte of its body; `none` for an error. `base64` decodes the fields of a key.
pub record Jwks : Type 0 where
  pub answer : Option (ℕ × Option (List Jwk))
  pub base64 : Bytes → Option Bytes
  pub now : ℕ

-- `sanitizeAlgs`
unfoldable pub sanitize_algs : List Bytes → List Bytes
sanitize_algs [] = []
sanitize_algs (a ∷ algs) =
    let rest = sanitize_algs algs in
    let alg = to_upper a in
    if alg == codes "HS256"
      || (alg == codes "HS384" || (alg == codes "HS512" || (alg == codes "NONE" || alg == [])))
    then rest
    else alg ∷ rest

-- `big.Int.SetBytes`
unfoldable pub set_bytes : ℕ → Bytes → ℕ
set_bytes acc [] = acc
set_bytes acc (b ∷ s) = set_bytes (acc * 256 + b) s

-- The exponent's loop, on 64 bits.
unfoldable pub exponent : ℕ → Bytes → ℕ
exponent acc [] = acc
exponent acc (b ∷ s) = exponent ((acc * 256 + b) % 18446744073709551616) s

-- As a signed number it is less than 3.
abbrev too_small : ℕ → Bool
too_small e = ltb e 3 || leb 9223372036854775808 e

abbrev rsa_key : Option Bytes → Option Bytes → Option PublicKey
rsa_key (some n) (some e) =
    if too_small (exponent 0 e) then none else some (rsa (set_bytes 0 n) (exponent 0 e))
rsa_key _ _ = none

abbrev ec_key : Curve → Option Bytes → Option Bytes → Option PublicKey
ec_key curve (some x) (some y) = some (ecdsa curve (set_bytes 0 x) (set_bytes 0 y))
ec_key curve _ _ = none

-- `publicKey`, `none` for an error
unfoldable pub public_key : (Bytes → Option Bytes) → Jwk → Option PublicKey
public_key base64 k =
    if k.kty == codes "RSA"
    then rsa_key (base64 k.n) (base64 k.e)
    else if k.kty == codes "EC"
    then (if k.crv == codes "P-256"
        then ec_key p256 (base64 k.x) (base64 k.y)
        else if k.crv == codes "P-384"
        then ec_key p384 (base64 k.x) (base64 k.y)
        else if k.crv == codes "P-521"
        then ec_key p521 (base64 k.x) (base64 k.y)
        else none)
    else none

-- The loop of `refreshKeys`.
unfoldable pub take_keys :
    (Bytes → Option Bytes) → List Jwk → Map Bytes PublicKey → Map Bytes PublicKey
take_keys base64 [] next = next
take_keys base64 (k ∷ ks) next = take_keys base64 ks (
    if is_empty k.kid
    then next
    else elim (public_key base64 k) [ none ↦ next | some key ↦ insert k.kid key next ])

abbrev pub with_keys : JwtValidator → Jwks → Map Bytes PublicKey → JwtValidator
with_keys v source next = record { cfg = v.cfg; keys = next; last_refresh = source.now }

-- `refreshKeys`: the validator after it, `none` for an error.
unfoldable pub refresh_keys : Jwks → JwtValidator → Option JwtValidator
refresh_keys source v = elim source.answer [
  | none ↦ none
  | some (status, none) ↦ none
  | some (status, some ks) ↦
      let next = take_keys source.base64 ks [] in
      if not (status == 200)
      then none
      else if is_empty next
      then none
      else some (with_keys v source next)
]

abbrev pub or_same : JwtValidator → Option JwtValidator → JwtValidator
or_same v none = v
or_same v (some v') = v'

abbrev pub algorithms_of : JwtConfig → List Bytes
algorithms_of cfg =
    sanitize_algs
      (if is_empty cfg.algorithms then codes "RS256" ∷ codes "ES256" ∷ [] else cfg.algorithms)

abbrev pub start : JwtConfig → JwtValidator
start cfg = record {
  cfg = record {
    jwks_url = cfg.jwks_url;
    issuer = cfg.issuer;
    audience = cfg.audience;
    client_claim = if is_empty cfg.client_claim then codes "sub" else cfg.client_claim;
    algorithms = algorithms_of cfg;
    refresh_interval = if ltb 0 cfg.refresh_interval then cfg.refresh_interval else 3600000000000;
  };
  keys = [];
  last_refresh = 0;
}

-- The first fetch of the constructor; an error of the fetch is a `disk_error`.
abbrev pub fetched : Option JwtValidator → Built JwtValidator
fetched none = disk_error
fetched (some v) = built v

-- `NewJWTValidator`
unfoldable pub new_jwt_validator : Jwks → JwtConfig → Built JwtValidator
new_jwt_validator source cfg =
    if is_empty cfg.jwks_url
    then config_error (codes "hmac verifier: jwt validator: jwks_url is required")
    else if not
        (has_prefix cfg.jwks_url (codes "https://") || has_prefix cfg.jwks_url (codes "http://"))
    then config_error (codes "hmac verifier: jwt validator: jwks_url must be http(s)")
    else if is_empty (algorithms_of cfg)
    then config_error
        (codes "hmac verifier: jwt validator: no acceptable algorithms after filtering HS*")
    else fetched (refresh_keys source (start cfg))

-- `LoadedKeys`
abbrev pub loaded_keys : JwtValidator → ℕ
loaded_keys v = length v.keys

-- `keyFunc`: the validator after it, and the key, `none` for an error.
unfoldable pub key_func : Jwks → JwtValidator → Bytes → JwtValidator × Option PublicKey
key_func source v kid =
    let refreshed = or_same v (refresh_keys source v) in
    if is_empty kid then (v, none) else elim (lookup kid v.keys) [
      | some key ↦ (v, some key)
      | none ↦ (refreshed, lookup kid refreshed.keys)
    ]

abbrev pub string_of : Option Claim → Bytes
string_of (some (text s)) = s
string_of _ = []

abbrev is_text : Bytes → Option Bytes → Bool
is_text want none = false
is_text want (some s) = s == want

-- `audienceContains`
unfoldable pub audience_contains : Option Claim → Bytes → Bool
audience_contains (some (text s)) want = s == want
audience_contains (some (array vs)) want = any (is_text want) vs
audience_contains (some other) want = false
audience_contains none want = false

abbrev pub refused : JwtValidator → Bytes → Validated JwtValidator
refused v reason = record { state = v; client = []; ok = false; reason = reason }

-- The checks of the claims.
unfoldable pub judge_claims : JwtValidator → Map Bytes Claim → Validated JwtValidator
judge_claims v claims =
    if not (is_empty v.cfg.issuer) && not (string_of (lookup (codes "iss") claims) == v.cfg.issuer)
    then refused v (codes "iss mismatch")
    else if not (is_empty v.cfg.audience)
        && not (audience_contains (lookup (codes "aud") claims) v.cfg.audience)
    then refused v (codes "aud mismatch")
    else record {
      state = v;
      client = string_of (lookup v.cfg.client_claim claims);
      ok = true;
      reason = [];
    }

module _ (library : JwtLibrary) where
  abbrev pub signature_invalid : JwtValidator → Validated JwtValidator
  signature_invalid v = refused v (codes "signature invalid")

  unfoldable pub with_key : Bytes → JwtValidator × Option PublicKey → Validated JwtValidator
  with_key token (v, none) = signature_invalid v
  with_key token (v, some key) = elim (library.verified token key) [
    | none ↦ signature_invalid v
    | some claims ↦ judge_claims v claims
  ]

  -- `JWTValidator.Validate`
  unfoldable pub jwt_validate : Jwks → JwtValidator → Bytes → Validated JwtValidator
  jwt_validate source v token =
      if is_empty token
      then refused v (codes "value empty")
      else elim (library.unverified v.cfg.algorithms token) [
        | none ↦ signature_invalid v
        | some (alg, kid) ↦ with_key token (key_func source v kid)
      ]

  unfoldable pub jwt_validator : Jwks → Validator JwtValidator
  jwt_validator source = record { kind = codes "jwt"; validate = jwt_validate source }
