-- ===== src/Verifier/Jwt/Samples.antt =====
-- Examples for internal/verifier/jwt.go: an endpoint with one key, and a library that takes one token.
use mathlib.Core.List.{Memᴰ}
use mathlib.Core.Option.{none-ne-some, some-injective}
use veilgate.Prelude.{
  ◌≡◌, inl, inr, refl, sym, ap, subst, arith, none, some, List, [], ◌∷◌, Bytes, codes, ◌==◌,
  bytes_eq, if◌then◌else◌, runs, any, any_iff, Bool-cases, bytes_beq_iff,
}
use veilgate.Verifier.Disk.{built}
use veilgate.Verifier.Jwt.{
  JwtConfig, JwtValidator, JwtLibrary, Jwks, Jwk, ecdsa, p256, text, new_jwt_validator,
  refresh_keys, take_keys, public_key, set_bytes, sanitize_algs, jwt_validate, with_key, key_func,
  judge_claims,
}
use veilgate.Verifier.Jwt.Keys.{IsReady}
use veilgate.Verifier.Jwt.Trust.{visited, Vouched, new_jwt_validator-visited, jwt_validate-Vouched}

abbrev one_key : Jwk
one_key = record {
  kty = codes "EC";
  kid = codes "k1";
  n = [];
  e = [];
  crv = codes "P-256";
  x = 1 ∷ [];
  y = 2 ∷ [];
}

abbrev endpoint : Jwks
endpoint = record { answer = some (200, some (one_key ∷ [])); base64 = λ s. some s; now = 1 }

abbrev unreachable : Jwks
unreachable = record { answer = none; base64 = λ s. some s; now = 2 }

abbrev sample_config : JwtConfig
sample_config = record {
  jwks_url = codes "https://idp.example/jwks";
  issuer = codes "idp";
  audience = [];
  client_claim = [];
  algorithms = codes "hs256" ∷ codes "es256" ∷ [];
  refresh_interval = 0;
}

abbrev built_validator : JwtValidator
built_validator = record {
  cfg = record {
    jwks_url = codes "https://idp.example/jwks";
    issuer = codes "idp";
    audience = [];
    client_claim = codes "sub";
    algorithms = codes "ES256" ∷ [];
    refresh_interval = 3600000000000;
  };
  keys = (codes "k1", ecdsa p256 1 2) ∷ [];
  last_refresh = 1;
}

-- It takes the token "t" of ES256, where that is allowed.
abbrev library : JwtLibrary
library = record {
  unverified = λ algs t.
      if any (λ a. codes "ES256" == a) algs then some (codes "ES256", codes "k1") else none;
  verified =
      λ t key. some ((codes "iss", text (codes "idp")) ∷ (codes "sub", text (codes "alice")) ∷ []);
}

built_runs : new_jwt_validator endpoint sample_config ≡ built built_validator
unfolding runs new_jwt_validator refresh_keys take_keys public_key set_bytes sanitize_algs
built_runs = refl

new_jwt_validator-visited_example :
    IsReady (visited library built_validator (inl unreachable ∷ inr (endpoint, codes "t") ∷ []))
new_jwt_validator-visited_example =
    new_jwt_validator-visited library endpoint sample_config built_validator
      (inl unreachable ∷ inr (endpoint, codes "t") ∷ []) built_runs

library_listed :
    (algs : List Bytes) (t alg kid : Bytes)
    → library.unverified algs t ≡ some (alg, kid)
    → Memᴰ alg algs
library_listed algs t alg kid h = elim (Bool-cases (any (λ a. codes "ES256" == a) algs)) [
  | inl e ↦
      let (a, m, same) = (any_iff (λ a. codes "ES256" == a) algs).0 e in
      let p : codes "ES256" ≡ a = (bytes_beq_iff (codes "ES256") a).0 same in
      let q : codes "ES256" ≡ alg =
        ap (λ (x : Bytes × Bytes). x.0)
          (some-injective (codes "ES256", codes "k1") (alg, kid) (ground arith)) in
      subst (λ x. Memᴰ x algs) q (subst (λ x. Memᴰ x algs) (sym p) m)
  | inr e ↦ let found : Bytes × Bytes = (alg, kid) in absurd (none-ne-some found (ground arith))
]

jwt_validate-Vouched_example :
    Vouched library
      (visited library built_validator [])
      (jwt_validate library unreachable (visited library built_validator []) (codes "t")).state
      (codes "t")
unfolding runs jwt_validate with_key key_func judge_claims visited
jwt_validate-Vouched_example =
    jwt_validate-Vouched library endpoint sample_config built_validator [] unreachable (codes "t")
      library_listed built_runs refl
