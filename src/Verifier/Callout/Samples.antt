-- ===== src/Verifier/Callout/Samples.antt =====
-- Examples for internal/verifier/callout.go: an endpoint that knows one value, for a minute.
use veilgate.Prelude.{
  ℕ, ◌≡◌, ◌<◌, ◌⊎◌, refl, none, some, [], ◌∷◌, codes, ◌==◌, bytes_eq, if◌then◌else◌, runs,
}
use veilgate.Verifier.Disk.{Crypto}
use veilgate.Verifier.Callout.{
  lifetime, CalloutValidator, Callout, vouched, callout, callout_validate, call_out,
}
use veilgate.Verifier.Callout.History.{validated, SomeVouched, callout_validate-vouched}

abbrev no_hash : Crypto
no_hash = record { sha256 = λ s. s; hmac_sha256 = λ key s. s }

abbrev validator : CalloutValidator
validator = record {
  cfg = record {
    url = codes "https://auth.example/check";
    cache_ttl = some 30;
    auth_header = [];
    auth_value = [];
    timeout = 5;
  };
  ttl = 30;
  cache = [];
}

abbrev asked : ℕ → Callout
asked now = record {
  endpoint = λ v. if v == codes "good" then some (200, codes "{}") else some (401, []);
  decode = λ b. some (record { client = codes "alice"; cache_ttl = 60 });
  now = now;
  after = now;
}

-- The endpoint is down.
abbrev down : ℕ → Callout
down now = record { endpoint = λ v. none; decode = λ b. none; now = now; after = now }

callout_validate-vouched_example :
    ((ttl : ℕ) × (callout (down 20) (codes "good")
        ≡ vouched
            (callout_validate no_hash
              (down 20)
              (validated no_hash validator ((asked 10, codes "good") ∷ []))
              (codes "good")).client
            ttl))
    ⊎ ((until : ℕ) × SomeVouched no_hash 30
          ((asked 10, codes "good") ∷ [])
          (codes "good")
          (callout_validate no_hash
            (down 20)
            (validated no_hash validator ((asked 10, codes "good") ∷ []))
            (codes "good")).client
          until
        × (20 < until))
unfolding runs callout_validate call_out callout validated lifetime
callout_validate-vouched_example =
    callout_validate-vouched no_hash validator ((asked 10, codes "good") ∷ []) (down 20)
      (codes "good") refl refl
