-- ===== src/Verifier/Bearer.antt =====
-- internal/verifier/bearer.go: opaque tokens in a header, after a scheme such as "Bearer".
pub mod Access
use veilgate.Prelude.{
  ℕ, ◌==◌, bytes_eq, Bool, true, not, ◌&&◌, ◌||◌, [], ◌∷◌, ◌++◌, Option, none, some, Bytes, codes,
  ltb, if◌then◌else◌, is_empty, is_some, equal_fold, trim_left, trim_space, nat_eq, take, drop,
  length,
}
use veilgate.Http.{Request, header_get}
use veilgate.Verifier.{Result, no_result, rejected, CredentialDescriptor, Step, Verifier}
use veilgate.Verifier.Disk.{Disk, Crypto, Built, built, config_error, disk_error}
use veilgate.Verifier.Tokens.{TokenStore, reload, maybe_reload, client_of_token}

pub record BearerConfig : Type 0 where
  pub header : Bytes
  pub scheme : Bytes
  pub tokens_dir : Bytes

-- `scheme` is the cached prefix, with its blank. Header names compare without case, so `hdrName`
-- is the header of the configuration.
pub record BearerVerifier : Type 0 where
  pub cfg : BearerConfig
  pub scheme : Bytes
  pub store : TokenStore

abbrev default_header : Bytes → Bytes
default_header s = if is_empty s then codes "Authorization" else s

abbrev default_scheme : Bytes → Bytes → Bytes
default_scheme header s =
    if is_empty s && header == codes "Authorization" then codes "Bearer" else s

abbrev scheme_prefix : Bytes → Bytes
scheme_prefix s = if is_empty s then [] else s ++ codes " "

abbrev with_store : BearerConfig → Option TokenStore → Built BearerVerifier
with_store cfg none = disk_error
with_store cfg (some store) =
    built (record { cfg = cfg; scheme = scheme_prefix cfg.scheme; store = store })

-- `NewBearerVerifier`
unfoldable pub new_bearer_verifier : Crypto → Disk → BearerConfig → Built BearerVerifier
new_bearer_verifier crypto disk cfg =
    let header = default_header cfg.header in
    if is_empty cfg.tokens_dir
    then config_error (codes "hmac verifier: tokens_dir is required")
    else if is_some (disk.stat_dir cfg.tokens_dir)
    then with_store
        (record {
          header = header;
          scheme = default_scheme header cfg.scheme;
          tokens_dir = cfg.tokens_dir;
        })
        (reload crypto disk cfg.tokens_dir)
    else disk_error

-- `Describe`
abbrev pub bearer_descriptor : BearerConfig → Bytes → CredentialDescriptor
bearer_descriptor cfg scheme = record {
  type_name = codes "bearer";
  name = [];
  header = cfg.header;
  scheme = trim_space scheme;
  validator = [];
}

-- The token of a header, `none` where the header has another scheme.
unfoldable pub header_token : Bytes → Bytes → Option Bytes
header_token scheme raw =
    if is_empty scheme
    then some raw
    else if ltb (length raw) (length scheme) || not (equal_fold (take (length scheme) raw) scheme)
    then none
    else some (trim_left (λ c. c == b' ') (drop (length scheme) raw))

abbrev bearer : Bytes
bearer = codes "bearer"

abbrev token_result : Option Bytes → Result
token_result none = rejected bearer (codes "token unknown")
token_result (some client) = record {
  accepted = true;
  name = bearer;
  client = client;
  reason = codes "valid bearer token";
}

module _ (crypto : Crypto) (disk : Disk) (cfg : BearerConfig) (scheme : Bytes) where
  abbrev answered : TokenStore → Request → Result → Step TokenStore
  answered store r result = record { state = store; request = r; result = result }

  abbrev look_up : Bytes → TokenStore → Request → Step TokenStore
  look_up token store r =
      let store' = maybe_reload crypto disk cfg.tokens_dir store in
      answered store' r (token_result (client_of_token crypto disk cfg.tokens_dir token store'))

  -- `BearerVerifier.Verify`
  unfoldable pub bearer_verify : TokenStore → Request → Step TokenStore
  bearer_verify store r =
      let raw = header_get cfg.header r in
      if is_empty raw then answered store r no_result else elim (header_token scheme raw) [
        | none ↦ answered store r (rejected bearer (codes "scheme mismatch"))
        | some token ↦
            if is_empty token
            then answered store r (rejected bearer (codes "token empty"))
            else look_up token store r
      ]

  unfoldable pub bearer_verifier : Verifier TokenStore
  bearer_verifier = record {
    name = bearer;
    verify = bearer_verify;
    descriptor = some (bearer_descriptor cfg scheme);
  }
