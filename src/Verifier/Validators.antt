-- ===== src/Verifier/Validators.antt =====
-- internal/verifier/validator.go, cookie.go and header.go: credentials in a cookie or a header of
-- its own, judged by a validator; and the validator of opaque tokens.
use veilgate.Prelude.{
  ℕ, ◌==◌, nat_eq, bytes_eq, Bool, true, false, not, ◌&&◌, ◌||◌, List, [], ◌∷◌, ◌++◌, Option, none,
  some, Bytes, codes, ltb, leb, if◌then◌else◌, is_empty, is_some, trim, trim_space, split, cut,
  has_prefix, has_suffix, all, any, take, drop, length, ◌-◌,
}
use veilgate.Http.{Request, header_get, header_values}
use veilgate.Verifier.{no_result, rejected, CredentialDescriptor, Step, Verifier}
use veilgate.Verifier.Disk.{Disk, Crypto, Built, built, config_error, disk_error}
use veilgate.Verifier.Tokens.{TokenStore, reload, maybe_reload, client_of_token}

-- The results of `Validate`, and the validator's state after it.
pub record Validated (S : Type 0) : Type 0 where
  pub state : S
  pub client : Bytes
  pub ok : Bool
  pub reason : Bytes

-- `kind` is `Type`.
pub record Validator (S : Type 0) : Type 0 where
  pub kind : Bytes
  pub validate : S → Bytes → Validated S

-- `NewOpaqueValidator`
unfoldable pub new_opaque_validator : Crypto → Disk → Bytes → Built TokenStore
new_opaque_validator crypto disk dir =
    if is_empty dir
    then config_error (codes "hmac verifier: opaque validator: dir is required")
    else if is_some (disk.stat_dir dir)
    then elim (reload crypto disk dir) [ none ↦ disk_error | some store ↦ built store ]
    else disk_error

abbrev found : TokenStore → Option Bytes → Validated TokenStore
found store none = record { state = store; client = []; ok = false; reason = codes "value unknown" }
found store (some client) = record { state = store; client = client; ok = true; reason = [] }

-- `OpaqueValidator.Validate`
unfoldable pub opaque_validate : Crypto → Disk → Bytes → TokenStore → Bytes → Validated TokenStore
opaque_validate crypto disk dir store value =
    let store' = maybe_reload crypto disk dir store in
    if is_empty value
    then record { state = store; client = []; ok = false; reason = codes "value empty" }
    else found store' (client_of_token crypto disk dir value store')

unfoldable pub opaque_validator : Crypto → Disk → Bytes → Validator TokenStore
opaque_validator crypto disk dir = record {
  kind = codes "opaque";
  validate = opaque_validate crypto disk dir;
}

-- the separators and control bytes that a token of RFC 7230 has not
abbrev token_byte : ℕ → Bool
token_byte c = ltb 32 c && ltb c 127 && not (any (λ d. c == d) (codes "\"(),/:;<=>?@[\\]{}"))

abbrev ascii_space : ℕ → Bool
ascii_space c = c == b' ' || c == 9 || c == 10 || c == 13

-- net/http's `parseCookieValue`: `none` for a value with a byte it does not allow
unfoldable pub parse_cookie_value : Bytes → Option Bytes
parse_cookie_value raw =
    let quoted = ltb 1 (length raw) && has_prefix raw (codes "\"") && has_suffix raw (codes "\"") in
    let value = if quoted then drop 1 (take (length raw - 1) raw) else raw in
    if all (λ c. leb 32 c && ltb c 127 && not (c == 34 || c == 59 || c == 92)) value
    then some value
    else none

-- The value of one `name=value` of a Cookie line, where the name is the one wanted.
unfoldable pub cookie_part : Bytes → Bytes → Option Bytes
cookie_part name part = elim (cut b'=' (trim ascii_space part)) [
  | none ↦
      let n = trim ascii_space part in
      if not (is_empty n) && all token_byte n && n == name then some [] else none
  | some (found_name, value) ↦
      let n = trim ascii_space found_name in
      if not (is_empty n) && all token_byte n && n == name then parse_cookie_value value else none
]

unfoldable pub first_cookie : Bytes → List Bytes → Option Bytes
first_cookie name [] = none
first_cookie name (part ∷ parts) =
    let rest = first_cookie name parts in
    elim (cookie_part name part) [ none ↦ rest | some v ↦ some v ]

unfoldable pub cookie_parts : List Bytes → List Bytes
cookie_parts [] = []
cookie_parts (line ∷ lines) = split b';' line ++ cookie_parts lines

-- `Request.Cookie`: the first cookie of that name
unfoldable pub cookie : Bytes → Request → Option Bytes
unfolding first_cookie cookie_parts header_values
cookie name r = first_cookie name (cookie_parts (header_values (codes "Cookie") r.headers))

abbrev or_empty : Option Bytes → Bytes
or_empty none = []
or_empty (some v) = v

module _ {S : Type 0} where
  abbrev concluded : Bytes → Bytes → Bytes → Request → Validated S → Step S
  concluded name kind carrier r v = record {
    state = v.state;
    request = r;
    result =
        if v.ok
        then record {
          accepted = true;
          name = name;
          client = v.client;
          reason = codes "valid " ++ (kind ++ carrier);
        }
        else rejected name v.reason;
  }

  -- `HeaderVerifier.Verify`
  unfoldable pub header_verify : Bytes → Validator S → S → Request → Step S
  header_verify name validator s r =
      let raw = trim_space (header_get name r) in
      let judged =
        concluded (codes "header:" ++ name) validator.kind (codes " header") r
          (validator.validate s raw) in
      if is_empty raw then record { state = s; request = r; result = no_result } else judged

  -- `CookieVerifier.Verify`
  unfoldable pub cookie_verify : Bytes → Validator S → S → Request → Step S
  cookie_verify name validator s r =
      let value = or_empty (cookie name r) in
      let judged =
        concluded (codes "cookie:" ++ name) validator.kind (codes " cookie") r
          (validator.validate s value) in
      if is_empty value then record { state = s; request = r; result = no_result } else judged

  abbrev descriptor_of : Bytes → Bytes → Validator S → CredentialDescriptor
  descriptor_of type_name name validator = record {
    type_name = type_name;
    name = name;
    header = [];
    scheme = [];
    validator = validator.kind;
  }

  -- `NewHeaderVerifier`; a nil validator is `none`
  unfoldable pub new_header_verifier : Bytes → Option (Validator S) → Built (Verifier S)
  new_header_verifier name none =
      if is_empty name
      then config_error (codes "hmac verifier: header verifier: name is required")
      else config_error (codes "hmac verifier: header verifier: validator is required")
  new_header_verifier name (some validator) =
      if is_empty name
      then config_error (codes "hmac verifier: header verifier: name is required")
      else built (record {
        name = codes "header:" ++ name;
        verify = header_verify name validator;
        descriptor = some (descriptor_of (codes "header") name validator);
      })

  -- `NewCookieVerifier`
  unfoldable pub new_cookie_verifier : Bytes → Option (Validator S) → Built (Verifier S)
  new_cookie_verifier name none =
      if is_empty name
      then config_error (codes "hmac verifier: cookie verifier: name is required")
      else config_error (codes "hmac verifier: cookie verifier: validator is required")
  new_cookie_verifier name (some validator) =
      if is_empty name
      then config_error (codes "hmac verifier: cookie verifier: name is required")
      else built (record {
        name = codes "cookie:" ++ name;
        verify = cookie_verify name validator;
        descriptor = some (descriptor_of (codes "cookie") name validator);
      })
