-- ===== src/Proxy/Upload.antt =====
-- internal/proxy/upload.go: the choice of an upload policy for a path, the test on a parsed
-- request's framing, and what a policy demands of a request. `mime.ParseMediaType` and the
-- challenge handler are parameters.
pub mod Choice
pub mod Demands
pub mod Limit
use veilgate.Prelude.{
  ℕ, suc, ◌+◌, ◌-◌, Bool, true, false, not, ◌&&◌, ◌||◌, List, [], ◌∷◌, ◌++◌, map, Option, none,
  some, Bytes, codes, ◌==◌, nat_eq, bytes_eq, ltb, leb, if◌then◌else◌, is_empty, is_some, filter,
  any, length, take, split, trim_space, to_lower, equal_fold, has_prefix, has_suffix,
}
use veilgate.Http.{
  Request, Reply, header_get, header_values, error_reply, status_bad_request, status_unauthorized,
  status_method_not_allowed, status_too_large, status_unsupported_media,
}
use veilgate.Verifier.{Result, Chain, no_result, Step, verify, verify_except}
use veilgate.Proxy.Framing.{comma, only_chunked, all_codings}

-- `UploadPolicyConfig`. A body limit of 0 stands for every limit that is not positive: none.
pub record UploadPolicy : Type 0 where
  pub paths : List Bytes
  pub methods : List Bytes
  pub max_body_bytes : ℕ
  pub allowed_content_types : List Bytes
  pub require_auth : Bool
  pub verifier_policy : Bytes

-- The specificity where the pattern matches.
unfoldable pub upload_path_matches : Bytes → Bytes → Option ℕ
upload_path_matches raw path =
    let pattern = trim_space raw in
    let prefix = take (length pattern - 1) pattern in
    if is_empty pattern
    then none
    else if has_suffix pattern (codes "/*")
    then (if has_prefix path prefix then some (length prefix) else none)
    else if path == pattern
    then some (length pattern + 1000000)
    else none

-- `best`, `bestIndex` and `bestSpecificity`
pub record Best : Type 0 where
  pub policy : UploadPolicy
  pub position : ℕ
  pub specificity : ℕ

-- `specificity > bestSpecificity`, which is -1 before the first match
abbrev pub is_better : ℕ → Option Best → Bool
is_better s none = true
is_better s (some b) = ltb b.specificity s

abbrev pub better : Option Best → Best → Option Best
better b h = if is_better h.specificity b then some h else b

unfoldable pub scan_patterns : ℕ → UploadPolicy → Bytes → List Bytes → Option Best → Option Best
scan_patterns i p path [] b = b
scan_patterns i p path (pattern ∷ patterns) b =
    scan_patterns i p path patterns (elim (upload_path_matches pattern path) [
      | none ↦ b
      | some s ↦ better b (record { policy = p; position = i; specificity = s })
    ])

unfoldable pub scan_policies : ℕ → Bytes → List UploadPolicy → Option Best → Option Best
unfolding scan_patterns
scan_policies i path [] b = b
scan_policies i path (p ∷ ps) b = scan_policies (suc i) path ps (scan_patterns i p path p.paths b)

unfoldable pub match_upload_policy : List UploadPolicy → Bytes → Option Best
unfolding scan_policies
match_upload_policy ps path = scan_policies 0 path ps none

unfoldable pub transfer_codings : Request → List Bytes
transfer_codings r =
    if not (is_empty r.transfer_encoding)
    then map (λ c. to_lower (trim_space c)) r.transfer_encoding
    else all_codings (header_values (codes "Transfer-Encoding") r.headers)

-- The error code where the framing is refused.
unfoldable pub bad_request_framing : Request → Option Bytes
unfolding transfer_codings
bad_request_framing r =
    let lengths = header_values (codes "Content-Length") r.headers in
    let encodings = header_values (codes "Transfer-Encoding") r.headers in
    let has_encoding = not (is_empty r.transfer_encoding) || not (is_empty encodings) in
    if ltb 1 (length lengths)
    then some (codes "bad_content_length")
    else if not has_encoding
    then none
    else if leb 2 r.proto_major
    then some (codes "bad_transfer_encoding")
    else if r.proto_major == 1 && r.proto_minor == 0
    then some (codes "bad_transfer_encoding")
    else if ltb 0 (length lengths) || is_some r.content_length
    then some (codes "bad_request_framing")
    else if not (only_chunked (transfer_codings r))
    then some (codes "bad_transfer_encoding")
    else none

-- `rejectBadRequestFraming`: the reply where the request goes no further
unfoldable pub reject_bad_request_framing : Request → Option Reply
unfolding bad_request_framing
reject_bad_request_framing r = elim (bad_request_framing r) [
  | none ↦ none
  | some code ↦ some (error_reply r status_bad_request code)
]

unfoldable pub upload_method_allowed : UploadPolicy → Bytes → Bool
upload_method_allowed p method =
    is_empty p.methods || any (λ allowed. equal_fold (trim_space allowed) method) p.methods

-- One round of the loop over the allowed types.
abbrev pub type_fits : Bytes → Bytes → Bool
type_fits media_type allowed =
    let a = to_lower (trim_space allowed) in
    if is_empty a
    then false
    else if has_suffix a (codes "/")
    then has_prefix media_type a
    else media_type == a

abbrev first_part : List Bytes → Bytes
first_part [] = []
first_part (p ∷ _) = p

-- `parse` is `mime.ParseMediaType`: the media type, or `none` for an error.
unfoldable pub media_type_of : (Bytes → Option Bytes) → Bytes → Bytes
media_type_of parse raw =
    to_lower
      (elim (parse raw) [ none ↦ to_lower (trim_space (first_part (split b';' raw))) | some t ↦ t ])

unfoldable pub upload_content_type_allowed : (Bytes → Option Bytes) → UploadPolicy → Bytes → Bool
unfolding media_type_of
upload_content_type_allowed parse p raw =
    if is_empty p.allowed_content_types
    then true
    else if is_empty (trim_space raw)
    then false
    else any (type_fits (media_type_of parse raw)) p.allowed_content_types

-- `p.MaxBodyBytes > 0 && r.ContentLength > p.MaxBodyBytes`
unfoldable pub declared_too_large : UploadPolicy → Option ℕ → Bool
declared_too_large p none = false
declared_too_large p (some n) = ltb 0 p.max_body_bytes && ltb p.max_body_bytes n

-- `uploadVerifierPolicy`
abbrev pub upload_verifier_policy : Option UploadPolicy → Bytes
upload_verifier_policy none = []
upload_verifier_policy (some p) = p.verifier_policy

-- The outcome of the credential check. The name "unknown" of an unnamed verifier goes to the
-- metrics only.
pub record Credential (S : Type 0) : Type 0 where
  pub state : S
  pub request : Request
  pub passed : Bool
  pub result : Result

abbrev pub challenge_result : Result
challenge_result = record {
  accepted = false;
  name = codes "challenge";
  client = [];
  reason = codes "valid challenge token";
}

-- What `enforceUploadPolicy` returns: a reply where it blocks the request.
pub record Enforced (S : Type 0) : Type 0 where
  pub state : S
  pub request : Request
  pub blocked : Option Reply
  pub auth_accepted : Bool
  pub auth_result : Result

module _ {S : Type 0} (chain : Chain S) (challenge_passed : Option (S → Request → Bool)) where
  abbrev ask_chain : Bytes → S → Request → Step S
  ask_chain verifier_policy s r =
      if to_lower (trim_space verifier_policy) == codes "skip_body_hmac"
      then verify_except chain (codes "hmac" ∷ []) s r
      else verify chain s r

  abbrev ask_challenge : Option (S → Request → Bool) → S → Request → Bool
  ask_challenge none s r = false
  ask_challenge (some passed) s r = passed s r

  unfoldable pub credential_accepted : Bytes → S → Request → Credential S
  credential_accepted verifier_policy s r =
      let o = ask_chain verifier_policy s r in
      if o.result.accepted
      then record { state = o.state; request = o.request; passed = true; result = o.result }
      else if ask_challenge challenge_passed o.state o.request
      then record { state = o.state; request = o.request; passed = true; result = challenge_result }
      else record { state = o.state; request = o.request; passed = false; result = no_result }

  abbrev pub block : S → Request → ℕ → Bytes → Enforced S
  block s r status code = record {
    state = s;
    request = r;
    blocked = some (error_reply r status code);
    auth_accepted = false;
    auth_result = no_result;
  }

  unfoldable pub enforce_upload_policy :
      (Bytes → Option Bytes) → UploadPolicy → S → Request → Enforced S
  enforce_upload_policy parse p s r =
      let c = credential_accepted p.verifier_policy s r in
      if not (upload_method_allowed p r.method)
      then block s r status_method_not_allowed (codes "method_not_allowed")
      else if declared_too_large p r.content_length
      then block s r status_too_large (codes "payload_too_large")
      else if not (upload_content_type_allowed parse p (header_get (codes "Content-Type") r))
      then block s r status_unsupported_media (codes "unsupported_media_type")
      else if p.require_auth
      then (if c.passed
          then record {
            state = c.state;
            request = c.request;
            blocked = none;
            auth_accepted = true;
            auth_result = c.result;
          }
          else block c.state c.request status_unauthorized (codes "auth_required"))
      else record {
        state = s;
        request = r;
        blocked = none;
        auth_accepted = false;
        auth_result = no_result;
      }
