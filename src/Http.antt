-- ===== src/Http.antt =====
-- The parts of net/http that the program reads: a request, its headers, and a blocked response.
use veilgate.Prelude.{
  ℕ, Option, List, [], ◌∷◌, ◌++◌, codes, is_empty, Bytes, bytes_eq, equal_fold, if◌then◌else◌,
}

-- `headers` are name and value in the order received. `content_length` is `none` for -1.
pub record Request : Type 0 where
  pub method : Bytes
  pub path : Bytes
  pub remote_addr : Bytes
  pub proto_major : ℕ
  pub proto_minor : ℕ
  pub headers : List (Bytes × Bytes)
  pub transfer_encoding : List Bytes
  pub content_length : Option ℕ
  pub body : Option Bytes

-- `Header.Values`: names compare without case
unfoldable pub header_values : Bytes → List (Bytes × Bytes) → List Bytes
header_values name [] = []
header_values name ((n, v) ∷ hs) =
    let rest = header_values name hs in if equal_fold n name then v ∷ rest else rest

abbrev first_or_empty : List Bytes → Bytes
first_or_empty [] = []
first_or_empty (v ∷ _) = v

-- `Header.Get`: the first value, or the empty string
unfoldable pub header_get : Bytes → Request → Bytes
unfolding header_values
header_get name r = first_or_empty (header_values name r.headers)

-- What the program answers by itself.
pub record Reply : Type 0 where
  pub status : ℕ
  pub headers : List (Bytes × Bytes)
  pub body : Bytes

-- `applyCORSHeaders` of internal/proxy/proxy.go
unfoldable pub cors_headers : Request → List (Bytes × Bytes)
unfolding header_get
cors_headers r =
    let origin = header_get (codes "Origin") r in
    if is_empty origin
    then []
    else (codes "Access-Control-Allow-Origin", origin)
      ∷ (codes "Access-Control-Allow-Credentials", codes "true")
      ∷ (codes "Vary", codes "Origin")
      ∷ []

-- `serveUploadBlocked` of internal/proxy/upload.go. The codes need no escape in JSON.
unfoldable pub error_reply : Request → ℕ → Bytes → Reply
unfolding cors_headers
error_reply r status code = record {
  status = status;
  headers = cors_headers r ++ (codes "Content-Type", codes "application/json") ∷ [];
  body = codes "{\"error\":\"" ++ code ++ codes "\"}\n";
}

-- status codes
abbrev pub status_ok : ℕ
status_ok = 200

abbrev pub status_no_content : ℕ
status_no_content = 204

abbrev pub status_bad_request : ℕ
status_bad_request = 400

abbrev pub status_unauthorized : ℕ
status_unauthorized = 401

abbrev pub status_forbidden : ℕ
status_forbidden = 403

abbrev pub status_method_not_allowed : ℕ
status_method_not_allowed = 405

abbrev pub status_too_large : ℕ
status_too_large = 413

abbrev pub status_unsupported_media : ℕ
status_unsupported_media = 415

abbrev pub status_not_implemented : ℕ
status_not_implemented = 501

abbrev pub status_unavailable : ℕ
status_unavailable = 503
