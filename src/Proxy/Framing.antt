-- ===== src/Proxy/Framing.antt =====
-- internal/proxy/framing_guard.go: `badHTTPRequestFraming`, the test on the raw header block of an
-- HTTP/1.x request. A header block is the bytes before the first empty line.
pub mod Smuggling
use veilgate.Prelude.{
  ℕ, ◌+◌, Bool, true, false, not, ◌&&◌, ◌||◌, List, [], ◌∷◌, ◌++◌, map, Option, none, some, Bytes,
  codes, ◌==◌, nat_eq, bytes_eq, ltb, if◌then◌else◌, is_empty, filter, split, split_crlf, cut,
  trim_space, to_lower, has_suffix,
}

abbrev pub colon : ℕ
colon = b':'

abbrev pub comma : ℕ
comma = b','

abbrev pub content_length : Bytes
content_length = codes "content-length"

abbrev pub transfer_encoding : Bytes
transfer_encoding = codes "transfer-encoding"

abbrev pub chunked : Bytes
chunked = codes "chunked"

abbrev pub is_blank : ℕ → Bool
is_blank c = c == b' ' || c == b'\t'

-- The codings that one value of Transfer-Encoding lists, empty parts left out.
unfoldable pub codings_of : Bytes → List Bytes
codings_of value =
    filter (λ c. not (is_empty c)) (map (λ p. to_lower (trim_space p)) (split comma value))

-- Those of several values, in order.
abbrev pub all_codings : List Bytes → List Bytes
all_codings [] = []
all_codings (v ∷ vs) = codings_of v ++ all_codings vs

-- `contentLengthCount` and `transferCodings`
pub record Tally : Type 0 where
  pub lengths : ℕ
  pub codings : List Bytes

unfoldable pub tally_field : Tally → Option (Bytes × Bytes) → Tally
tally_field t none = t
tally_field t (some (name, value)) =
    let n = to_lower (trim_space name) in
    if n == content_length
    then record t { lengths = t.lengths + 1 }
    else if n == transfer_encoding
    then record t { codings = t.codings ++ codings_of value }
    else t

-- One round of the loop: `none` where a folded line ends it with `return true`.
unfoldable pub tally_line : Bytes → Tally → Option Tally
unfolding tally_field
tally_line [] t = some t
tally_line (c ∷ line) t = if is_blank c then none else some (tally_field t (cut colon (c ∷ line)))

unfoldable pub tally_lines : List Bytes → Tally → Option Tally
unfolding tally_line
tally_lines [] t = some t
tally_lines (l ∷ ls) t = elim (tally_line l t) [ none ↦ none | some t' ↦ tally_lines ls t' ]

abbrev pub only_chunked : List Bytes → Bool
only_chunked (c ∷ []) = c == chunked
only_chunked _ = false

unfoldable pub ambiguous : Bool → Tally → Bool
ambiguous is_http10 t =
    if ltb 1 t.lengths
    then true
    else if is_empty t.codings
    then false
    else if is_http10 || ltb 0 t.lengths
    then true
    else not (only_chunked t.codings)

abbrev pub no_fields : Tally
no_fields = record { lengths = 0; codings = [] }

unfoldable pub bad_lines : List Bytes → Bool
unfolding tally_lines ambiguous
bad_lines [] = false
bad_lines (request_line ∷ lines) =
    let is_http10 = has_suffix request_line (codes "HTTP/1.0") in
    let is_http11 = has_suffix request_line (codes "HTTP/1.1") in
    if not is_http10 && not is_http11
    then false
    else elim (tally_lines lines no_fields) [ none ↦ true | some t ↦ ambiguous is_http10 t ]

unfoldable pub bad_http_request_framing : Bytes → Bool
unfolding bad_lines
bad_http_request_framing header = bad_lines (split_crlf header)
