-- ===== src/Tarpit/Routes.antt =====
-- internal/tarpit/handler.go: which template answers a request; `Vulnerabilities` and `Route` of
-- internal/rules/extra_loaders.go. Regular expressions, the decoder of queries and the renderer are
-- arguments. A body that cannot be read counts as absent.
use veilgate.Prelude.{
  Bool, false, ◌||◌, Option, none, some, List, [], ◌∷◌, ◌++◌, Bytes, bytes_eq, nat_eq, codes, ltb,
  ◌==◌, if◌then◌else◌, is_empty, any, to_lower, has_prefix, contains,
}
use veilgate.Http.{Request}

pub record Vulnerabilities : Type 0 where
  pub probe_paths : List Bytes
  pub sql_injection_patterns : List Bytes
  pub ssrf_patterns : List Bytes
  pub xss_patterns : List Bytes
  pub path_traversal_patterns : List Bytes
  pub command_injection_patterns : List Bytes
  pub xxe_patterns : List Bytes
  pub ssti_patterns : List Bytes
  pub nosql_patterns : List Bytes
  pub prototype_pollution : List Bytes
  pub vcs_paths : List Bytes
  pub env_paths : List Bytes

-- `Vulnerabilities.Lookup`; the source's other names are unknown.
unfoldable pub lookup_list : Vulnerabilities → Bytes → List Bytes
lookup_list v name =
    if name == codes "probe_paths"
    then v.probe_paths
    else if name == codes "vcs_paths"
    then v.vcs_paths
    else if name == codes "env_paths"
    then v.env_paths
    else if name == codes "ssrf_patterns"
    then v.ssrf_patterns
    else if name == codes "xss_patterns"
    then v.xss_patterns
    else if name == codes "path_traversal_patterns"
    then v.path_traversal_patterns
    else if name == codes "command_injection_patterns"
    then v.command_injection_patterns
    else if name == codes "xxe_patterns"
    then v.xxe_patterns
    else if name == codes "ssti_patterns"
    then v.ssti_patterns
    else if name == codes "nosql_patterns"
    then v.nosql_patterns
    else if name == codes "prototype_pollution_patterns"
    then v.prototype_pollution
    else []

pub record TarpitRoute : Type 0 where
  pub kind : Bytes
  pub values : List Bytes
  pub template : Bytes

-- What a route looks at: the path in lower case, the query decoded, and the body.
pub record Probe : Type 0 where
  pub path : Bytes
  pub query : Bytes
  pub body : Bytes

-- `regexp.Compile`, `none` for an error, and `url.QueryUnescape`
pub record Texts : Type 0 where
  pub compile : Bytes → Option (Bytes → Bool)
  pub unescape : Bytes → Option Bytes

-- `hasPattern`
unfoldable pub has_pattern : Bytes → List Bytes → Bool
has_pattern s patterns = any (λ pat. contains (to_lower s) (to_lower pat)) patterns

-- `listMatches`
unfoldable pub list_matches : Bytes → Bytes → Bytes → Bytes → Bool
list_matches list entry path haystack =
    let needle = to_lower entry in
    if is_empty needle
    then false
    else if list == codes "probe_paths" || (list == codes "vcs_paths" || list == codes "env_paths")
    then path == needle || contains path needle
    else contains haystack needle

-- `compileRegex`, less its cache: an expression in error matches nothing.
abbrev regex_matches : Option (Bytes → Bool) → Bytes → Bool
regex_matches none s = false
regex_matches (some matches) s = matches s

-- `routeMatches`
unfoldable pub route_matches : Texts → Vulnerabilities → Probe → TarpitRoute → Bool
route_matches texts v p rt =
    let haystack = p.path ++ (codes " " ++ (to_lower p.query ++ (codes " " ++ to_lower p.body))) in
    if rt.kind == codes "exact"
    then any (λ x. p.path == to_lower x) rt.values
    else if rt.kind == codes "prefix"
    then any (λ x. has_prefix p.path (to_lower x)) rt.values
    else if rt.kind == codes "contains"
    then any (λ x. contains p.path (to_lower x)) rt.values
    else if rt.kind == codes "regex"
    then any (λ x. regex_matches (texts.compile x) p.path) rt.values
    else if rt.kind == codes "sqli"
    then has_pattern p.path v.sql_injection_patterns
      || (has_pattern p.query v.sql_injection_patterns
          || has_pattern p.body v.sql_injection_patterns)
    else if rt.kind == codes "list"
    then any (λ list. any (λ entry. list_matches list entry p.path haystack) (lookup_list v list))
        rt.values
    else rt.kind == codes "any"

-- The loop of `route`: the template of the first route that matches.
unfoldable pub template_of : Texts → Vulnerabilities → Probe → List TarpitRoute → Bytes
template_of texts v p [] = codes "generic_not_found"
template_of texts v p (rt ∷ rts) =
    let rest = template_of texts v p rts in if route_matches texts v p rt then rt.template else rest

abbrev or_raw : Bytes → Option Bytes → Bytes
or_raw raw none = raw
or_raw raw (some decoded) = decoded

-- `decodedQuery`
unfoldable pub decoded_query : Texts → Bytes → Bytes
decoded_query texts raw = if is_empty raw then [] else or_raw raw (texts.unescape raw)

-- `readSmallBody`
unfoldable pub read_small_body : Request → Bytes
read_small_body r = elim r.body [
  | none ↦ []
  | some b ↦ elim r.content_length [ none ↦ [] | some n ↦ if ltb 65536 n then [] else b ]
]

unfoldable pub probe_of : Texts → Request → Bytes → Probe
probe_of texts r raw_query = record {
  path = to_lower r.path;
  query = decoded_query texts raw_query;
  body = read_small_body r;
}
