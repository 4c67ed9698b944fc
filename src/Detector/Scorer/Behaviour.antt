-- ===== src/Detector/Scorer/Behaviour.antt =====
-- internal/detector/scorer_behavioral.go: signals with thresholds of the rules. A window's start, the
-- last event's time less the window, stands on the other side of the comparison.
use veilgate.Prelude.{
  ℕ, zero, suc, ◌+◌, ◌*◌, Bool, false, not, ◌&&◌, ◌||◌, Option, none, some, List, [], ◌∷◌, ◌++◌,
  Bytes, codes, ltb, leb, ◌==◌, nat_eq, bytes_eq, if◌then◌else◌, is_empty, length, filter, take,
  any, contains, to_lower, decimal, Map, lookup, insert,
}
use veilgate.Detector.Tracker.{ClientEvent, ClientState}
use veilgate.Detector.Scorer.{
  Signal, signal, no_signal, BehaviouralRules, AuthPathPattern, Hit, distinct, minute, dash,
  or_default, looks_like_browser_ua,
}

abbrev pub schema_paths_of : BehaviouralRules → List Bytes
schema_paths_of rules =
    if is_empty rules.schema_paths
    then codes "openapi"
      ∷ codes "swagger"
      ∷ codes "api-docs"
      ∷ codes "api/docs"
      ∷ codes "schema.json"
      ∷ codes "graphql/schema"
      ∷ codes "graphiql"
      ∷ []
    else rules.schema_paths

-- `authPathLabel`
unfoldable pub auth_path_label : Bytes → Bytes
auth_path_label p =
    if contains p (codes "/login") || contains p (codes "/signin")
    then codes "login"
    else if contains p (codes "/oauth/token") || contains p (codes "/oauth2/token")
    then codes "oauth_token"
    else if contains p (codes "/auth/token") || contains p (codes "/api/token")
    then codes "auth_token"
    else if contains p (codes "/auth/") && not (contains p (codes "/logout"))
    then codes "auth_generic"
    else if contains p (codes "/jwt/") || contains p (codes "/jwt")
    then codes "jwt"
    else if contains p (codes "/sso/") || contains p (codes "/saml/")
    then codes "sso"
    else if contains p (codes "/password") || contains p (codes "/credentials")
    then codes "password"
    else if contains p (codes "/session") && contains p (codes "/api/")
    then codes "api_session"
    else []

abbrev excluded : AuthPathPattern → Bytes → Bool
excluded ap p = not (is_empty ap.exclude) && contains p (to_lower ap.exclude)

-- The loop of `authLabel` over the patterns of the rules.
unfoldable pub pattern_label : List AuthPathPattern → Bytes → Bytes
pattern_label [] p = []
pattern_label (ap ∷ aps) p =
    let rest = pattern_label aps p in
    if contains p (to_lower ap.pattern) && not (excluded ap p) then ap.label else rest

-- `authLabel`
unfoldable pub auth_label : BehaviouralRules → Bytes → Bytes
auth_label rules p =
    if is_empty rules.auth_path_patterns
    then auth_path_label p
    else pattern_label rules.auth_path_patterns p

unfoldable pub last_time : List ClientEvent → ℕ
last_time [] = 0
last_time (e ∷ []) = e.timestamp
last_time (e ∷ f ∷ es) = last_time (f ∷ es)

-- The events that lie in the minutes before the last one.
abbrev pub within : ℕ → List ClientEvent → List ClientEvent
within minutes events =
    filter (λ (e : ClientEvent). not (ltb (e.timestamp + minutes * minute) (last_time events)))
      events

-- `pathStat`
pub record PathStat : Type 0 where
  pub count : ℕ
  pub conditional : ℕ

abbrev stat_of : Option PathStat → PathStat
stat_of none = record { count = 0; conditional = 0 }
stat_of (some ps) = ps

abbrev counted : PathStat → Bool → PathStat
counted ps cond = record {
  count = ps.count + 1;
  conditional = if cond then ps.conditional + 1 else ps.conditional;
}

-- The loop that counts the fetches of each path.
unfoldable pub path_stats : List ClientEvent → Map Bytes PathStat → Map Bytes PathStat
path_stats [] stats = stats
path_stats (e ∷ es) stats =
    let p = to_lower e.path in
    path_stats es (insert p (counted (stat_of (lookup p stats)) e.has_conditional) stats)

-- The greatest count among the paths without a conditional fetch, and a path that has it: which one,
-- where several have, is the map's choice.
unfoldable pub hottest : Map Bytes PathStat → ℕ × Bytes → ℕ × Bytes
hottest [] best = best
hottest ((p, ps) ∷ stats) best =
    hottest stats (if ps.conditional == 0 && ltb best.0 ps.count then (ps.count, p) else best)

-- `maxRepeatFetchCount`
unfoldable pub max_repeat_fetch_count : List ClientEvent → ℕ
max_repeat_fetch_count events = (hottest (path_stats (within 3 events) []) (0, [])).0

-- The labels that are not empty, of the events of the window.
unfoldable pub labels : BehaviouralRules → List ClientEvent → List Bytes
labels rules [] = []
labels rules (e ∷ es) =
    let rest = labels rules es in
    let label = auth_label rules (to_lower e.path) in if is_empty label then rest else label ∷ rest

-- `distinctAuthCatCount`
unfoldable pub distinct_auth_cat_count : BehaviouralRules → List ClientEvent → ℕ
distinct_auth_cat_count rules events =
    distinct (labels rules (within (or_default rules.auth_probe.window_minutes 5) events))

-- One of the first events is of no browser and asks for a schema; also the test of
-- `schemaFirstScore`.
unfoldable pub schema_first_hit : List Bytes → ℕ → List ClientEvent → Bool
schema_first_hit paths limit events =
    any
      (λ (e : ClientEvent).
        not (looks_like_browser_ua e.user_agent)
        && any (λ pat. contains (to_lower e.path) pat) paths)
      (take limit events)

-- `scoreSchemaFirst`
unfoldable pub score_schema_first : BehaviouralRules → List ClientEvent → Signal
score_schema_first rules events =
    if schema_first_hit (schema_paths_of rules) (or_default rules.check_limit 3) events
    then signal (codes "schema_first") (or_default rules.schema_first_points 20) (
        codes "non-browser client's first requests targeted API schema"
        ++ (dash ++ codes "agent recon"))
    else no_signal

-- `scoreHeaderMutation`
unfoldable pub score_header_mutation : BehaviouralRules → ClientState → Signal
score_header_mutation rules st =
    let cfg = rules.header_mutation in
    let n = st.header_mutations in
    let changed = codes "stable-header set changed " ++ (decimal n ++ codes " times mid-session") in
    if ltb st.requests_total (or_default cfg.min 6)
    then no_signal
    else if leb (or_default cfg.high.at 15) n
    then signal (codes "header_mutation") (or_default cfg.high.points 25)
        (changed ++ codes " (agent tool-call boundary)")
    else if leb (or_default cfg.mid.at 10) n
    then signal (codes "header_mutation") (or_default cfg.mid.points 15) changed
    else if leb (or_default cfg.low.at 5) n
    then signal (codes "header_mutation") (or_default cfg.low.points 8) changed
    else no_signal

abbrev fetched : Bytes → ℕ → ℕ → Bytes
fetched path n minutes =
    codes "path "
    ++ (path
        ++ (codes " fetched "
            ++ (decimal n
                ++ (codes " times in "
                    ++ (decimal minutes ++ codes " min with no conditional headers")))))

-- `scoreCacheMissAnomaly`
unfoldable pub score_cache_miss_anomaly : BehaviouralRules → List ClientEvent → Signal
score_cache_miss_anomaly rules events =
    let cfg = rules.cache_miss in
    let minutes = or_default cfg.window_minutes 3 in
    let (n, path) = hottest (path_stats (within minutes events) []) (0, []) in
    if ltb (length events) (or_default cfg.min 5)
    then no_signal
    else if leb (or_default cfg.high.at 9) n
    then signal (codes "cache_miss_anomaly") (or_default cfg.high.points 20)
        (fetched path n minutes ++ (dash ++ codes "agent burst re-poll"))
    else if leb (or_default cfg.low.at 5) n
    then signal (codes "cache_miss_anomaly") (or_default cfg.low.points 10) (fetched path n minutes)
    else no_signal

-- `scoreNoCookieReturn`
unfoldable pub score_no_cookie_return : BehaviouralRules → ClientState → Signal
score_no_cookie_return rules st =
    if not st.set_cookie_received || ltb st.requests_total (or_default rules.no_cookie_min 8)
    then no_signal
    else if st.has_cross_origin_requests
    then no_signal
    else if st.cookies_sent == 0
    then signal (codes "no_cookie_return") (or_default rules.no_cookie_points 10) (
        codes "tarpit served Set-Cookie but client never returned any Cookie header"
        ++ (dash ++ codes "stateless agent"))
    else no_signal

-- `isHexByte`
abbrev pub is_hex_byte : ℕ → Bool
is_hex_byte b = leb b'0' b && leb b b'9' || leb b'a' b && leb b b'f'

-- "%25" and two digits.
abbrev pub is_double_enc : Bytes → Bool
is_double_enc (a ∷ b ∷ c ∷ d ∷ e ∷ s) =
    a == b'%' && (b == b'2' && (c == b'5' && (is_hex_byte d && is_hex_byte e)))
is_double_enc _ = false

-- The loop of `countDoubleEnc`, where so many bytes are still to be skipped.
unfoldable pub count_from : ℕ → Bytes → ℕ
count_from skip [] = 0
count_from (suc skip) (c ∷ s) = count_from skip s
count_from zero (c ∷ s) =
    let hit = is_double_enc (c ∷ s) in
    let rest = count_from (if hit then 4 else 0) s in if hit then suc rest else rest

-- `countDoubleEnc`
abbrev pub count_double_enc : Bytes → ℕ
count_double_enc s = count_from 0 s

-- `scoreEncodingChain`
unfoldable pub score_encoding_chain : BehaviouralRules → Hit → Signal
score_encoding_chain rules hit =
    let lower = to_lower hit.request_uri in
    let n = count_double_enc lower in
    if contains lower (codes "%2525")
    then signal (codes "encoding_chain") (or_default rules.triple_points 20)
        (codes "request uses triple URL-encoding" ++ (dash ++ codes "WAF evasion attempt"))
    else if leb 2 n
    then signal (codes "encoding_chain") (or_default rules.multi_points 15) (
        codes "request uses double URL-encoding ("
        ++ (decimal n ++ (codes " occurrences)" ++ (dash ++ codes "payload obfuscation"))))
    else if n == 1
    then signal (codes "encoding_chain") (or_default rules.single_points 8)
        (codes "request uses double URL-encoding" ++ (dash ++ codes "possible WAF bypass attempt"))
    else no_signal

-- `scoreAuthProbeSequence`
unfoldable pub score_auth_probe_sequence : BehaviouralRules → List ClientEvent → Signal
score_auth_probe_sequence rules events =
    let cfg = rules.auth_probe in
    let minutes = or_default cfg.window_minutes 5 in
    let n = distinct (labels rules (within minutes events)) in
    let probed =
      codes "probed "
      ++ (decimal n
          ++ (codes " distinct auth endpoint categories in "
              ++ (decimal minutes ++ codes " min"))) in
    if ltb (length events) (or_default cfg.min 10)
    then no_signal
    else if leb (or_default cfg.high.at 6) n
    then signal (codes "auth_probe_sequence") (or_default cfg.high.points 25)
        (probed ++ (dash ++ codes "agent auth scanning"))
    else if leb (or_default cfg.low.at 4) n
    then signal (codes "auth_probe_sequence") (or_default cfg.low.points 15) probed
    else no_signal
