-- ===== src/Detector/Scorer/Session.antt =====
-- internal/detector/scorer_session.go: signals of a client's history. The table of canaries is an
-- argument; the canaries in a body are what package fakeauth extracts, also an argument.
use veilgate.Prelude.{
  ℕ, ◌+◌, ◌-◌, ◌*◌, ◌/◌, not, ◌&&◌, ◌||◌, Option, none, some, List, [], ◌∷◌, ◌++◌, Bytes, codes,
  ltb, leb, ◌==◌, nat_eq, bytes_eq, if◌then◌else◌, is_empty, length, map, filter, drop, has_prefix,
  equal_fold, trim_space, decimal, index,
}
use veilgate.Http.{Request, header_get}
use veilgate.Detector.Tracker.{ClientEvent, ClientState}
use veilgate.Detector.Scorer.{Signal, signal, no_signal, Hit, distinct, minute, dash}

-- `scoreRequestGraph`
unfoldable pub score_request_graph : ClientState → Signal
score_request_graph st =
    if ltb st.requests_total 8 || ltb st.document_fetches 1
    then no_signal
    else if st.subresource_fetches == 0
    then signal (codes "graph_flat") 10
        (codes "many requests but zero subresource fetches (agent topology)")
    else if ltb (st.subresource_fetches * 4) st.document_fetches
    then signal (codes "graph_doc_heavy") 6
        (codes "document fetches dominate subresource fetches (crawler topology)")
    else no_signal

-- `scoreCookieEcology`
unfoldable pub score_cookie_ecology : ClientState → Signal
score_cookie_ecology st =
    if ltb st.requests_total 10
    then no_signal
    else if st.cookies_sent == 0
    then signal (codes "cookie_stateless") 8
        (codes "many requests with no Cookie header (agent / lib pattern)")
    else no_signal

-- The loop from the newest event back to the first one before the cutoff, over the events with the
-- newest first; `now.Add(-1 * time.Minute)` stands on the other side.
unfoldable pub back_to_cutoff : ℕ → List ClientEvent → List Bytes
back_to_cutoff now [] = []
back_to_cutoff now (e ∷ es) =
    let rest = back_to_cutoff now es in if ltb (e.timestamp + minute) now then [] else e.path ∷ rest

unfoldable pub reversed_onto : List ClientEvent → List ClientEvent → List ClientEvent
reversed_onto [] done = done
reversed_onto (e ∷ es) done = reversed_onto es (e ∷ done)

abbrev pub recent_paths : ℕ → List ClientEvent → List Bytes
recent_paths now events = back_to_cutoff now (reversed_onto events [])

-- `scoreFanout`
unfoldable pub score_fanout : ℕ → ClientState → Signal
score_fanout now st =
    let n = distinct (recent_paths now st.events) in
    if ltb (length st.events) 30
    then no_signal
    else if leb 200 n
    then signal (codes "fanout_extreme") 30
        (decimal n ++ codes " distinct paths in last 60s (scanner)")
    else if leb 60 n
    then signal (codes "fanout_high") 15 (decimal n ++ codes " distinct paths in last 60s")
    else no_signal

-- `scoreFailureRecovery`
unfoldable pub score_failure_recovery : ClientState → Request → Signal
score_failure_recovery st r =
    if ltb st.last_status 400 || is_empty st.last_non200_path
    then no_signal
    else if r.path == st.last_non200_path && equal_fold r.method st.last_non200_method
    then no_signal
    else signal (codes "recovery_pivot") 6
        (codes "request shape changed after a 4xx" ++ (dash ++ codes "agent-style failure pivot"))

-- The paths of the API that were fetched since a time.
abbrev pub api_paths : ℕ → List ClientEvent → List Bytes
api_paths since events =
    map (λ (e : ClientEvent). e.path)
      (filter
        (λ (e : ClientEvent). not (ltb e.timestamp since) && has_prefix e.path (codes "/api/"))
        events)

abbrev mined : ℕ → ℕ → Signal
mined hits seconds =
    if leb 12 hits
    then signal (codes "bundle_mining") 30 (
        decimal hits
        ++ (codes " distinct /api/ paths probed within "
            ++ (decimal seconds ++ codes "s of JS bundle fetch (agent recon)")))
    else if leb 6 hits
    then signal (codes "bundle_mining") 20 (
        decimal hits
        ++ (codes " distinct /api/ paths probed within "
            ++ (decimal seconds ++ codes "s of JS bundle fetch")))
    else if leb 3 hits
    then signal (codes "bundle_mining") 10 (
        decimal hits
        ++ (codes " /api/ requests within " ++ (decimal seconds ++ codes "s of JS bundle fetch")))
    else no_signal

-- `scoreBundleMining`
unfoldable pub score_bundle_mining : ℕ → ClientState → Signal
score_bundle_mining now st = elim st.last_js_asset_at [
  | none ↦ no_signal
  | some asset_at ↦
      if ltb minute (now - asset_at)
      then no_signal
      else mined (distinct (api_paths asset_at st.events)) ((now - asset_at) / 1000000000)
]

-- The credential after the scheme's name, where there is one.
abbrev credential_of : Bytes → Bytes
credential_of a = elim (index a (32 ∷ [])) [
  | none ↦ trim_space a
  | some i ↦ if ltb 0 i && ltb (i + 1) (length a) then trim_space (drop (i + 1) a) else trim_space a
]

abbrev if_given : Bytes → List Bytes
if_given v = if is_empty v then [] else v ∷ []

unfoldable pub trimmed_headers : Request → List Bytes → List Bytes
trimmed_headers r [] = []
trimmed_headers r (h ∷ hs) =
    let rest = trimmed_headers r hs in
    let v = header_get h r in if is_empty v then rest else trim_space v ∷ rest

-- What follows the last slash; `none` without a slash.
unfoldable pub after_last_slash : Bytes → Option Bytes
after_last_slash [] = none
after_last_slash (c ∷ s) =
    let rest = after_last_slash s in
    elim rest [ some t ↦ some t | none ↦ if c == b'/' then some s else none ]

-- `Query().Get`: the first value, or the empty string
unfoldable pub query_get : Bytes → List (Bytes × Bytes) → Bytes
query_get name [] = []
query_get name ((n, v) ∷ rest) =
    let further = query_get name rest in if n == name then v else further

unfoldable pub query_values : List (Bytes × Bytes) → List Bytes → List Bytes
query_values query [] = []
query_values query (n ∷ names) = if_given (query_get n query) ++ query_values query names

abbrev body_canaries : (Bytes → List Bytes) → Request → List Bytes
body_canaries extract r = elim r.body [
  | none ↦ []
  | some body ↦ elim r.content_length [
    | none ↦ []
    | some n ↦ if leb n 65536 && not (is_empty body) then extract body else []
  ]
]

abbrev last_segment : Option Bytes → List Bytes
last_segment none = []
last_segment (some t) = if_given t

-- `canaryCandidates`; `cookies` are the values of `Cookies()`.
unfoldable pub canary_candidates : (Bytes → List Bytes) → List Bytes → Hit → List Bytes
canary_candidates extract cookies hit =
    let a = header_get (codes "Authorization") hit.request in
    (if is_empty a then [] else credential_of a ∷ [])
    ++ (trimmed_headers hit.request
          (codes "X-Api-Key" ∷ codes "X-Api-Token" ∷ codes "X-Auth-Token" ∷ [])
        ++ (filter (λ v. not (is_empty v)) cookies
            ++ (last_segment (after_last_slash hit.request.path)
                ++ (query_values hit.query (
                      codes "token"
                      ∷ codes "api_key"
                      ∷ codes "apikey"
                      ∷ codes "key"
                      ∷ codes "auth"
                      ∷ codes "session"
                      ∷ [])
                    ++ body_canaries extract hit.request))))

abbrev replayed : Bytes → Bytes → Signal
replayed orig client =
    if not (is_empty orig) && not (orig == client)
    then signal (codes "canary_replay") 60
        (codes "canary served to a different client was replayed here (cross-client leak)")
    else signal (codes "canary_replay") 50
        (codes "request reused a tarpit canary token (LLM-leaked credential)")

-- The loop of `scoreCanaryReplay`; `hit_canary` gives the client that a token was served to.
unfoldable pub score_canary_replay : (Bytes → Option Bytes) → Bytes → List Bytes → Signal
score_canary_replay hit_canary client [] = no_signal
score_canary_replay hit_canary client (tok ∷ toks) =
    let rest = score_canary_replay hit_canary client toks in
    if is_empty tok
    then rest
    else elim (hit_canary tok) [ none ↦ rest | some orig ↦ replayed orig client ]
