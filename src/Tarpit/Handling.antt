-- ===== src/Tarpit/Handling.antt =====
-- internal/tarpit/handler.go: `ServeHTTP` of the tarpit. The renderer, the injector of payloads, the
-- search for canaries and the generator of the delay are arguments, the metrics are left out. A call
-- takes place at one time, after its delay; the limit of a body is not negative.
use veilgate.Prelude.{
  ℕ, ◌+◌, ◌-◌, ◌*◌, Option, none, some, List, [], ◌∷◌, ◌++◌, Bytes, codes, bytes_eq, ltb, leb,
  if◌then◌else◌, Map, insert, length, take, trim_space,
}
use veilgate.Http.{Request, cors_headers}
use veilgate.Tarpit.{
  TarpitResponse, ResponseCache, new_response_cache, get_response, set_response, collect_responses,
}
use veilgate.Tarpit.Profiles.{Generators, FakeData, ShadowProfile, get_profile}
use veilgate.Tarpit.Routes.{Vulnerabilities, TarpitRoute, Texts, template_of, probe_of}

pub record TarpitConfig : Type 0 where
  pub min_latency_ms : ℕ
  pub max_latency_ms : ℕ
  pub max_body_bytes : ℕ
  pub response_cache_ttl_minutes : ℕ
  pub response_cache_max_size : ℕ

pub record InjectionContext : Type 0 where
  pub path : Bytes
  pub client_id : Bytes
  pub visits : ℕ

-- What the handler is made of and what it calls. `render` is given a template's name, the profile,
-- the path as received, the query and the body. `canaries` is `none` without a registrar.
pub record TarpitParts : Type 1 where
  pub cfg : TarpitConfig
  pub fake_data : FakeData
  pub vuln : Vulnerabilities
  pub routes : List TarpitRoute
  pub generators : Generators
  pub sha256 : Bytes → Bytes
  pub texts : Texts
  pub split_host_port : Bytes → Option Bytes
  pub render : Bytes → ShadowProfile → Bytes → Bytes → Bytes → TarpitResponse
  pub inject : Bytes → Bytes → InjectionContext → Bytes
  pub canaries : Option (Bytes → List Bytes)

-- A request, and what a call finds: the time, `rand.Intn`, and the order of the cache's map.
pub record Visit : Type 0 where
  pub now : ℕ
  pub intn : ℕ → ℕ
  pub order : ℕ
  pub request : Request
  pub raw_query : Bytes

pub record TarpitState : Type 0 where
  pub profiles : Map Bytes ShadowProfile
  pub cache : ResponseCache

-- What a call leaves: the response, the headers in the order they are set, the delay in
-- milliseconds, the canaries that are registered, and the state.
pub record Served : Type 0 where
  pub response : TarpitResponse
  pub headers : List (Bytes × Bytes)
  pub delay : ℕ
  pub registered : List Bytes
  pub state : TarpitState

-- `randBetween`
unfoldable pub rand_between : (ℕ → ℕ) → ℕ → ℕ → ℕ
rand_between intn lo hi = if leb hi lo then lo else lo + intn (hi - lo)

abbrev host_or : Bytes → Option Bytes → Bytes
host_or address none = trim_space address
host_or address (some host) = trim_space host

abbrev pub found_by : Option (Bytes → List Bytes) → Bytes → List Bytes
found_by none body = []
found_by (some extract) body = extract body

-- The body is cut at the limit.
abbrev pub cut_body : ℕ → TarpitResponse → TarpitResponse
cut_body limit resp = record resp {
  body = if ltb limit (length resp.body) then take limit resp.body else resp.body;
}

module _ (parts : TarpitParts) where
  -- `clientIP`
  abbrev pub client_ip : Request → Bytes
  client_ip r = host_or r.remote_addr (parts.split_host_port r.remote_addr)

  abbrev pub profile_of : Visit → TarpitState → ShadowProfile
  profile_of v s =
      get_profile parts.generators parts.sha256 parts.fake_data v.now (client_ip v.request)
        s.profiles

  -- `route`
  abbrev pub route : Visit → ShadowProfile → TarpitResponse
  route v p =
      let probe = probe_of parts.texts v.request v.raw_query in
      parts.render (template_of parts.texts parts.vuln probe parts.routes) p v.request.path
        probe.query probe.body

  abbrev pub injected : Visit → ShadowProfile → TarpitResponse → TarpitResponse
  injected v p resp = record resp {
    body =
        parts.inject resp.content_type resp.body
          (record { path = v.request.path; client_id = client_ip v.request; visits = p.visits });
  }

  unfoldable pub fresh_render : Visit → ShadowProfile → TarpitResponse
  fresh_render v p = cut_body parts.cfg.max_body_bytes (injected v p (route v p))

  unfoldable pub answered_with :
      Visit → TarpitState → TarpitResponse → List Bytes → ResponseCache → Served
  answered_with v s resp registered cache = record {
    response = resp;
    headers = resp.headers ++ (codes "Content-Type", resp.content_type) ∷ cors_headers v.request;
    delay = rand_between v.intn parts.cfg.min_latency_ms parts.cfg.max_latency_ms;
    registered = registered;
    state = record {
      profiles = insert (client_ip v.request) (profile_of v s) s.profiles;
      cache = cache;
    };
  }

  -- `ServeHTTP`
  unfoldable pub serve_tarpit : Visit → TarpitState → Served
  serve_tarpit v s =
      let client = client_ip v.request in
      let fresh = fresh_render v (profile_of v s) in
      elim (get_response v.now client v.request.path s.cache) [
        | some resp ↦ answered_with v s resp [] s.cache
        | none ↦
            answered_with v s fresh (found_by parts.canaries fresh.body)
              (set_response v.now v.order client v.request.path fresh s.cache)
      ]

  -- `NewHandler` and `NewProfileStore`
  abbrev pub new_tarpit : TarpitState
  new_tarpit = record {
    profiles = [];
    cache =
        new_response_cache (parts.cfg.response_cache_ttl_minutes * 60000000000)
          parts.cfg.response_cache_max_size;
  }

-- A request, or a collection of the cache.
pub data TarpitCall : Type 0 where
  visiting : Visit → TarpitCall
  collecting : ℕ → TarpitCall

abbrev pub time_of : TarpitCall → ℕ
time_of (visiting v) = v.now
time_of (collecting now) = now

module _ (parts : TarpitParts) where
  unfoldable pub perform : TarpitCall → TarpitState → TarpitState
  perform (visiting v) s = (serve_tarpit parts v s).state
  perform (collecting now) s = record s { cache = collect_responses now s.cache }

  unfoldable pub perform_all : List TarpitCall → TarpitState → TarpitState
  perform_all [] s = s
  perform_all (call ∷ calls) s = perform_all calls (perform call s)
