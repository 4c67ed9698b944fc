-- ===== src/Tarpit/Samples.antt =====
-- Examples and tests for internal/tarpit: a renderer that writes the template's name and the number of
-- visits, and a generator that counts.
use veilgate.Prelude.{
  ℕ, ◌≡◌, ◌≤◌, ◌+◌, ◌%◌, refl, arith, none, some, [], ◌∷◌, ◌++◌, Bytes, codes, runs, decimal,
  length,
}
use veilgate.Tarpit.{get_response}
use veilgate.Tarpit.Profiles.{Generators, ShadowProfile, get_profile}
use veilgate.Tarpit.Routes.{
  Vulnerabilities, template_of, probe_of, route_matches, list_matches, lookup_list, has_pattern,
  decoded_query,
}
use veilgate.Tarpit.Handling.{
  TarpitParts, TarpitState, visiting, collecting, Visit, profile_of, fresh_render, answered_with,
  serve_tarpit, new_tarpit, perform_all,
}
use veilgate.Tarpit.Coherence.{serve_tarpit-coherent}
use veilgate.Tarpit.Identity.{profile_of-restart}
use veilgate.Tarpit.Bounds.{serve_tarpit-bound}

abbrev counter : Generators
counter = record { Source = ℕ; new_source = λ n. n; intn = λ n s. (s % 2, s + 1) }

abbrev lists : Vulnerabilities
lists = record {
  probe_paths = codes "/.env" ∷ [];
  sql_injection_patterns = codes "UNION" ∷ [];
  ssrf_patterns = [];
  xss_patterns = [];
  path_traversal_patterns = [];
  command_injection_patterns = [];
  xxe_patterns = [];
  ssti_patterns = [];
  nosql_patterns = [];
  prototype_pollution = [];
  vcs_paths = [];
  env_paths = [];
}

abbrev trap : TarpitParts
trap = record {
  cfg = record {
    min_latency_ms = 5;
    max_latency_ms = 9;
    max_body_bytes = 6;
    response_cache_ttl_minutes = 10;
    response_cache_max_size = 2;
  };
  fake_data = record {
    versions = [];
    stacks = [];
    companies = codes "Blue Ltd" ∷ codes "Red Co" ∷ [];
    admin_users = [];
    admin_passes = [];
    email_domains = [];
  };
  vuln = lists;
  routes =
      record { kind = codes "list"; values = codes "probe_paths" ∷ []; template = codes "env" }
      ∷ record { kind = codes "sqli"; values = []; template = codes "sql" }
      ∷ [];
  generators = counter;
  sha256 = λ s. s;
  texts = record { compile = λ s. none; unescape = λ s. some s };
  split_host_port = λ s. none;
  render = λ (name : Bytes) (p : ShadowProfile) (path query body : Bytes). record {
    status = 200;
    content_type = codes "text/plain";
    body = name ++ (decimal p.visits ++ codes "....");
    headers = [];
  };
  inject = λ kind body ctx. body;
  canaries = some (λ body. body ∷ []);
}

abbrev visit_of : Bytes → Bytes → Bytes → ℕ → Visit
visit_of address path raw_query now = record {
  now = now;
  intn = λ n. 0;
  order = 0;
  request = record {
    method = codes "GET";
    path = path;
    remote_addr = address;
    proto_major = 1;
    proto_minor = 1;
    headers = [];
    transfer_encoding = [];
    content_length = some 0;
    body = some [];
  };
  raw_query = raw_query;
}

abbrev first_visit : Visit
first_visit = visit_of (codes "1.2.3.4") (codes "/a/.env") [] 5

abbrev other_visit : Visit
other_visit = visit_of (codes "5.6.7.8") (codes "/a") (codes "q=1 union") 6

abbrev second_visit : Visit
second_visit = visit_of (codes " 1.2.3.4") (codes "/A/.ENV") [] 600000000005

first_run : (serve_tarpit trap first_visit (new_tarpit trap)).response.body ≡ codes "env1.."
unfolding runs serve_tarpit get_response answered_with fresh_render template_of route_matches
    lookup_list list_matches probe_of decimal get_profile
first_run = refl

other_run : (serve_tarpit trap other_visit (new_tarpit trap)).response.body ≡ codes "sql1.."
unfolding runs serve_tarpit get_response answered_with fresh_render template_of route_matches
    lookup_list list_matches probe_of has_pattern decoded_query decimal get_profile
other_run = refl

serve_tarpit-coherent_example :
    ((serve_tarpit trap second_visit (
        perform_all trap
          (visiting other_visit ∷ collecting 7 ∷ [])
          (serve_tarpit trap first_visit (new_tarpit trap)).state)).response
      ≡ (serve_tarpit trap first_visit (new_tarpit trap)).response)
    × ((serve_tarpit trap second_visit (
          perform_all trap
            (visiting other_visit ∷ collecting 7 ∷ [])
            (serve_tarpit trap first_visit (new_tarpit trap)).state)).registered
        ≡ [])
unfolding runs perform_all get_response
serve_tarpit-coherent_example =
    serve_tarpit-coherent trap [] first_visit (visiting other_visit ∷ collecting 7 ∷ [])
      second_visit (new_tarpit trap) refl refl refl (omega arith, (omega arith, tt)) (omega arith)
      refl refl

profile_of-restart_example :
    (profile_of trap second_visit (
      perform_all trap
        (visiting first_visit ∷ visiting other_visit ∷ [])
        (new_tarpit trap))).identity
    ≡ (profile_of trap first_visit (perform_all trap [] (new_tarpit trap))).identity
unfolding runs
profile_of-restart_example =
    profile_of-restart trap (visiting first_visit ∷ visiting other_visit ∷ []) [] second_visit
      first_visit refl

abbrev after_first : TarpitState
after_first = perform_all trap (visiting first_visit ∷ []) (new_tarpit trap)

serve_tarpit-bound_example :
    (length after_first.cache.entries ≤ 2)
    × (length (serve_tarpit trap second_visit after_first).response.body ≤ 6)
serve_tarpit-bound_example =
    serve_tarpit-bound trap (visiting first_visit ∷ []) second_visit after_first refl
