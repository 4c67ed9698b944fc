-- ===== src/Tarpit/Bounds.antt =====
-- internal/tarpit: how much the tarpit keeps and sends.
use veilgate.Prelude.{
  ℕ, ◌≡◌, ◌≤◌, ◌%◌, ◌+◌, ◌-◌, arith, refl, sym, subst, not, Bool, some, List, [], ◌∷◌, Bytes,
  bytes_eq, nat_eq, if◌then◌else◌, Map, insert, lookup, length, filter, length-take, All,
  Option-cases, inl, inr,
}
use veilgate.Tarpit.{
  TarpitResponse, CacheEntry, ResponseCache, response_key, is_past, stale_count, evict_stale,
  get_response, set_response, collect_responses,
}
use veilgate.Tarpit.Keeping.{IsCache}
use veilgate.Tarpit.Handling.{
  TarpitParts, TarpitState, TarpitCall, visiting, collecting, Visit, Served, client_ip, profile_of,
  fresh_render, route, injected, cut_body, answered_with, serve_tarpit, new_tarpit, perform,
  perform_all,
}
use veilgate.Tarpit.Coherence.{
  cached, serve_tarpit-cached, serve_tarpit-fresh, serve_tarpit-cache, perform_all-IsCache,
}

module _ (limit cap : ℕ) where
  abbrev IsShort : Bytes × CacheEntry → Type 0
  IsShort (k, e) = length e.resp.body ≤ limit

  -- The bodies that are kept are short, and the cap stays what it is.
  abbrev Short : ResponseCache → Type 0
  Short c = All IsShort c.entries × (c.max_size ≡ cap)

  All-insert :
      (k : Bytes) (e : CacheEntry) (m : Map Bytes CacheEntry)
      → length e.resp.body ≤ limit
      → All IsShort m
      → All IsShort (insert k e m)
  unfolding insert
  All-insert k e [] le h = (le, tt)
  All-insert k e ((j, x) ∷ m) le h = ground (arith, All-insert k e m le h.1)

  All-evict_stale :
      (now n : ℕ) (m : Map Bytes CacheEntry) → All IsShort m → All IsShort (evict_stale now n m)
  unfolding evict_stale
  All-evict_stale now n [] h = tt
  All-evict_stale now n ((j, x) ∷ m) h =
      ground (arith, All-evict_stale now (if is_past now x then n - 1 else n) m h.1)

  All-filter :
      (keep : Bytes × CacheEntry → Bool) (m : Map Bytes CacheEntry)
      → All IsShort m
      → All IsShort (filter keep m)
  All-filter keep [] h = tt
  All-filter keep (x ∷ m) h = ground (arith, All-filter keep m h.1)

  All-lookup :
      (k : Bytes) (e : CacheEntry) (m : Map Bytes CacheEntry)
      → lookup k m ≡ some e
      → All IsShort m
      → length e.resp.body ≤ limit
  unfolding lookup
  All-lookup k e [] l h = cc
  All-lookup k e ((j, x) ∷ m) l h = ground (arith, All-lookup k e m)

  set_response-Short :
      (now order : ℕ) (client path : Bytes) (resp : TarpitResponse) (c : ResponseCache)
      → length resp.body ≤ limit
      → Short c
      → Short (set_response now order client path resp c)
  unfolding set_response
  set_response-Short now order client path resp c le (a, q) =
      let key = response_key client path in
      let e : CacheEntry = record { resp = resp; expires_at = now + c.ttl } in
      let n = order % stale_count now c.entries in
      (
        ground (
          arith,
          All-insert key e c.entries le a,
          All-insert key e (evict_stale now n c.entries) le (All-evict_stale now n c.entries a),
        ),
        ground arith,
      )

  get_response-Short :
      (now : ℕ) (client path : Bytes) (resp : TarpitResponse) (c : ResponseCache)
      → get_response now client path c ≡ some resp
      → Short c
      → length resp.body ≤ limit
  unfolding get_response
  get_response-Short now client path resp c e (a, q) =
      elim (Option-cases (lookup (response_key client path) c.entries)) [
        | inl l ↦ ground arith
        | inr (x, l) ↦ ground (arith, All-lookup (response_key client path) x c.entries l a)
      ]

cut_body-length : (limit : ℕ) (resp : TarpitResponse) → length (cut_body limit resp).body ≤ limit
cut_body-length limit resp = ground (arith, length-take limit resp.body)

module _ (parts : TarpitParts) where
  abbrev Bounded : ResponseCache → Type 0
  Bounded c = Short parts.cfg.max_body_bytes parts.cfg.response_cache_max_size c

  fresh_render-short :
      (v : Visit) (s : TarpitState)
      → length (fresh_render parts v (profile_of parts v s)).body ≤ parts.cfg.max_body_bytes
  unfolding fresh_render
  fresh_render-short v s =
      let p = profile_of parts v s in
      cut_body-length parts.cfg.max_body_bytes (injected parts v p (route parts v p))

  perform_all-Bounded :
      (calls : List TarpitCall) (s : TarpitState)
      → Bounded s.cache
      → Bounded (perform_all parts calls s).cache
  unfolding perform_all perform collect_responses
  perform_all-Bounded [] s h = h
  perform_all-Bounded (visiting v ∷ calls) s h =
      perform_all-Bounded calls (serve_tarpit parts v s).state (
        serve_tarpit-cache parts Bounded v s h (λ e.
          set_response-Short parts.cfg.max_body_bytes parts.cfg.response_cache_max_size v.now
            v.order (client_ip parts v.request) v.request.path
            (fresh_render parts v (profile_of parts v s)) s.cache (fresh_render-short v s) h))
  perform_all-Bounded (collecting now ∷ calls) s h =
      perform_all-Bounded calls (record s { cache = collect_responses now s.cache })
        (
          All-filter parts.cfg.max_body_bytes parts.cfg.response_cache_max_size
              (λ kv. not (is_past now kv.1)) s.cache.entries h.0,
          h.1,
        )

  serve_tarpit-short :
      (v : Visit) (s : TarpitState)
      → Bounded s.cache
      → length (serve_tarpit parts v s).response.body ≤ parts.cfg.max_body_bytes
  unfolding answered_with
  serve_tarpit-short v s h = elim (Option-cases (cached parts v s)) [
    | inl e ↦
        subst (λ (o : Served). length o.response.body ≤ parts.cfg.max_body_bytes)
          (sym (serve_tarpit-fresh parts v s e)) (fresh_render-short v s)
    | inr (resp, e) ↦
        subst (λ (o : Served). length o.response.body ≤ parts.cfg.max_body_bytes)
          (sym (serve_tarpit-cached parts v s resp e))
          (get_response-Short parts.cfg.max_body_bytes parts.cfg.response_cache_max_size v.now
            (client_ip parts v.request) v.request.path resp s.cache e h)
  ]

  -- After any calls of a new handler the cache has no more entries than it is configured for, and the
  -- body of every response, rendered or from the cache, is no longer than the configured limit.
  pub serve_tarpit-bound :
      (calls : List TarpitCall) (v : Visit) (s : TarpitState)
      → s ≡ perform_all parts calls (new_tarpit parts)
      → (length s.cache.entries ≤ parts.cfg.response_cache_max_size)
        × (length (serve_tarpit parts v s).response.body ≤ parts.cfg.max_body_bytes)
  serve_tarpit-bound calls v s reached =
      let bounded : Bounded s.cache =
        subst (λ (x : TarpitState). Bounded x.cache) (sym reached)
          (perform_all-Bounded calls (new_tarpit parts) (tt, refl)) in
      let good : IsCache s.cache =
        subst (λ (x : TarpitState). IsCache x.cache) (sym reached)
          (perform_all-IsCache parts calls (new_tarpit parts) (tt, omega arith)) in
      (omega (arith, bounded.1, good.1), serve_tarpit-short v s bounded)
