-- ===== src/Tarpit/Coherence.antt =====
-- internal/tarpit: what a client of the tarpit is shown from one request to the next.
use veilgate.Prelude.{
  ℕ, ◌≡◌, ◌≤◌, ◌+◌, ◌++◌, arith, sym, ap, ◌∙◌, subst, false, Option, none, some, List, [], ◌∷◌,
  Bytes, codes, bytes_eq, bytes_beq_iff, ◌==◌, lookup, Option-cases, Bool-cases, inl, inr, to_lower,
}
use veilgate.Tarpit.{
  TarpitResponse, ResponseCache, response_key, is_full, get_response, set_response,
}
use veilgate.Tarpit.Keeping.{
  IsCache, set_response-IsCache, set_response-keeps, set_response-stores, collect_responses-IsCache,
  collect_responses-keeps,
}
use veilgate.Tarpit.Handling.{
  TarpitParts, TarpitState, TarpitCall, visiting, collecting, time_of, Visit, Served, client_ip,
  profile_of, fresh_render, answered_with, serve_tarpit, new_tarpit, perform, perform_all, found_by,
}

module _ (parts : TarpitParts) where
  abbrev pub key_of : Visit → Bytes
  key_of v = response_key (client_ip parts v.request) v.request.path

  abbrev pub cached : Visit → TarpitState → Option TarpitResponse
  cached v s = get_response v.now (client_ip parts v.request) v.request.path s.cache

  pub serve_tarpit-cached :
      (v : Visit) (s : TarpitState) (resp : TarpitResponse)
      → cached v s ≡ some resp
      → serve_tarpit parts v s ≡ answered_with parts v s resp [] s.cache
  serve_tarpit-cached v s resp e = unfold serve_tarpit in rw (e, serve_tarpit)

  pub serve_tarpit-fresh :
      (v : Visit) (s : TarpitState)
      → cached v s ≡ none
      → serve_tarpit parts v s
        ≡ answered_with parts v s
            (fresh_render parts v (profile_of parts v s))
            (found_by parts.canaries (fresh_render parts v (profile_of parts v s)).body)
            (set_response v.now v.order
              (client_ip parts v.request)
              v.request.path
              (fresh_render parts v (profile_of parts v s))
              s.cache)
  serve_tarpit-fresh v s e = unfold serve_tarpit in rw (e, serve_tarpit)

  -- What holds of the cache and of every cache that `Set` leaves holds after a request.
  pub serve_tarpit-cache {ℓ} :
      (P : ResponseCache → Type ℓ) (v : Visit) (s : TarpitState)
      → P s.cache
      → (cached v s ≡ none
          → P (
              set_response v.now v.order
                (client_ip parts v.request)
                v.request.path
                (fresh_render parts v (profile_of parts v s))
                s.cache))
      → P (serve_tarpit parts v s).state.cache
  unfolding answered_with
  serve_tarpit-cache P v s keep set = elim (Option-cases (cached v s)) [
    | inl e ↦ subst (λ (o : Served). P o.state.cache) (sym (serve_tarpit-fresh v s e)) (set e)
    | inr (resp, e) ↦
        subst (λ (o : Served). P o.state.cache) (sym (serve_tarpit-cached v s resp e)) keep
  ]

  perform-IsCache :
      (call : TarpitCall) (s : TarpitState) → IsCache s.cache → IsCache (perform parts call s).cache
  unfolding perform
  perform-IsCache (visiting v) s h = serve_tarpit-cache IsCache v s h (λ e.
      set_response-IsCache v.now v.order (client_ip parts v.request) v.request.path
        (fresh_render parts v (profile_of parts v s)) s.cache h)
  perform-IsCache (collecting now) s h = collect_responses-IsCache now s.cache h

  pub perform_all-IsCache :
      (calls : List TarpitCall) (s : TarpitState)
      → IsCache s.cache
      → IsCache (perform_all parts calls s).cache
  unfolding perform_all
  perform_all-IsCache [] s h = h
  perform_all-IsCache (call ∷ calls) s h =
      perform_all-IsCache calls (perform parts call s) (perform-IsCache call s h)

  -- The entry of a key, which expires at that time.
  abbrev Holds : Bytes → TarpitResponse → ℕ → ResponseCache → Type 0
  Holds k resp t c = lookup k c.entries ≡ some (record { resp = resp; expires_at = t })

  get_response-Holds :
      (now : ℕ) (client path : Bytes) (resp : TarpitResponse) (t : ℕ) (c : ResponseCache)
      → Holds (response_key client path) resp t c
      → now ≤ t
      → get_response now client path c ≡ some resp
  unfolding get_response
  get_response-Holds now client path resp t c h le = ground arith

  perform-Holds :
      (call : TarpitCall) (s : TarpitState) (k : Bytes) (resp : TarpitResponse) (t : ℕ)
      → IsCache s.cache
      → Holds k resp t s.cache
      → time_of call ≤ t
      → Holds k resp t (perform parts call s).cache
  unfolding perform
  perform-Holds (collecting now) s k resp t m h le =
      collect_responses-keeps now s.cache k (record { resp = resp; expires_at = t }) m.0 h
        (ground arith)
  perform-Holds (visiting v) s k resp t m h le = serve_tarpit-cache (Holds k resp t) v s h (λ e.
      elim (Bool-cases (key_of v == k)) [
        | inl same ↦
            let q : key_of v ≡ k = (bytes_beq_iff (key_of v) k).0 same in
            let hit : cached v s ≡ some resp =
              get_response-Holds v.now (client_ip parts v.request) v.request.path resp t s.cache
                (subst (λ x. Holds x resp t s.cache) (sym q) h) le in
            ground arith
        | inr other ↦
            set_response-keeps v.now v.order (client_ip parts v.request) v.request.path
              (fresh_render parts v (profile_of parts v s)) s.cache k
              (record { resp = resp; expires_at = t }) h (ground arith) other
      ])

  -- No call is later than that time.
  abbrev pub Until : ℕ → List TarpitCall → Type 0
  Until t [] = Unit {0}
  Until t (call ∷ calls) = (time_of call ≤ t) × Until t calls

  perform_all-Holds :
      (calls : List TarpitCall) (s : TarpitState) (k : Bytes) (resp : TarpitResponse) (t : ℕ)
      → IsCache s.cache
      → Holds k resp t s.cache
      → Until t calls
      → Holds k resp t (perform_all parts calls s).cache
  unfolding perform_all
  perform_all-Holds [] s k resp t m h u = h
  perform_all-Holds (call ∷ calls) s k resp t m h (le, u) =
      perform_all-Holds calls (perform parts call s) k resp t (perform-IsCache call s m)
        (perform-Holds call s k resp t m h le) u

  -- After any calls of a new handler, a client that asks for a path for which the cache has nothing,
  -- but a place, gets the same response for that path, in whatever case, and no new canaries, until
  -- the time to live is over, whatever calls come between.
  pub serve_tarpit-coherent :
      (before : List TarpitCall) (first : Visit) (between : List TarpitCall) (second : Visit)
      → (s : TarpitState) → s ≡ perform_all parts before (new_tarpit parts)
      → cached first s ≡ none
      → is_full (key_of first) s.cache ≡ false
      → Until (first.now + s.cache.ttl) between
      → second.now ≤ first.now + s.cache.ttl
      → client_ip parts second.request ≡ client_ip parts first.request
      → to_lower second.request.path ≡ to_lower first.request.path
      → ((serve_tarpit parts second
            (perform_all parts between (serve_tarpit parts first s).state)).response
          ≡ (serve_tarpit parts first s).response)
        × ((serve_tarpit parts second
              (perform_all parts between (serve_tarpit parts first s).state)).registered
            ≡ [])
  unfolding answered_with perform
  serve_tarpit-coherent before first between second s reached miss room until le client path =
      let resp = fresh_render parts first (profile_of parts first s) in
      let t = first.now + s.cache.ttl in
      let s1 = (serve_tarpit parts first s).state in
      let s2 = perform_all parts between s1 in
      let good : IsCache s.cache =
        subst (λ (x : TarpitState). IsCache x.cache) (sym reached)
          (perform_all-IsCache before (new_tarpit parts) (tt, omega arith)) in
      let stored : Holds (key_of first) resp t s1.cache =
        ap (λ (o : Served). lookup (key_of first) o.state.cache.entries)
          (serve_tarpit-fresh first s miss)
        ∙ set_response-stores first.now first.order (client_ip parts first.request)
            first.request.path resp s.cache room in
      let kept : Holds (key_of first) resp t s2.cache =
        perform_all-Holds between s1 (key_of first) resp t (perform-IsCache (visiting first) s good)
          stored until in
      let key : key_of second ≡ key_of first =
        unfold response_key in
        ap (λ c. c ++ (codes "|" ++ to_lower second.request.path)) client
        ∙ ap (λ p. client_ip parts first.request ++ (codes "|" ++ p)) path in
      let hit : cached second s2 ≡ some resp =
        get_response-Holds second.now (client_ip parts second.request) second.request.path resp t
          s2.cache (subst (λ x. Holds x resp t s2.cache) (sym key) kept) le in
      (
        ap (λ (o : Served). o.response) (serve_tarpit-cached second s2 resp hit)
            ∙ sym (ap (λ (o : Served). o.response) (serve_tarpit-fresh first s miss)),
        ap (λ (o : Served). o.registered) (serve_tarpit-cached second s2 resp hit),
      )
