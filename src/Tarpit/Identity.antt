-- ===== src/Tarpit/Identity.antt =====
-- internal/tarpit/profile.go: the identity of the fake application that a client is shown.
use veilgate.Prelude.{
  ◌≡◌, arith, sym, ap, ◌∙◌, some, List, [], ◌∷◌, Bytes, bytes_eq, bytes_beq_iff, ◌==◌, Map, lookup,
  insert, lookup-insert, if◌then◌else◌, Option-cases, Bool-cases, inl, inr,
}
use veilgate.Tarpit.Profiles.{ShadowProfile, Identity, identity_of, get_profile}
use veilgate.Tarpit.Handling.{
  TarpitParts, TarpitState, TarpitCall, visiting, collecting, Visit, Served, client_ip, profile_of,
  answered_with, serve_tarpit, new_tarpit, perform, perform_all,
}
use veilgate.Tarpit.Coherence.{cached, serve_tarpit-cached, serve_tarpit-fresh}

module _ (parts : TarpitParts) where
  abbrev identity : Bytes → Identity
  identity client = identity_of parts.generators parts.sha256 parts.fake_data client

  -- Every profile has the identity of its client.
  abbrev Known : Map Bytes ShadowProfile → Type 0
  Known m = (k : Bytes) (p : ShadowProfile) → lookup k m ≡ some p → p.identity ≡ identity k

  profile_of-identity :
      (v : Visit) (s : TarpitState)
      → Known s.profiles
      → (profile_of parts v s).identity ≡ identity (client_ip parts v.request)
  unfolding get_profile
  profile_of-identity v s h = elim (Option-cases (lookup (client_ip parts v.request) s.profiles)) [
    | inl e ↦ ground arith
    | inr (p, e) ↦ ground (arith, h (client_ip parts v.request) p e)
  ]

  serve_tarpit-profiles :
      (v : Visit) (s : TarpitState)
      → (serve_tarpit parts v s).state.profiles
        ≡ insert (client_ip parts v.request) (profile_of parts v s) s.profiles
  unfolding answered_with
  serve_tarpit-profiles v s = elim (Option-cases (cached parts v s)) [
    | inl e ↦ ap (λ (o : Served). o.state.profiles) (serve_tarpit-fresh parts v s e)
    | inr (resp, e) ↦ ap (λ (o : Served). o.state.profiles) (serve_tarpit-cached parts v s resp e)
  ]

  serve_tarpit-Known :
      (v : Visit) (s : TarpitState)
      → Known s.profiles
      → Known (serve_tarpit parts v s).state.profiles
  serve_tarpit-Known v s h k p e =
      let client = client_ip parts v.request in
      let q : (if client == k then some (profile_of parts v s) else lookup k s.profiles) ≡ some p =
        sym (lookup-insert client k (profile_of parts v s) s.profiles)
        ∙ (sym (ap (lookup k) (serve_tarpit-profiles v s)) ∙ e) in
      elim (Bool-cases (client == k)) [
        | inl same ↦
            let i : client ≡ k = (bytes_beq_iff client k).0 same in
            let j : profile_of parts v s ≡ p = ground arith in
            ap (λ (x : ShadowProfile). x.identity) (sym j)
            ∙ (profile_of-identity v s h ∙ ap (λ c. identity c) i)
        | inr other ↦ h k p (ground arith)
      ]

  perform_all-Known :
      (calls : List TarpitCall) (s : TarpitState)
      → Known s.profiles
      → Known (perform_all parts calls s).profiles
  unfolding perform_all perform
  perform_all-Known [] s h = h
  perform_all-Known (visiting v ∷ calls) s h =
      perform_all-Known calls (serve_tarpit parts v s).state (serve_tarpit-Known v s h)
  perform_all-Known (collecting now ∷ calls) s h =
      perform_all-Known calls (perform parts (collecting now) s) h

  -- A client is shown the same application, its seed, names and passwords, after any calls of a new
  -- handler and after any other calls of another one with the same data, as after a restart.
  pub profile_of-restart :
      (calls others : List TarpitCall) (v w : Visit)
      → client_ip parts v.request ≡ client_ip parts w.request
      → (profile_of parts v (perform_all parts calls (new_tarpit parts))).identity
        ≡ (profile_of parts w (perform_all parts others (new_tarpit parts))).identity
  unfolding lookup
  profile_of-restart calls others v w same =
      profile_of-identity v (perform_all parts calls (new_tarpit parts))
        (perform_all-Known calls (new_tarpit parts) (λ k p e. cc))
      ∙ (ap (λ c. identity c) same
          ∙ sym (
              profile_of-identity w (perform_all parts others (new_tarpit parts))
                (perform_all-Known others (new_tarpit parts) (λ k p e. cc))))
