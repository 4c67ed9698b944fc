-- ===== src/Challenge/Compiled.antt =====
-- internal/challenge/challenge.go: the template that `compileTemplate` keeps.
use veilgate.Prelude.{
  ◌≡◌, refl, sym, subst, ◌⊎◌, inl, inr, arith, Option, none, some, List, [], ◌∷◌, Bytes, ◌==◌,
  bytes_eq, bytes_beq_iff, Option-cases, Bool-cases, ℕ, codes, ◌&&◌,
}
use veilgate.Challenge.{Handler, ChallengeRules, Env, set_rules, new_handler}
use veilgate.Challenge.Pages.{
  Templates, compile_template, serve_html_challenge, serve_challenge, is_xhr_or_fetch,
}
use veilgate.Challenge.Answers.{Arrival, new_challenge_nonce}
use veilgate.Challenge.Handling.{serve_http, verify}
use veilgate.Http.{Request}

module _ {T : Type 0} (templates : Templates T) where
  -- What is kept is what the kept source compiles to.
  abbrev pub Current : Handler T → Type 0
  Current h = (h.tmpl ≡ none) ⊎ (h.tmpl ≡ templates.parse h.tmpl_src)

  compile_template_lem :
      (src : Bytes) (h : Handler T)
      → Current h
      → ((compile_template templates src h).1 ≡ templates.parse src)
        × Current (compile_template templates src h).0
  unfolding compile_template
  compile_template_lem src h current = elim (Option-cases h.tmpl) [
    | inl e ↦ elim (Option-cases (templates.parse src)) [
      | inl p ↦ (ground arith, ground arith)
      | inr (t, p) ↦ (ground arith, ground arith)
    ]
    | inr (t, e) ↦ elim (Bool-cases (h.tmpl_src == src)) [
      | inl same ↦ (
        ground (arith, bytes_beq_iff h.tmpl_src src),
        ground (arith, bytes_beq_iff h.tmpl_src src),
      )
      | inr other ↦ elim (Option-cases (templates.parse src)) [
        | inl p ↦ (ground arith, ground arith)
        | inr (u, p) ↦ (ground arith, ground arith)
      ]
    ]
  ]

  -- What happens to a handler: its rules are loaded again, or it is called.
  module _ (env : Env) where
    step : Handler T → Option ChallengeRules ⊎ (Arrival × Request) → Handler T
    step h (inl rules) = set_rules rules h
    step h (inr (at, r)) = (serve_http env templates at h r).0

    pub run : List (Option ChallengeRules ⊎ (Arrival × Request)) → Handler T → Handler T
    run [] h = h
    run (s ∷ steps) h = run steps (step h s)

    set_rules-Current :
        (rules : Option ChallengeRules) (h : Handler T) → Current h → Current (set_rules rules h)
    unfolding set_rules
    set_rules-Current none h c = c
    set_rules-Current (some cr) h c = c

    serve_html_challenge-Current :
        (at : Arrival) (h : Handler T) (r : Request)
        → Current h
        → Current (serve_html_challenge env templates at h r).0
    serve_html_challenge-Current at h r c = elim (Option-cases (new_challenge_nonce at)) [
      | inl e ↦
          let q : (serve_html_challenge env templates at h r).0 ≡ h =
            unfold serve_html_challenge in rw (e, serve_html_challenge) in
          subst Current (sym q) c
      | inr (b, e) ↦
          let q : (serve_html_challenge env templates at h r).0
              ≡ (compile_template templates h.rules.html_template h).0 =
            unfold serve_html_challenge in rw (e, serve_html_challenge) in
          subst Current (sym q) (compile_template_lem h.rules.html_template h c).1
    ]

    serve_challenge-Current :
        (at : Arrival) (h : Handler T) (r : Request)
        → Current h
        → Current (serve_challenge env templates at h r).0
    unfolding serve_challenge
    serve_challenge-Current at h r c =
        elim (Bool-cases (h.rules.spa_aware_response && is_xhr_or_fetch r)) [
          | inl e ↦ rw e c
          | inr e ↦ rw e (serve_html_challenge-Current at h r c)
        ]

    serve_http-Current :
        (at : Arrival) (h : Handler T) (r : Request)
        → Current h
        → Current (serve_http env templates at h r).0
    unfolding serve_http verify
    serve_http-Current at h r c =
        elim (Bool-cases (r.path == h.rules.verify_path && r.method == codes "POST")) [
          | inl e ↦ rw e c
          | inr e ↦ rw e (serve_challenge-Current at h r c)
        ]

    run-Current :
        (steps : List (Option ChallengeRules ⊎ (Arrival × Request))) (h : Handler T)
        → Current h
        → Current (run steps h)
    unfolding run step
    run-Current [] h c = c
    run-Current (inl rules ∷ steps) h c =
        run-Current steps (set_rules rules h) (set_rules-Current rules h c)
    run-Current (inr (at, r) ∷ steps) h c =
        run-Current steps (serve_http env templates at h r).0 (serve_http-Current at h r c)

    -- After any calls and reloads of a new handler, the template for a source is the one that the
    -- source compiles to, whatever was compiled before.
    pub compile_template-parse :
        (steps : List (Option ChallengeRules ⊎ (Arrival × Request))) (secret : Bytes)
        (difficulty ttl max_ttl : ℕ) (src : Bytes)
        → (compile_template templates src (run steps (new_handler secret difficulty ttl max_ttl))).1
          ≡ templates.parse src
    unfolding new_handler
    compile_template-parse steps secret difficulty ttl max_ttl src =
        (compile_template_lem src (run steps (new_handler secret difficulty ttl max_ttl))
          (run-Current steps (new_handler secret difficulty ttl max_ttl) (inl refl))).0
