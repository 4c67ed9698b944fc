-- ===== src/Challenge/Lifetime.antt =====
-- internal/challenge/challenge.go: how long a token is good for.
use mathlib.Core.Bool.{false≢true}
use veilgate.Prelude.{
  ℕ, ◌≡◌, ◌≤◌, ◌<◌, ◌+◌, ◌-◌, ◌↔◌, inl, inr, refl, sym, ap, ◌∙◌, arith, true, false, none, some,
  ◌++◌, ◌∷◌, Bytes, ltb, Option-cases, bytes_eq, bytes_beq_iff, ◌==◌, if◌then◌else◌, cut,
  cut-append, cut-join, cut-first, min, [], is_empty, trim_space, ◌⊎◌, Bool-cases,
}
use veilgate.Http.{Request, header_get}
use veilgate.Verifier.Validators.{cookie}
use veilgate.Challenge.{ChallengeRules, Env, sign, challenge_ttl, rules_ttl, ceiling}
use veilgate.Challenge.Tokens.{new_token, valid_token, valid_cookie, valid_header, passed_under}

-- The lifetime of a proof is never zero, and no longer than the rules and the ceiling say: it is the
-- smaller of the two.
pub challenge_ttl-min :
    (max_ttl : ℕ) (cr : ChallengeRules)
    → (challenge_ttl max_ttl cr ≡ min (rules_ttl cr) (ceiling max_ttl))
      × (0 < challenge_ttl max_ttl cr)
unfolding challenge_ttl
challenge_ttl-min max_ttl cr = (ground arith, ground arith)

module _ (env : Env) (secret : Bytes) where
  -- The text of a time, a dot, and the server's signature of it.
  abbrev pub IsToken : Bytes → ℕ → Type 0
  IsToken value issued =
      (ts : Bytes) × (value ≡ ts ++ (b'.' ∷ sign env secret ts))
      × (cut b'.' ts ≡ none)
      × (env.clock.parse ts ≡ some issued)

  read_token :
      (now : ℕ) (value ts mac : Bytes) (issued : ℕ) (cr : ChallengeRules)
      → cut b'.' value ≡ some (ts, mac)
      → env.clock.parse ts ≡ some issued
      → valid_token env secret now value cr
        ≡ (if ltb (rules_ttl cr) (now - issued) then false else mac == sign env secret ts)
  read_token now value ts mac issued cr c p = unfold valid_token in rw (c, p, valid_token)

  valid_token_forth :
      (now : ℕ) (value : Bytes) (cr : ChallengeRules)
      → valid_token env secret now value cr ≡ true
      → (issued : ℕ) × IsToken value issued × (now ≤ issued + rules_ttl cr)
  valid_token_forth now value cr h = elim (Option-cases (cut b'.' value)) [
    | inl e ↦
        let q : valid_token env secret now value cr ≡ false =
          unfold valid_token in rw (e, valid_token) in
        absurd (false≢true (sym q ∙ h))
    | inr ((ts, mac), e) ↦ elim (Option-cases (env.clock.parse ts)) [
      | inl p ↦
          let q : valid_token env secret now value cr ≡ false =
            unfold valid_token in rw (e, p, valid_token) in
          absurd (false≢true (sym q ∙ h))
      | inr (issued, p) ↦
          let q = sym (read_token now value ts mac issued cr e p) ∙ h in
          let same : mac ≡ sign env secret ts =
            ground (arith, bytes_beq_iff mac (sign env secret ts)) in
          (
            issued,
            (
              ts,
              cut-join b'.' value ts mac e ∙ ap (λ m. ts ++ (b'.' ∷ m)) same,
              cut-first b'.' value ts mac e,
              p,
            ),
            ground arith,
          )
    ]
  ]

  valid_token_back :
      (now : ℕ) (value : Bytes) (issued : ℕ) (cr : ChallengeRules)
      → IsToken value issued
      → now ≤ issued + rules_ttl cr
      → valid_token env secret now value cr ≡ true
  valid_token_back now value issued cr (ts, v, c, p) le =
      read_token now value ts (sign env secret ts) issued cr
        (ap (cut b'.') v ∙ cut-append b'.' ts (sign env secret ts) c) p
      ∙ ground (arith, bytes_beq_iff (sign env secret ts) (sign env secret ts))

  -- A value is accepted exactly if it is the text of a time, a dot and the server's signature of that
  -- text, and the time is no longer ago than the lifetime of the rules.
  pub valid_token_iff :
      (now : ℕ) (value : Bytes) (cr : ChallengeRules)
      → (valid_token env secret now value cr ≡ true)
        ↔ ((issued : ℕ) × IsToken value issued × (now ≤ issued + rules_ttl cr))
  valid_token_iff now value cr =
      (valid_token_forth now value cr, λ (issued, t, le). valid_token_back now value issued cr t le)

  -- What the clock writes for a time is the text, without a dot, of the time that it reads back.
  abbrev pub ReadsBack : ℕ → ℕ → Type 0
  ReadsBack t issued =
      (cut b'.' (env.clock.format t) ≡ none) × (env.clock.parse (env.clock.format t) ≡ some issued)

  new_token-IsToken : (t issued : ℕ) → ReadsBack t issued → IsToken (new_token env secret t) issued
  unfolding new_token
  new_token-IsToken t issued (c, p) = (env.clock.format t, refl, c, p)

  pub new_token-valid :
      (t issued now : ℕ) (cr : ChallengeRules)
      → ReadsBack t issued
      → now ≤ issued + rules_ttl cr
      → valid_token env secret now (new_token env secret t) cr ≡ true
  new_token-valid t issued now cr reads le =
      valid_token_back now (new_token env secret t) issued cr (new_token-IsToken t issued reads) le

  -- A request whose cookie of the configured name is a token made by the server passes until the
  -- lifetime of the rules is over; where the ceiling is lower than that, it passes also after the
  -- cookie's own lifetime.
  pub passed_under-new_token :
      (t issued now : ℕ) (cr : ChallengeRules) (r : Request)
      → ReadsBack t issued
      → cookie cr.cookie_name r ≡ some (new_token env secret t)
      → now ≤ issued + rules_ttl cr
      → passed_under env secret now r cr ≡ true
  passed_under-new_token t issued now cr r reads c le =
      let v = new_token-valid t issued now cr reads le in
      let q : valid_cookie env secret now r cr ≡ true =
        unfold valid_cookie in rw (c, v, valid_cookie) in
      unfold passed_under in rw q

  append_nonempty : (s t : Bytes) (c : ℕ) → is_empty (s ++ (c ∷ t)) ≡ false
  append_nonempty [] t c = refl
  append_nonempty (b ∷ s) t c = refl

  -- A request carries a value in the cookie of the configured name, or in the configured header.
  abbrev pub Carries : Request → ChallengeRules → Bytes → Type 0
  Carries r cr value =
      (cookie cr.cookie_name r ≡ some value)
      ⊎ ((is_empty (trim_space cr.token_header_name) ≡ false)
          × (trim_space (header_get (trim_space cr.token_header_name) r) ≡ value))

  -- The same for a token in either place.
  pub passed_under-Carries :
      (t issued now : ℕ) (cr : ChallengeRules) (r : Request)
      → ReadsBack t issued
      → Carries r cr (new_token env secret t)
      → now ≤ issued + rules_ttl cr
      → passed_under env secret now r cr ≡ true
  passed_under-Carries t issued now cr r reads (inl c) le =
      passed_under-new_token t issued now cr r reads c le
  passed_under-Carries t issued now cr r reads (inr (n, v)) le =
      let value = trim_space (header_get (trim_space cr.token_header_name) r) in
      let some_value : is_empty value ≡ false =
        ap is_empty v
        ∙ unfold new_token in
          append_nonempty (env.clock.format t) (sign env secret (env.clock.format t)) b'.' in
      let valid : valid_token env secret now value cr ≡ true =
        ap (λ x. valid_token env secret now x cr) v ∙ new_token-valid t issued now cr reads le in
      unfold passed_under valid_header in
      ground (arith, Bool-cases (valid_cookie env secret now r cr))
