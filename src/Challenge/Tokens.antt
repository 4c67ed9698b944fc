-- ===== src/Challenge/Tokens.antt =====
-- internal/challenge/challenge.go: the token of a solved challenge, and who carries one.
use veilgate.Prelude.{
  ℕ, ◌-◌, Bool, false, ◌||◌, none, some, ◌++◌, ◌∷◌, Bytes, ◌==◌, bytes_eq, ltb, if◌then◌else◌,
  is_empty, cut, trim_space,
}
use veilgate.Http.{Request, header_get}
use veilgate.Verifier.Validators.{cookie}
use veilgate.Challenge.{ChallengeRules, Env, Handler, sign, rules_ttl}

module _ (env : Env) (secret : Bytes) where
  -- The token that `verify` makes.
  unfoldable pub new_token : ℕ → Bytes
  new_token now = let ts = env.clock.format now in ts ++ (b'.' ∷ sign env secret ts)

  -- `validToken`; `strings.SplitN` with 2 is `cut`
  unfoldable pub valid_token : ℕ → Bytes → ChallengeRules → Bool
  valid_token now value cr = elim (cut b'.' value) [
    | none ↦ false
    | some (ts_text, mac) ↦ elim (env.clock.parse ts_text) [
      | none ↦ false
      | some ts ↦ if ltb (rules_ttl cr) (now - ts) then false else mac == sign env secret ts_text
    ]
  ]

  unfoldable pub valid_cookie : ℕ → Request → ChallengeRules → Bool
  valid_cookie now r cr = elim (cookie cr.cookie_name r) [
    | none ↦ false
    | some value ↦ valid_token now value cr
  ]

  unfoldable pub valid_header : ℕ → Request → ChallengeRules → Bool
  valid_header now r cr =
      let name = trim_space cr.token_header_name in
      let value = trim_space (header_get name r) in
      if is_empty name || is_empty value then false else valid_token now value cr

  -- `Passed`
  unfoldable pub passed_under : ℕ → Request → ChallengeRules → Bool
  passed_under now r cr = valid_cookie now r cr || valid_header now r cr

unfoldable pub passed : {T : Type 0} → Env → ℕ → Handler T → Request → Bool
passed env now h r = passed_under env h.secret now r h.rules
