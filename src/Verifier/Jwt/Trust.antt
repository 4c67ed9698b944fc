-- ===== src/Verifier/Jwt/Trust.antt =====
-- internal/verifier/jwt.go: what stands behind a token that is accepted.
use mathlib.Core.Bool.{false≢true}
use mathlib.Core.List.{Memᴰ}
use veilgate.Prelude.{
  ◌≡◌, ◌⊎◌, inl, inr, refl, sym, ap, ◌∙◌, subst, arith, true, false, Option, none, some, List, [],
  ◌∷◌, Bytes, codes, bytes_eq, bytes_beq_iff, Bool-cases, Option-cases, is_empty, is_empty_iff,
  All-Memᴰ, lookup, Map,
}
use veilgate.Verifier.Disk.{built}
use veilgate.Verifier.Jwt.{
  JwtConfig, JwtValidator, JwtLibrary, Jwks, PublicKey, Claim, text, string_of, audience_contains,
  refused, judge_claims, refresh_keys, or_same, new_jwt_validator, key_func, jwt_validate, with_key,
  signature_invalid,
}
use veilgate.Verifier.Jwt.Keys.{
  is_symmetric, IsReady, refresh_keys-IsReady, new_jwt_validator-IsReady, key_func-state,
  key_func-lookup,
}

-- The claims name the issuer and the audience of the configuration, where it gives them.
abbrev pub ClaimsMatch : JwtConfig → Map Bytes Claim → Type 0
ClaimsMatch cfg claims =
    ((cfg.issuer ≡ []) ⊎ (lookup (codes "iss") claims ≡ some (text cfg.issuer)))
    × ((cfg.audience ≡ []) ⊎ (audience_contains (lookup (codes "aud") claims) cfg.audience ≡ true))

string_of-some :
    (c : Option Claim) (s : Bytes) → is_empty s ≡ false → string_of c ≡ s → c ≡ some (text s)
string_of-some none s n e = absurd (false≢true (ground arith))
string_of-some (some (text t)) s n e = ground arith
string_of-some (some (Claim.array ts)) s n e = absurd (false≢true (ground arith))
string_of-some (some Claim.other) s n e = absurd (false≢true (ground arith))

judge_claims-ClaimsMatch :
    (v : JwtValidator) (claims : Map Bytes Claim)
    → (judge_claims v claims).ok ≡ true
    → ClaimsMatch v.cfg claims
unfolding judge_claims
judge_claims-ClaimsMatch v claims h = (
  elim (Bool-cases (is_empty v.cfg.issuer)) [
    | inl e ↦ inl ((is_empty_iff v.cfg.issuer).0 e)
    | inr e ↦
        let same : string_of (lookup (codes "iss") claims) ≡ v.cfg.issuer =
          ground (arith, bytes_beq_iff (string_of (lookup (codes "iss") claims)) v.cfg.issuer) in
        inr (string_of-some (lookup (codes "iss") claims) v.cfg.issuer e same)
  ],
  elim (Bool-cases (is_empty v.cfg.audience)) [
    | inl e ↦ inl ((is_empty_iff v.cfg.audience).0 e)
    | inr e ↦ inr (ground arith)
  ],
)

judge_claims-state :
    (v : JwtValidator) (claims : Map Bytes Claim) → (judge_claims v claims).state ≡ v
unfolding judge_claims
judge_claims-state v claims = ground arith

module _ (library : JwtLibrary) where
  -- The library has found the token in order, with a key of the validator's, and its claims match.
  abbrev pub Vouched : JwtValidator → JwtValidator → Bytes → Type 0
  Vouched v after token =
      (alg : Bytes) × (kid : Bytes) × (key : PublicKey) × (claims : Map Bytes Claim)
      × (library.unverified v.cfg.algorithms token ≡ some (alg, kid))
      × (is_symmetric alg ≡ false)
      × (lookup kid after.keys ≡ some key)
      × (library.verified token key ≡ some claims)
      × ClaimsMatch after.cfg claims

  validate_key :
      (source : Jwks) (v : JwtValidator) (token alg kid : Bytes)
      → is_empty token ≡ false
      → library.unverified v.cfg.algorithms token ≡ some (alg, kid)
      → jwt_validate library source v token ≡ with_key library token (key_func source v kid)
  validate_key source v token alg kid e u = unfold jwt_validate in rw (e, u, jwt_validate)

  -- The token is accepted by the key that the validator then has, or not at all.
  with_key-ok :
      (token : Bytes) (v : JwtValidator) (found : Option PublicKey)
      → (with_key library token (v, found)).ok ≡ true
      → (key : PublicKey) × (claims : Map Bytes Claim) × (found ≡ some key)
        × (library.verified token key ≡ some claims)
        × ClaimsMatch v.cfg claims
        × ((with_key library token (v, found)).state ≡ v)
  with_key-ok token v none h = absurd (false≢true (unfold with_key in h))
  with_key-ok token v (some key) h = elim (Option-cases (library.verified token key)) [
    | inl e ↦
        let q : with_key library token (v, some key) ≡ signature_invalid library v =
          unfold with_key in rw (e, with_key) in
        absurd (false≢true (ap (λ o. o.ok) (sym q) ∙ h))
    | inr (claims, e) ↦
        let q : with_key library token (v, some key) ≡ judge_claims v claims =
          unfold with_key in rw (e, with_key) in
        (
          key,
          claims,
          refl,
          e,
          judge_claims-ClaimsMatch v claims (ap (λ o. o.ok) (sym q) ∙ h),
          ap (λ o. o.state) q ∙ judge_claims-state v claims,
        )
  ]

  with_key-state :
      (token : Bytes) (v : JwtValidator) (found : Option PublicKey)
      → (with_key library token (v, found)).state ≡ v
  with_key-state token v none = unfold with_key in refl
  with_key-state token v (some key) = elim (Option-cases (library.verified token key)) [
    | inl e ↦
        let q : with_key library token (v, some key) ≡ signature_invalid library v =
          unfold with_key in rw (e, with_key) in
        ap (λ o. o.state) q
    | inr (claims, e) ↦
        let q : with_key library token (v, some key) ≡ judge_claims v claims =
          unfold with_key in rw (e, with_key) in
        ap (λ o. o.state) q ∙ judge_claims-state v claims
  ]

  -- A call refreshes the keys, or leaves the validator as it was.
  jwt_validate-state :
      (source : Jwks) (v : JwtValidator) (token : Bytes)
      → ((jwt_validate library source v token).state ≡ v)
        ⊎ ((jwt_validate library source v token).state ≡ or_same v (refresh_keys source v))
  jwt_validate-state source v token = elim (Bool-cases (is_empty token)) [
    | inl e ↦
        let q : jwt_validate library source v token ≡ refused v (codes "value empty") =
          unfold jwt_validate in rw e refl in
        inl (ap (λ o. o.state) q)
    | inr e ↦ elim (Option-cases (library.unverified v.cfg.algorithms token)) [
      | inl u ↦
          let q : jwt_validate library source v token ≡ signature_invalid library v =
            unfold jwt_validate in rw (e, u, jwt_validate) in
          inl (ap (λ o. o.state) q)
      | inr ((alg, kid), u) ↦
          let k = key_func source v kid in
          let q : (jwt_validate library source v token).state ≡ k.0 =
            ap (λ o. o.state) (validate_key source v token alg kid e u)
            ∙ with_key-state token k.0 k.1 in
          elim (key_func-state source v kid) [ inl p ↦ inl (q ∙ p) | inr p ↦ inr (q ∙ p) ]
    ]
  ]

  -- A tick of the refresh loop, or a token to validate, with the endpoint's answer then.
  abbrev pub Visit : Type 0
  Visit = Jwks ⊎ (Jwks × Bytes)

  unfoldable pub visited : JwtValidator → List Visit → JwtValidator
  visited v [] = v
  visited v (inl source ∷ visits) = visited (or_same v (refresh_keys source v)) visits
  visited v (inr (source, token) ∷ visits) =
      visited (jwt_validate library source v token).state visits

  jwt_validate-IsReady :
      (source : Jwks) (v : JwtValidator) (token : Bytes)
      → IsReady v
      → IsReady (jwt_validate library source v token).state
  jwt_validate-IsReady source v token ready = elim (jwt_validate-state source v token) [
    | inl q ↦ subst IsReady (sym q) ready
    | inr q ↦ subst IsReady (sym q) (refresh_keys-IsReady source v ready)
  ]

  visited-IsReady :
      (visits : List Visit) (v : JwtValidator) → IsReady v → IsReady (visited v visits)
  unfolding visited
  visited-IsReady [] v ready = ready
  visited-IsReady (inl source ∷ visits) v ready =
      visited-IsReady visits (or_same v (refresh_keys source v))
        (refresh_keys-IsReady source v ready)
  visited-IsReady (inr (source, token) ∷ visits) v ready =
      visited-IsReady visits (jwt_validate library source v token).state
        (jwt_validate-IsReady source v token ready)

  -- A validator that was built keeps at least one key and allows no symmetric algorithm, whatever
  -- its endpoint answers and whatever tokens it is given afterwards.
  pub new_jwt_validator-visited :
      (source : Jwks) (cfg : JwtConfig) (v : JwtValidator) (visits : List Visit)
      → new_jwt_validator source cfg ≡ built v
      → IsReady (visited v visits)
  new_jwt_validator-visited source cfg v visits h =
      visited-IsReady visits v (new_jwt_validator-IsReady source cfg v h)

  -- Where the token library keeps to the algorithms that it is given, a token that is accepted, after
  -- any refreshes and tokens of a validator that was built, has an asymmetric algorithm, is signed
  -- with the key of its name among the validator's keys, and has the configured issuer and audience.
  pub jwt_validate-Vouched :
      (source : Jwks) (cfg : JwtConfig) (v : JwtValidator) (visits : List Visit) (now : Jwks)
      (token : Bytes)
      → ((algs : List Bytes) (t alg kid : Bytes)
          → library.unverified algs t ≡ some (alg, kid)
          → Memᴰ alg algs)
      → new_jwt_validator source cfg ≡ built v
      → (jwt_validate library now (visited v visits) token).ok ≡ true
      → Vouched (visited v visits) (jwt_validate library now (visited v visits) token).state token
  jwt_validate-Vouched source cfg v visits now token listed made h =
      let w = visited v visits in
      let ready = new_jwt_validator-visited source cfg v visits made in
      elim (Bool-cases (is_empty token)) [
        | inl e ↦
            let q : jwt_validate library now w token ≡ refused w (codes "value empty") =
              unfold jwt_validate in rw e refl in
            absurd (false≢true (ap (λ o. o.ok) (sym q) ∙ h))
        | inr e ↦ elim (Option-cases (library.unverified w.cfg.algorithms token)) [
          | inl u ↦
              let q : jwt_validate library now w token ≡ signature_invalid library w =
                unfold jwt_validate in rw (e, u, jwt_validate) in
              absurd (false≢true (ap (λ o. o.ok) (sym q) ∙ h))
          | inr ((alg, kid), u) ↦
              let k = key_func now w kid in
              let q = validate_key now w token alg kid e u in
              let (key, claims, found, sound, matching, kept) =
                with_key-ok token k.0 k.1 (ap (λ o. o.ok) (sym q) ∙ h) in
              let state : (jwt_validate library now w token).state ≡ k.0 =
                ap (λ o. o.state) q ∙ kept in
              (
                alg,
                kid,
                key,
                claims,
                u,
                All-Memᴰ (λ a. is_symmetric a ≡ false) ready.1
                    (listed w.cfg.algorithms token alg kid u),
                ap (λ s. lookup kid s.keys) state ∙ (key_func-lookup now w kid key found).1,
                sound,
                subst (λ s. ClaimsMatch s.cfg claims) (sym state) matching,
              )
        ]
      ]
