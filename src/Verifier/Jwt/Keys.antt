-- ===== src/Verifier/Jwt/Keys.antt =====
-- internal/verifier/jwt.go: the algorithms that are allowed, and the keys that are kept.
use veilgate.Prelude.{
  ℕ, ◌≡◌, ◌⊎◌, inl, inr, refl, sym, ap, ◌∙◌, subst, arith, Bool, false, not, ◌||◌, none, some, List,
  [], ◌∷◌, Bytes, codes, ◌==◌, nat_eq, bytes_eq, Bool-cases, Option-cases, if◌then◌else◌, is_empty,
  to_upper, All, lookup, Map,
}
use mathlib.Core.Option.{none-ne-some}
use mathlib.Core.Bool.{false≢true}
use veilgate.Verifier.Disk.{built}
use veilgate.Verifier.Jwt.{
  JwtConfig, JwtValidator, Jwks, sanitize_algs, refresh_keys, or_same, take_keys, new_jwt_validator,
  key_func, start, with_keys, PublicKey,
}

-- An algorithm with a shared secret, or none.
abbrev pub is_symmetric : Bytes → Bool
is_symmetric alg =
    alg == codes "HS256"
    || (alg == codes "HS384" || (alg == codes "HS512" || (alg == codes "NONE" || alg == [])))

sanitize_algs-All : (algs : List Bytes) → All (λ a. is_symmetric a ≡ false) (sanitize_algs algs)
unfolding sanitize_algs
sanitize_algs-All [] = tt
sanitize_algs-All (a ∷ algs) = elim (Bool-cases (is_symmetric (to_upper a))) [
  | inl e ↦ rw e (sanitize_algs-All algs)
  | inr e ↦ rw e (e, sanitize_algs-All algs)
]

-- There is a key, and no algorithm is symmetric.
abbrev pub IsReady : JwtValidator → Type 0
IsReady v = (is_empty v.keys ≡ false) × All (λ a. is_symmetric a ≡ false) v.cfg.algorithms

checked_keys :
    (status : ℕ) (no_keys : Bool) (v : JwtValidator) (source : Jwks) (next : Map Bytes PublicKey)
    (v' : JwtValidator)
    → is_empty next ≡ no_keys
    → (if not (status == 200)
        then none
        else if no_keys
        then none
        else some (with_keys v source next))
      ≡ some v'
    → (is_empty v'.keys ≡ false) × (v'.cfg ≡ v.cfg)
checked_keys status no_keys v source next v' e h = elim (Bool-cases (not (status == 200))) [
  | inl bad ↦ absurd (none-ne-some v' (ground arith))
  | inr good ↦ elim (Bool-cases no_keys) [
    | inl empty ↦ absurd (none-ne-some v' (ground arith))
    | inr full ↦
        let same : with_keys v source next ≡ v' = ground arith in
        (ap (λ w. is_empty w.keys) (sym same) ∙ (e ∙ full), ap (λ w. w.cfg) (sym same))
  ]
]

-- A refresh that succeeds brings keys and leaves the configuration alone.
refresh_keys_lem :
    (source : Jwks) (v v' : JwtValidator)
    → refresh_keys source v ≡ some v'
    → (is_empty v'.keys ≡ false) × (v'.cfg ≡ v.cfg)
refresh_keys_lem source v v' h = elim (Option-cases source.answer) [
  | inl e ↦
      let q : refresh_keys source v ≡ none = unfold refresh_keys in rw (e, refresh_keys) in
      absurd (none-ne-some v' (sym q ∙ h))
  | inr ((status, keys), e) ↦ elim (Option-cases keys) [
    | inl k ↦
        let q : refresh_keys source v ≡ none = unfold refresh_keys in rw (e, k, refresh_keys) in
        absurd (none-ne-some v' (sym q ∙ h))
    | inr (ks, k) ↦
        let next = take_keys source.base64 ks [] in
        let q : refresh_keys source v ≡ (
            if not (status == 200)
            then none
            else if is_empty next
            then none
            else some (with_keys v source next)) =
          unfold refresh_keys in rw (e, k, refresh_keys) in
        checked_keys status (is_empty next) v source next v' refl (sym q ∙ h)
  ]
]

pub refresh_keys-IsReady :
    (source : Jwks) (v : JwtValidator) → IsReady v → IsReady (or_same v (refresh_keys source v))
refresh_keys-IsReady source v ready = elim (Option-cases (refresh_keys source v)) [
  | inl e ↦ subst (λ o. IsReady (or_same v o)) (sym e) ready
  | inr (v', e) ↦
      let (keys, cfg) = refresh_keys_lem source v v' e in
      subst (λ o. IsReady (or_same v o)) (sym e)
        (keys, subst (λ c. All (λ a. is_symmetric a ≡ false) c.algorithms) (sym cfg) ready.1)
]

pub refresh_keys-cfg :
    (source : Jwks) (v : JwtValidator) → (or_same v (refresh_keys source v)).cfg ≡ v.cfg
refresh_keys-cfg source v = elim (Option-cases (refresh_keys source v)) [
  | inl e ↦ ap (λ o. (or_same v o).cfg) e
  | inr (v', e) ↦ ap (λ o. (or_same v o).cfg) e ∙ (refresh_keys_lem source v v' e).1
]

-- A validator that is built has keys and only asymmetric algorithms.
pub new_jwt_validator-IsReady :
    (source : Jwks) (cfg : JwtConfig) (v : JwtValidator)
    → new_jwt_validator source cfg ≡ built v
    → IsReady v
new_jwt_validator-IsReady source cfg v h = elim (Option-cases (refresh_keys source (start cfg))) [
  | inl e ↦ absurd (false≢true (unfold new_jwt_validator in ground arith))
  | inr (v', e) ↦
      let same : v' ≡ v = unfold new_jwt_validator in ground arith in
      let (keys, cfg_kept) = refresh_keys_lem source (start cfg) v' e in
      subst IsReady same (
        keys,
        subst (λ c. All (λ a. is_symmetric a ≡ false) c.algorithms) (sym cfg_kept)
            (sanitize_algs-All (
              if is_empty cfg.algorithms
              then codes "RS256" ∷ codes "ES256" ∷ []
              else cfg.algorithms)),
      )
]

-- Looking up a key refreshes the keys or leaves them.
pub key_func-state :
    (source : Jwks) (v : JwtValidator) (kid : Bytes)
    → ((key_func source v kid).0 ≡ v)
      ⊎ ((key_func source v kid).0 ≡ or_same v (refresh_keys source v))
key_func-state source v kid = elim (Bool-cases (is_empty kid)) [
  | inl e ↦ inl (unfold key_func in rw e refl)
  | inr e ↦ elim (Option-cases (lookup kid v.keys)) [
    | inl n ↦ inr (unfold key_func in rw (e, n, key_func))
    | inr (key, n) ↦ inl (unfold key_func in rw (e, n, key_func))
  ]
]

-- The key is that of the name among the validator's keys afterwards.
pub key_func-lookup :
    (source : Jwks) (v : JwtValidator) (kid : Bytes) (key : PublicKey)
    → (key_func source v kid).1 ≡ some key
    → (is_empty kid ≡ false) × (lookup kid (key_func source v kid).0.keys ≡ some key)
key_func-lookup source v kid key h = elim (Bool-cases (is_empty kid)) [
  | inl e ↦
      let q : (key_func source v kid).1 ≡ none = unfold key_func in rw e refl in
      absurd (none-ne-some key (sym q ∙ h))
  | inr e ↦ (
    e,
    elim (Option-cases (lookup kid v.keys)) [
      | inl n ↦
          let q : key_func source v kid ≡ (
            or_same v (refresh_keys source v),
            lookup kid (or_same v (refresh_keys source v)).keys,
          ) =
            unfold key_func in rw (e, n, key_func) in
          ap (λ o. lookup kid o.0.keys) q ∙ (sym (ap (λ o. o.1) q) ∙ h)
      | inr (found, n) ↦
          let q : key_func source v kid ≡ (v, some found) =
            unfold key_func in rw (e, n, key_func) in
          ap (λ o. lookup kid o.0.keys) q ∙ (n ∙ (sym (ap (λ o. o.1) q) ∙ h))
    ],
  )
]
