-- ===== src/Verifier/Bearer/Access.antt =====
-- internal/verifier/bearer.go: which requests the verifier accepts.
use mathlib.Core.Bool.{false≢true}
use mathlib.Core.Option.{some-injective, none-ne-some}
use veilgate.Prelude.{
  ◌≡◌, ◌↔◌, refl, sym, ap, ◌∙◌, arith, true, false, some, Bytes, is_empty, Option-cases, Bool-cases,
  inl, inr, bytes_eq, nat_eq,
}
use veilgate.Http.{Request, header_get}
use veilgate.Verifier.Disk.{Disk, Crypto}
use veilgate.Verifier.Tokens.{TokenStore, reload, maybe_reload, client_of_token}
use veilgate.Verifier.Tokens.Table.{reload-stat_dir, maybe_reload-unchanged}
use veilgate.Verifier.Bearer.{BearerConfig, header_token, bearer_verify}

module _ (crypto : Crypto) (disk : Disk) (cfg : BearerConfig) (scheme : Bytes) where
  -- The header is of the scheme, with a token that is not empty and that the table knows.
  abbrev pub Known : TokenStore → Request → Type 0
  Known store r =
      (token : Bytes) × (client : Bytes) × (header_token scheme (header_get cfg.header r)
        ≡ some token)
      × (is_empty token ≡ false)
      × (client_of_token crypto disk cfg.tokens_dir token
            (maybe_reload crypto disk cfg.tokens_dir store)
          ≡ some client)

  no_header :
      (raw : Bytes)
      → is_empty raw ≡ true
      → (t : Bytes) → header_token scheme raw ≡ some t
      → is_empty t ≡ true
  unfolding header_token
  no_header raw e t h = ground arith

  -- A request is accepted exactly if its header is of the scheme and carries, after it, a token
  -- that is not empty and that the table, as it is after a look at the directory, has a client for.
  pub bearer_verify_iff :
      (store : TokenStore) (r : Request)
      → ((bearer_verify crypto disk cfg scheme store r).result.accepted ≡ true) ↔ Known store r
  unfolding bearer_verify
  bearer_verify_iff store r = elim (Option-cases (header_token scheme (header_get cfg.header r))) [
    | inl e ↦ (
      λ h. absurd (false≢true (ground arith)),
      λ (t, c, k, _, _). absurd (none-ne-some _ (sym e ∙ k)),
    )
    | inr (token, e) ↦
        elim (Option-cases (
          client_of_token crypto disk cfg.tokens_dir token
            (maybe_reload crypto disk cfg.tokens_dir store))) [
              | inl l ↦ (
                λ h. absurd (false≢true (ground arith)),
                λ (t, c, k, n, q). absurd (
                    none-ne-some c (
                      sym l
                      ∙ ap
                          (λ u.
                            client_of_token crypto disk cfg.tokens_dir u
                              (maybe_reload crypto disk cfg.tokens_dir store))
                          (some-injective _ _ (sym e ∙ k))
                      ∙ q)),
              )
              | inr (client, l) ↦ (
                λ h. (token, client, e, ground arith, l),
                λ (t, c, k, n, q).
                    let same : token ≡ t = some-injective _ _ (sym e ∙ k) in
                    let filled : is_empty token ≡ false = ap is_empty same ∙ n in
                    elim (Bool-cases (is_empty (header_get cfg.header r))) [
                      | inl blank ↦ absurd (false≢true (sym filled ∙ no_header _ blank token e))
                      | inr given ↦ rw (given, e, filled, l, bearer_verify) refl
                    ],
              )
            ]
  ]

-- While the directory's time of modification stands, the files are not read again, whatever is
-- written into them: a verifier whose table was loaded answers as it did when it was loaded.
pub bearer_verify-overwritten :
    (crypto : Crypto) (disk disk' : Disk) (cfg : BearerConfig) (scheme : Bytes) (store : TokenStore)
    (r : Request)
    → reload crypto disk cfg.tokens_dir ≡ some store
    → disk'.stat_dir cfg.tokens_dir ≡ disk.stat_dir cfg.tokens_dir
    → bearer_verify crypto disk' cfg scheme store r ≡ bearer_verify crypto disk cfg scheme store r
bearer_verify-overwritten crypto disk disk' cfg scheme store r k same =
    let st = reload-stat_dir crypto disk cfg.tokens_dir store k in
    let kept = maybe_reload-unchanged crypto disk cfg.tokens_dir store st in
    let kept' = maybe_reload-unchanged crypto disk' cfg.tokens_dir store (same ∙ st) in
    elim (Option-cases (header_token scheme (header_get cfg.header r))) [
      | inl e ↦ unfold bearer_verify in rw (e, bearer_verify) refl
      | inr (token, e) ↦ unfold bearer_verify in rw (e, bearer_verify) (rw (kept, kept') refl)
    ]
