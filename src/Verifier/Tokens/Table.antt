-- ===== src/Verifier/Tokens/Table.antt =====
-- internal/verifier/bearer.go and validator.go: which tokens the table knows.
use mathlib.Core.Option.{some-injective, none-ne-some}
use veilgate.Prelude.{
  sym, ◌≡◌, inl, inr, refl, ap, arith, List, [], ◌∷◌, Option, none, some, Bytes, ◌==◌, bytes_eq,
  nat_eq, lookup, if◌then◌else◌, ◌∙◌, insert, lookup-insert, Option-cases,
}
use veilgate.Verifier.Disk.{Entry, Disk, Crypto}
use veilgate.Verifier.Tokens.{Tokens, TokenStore, token_of, fill, reload, maybe_reload}

module _ (crypto : Crypto) (disk : Disk) (dir : Bytes) where
  -- The client of a hash by the files: that of the last entry whose token has the hash.
  abbrev pub last_client : Bytes → List Entry → Option Bytes → Option Bytes
  last_client sum [] known = known
  last_client sum (e ∷ es) known = last_client sum es (elim (token_of crypto disk dir e) [
    | none ↦ known
    | some (s, client) ↦ if s == sum then some client else known
  ])

  fill-lookup :
      (sum : Bytes) (es : List Entry) (next : Tokens)
      → lookup sum (fill crypto disk dir es next) ≡ last_client sum es (lookup sum next)
  unfolding fill
  fill-lookup sum [] next = refl
  fill-lookup sum (e ∷ es) next = elim (Option-cases (token_of crypto disk dir e)) [
    | inl k ↦ rw (k, fill) (fill-lookup sum es next)
    | inr (t, k) ↦
        rw (k, fill)
          (fill-lookup sum es (insert t.0 t.1 next)
            ∙ ap (last_client sum es) (lookup-insert t.0 sum t.1 next))
  ]

  -- A table that is read from the directory gives a hash the client of the last of the directory's
  -- entries whose token has that hash, and no client where there is no such entry. Subdirectories,
  -- hidden files, names that are not a client's, files that cannot be read and blank files count
  -- for nothing.
  pub reload-last_client :
      (es : List Entry) (store : TokenStore) (sum : Bytes)
      → disk.read_dir dir ≡ some es
      → reload crypto disk dir ≡ some store
      → (lookup sum store.tokens ≡ last_client sum es none)
        × (disk.stat_dir dir ≡ some store.dir_mod)
  unfolding reload
  reload-last_client es store sum e k = elim (Option-cases (disk.stat_dir dir)) [
    | inl st ↦ absurd (none-ne-some store (ground arith))
    | inr (mtime, st) ↦
        let q : record { dir_mod = mtime; tokens = fill crypto disk dir es [] } ≡ store =
          some-injective _ _ (ground arith) in
        (
          ap (λ (s : TokenStore). lookup sum s.tokens) (sym q)
              ∙ unfold lookup in fill-lookup sum es [],
          st ∙ ap (λ (s : TokenStore). some s.dir_mod) q,
        )
  ]

  pub reload-stat_dir :
      (store : TokenStore)
      → reload crypto disk dir ≡ some store
      → disk.stat_dir dir ≡ some store.dir_mod
  unfolding reload
  reload-stat_dir store k = elim (Option-cases (disk.read_dir dir)) [
    | inl e ↦ absurd (none-ne-some store (ground arith))
    | inr (es, e) ↦ (reload-last_client es store [] e k).1
  ]

  pub maybe_reload-unchanged :
      (store : TokenStore)
      → disk.stat_dir dir ≡ some store.dir_mod
      → maybe_reload crypto disk dir store ≡ store
  unfolding maybe_reload
  maybe_reload-unchanged store e = ground (arith, nat_eq.beq_iff store.dir_mod store.dir_mod)
