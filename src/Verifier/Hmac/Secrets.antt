-- ===== src/Verifier/Hmac/Secrets.antt =====
-- internal/verifier/hmac.go: the cache of secrets against the files it stands for.
use mathlib.Core.Option.{some-injective, none-ne-some}
use veilgate.Prelude.{
  subst, sym, ap, ◌∙◌, ℕ, ◌≡◌, arith, ◌++◌, Option, none, some, Bytes, codes, ◌==◌, bytes_eq,
  nat_eq, lookup, insert, trim_space, lookup-insert, Option-cases, Bool-cases, inl, inr,
}
use veilgate.Verifier.Disk.{Disk}
use veilgate.Verifier.Hmac.{Cache, SecretEntry, load_secret, read_secret}

-- What each file held at each of its times of modification.
abbrev pub History : Type 0
History = Bytes → ℕ → Bytes

-- The disk is as the history says.
abbrev pub Follows : History → Disk → Bytes → Type 0
Follows h disk dir =
    (file : Bytes) (mtime : ℕ) (b : Bytes)
    → disk.stat dir file ≡ some mtime
    → disk.read_file dir file ≡ some b
    → b ≡ h file mtime

-- Each entry holds what its file held at the entry's time.
abbrev pub Remembers : History → Cache → Type 0
Remembers h cache =
    (client : Bytes) (e : SecretEntry)
    → lookup client cache ≡ some e
    → e.secret ≡ trim_space (h (client ++ codes ".secret") e.mtime)

-- A secret that is what its file holds now.
abbrev pub Current : History → Disk → Bytes → Bytes → Option Bytes → Type 0
Current h disk dir client found =
    (secret : Bytes)
    → found ≡ some secret
    → (mtime : ℕ) × (disk.stat dir (client ++ codes ".secret") ≡ some mtime)
      × (secret ≡ trim_space (h (client ++ codes ".secret") mtime))

module _ (h : History) (disk : Disk) (dir : Bytes) (follows : Follows h disk dir) where
  abbrev Good : Bytes → Cache × Option Bytes → Type 0
  Good client o = Remembers h o.0 × Current h disk dir client o.1

  insert-Remembers :
      (client : Bytes) (mtime : ℕ) (b : Bytes) (cache : Cache)
      → b ≡ h (client ++ codes ".secret") mtime
      → Remembers h cache
      → Remembers h (insert client (record { secret = trim_space b; mtime = mtime }) cache)
  insert-Remembers client mtime b cache held rem j e k =
      let new : SecretEntry = record { secret = trim_space b; mtime = mtime } in
      elim (Bool-cases (client == j)) [
        | inl same ↦
            let q : new ≡ e =
              some-injective _ _ (ground (arith, lookup-insert client j new cache)) in
            let c : client ≡ j = (bytes_eq.beq_iff client j).0 same in
            sym (ap (λ x. x.secret) q)
            ∙ ap trim_space held
            ∙ ap (λ i. trim_space (h (i ++ codes ".secret") mtime)) c
            ∙ ap (λ x. trim_space (h (j ++ codes ".secret") x.mtime)) q
        | inr other ↦ rem j e (ground (arith, lookup-insert client j new cache))
      ]

  read_secret-Good :
      (client : Bytes) (cache : Cache) (mtime : ℕ)
      → disk.stat dir (client ++ codes ".secret") ≡ some mtime
      → Remembers h cache
      → Good client (read_secret disk dir client cache mtime)
  read_secret-Good client cache mtime st rem =
      elim (Option-cases (disk.read_file dir (client ++ codes ".secret"))) [
        | inl e ↦
            let q : read_secret disk dir client cache mtime ≡ (cache, none) = rw (e, read_secret) in
            subst (Good client) (sym q) (rem, λ secret k. absurd (none-ne-some _ k))
        | inr (b, e) ↦
            let held = follows (client ++ codes ".secret") mtime b st e in
            let q : read_secret disk dir client cache mtime ≡ (
              insert client (record { secret = trim_space b; mtime = mtime }) cache,
              some (trim_space b),
            ) =
              rw (e, read_secret) in
            subst (Good client) (sym q) (
              insert-Remembers client mtime b cache held rem,
              λ secret k. (mtime, st, sym (some-injective _ _ k) ∙ ap trim_space held),
            )
      ]

  -- A secret that is loaded is the trimmed content of the client's file at its present time of
  -- modification, from the cache or not, if the cache remembers what files held; and the cache
  -- after the load does.
  pub load_secret-Current :
      (client : Bytes) (cache : Cache)
      → Remembers h cache
      → Remembers h (load_secret disk dir client cache).0
        × Current h disk dir client (load_secret disk dir client cache).1
  load_secret-Current client cache rem =
      elim (Option-cases (disk.stat dir (client ++ codes ".secret"))) [
        | inl st ↦
            let q : load_secret disk dir client cache ≡ (cache, none) =
              unfold load_secret in rw (st, load_secret) in
            subst (Good client) (sym q) (rem, λ secret k. absurd (none-ne-some _ k))
        | inr (mtime, st) ↦ elim (Option-cases (lookup client cache)) [
          | inl e ↦
              let q : load_secret disk dir client cache ≡ read_secret disk dir client cache mtime =
                unfold load_secret in rw (st, e, load_secret) in
              subst (Good client) (sym q) (read_secret-Good client cache mtime st rem)
          | inr (entry, e) ↦ elim (Bool-cases (entry.mtime == mtime)) [
            | inl same ↦
                let q : load_secret disk dir client cache ≡ (cache, some entry.secret) =
                  unfold load_secret in rw (st, e, same, load_secret) in
                let now : entry.mtime ≡ mtime = (nat_eq.beq_iff entry.mtime mtime).0 same in
                subst (Good client) (sym q) (
                  rem,
                  λ secret k. (
                    mtime,
                    st,
                    sym (some-injective _ _ k)
                        ∙ rem client entry e
                        ∙ ap (λ m. trim_space (h (client ++ codes ".secret") m)) now,
                  ),
                )
            | inr other ↦
                let q : load_secret disk dir client cache
                    ≡ read_secret disk dir client cache mtime =
                  unfold load_secret in rw (st, e, other, load_secret) in
                subst (Good client) (sym q) (read_secret-Good client cache mtime st rem)
          ]
        ]
      ]
