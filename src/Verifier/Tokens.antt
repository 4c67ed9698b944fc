-- ===== src/Verifier/Tokens.antt =====
-- internal/verifier/bearer.go and validator.go: a directory of tokens, kept in memory by the hash
-- of each token. The two files have the same code, once for the bearer verifier and once for the
-- validator; the second has names of its own here.
pub mod Table
use veilgate.Prelude.{
  ℕ, ◌-◌, Bool, not, ◌&&◌, ◌||◌, List, [], ◌∷◌, Option, none, some, Bytes, codes, ◌==◌, nat_eq,
  bytes_eq, if◌then◌else◌, is_empty, trim_space, has_prefix, has_suffix, lookup, insert, take,
  length,
}
use veilgate.Verifier.Disk.{Entry, Disk, Crypto}
use veilgate.Verifier.Hmac.{valid_client_name}

-- `tokens`, from the hash of a token to its client
abbrev pub Tokens : Type 0
Tokens = List (Bytes × Bytes)

pub record TokenStore : Type 0 where
  pub dir_mod : ℕ
  pub tokens : Tokens

-- `filepath.Ext` of a name without slashes: from its last dot
unfoldable pub file_ext : Bytes → Bytes
file_ext [] = []
file_ext (c ∷ s) =
    let rest = file_ext s in if not (is_empty rest) then rest else if c == b'.' then c ∷ s else []

-- `strings.TrimSuffix`
unfoldable pub trim_suffix : Bytes → Bytes → Bytes
trim_suffix s p = if has_suffix s p then take (length s - length p) s else s

abbrev client_of : Entry → Bytes
client_of e = trim_suffix e.name (file_ext e.name)

module _ (crypto : Crypto) (disk : Disk) (dir : Bytes) where
  -- What an entry of the directory adds: the hash of its token and its client, if it counts.
  unfoldable pub token_of : Entry → Option (Bytes × Bytes)
  token_of e =
      if e.is_dir || has_prefix e.name (codes ".")
      then none
      else if not (valid_client_name (client_of e))
      then none
      else elim (disk.read_file dir e.name) [
        | none ↦ none
        | some raw ↦
            if is_empty (trim_space raw)
            then none
            else some (crypto.sha256 (trim_space raw), client_of e)
      ]

  -- the loop of `reload`
  unfoldable pub fill : List Entry → Tokens → Tokens
  fill [] next = next
  fill (e ∷ es) next = elim (token_of e) [
    | none ↦ fill es next
    | some (sum, client) ↦ fill es (insert sum client next)
  ]

  -- `reload`, `none` for an error
  unfoldable pub reload : Option TokenStore
  unfolding fill
  reload = elim (disk.read_dir dir) [
    | none ↦ none
    | some entries ↦ elim (disk.stat_dir dir) [
      | none ↦ none
      | some mtime ↦ some (record { dir_mod = mtime; tokens = fill entries [] })
    ]
  ]

  abbrev or_kept : TokenStore → Option TokenStore → TokenStore
  or_kept store none = store
  or_kept store (some fresh) = fresh

  -- `maybeReload`
  unfoldable pub maybe_reload : TokenStore → TokenStore
  maybe_reload store = elim (disk.stat_dir dir) [
    | none ↦ store
    | some mtime ↦ if mtime == store.dir_mod then store else or_kept store reload
  ]

  -- The client of a token.
  abbrev pub client_of_token : Bytes → TokenStore → Option Bytes
  client_of_token token store = lookup (crypto.sha256 token) store.tokens
