-- ===== src/Verifier/Hmac/Names.antt =====
-- internal/verifier/hmac.go: a client's name as a part of a file's name.
use veilgate.Prelude.{
  length-append, ◌<◌, ℕ, ◌≡◌, ◌≢◌, refl, arith, true, not, [], ◌∷◌, ◌++◌, Bytes, codes, ◌==◌,
  nat_eq, all, split, length, ap,
}
use veilgate.Verifier.Hmac.{valid_client_name, safe_byte}

-- Text without a separator is one piece.
split-whole : (sep : ℕ) (s : Bytes) → all (λ c. not (c == sep)) s ≡ true → split sep s ≡ s ∷ []
unfolding split
split-whole sep [] h = refl
split-whole sep (c ∷ s) h = ground (arith, split-whole sep s)

safe-no_slash :
    (s : Bytes) → all safe_byte s ≡ true → all (λ c. not (c == b'/')) (s ++ codes ".secret") ≡ true
safe-no_slash [] h = refl
safe-no_slash (c ∷ s) h = ground (arith, safe-no_slash s)

-- The file of a valid client name is in the directory of secrets itself: its name is one segment
-- of a path, and neither "." nor "..".
pub valid_client_name-StaysInside :
    (s : Bytes)
    → valid_client_name s ≡ true
    → (split b'/' (s ++ codes ".secret") ≡ (s ++ codes ".secret") ∷ [])
      × ((s ++ codes ".secret") ≢ codes ".")
      × ((s ++ codes ".secret") ≢ codes "..")
unfolding valid_client_name
valid_client_name-StaysInside s h = (
  split-whole b'/' (s ++ codes ".secret") (safe-no_slash s (ground arith)),
  λ e. false_of 1 (ground arith) (ap length e),
  λ e. false_of 2 (ground arith) (ap length e),
)
  where
    false_of : (n : ℕ) → n < 7 → length (s ++ codes ".secret") ≢ n
    false_of n short e = omega (arith, length-append s (codes ".secret"))
