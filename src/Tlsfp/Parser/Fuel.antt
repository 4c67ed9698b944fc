-- ===== src/Tlsfp/Parser/Fuel.antt =====
-- internal/tlsfp/parser.go: the loops of `parseExtensions` end by themselves.
use veilgate.Prelude.{
  ℕ, zero, suc, ◌+◌, ◌*◌, ◌≡◌, ◌≤◌, refl, arith, [], ◌∷◌, Bytes, length, take, drop, length-drop,
}
use veilgate.Tlsfp.Parser.{ClientHello, alpn_names, note_extension, parse_extensions}

-- Any fuel that is at least the number of bytes gives the same names.
alpn_names-enough :
    (f g : ℕ) (b : Bytes) → length b ≤ f → length b ≤ g → alpn_names f b ≡ alpn_names g b
unfolding alpn_names
alpn_names-enough zero zero b h k = refl
alpn_names-enough zero (suc g) [] h k = refl
alpn_names-enough (suc f) zero [] h k = refl
alpn_names-enough (suc f) (suc g) [] h k = refl
alpn_names-enough zero (suc g) (n ∷ b) h k = absurd (omega arith)
alpn_names-enough (suc f) zero (n ∷ b) h k = absurd (omega arith)
alpn_names-enough (suc f) (suc g) (n ∷ b) h k =
    rw
      (alpn_names-enough f g (drop n b) (omega (arith, h, length-drop n b))
        (omega (arith, k, length-drop n b)))
      refl

-- Any fuel that is at least the number of bytes gives the same hello and the same error.
parse_extensions-enough :
    (f g : ℕ) (b : Bytes) (ch : ClientHello)
    → length b ≤ f
    → length b ≤ g
    → parse_extensions f b ch ≡ parse_extensions g b ch
unfolding parse_extensions
parse_extensions-enough (suc f) (suc g) (x ∷ y ∷ c ∷ d ∷ b) ch h k =
    let n = c * 256 + d in
    rw
      (parse_extensions-enough f g (drop n b) (note_extension (x * 256 + y) (take n b) ch)
        (omega (arith, h, length-drop n b)) (omega (arith, k, length-drop n b)))
      refl
parse_extensions-enough zero (suc g) (x ∷ y ∷ c ∷ d ∷ b) ch h k = absurd (omega arith)
parse_extensions-enough (suc f) zero (x ∷ y ∷ c ∷ d ∷ b) ch h k = absurd (omega arith)
parse_extensions-enough zero zero b ch h k = refl
parse_extensions-enough zero (suc g) [] ch h k = refl
parse_extensions-enough zero (suc g) (x ∷ []) ch h k = refl
parse_extensions-enough zero (suc g) (x ∷ y ∷ []) ch h k = refl
parse_extensions-enough zero (suc g) (x ∷ y ∷ z ∷ []) ch h k = refl
parse_extensions-enough (suc f) zero [] ch h k = refl
parse_extensions-enough (suc f) zero (x ∷ []) ch h k = refl
parse_extensions-enough (suc f) zero (x ∷ y ∷ []) ch h k = refl
parse_extensions-enough (suc f) zero (x ∷ y ∷ z ∷ []) ch h k = refl
parse_extensions-enough (suc f) (suc g) [] ch h k = refl
parse_extensions-enough (suc f) (suc g) (x ∷ []) ch h k = refl
parse_extensions-enough (suc f) (suc g) (x ∷ y ∷ []) ch h k = refl
parse_extensions-enough (suc f) (suc g) (x ∷ y ∷ z ∷ []) ch h k = refl
