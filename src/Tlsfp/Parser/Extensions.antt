-- ===== src/Tlsfp/Parser/Extensions.antt =====
-- internal/tlsfp/parser.go: the extensions of a well-formed block.
use veilgate.Prelude.{
  ℕ, zero, suc, ◌+◌, ◌*◌, ◌/◌, ◌%◌, ◌≡◌, ◌≤◌, refl, ap, arith, List, [], ◌∷◌, ◌++◌, none, Bytes,
  length, take, drop, length-append,
}
use veilgate.Tlsfp.Parser.{ClientHello, note_extension, parse_extensions}

pub record Extension : Type 0 where
  pub kind : ℕ
  pub content : Bytes

-- Two bytes for a number, the higher one first.
abbrev pub two_bytes : ℕ → Bytes
two_bytes n = (n / 256) ∷ (n % 256) ∷ []

-- An extension on the wire.
unfoldable pub wire : List Extension → Bytes
wire [] = []
wire (x ∷ xs) = two_bytes x.kind ++ (two_bytes (length x.content) ++ (x.content ++ wire xs))

-- All extensions are noted, one after the other.
abbrev pub noted : List Extension → ClientHello → ClientHello
noted [] ch = ch
noted (x ∷ xs) ch = noted xs (note_extension x.kind x.content ch)

pub take_of_append : (s t : Bytes) → take (length s) (s ++ t) ≡ s
take_of_append [] [] = refl
take_of_append [] (x ∷ t) = refl
take_of_append (x ∷ s) t = ap (◌∷◌ x) (take_of_append s t)

pub drop_of_append : (s t : Bytes) → drop (length s) (s ++ t) ≡ t
drop_of_append [] [] = refl
drop_of_append [] (x ∷ t) = refl
drop_of_append (x ∷ s) t = drop_of_append s t

pub two_bytes_value : (n : ℕ) → n / 256 * 256 + n % 256 ≡ n
two_bytes_value n = omega arith

-- The parser reads back a block of extensions: each is noted with its type and all of its data, in
-- order, and none overruns.
pub parse_extensions-wire :
    (xs : List Extension) (fuel : ℕ) (ch : ClientHello)
    → length (wire xs) ≤ fuel
    → parse_extensions fuel (wire xs) ch ≡ (noted xs ch, none)
unfolding parse_extensions wire
parse_extensions-wire [] zero ch h = refl
parse_extensions-wire [] (suc fuel) ch h = refl
parse_extensions-wire (x ∷ xs) zero ch h = absurd (omega arith)
parse_extensions-wire (x ∷ xs) (suc fuel) ch h =
    let n = length x.content in
    let size : length (x.content ++ wire xs) ≡ n + length (wire xs) =
      length-append x.content (wire xs) in
    rw
      (
        two_bytes_value n,
        two_bytes_value x.kind,
        take_of_append x.content (wire xs),
        drop_of_append x.content (wire xs),
      )
      (ground (
        arith,
        size,
        parse_extensions-wire xs fuel (note_extension x.kind x.content ch) (omega (arith, size, h)),
      ))
