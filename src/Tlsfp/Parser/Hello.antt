-- ===== src/Tlsfp/Parser/Hello.antt =====
-- internal/tlsfp/parser.go: the handshake message of a well-formed ClientHello.
use veilgate.Prelude.{
  ℕ, ◌%◌, ◌≡◌, refl, subst, ap, arith, List, [], ◌∷◌, ◌++◌, none, some, Bytes, length, take, drop,
  length-append, ltb, false,
}
use veilgate.Tlsfp.Parser.{
  ClientHello, Parsed, hello_of, read_uint16s, parse_tail, parse_compression, parse_ciphers,
  parse_session, parse_body, parse_message,
}
use veilgate.Tlsfp.Parser.Extensions.{
  Extension, two_bytes, wire, noted, take_of_append, drop_of_append, two_bytes_value,
  parse_extensions-wire,
}

pub record Hello : Type 0 where
  pub version : ℕ
  pub random : Bytes
  pub session : Bytes
  pub suites : List ℕ
  pub compression : Bytes
  pub extensions : List Extension

unfoldable pub suites_wire : List ℕ → Bytes
suites_wire [] = []
suites_wire (n ∷ ns) = two_bytes n ++ suites_wire ns

abbrev extensions_wire : List Extension → Bytes
extensions_wire xs = two_bytes (length (wire xs)) ++ wire xs

abbrev compression_wire : Hello → Bytes
compression_wire h = length h.compression ∷ h.compression ++ extensions_wire h.extensions

abbrev ciphers_wire : Hello → Bytes
ciphers_wire h =
    two_bytes (length (suites_wire h.suites)) ++ (suites_wire h.suites ++ compression_wire h)

abbrev session_wire : Hello → Bytes
session_wire h = length h.session ∷ h.session ++ ciphers_wire h

-- The message on the wire; the parser does not look at its three bytes of length.
abbrev pub message_wire : Hello → ℕ → ℕ → ℕ → Bytes
message_wire h a b c = 1 ∷ a ∷ b ∷ c ∷ two_bytes h.version ++ (h.random ++ session_wire h)

-- What the parser should make of it.
abbrev pub hello_parsed : Hello → Parsed
hello_parsed h = (some (noted h.extensions (hello_of h.version h.suites)), none)

read_uint16s-suites : (ns : List ℕ) → read_uint16s (suites_wire ns) ≡ ns
unfolding read_uint16s suites_wire
read_uint16s-suites [] = refl
read_uint16s-suites (n ∷ ns) = rw (two_bytes_value n, read_uint16s-suites ns) refl

suites_wire-even : (ns : List ℕ) → length (suites_wire ns) % 2 ≡ 0
unfolding suites_wire
suites_wire-even [] = omega arith
suites_wire-even (n ∷ ns) = omega (arith, suites_wire-even ns)

enough : (s t : Bytes) → ltb (length (s ++ t)) (length s) ≡ false
enough s t = ground (arith, length-append s t)

take_all : (s : Bytes) → take (length s) s ≡ s
take_all [] = refl
take_all (x ∷ s) = ap (◌∷◌ x) (take_all s)

tail_read :
    (ch : ClientHello) (xs : List Extension)
    → parse_tail ch (extensions_wire xs) ≡ (some (noted xs ch), none)
unfolding parse_tail
tail_read ch xs =
    rw (two_bytes_value (length (wire xs)), take_all (wire xs))
      (ground (arith, parse_extensions-wire xs (length (wire xs)) ch (omega arith)))

compression_read :
    (h : Hello) (ch : ClientHello)
    → parse_compression ch (compression_wire h) ≡ (some (noted h.extensions ch), none)
unfolding parse_compression
compression_read h ch =
    rw
      (
        enough h.compression (extensions_wire h.extensions),
        drop_of_append h.compression (extensions_wire h.extensions),
      )
      (tail_read ch h.extensions)

ciphers_read : (h : Hello) → parse_ciphers h.version (ciphers_wire h) ≡ hello_parsed h
unfolding parse_ciphers
ciphers_read h =
    let s = suites_wire h.suites in
    rw
      (
        two_bytes_value (length s),
        enough s (compression_wire h),
        suites_wire-even h.suites,
        take_of_append s (compression_wire h),
        drop_of_append s (compression_wire h),
        read_uint16s-suites h.suites,
      )
      (compression_read h (hello_of h.version h.suites))

session_read : (h : Hello) → parse_session h.version (session_wire h) ≡ hello_parsed h
unfolding parse_session
session_read h =
    rw (enough h.session (ciphers_wire h), drop_of_append h.session (ciphers_wire h))
      (ciphers_read h)

-- The parser reads back the message of a hello with 32 random bytes: its version, its cipher suites
-- and all of its extensions, without an error.
pub parse_message-wire :
    (h : Hello) (a b c : ℕ)
    → length h.random ≡ 32
    → parse_message (message_wire h a b c) ≡ hello_parsed h
unfolding parse_message parse_body
parse_message-wire h a b c e =
    let rest = h.random ++ session_wire h in
    let whole : ltb (length (a ∷ b ∷ c ∷ two_bytes h.version ++ rest)) 3 ≡ false = ground arith in
    let filled : ltb (length rest) 32 ≡ false =
      subst (λ n. ltb (length rest) n ≡ false) e (enough h.random (session_wire h)) in
    let after : drop 32 rest ≡ session_wire h =
      subst (λ n. drop n rest ≡ session_wire h) e (drop_of_append h.random (session_wire h)) in
    rw (whole, filled, after, two_bytes_value h.version) (session_read h)
