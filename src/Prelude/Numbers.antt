-- ===== src/Prelude/Numbers.antt =====
-- Numbers as text: `strconv.ParseInt` and `strconv.FormatInt` at base ten, and `encoding/hex`.
use Prim.Native.Nat.{ℕ, zero, suc, ◌+◌, ◌*◌, ◌-◌, ◌/◌, ◌%◌}
use mathlib.Core.Bool.{Bool, true, false, ◌&&◌}
use mathlib.Core.Option.{Option, none, some}
use mathlib.Core.List.{[], ◌∷◌}
use veilgate.Prelude.Tests.{ltb, leb, ◌==◌, nat_eq, if◌then◌else◌}
use veilgate.Prelude.Text.{Bytes, is_empty}

pub data ℤ : Type 0 where
  pos : ℕ → ℤ
  negsuc : ℕ → ℤ

abbrev pub is_digit : ℕ → Bool
is_digit c = leb b'0' c && leb c b'9'

-- The value of the digits after a number that is read already.
unfoldable pub digits_value : Bytes → ℕ → Option ℕ
digits_value [] acc = some acc
digits_value (c ∷ s) acc =
    let rest = digits_value s (acc * 10 + (c - b'0')) in if is_digit c then rest else none

unfoldable pub parse_uint : Bytes → Option ℕ
unfolding digits_value
parse_uint s = if is_empty s then none else digits_value s 0

abbrev pub int64_limit : ℕ
int64_limit = 9223372036854775808

abbrev negated : ℕ → ℤ
negated n = if n == 0 then pos 0 else negsuc (n - 1)

abbrev signed : Bool → Option ℕ → Option ℤ
signed minus none = none
signed true (some n) = if leb n int64_limit then some (negated n) else none
signed false (some n) = if ltb n int64_limit then some (pos n) else none

-- `strconv.ParseInt(s, 10, 64)`, `none` for an error
unfoldable pub parse_int64 : Bytes → Option ℤ
unfolding parse_uint
parse_int64 [] = none
parse_int64 (c ∷ s) =
    if c == b'-'
    then signed true (parse_uint s)
    else if c == b'+'
    then signed false (parse_uint s)
    else signed false (parse_uint (c ∷ s))

-- The digits of a number before those given; the fuel is at least the number of digits.
unfoldable pub decimal_onto : ℕ → ℕ → Bytes → Bytes
decimal_onto zero n done = done
decimal_onto (suc fuel) n done =
    let more = decimal_onto fuel (n / 10) ((b'0' + n % 10) ∷ done) in
    if ltb n 10 then (b'0' + n) ∷ done else more

-- `strconv.FormatInt(n, 10)`, for a number that is not negative; it has at most n + 1 digits.
unfoldable pub decimal : ℕ → Bytes
unfolding decimal_onto
decimal n = decimal_onto (n + 1) n []

abbrev hex_digit : ℕ → ℕ
hex_digit n = if ltb n 10 then b'0' + n else b'a' + (n - 10)

unfoldable pub hex_encode : Bytes → Bytes
hex_encode [] = []
hex_encode (c ∷ s) = hex_digit (c / 16) ∷ hex_digit (c % 16) ∷ hex_encode s

abbrev hex_value : ℕ → Option ℕ
hex_value c =
    if leb b'0' c && leb c b'9'
    then some (c - b'0')
    else if leb b'a' c && leb c b'f'
    then some (c - b'a' + 10)
    else if leb b'A' c && leb c b'F'
    then some (c - b'A' + 10)
    else none

abbrev hex_pair : Option ℕ → Option ℕ → Option Bytes → Option Bytes
hex_pair (some a) (some b) (some s) = some ((a * 16 + b) ∷ s)
hex_pair _ _ _ = none

-- `hex.DecodeString`, `none` for an error
unfoldable pub hex_decode : Bytes → Option Bytes
hex_decode [] = some []
hex_decode (c ∷ []) = none
hex_decode (c ∷ d ∷ s) = hex_pair (hex_value c) (hex_value d) (hex_decode s)
