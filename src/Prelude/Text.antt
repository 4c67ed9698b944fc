-- ===== src/Prelude/Text.antt =====
-- Go strings as lists of bytes, and the functions of the package `strings` that the program calls.
-- Case folding and white space are those of ASCII.
use Prim.Native.Nat.{ℕ, suc, ◌+◌, ◌-◌}
use Prim.Native.Char.{code}
use Prim.Native.String.{String}
use mathlib.Core.Path.{◌≡◌, refl}
use mathlib.Core.Logic.{◌↔◌, inl, inr}
use mathlib.Core.Bool.{Bool, true, false, ◌&&◌, ◌||◌}
use mathlib.Core.Option.{Option, none, some}
use mathlib.Core.List.{List, [], ◌∷◌, map}
use native.Mathlib.Omega.{arith}
use veilgate.Prelude.Tests.{Eq, ◌==◌, nat_beq, nat_eq, leb, if◌then◌else◌, Bool-cases}
use veilgate.Prelude.Lists.{length, drop}

abbrev pub Bytes : Type 0
Bytes = List ℕ

abbrev pub codes : String → Bytes
codes String.[] = []
codes (String.◌∷◌ c s) = code c ∷ codes s

unfoldable pub bytes_beq : Bytes → Bytes → Bool
bytes_beq [] [] = true
bytes_beq (a ∷ s) (b ∷ t) = nat_beq a b && bytes_beq s t
bytes_beq _ _ = false

bytes_beq→eq : (s t : Bytes) → bytes_beq s t ≡ true → s ≡ t
unfolding bytes_beq
bytes_beq→eq [] [] h = refl
bytes_beq→eq [] (b ∷ t) h = cc
bytes_beq→eq (a ∷ s) [] h = cc
bytes_beq→eq (a ∷ s) (b ∷ t) h = ground (arith, bytes_beq→eq s t)

bytes_beq_refl : (s : Bytes) → bytes_beq s s ≡ true
unfolding bytes_beq
bytes_beq_refl [] = refl
bytes_beq_refl (a ∷ s) = ground (arith, bytes_beq_refl s)

pub bytes_beq_iff : (s t : Bytes) → (bytes_beq s t ≡ true) ↔ (s ≡ t)
bytes_beq_iff s t = (bytes_beq→eq s t, λ e. rw e (bytes_beq_refl t))

instance abbrev pub bytes_eq : Eq Bytes
bytes_eq = record { beq = bytes_beq; beq_iff = bytes_beq_iff }

abbrev pub is_empty {ℓ} : {A : Type ℓ} → List A → Bool
is_empty [] = true
is_empty (_ ∷ _) = false

pub is_empty_iff {ℓ} : {A : Type ℓ} (xs : List A) → (is_empty xs ≡ true) ↔ (xs ≡ [])
is_empty_iff [] = ground arith
is_empty_iff (x ∷ xs) = ground arith

abbrev pub lower_byte : ℕ → ℕ
lower_byte c = if leb b'A' c && leb c b'Z' then c + 32 else c

abbrev pub upper_byte : ℕ → ℕ
upper_byte c = if leb b'a' c && leb c b'z' then c - 32 else c

unfoldable pub to_lower : Bytes → Bytes
to_lower s = map lower_byte s

unfoldable pub to_upper : Bytes → Bytes
to_upper s = map upper_byte s

unfoldable pub equal_fold : Bytes → Bytes → Bool
unfolding to_lower bytes_beq
equal_fold s t = to_lower s == to_lower t

abbrev pub is_space : ℕ → Bool
is_space c = c == 32 || (leb 9 c && leb c 13)

unfoldable pub trim_left : (ℕ → Bool) → Bytes → Bytes
trim_left p [] = []
trim_left p (c ∷ s) = let rest = trim_left p s in if p c then rest else c ∷ s

unfoldable pub trim_right : (ℕ → Bool) → Bytes → Bytes
trim_right p [] = []
trim_right p (c ∷ s) = let rest = trim_right p s in if is_empty rest && p c then [] else c ∷ rest

unfoldable pub trim : (ℕ → Bool) → Bytes → Bytes
unfolding trim_left trim_right
trim p s = trim_right p (trim_left p s)

unfoldable pub trim_space : Bytes → Bytes
unfolding trim
trim_space s = trim is_space s

unfoldable pub has_prefix : Bytes → Bytes → Bool
has_prefix s [] = true
has_prefix [] (d ∷ p) = false
has_prefix (c ∷ s) (d ∷ p) = nat_beq c d && has_prefix s p

unfoldable pub has_suffix : Bytes → Bytes → Bool
unfolding bytes_beq
has_suffix s p = leb (length p) (length s) && drop (length s - length p) s == p

unfoldable pub contains : Bytes → Bytes → Bool
unfolding has_prefix
contains [] p = is_empty p
contains (c ∷ s) p = has_prefix (c ∷ s) p || contains s p

-- `bytes.Index`, with `none` for -1
unfoldable pub index : Bytes → Bytes → Option ℕ
unfolding has_prefix
index [] p = if is_empty p then some 0 else none
index (c ∷ s) p =
    let rest = index s p in
    if has_prefix (c ∷ s) p then some 0 else elim rest [ none ↦ none | some i ↦ some (suc i) ]

abbrev pub cons_first : ℕ → List Bytes → List Bytes
cons_first c [] = (c ∷ []) ∷ []
cons_first c (w ∷ ws) = (c ∷ w) ∷ ws

-- `strings.Split` at one byte
unfoldable pub split : ℕ → Bytes → List Bytes
split sep [] = [] ∷ []
split sep (c ∷ s) = let rest = split sep s in if c == sep then [] ∷ rest else cons_first c rest

-- `strings.Split` at "\r\n"
unfoldable pub split_crlf : Bytes → List Bytes
split_crlf [] = [] ∷ []
split_crlf (c ∷ []) = (c ∷ []) ∷ []
split_crlf (c ∷ d ∷ s) =
    let after = split_crlf s in
    let onward = split_crlf (d ∷ s) in
    if c == 13 && d == 10 then [] ∷ after else cons_first c onward

-- `strings.Cut` at one byte: `none` where the byte does not occur
unfoldable pub cut : ℕ → Bytes → Option (Bytes × Bytes)
cut sep [] = none
cut sep (c ∷ s) =
    let rest = cut sep s in
    if c == sep then some ([], s) else elim rest [ none ↦ none | some (a, b) ↦ some (c ∷ a, b) ]

lower_byte_lower : (c : ℕ) → lower_byte (lower_byte c) ≡ lower_byte c
lower_byte_lower c = ground arith

pub to_lower_idem : (s : Bytes) → to_lower (to_lower s) ≡ to_lower s
unfolding to_lower
to_lower_idem [] = refl
to_lower_idem (c ∷ s) = ground (arith, lower_byte_lower c, to_lower_idem s)

-- No byte at the front passes the test.
abbrev Clean : (ℕ → Bool) → Bytes → Type 0
Clean p [] = Unit {0}
Clean p (c ∷ s) = p c ≡ false

trim_left-Clean : (p : ℕ → Bool) (s : Bytes) → Clean p (trim_left p s)
unfolding trim_left
trim_left-Clean p [] = tt
trim_left-Clean p (c ∷ s) = elim (Bool-cases (p c)) [
  | inl h ↦ rw h (trim_left-Clean p s)
  | inr h ↦ rw h h
]

trim_left_of_Clean : (p : ℕ → Bool) (s : Bytes) → Clean p s → trim_left p s ≡ s
unfolding trim_left
trim_left_of_Clean p [] h = refl
trim_left_of_Clean p (c ∷ s) h = rw h

trim_right-Clean : (p : ℕ → Bool) (s : Bytes) → Clean p s → Clean p (trim_right p s)
unfolding trim_right
trim_right-Clean p [] h = tt
trim_right-Clean p (c ∷ s) h =
    rw h
      (elim (is_empty (trim_right p s))
        as (λ b. Clean p (if b && false then [] else c ∷ trim_right p s)) [ true ↦ h | false ↦ h ])

trim_right_idem : (p : ℕ → Bool) (s : Bytes) → trim_right p (trim_right p s) ≡ trim_right p s
unfolding trim_right
trim_right_idem p [] = refl
trim_right_idem p (c ∷ s) = ground (arith, trim_right_idem p s)

-- Trimming a second time changes nothing.
pub trim_idem : (p : ℕ → Bool) (s : Bytes) → trim p (trim p s) ≡ trim p s
unfolding trim
trim_idem p s =
    rw
      (trim_left_of_Clean p (trim_right p (trim_left p s))
        (trim_right-Clean p (trim_left p s) (trim_left-Clean p s)))
      (trim_right_idem p (trim_left p s))
