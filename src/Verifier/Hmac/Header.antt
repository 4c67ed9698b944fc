-- ===== src/Verifier/Hmac/Header.antt =====
-- internal/verifier/hmac.go: the signature header that a client writes.
use veilgate.Prelude.{
  ℕ, zero, suc, ◌+◌, ◌/◌, ◌%◌, ◌<◌, ◌≡◌, refl, ap, sym, subst, ◌∙◌, arith, Bool, true, false, not,
  ◌&&◌, List, [], ◌∷◌, ◌++◌, append_assoc, append-nil, some, Bytes, codes, ◌==◌, nat_eq, is_empty,
  all, split, cut, trim_space, trim, trim_left, trim_right, is_space, ltb, Bool-cases, inl, inr,
  is_digit, digits_value, parse_uint, decimal_onto, decimal, parse_int64, ℤ, pos, negsuc, bytes_beq,
  int64_limit,
}
use veilgate.Verifier.Hmac.{parse_sig_header, scan_parts, checked_parts}

-- A byte that neither separates parts nor is trimmed.
abbrev pub is_plain : ℕ → Bool
is_plain c = not (c == b',') && not (is_space c)

-- Digits for a number that is read after whatever precedes it.
abbrev Digits : ℕ → Bytes → Type 0
Digits n b =
    (is_empty b ≡ false)
    × (all is_digit b ≡ true)
    × ((tail : Bytes) → digits_value (b ++ tail) 0 ≡ digits_value tail n)

all-append : (p : ℕ → Bool) (s t : Bytes) → all p s ≡ true → all p t ≡ true → all p (s ++ t) ≡ true
all-append p [] t h k = k
all-append p (c ∷ s) t h k = ground (arith, all-append p s t)

nonempty-append : (s t : Bytes) → is_empty t ≡ false → is_empty (s ++ t) ≡ false
nonempty-append [] t h = h
nonempty-append (c ∷ s) t h = refl

last_digit : (n : ℕ) (b : Bytes) → Digits (n / 10) b → Digits n (b ++ (b'0' + n % 10) ∷ [])
unfolding digits_value
last_digit n b (full, digits, value) = (
  nonempty-append b ((b'0' + n % 10) ∷ []) refl,
  all-append is_digit b ((b'0' + n % 10) ∷ []) digits (ground arith),
  λ tail.
      ap (λ s. digits_value s 0) (append_assoc b ((b'0' + n % 10) ∷ []) tail)
      ∙ (value ((b'0' + n % 10) ∷ tail) ∙ ground arith),
)

decimal_onto-Digits :
    (fuel n : ℕ) (done : Bytes)
    → n < fuel
    → (b : Bytes) × (decimal_onto fuel n done ≡ b ++ done) × Digits n b
unfolding decimal_onto digits_value
decimal_onto-Digits zero n done h = absurd (omega arith)
decimal_onto-Digits (suc fuel) n done h = elim (Bool-cases (ltb n 10)) [
  | inl small ↦ ((b'0' + n) ∷ [], rw small refl, (refl, ground arith, λ tail. ground arith))
  | inr large ↦
      let (b, e, d) = decimal_onto-Digits fuel (n / 10) ((b'0' + n % 10) ∷ done) (ground arith) in
      (
        b ++ (b'0' + n % 10) ∷ [],
        rw large (e ∙ sym (append_assoc b ((b'0' + n % 10) ∷ []) done)),
        last_digit n b d,
      )
]

split-first :
    (sep : ℕ) (s t : Bytes)
    → all (λ c. not (c == sep)) s ≡ true
    → split sep (s ++ sep ∷ t) ≡ s ∷ split sep t
unfolding split
split-first sep [] t h = ground (arith, nat_eq.beq_iff sep sep)
split-first sep (c ∷ s) t h = ground (arith, split-first sep s t)

split-only : (sep : ℕ) (s : Bytes) → all (λ c. not (c == sep)) s ≡ true → split sep s ≡ s ∷ []
unfolding split
split-only sep [] h = refl
split-only sep (c ∷ s) h = ground (arith, split-only sep s)

trim_right-plain : (s : Bytes) → all (λ c. not (is_space c)) s ≡ true → trim_right is_space s ≡ s
unfolding trim_right
trim_right-plain [] h = refl
trim_right-plain (c ∷ s) h = ground (arith, trim_right-plain s)

trim_space-plain : (s : Bytes) → all (λ c. not (is_space c)) s ≡ true → trim_space s ≡ s
unfolding trim_space trim trim_left
trim_space-plain [] h = unfold trim_right in refl
trim_space-plain (c ∷ s) h = ground (arith, trim_right-plain (c ∷ s) h)

digits-plain : (b : Bytes) → all is_digit b ≡ true → all is_plain b ≡ true
digits-plain [] h = refl
digits-plain (c ∷ b) h = ground (arith, digits-plain b)

plain-no_comma : (s : Bytes) → all is_plain s ≡ true → all (λ c. not (c == b',')) s ≡ true
plain-no_comma [] h = refl
plain-no_comma (c ∷ s) h = ground (arith, plain-no_comma s)

plain-no_space : (s : Bytes) → all is_plain s ≡ true → all (λ c. not (is_space c)) s ≡ true
plain-no_space [] h = refl
plain-no_space (c ∷ s) h = ground (arith, plain-no_space s)

parse_int64-Digits :
    (n : ℕ) (b : Bytes) → Digits n b → n < int64_limit → parse_int64 b ≡ some (pos n)
unfolding parse_int64 parse_uint digits_value
parse_int64-Digits n [] (full, digits, value) h = cc
parse_int64-Digits n (c ∷ b) (full, digits, value) h =
    let v : digits_value (c ∷ b) 0 ≡ some n =
      ap (λ s. digits_value s 0) (sym (append-nil (c ∷ b))) ∙ value [] in
    let plus : c == b'+' ≡ false = ground arith in
    let minus : c == b'-' ≡ false = ground arith in rw (plus, minus) (ground (arith, v))

-- What a client writes.
abbrev pub signature_header : ℕ → Bytes → Bytes
signature_header ts sig = codes "t=" ++ (decimal ts ++ (codes ",v1=" ++ sig))

scan_timestamp :
    (parts : List Bytes) (ts : ℕ) (b : Bytes) (before : ℤ) (sig : Bytes)
    → trim_space (codes "t=" ++ b) ≡ codes "t=" ++ b
    → parse_int64 b ≡ some (pos ts)
    → scan_parts ((codes "t=" ++ b) ∷ parts) before sig ≡ scan_parts parts (pos ts) sig
unfolding scan_parts cut bytes_beq
scan_timestamp parts ts b before sig bare parsed =
    let pair : cut b'=' (trim_space (codes "t=" ++ b)) ≡ some (codes "t", b) = ap (cut b'=') bare in
    rw (pair, parsed, scan_parts) refl

scan_signature :
    (parts : List Bytes) (sig : Bytes) (ts : ℤ) (before : Bytes)
    → trim_space (codes "v1=" ++ sig) ≡ codes "v1=" ++ sig
    → scan_parts ((codes "v1=" ++ sig) ∷ parts) ts before ≡ scan_parts parts ts sig
unfolding scan_parts cut bytes_beq
scan_signature parts sig ts before bare =
    let pair : cut b'=' (trim_space (codes "v1=" ++ sig)) ≡ some (codes "v1", sig) =
      ap (cut b'=') bare in
    rw (pair, scan_parts) refl

scanned :
    (ts : ℕ) (b sig : Bytes)
    → Digits ts b
    → ts < int64_limit
    → is_empty sig ≡ false
    → all is_plain sig ≡ true
    → parse_sig_header (codes "t=" ++ (b ++ (codes ",v1=" ++ sig))) ≡ some (ts, sig)
unfolding parse_sig_header scan_parts cut
scanned ts b sig d small full plain =
    let b_plain = digits-plain b d.1 in
    let first =
      split-first b',' (codes "t=" ++ b) (codes "v1=" ++ sig)
        (plain-no_comma (codes "t=" ++ b) (all-append is_plain (codes "t=") b refl b_plain)) in
    let second =
      split-only b',' (codes "v1=" ++ sig)
        (plain-no_comma (codes "v1=" ++ sig) (all-append is_plain (codes "v1=") sig refl plain)) in
    let bare =
      trim_space-plain (codes "t=" ++ b)
        (plain-no_space (codes "t=" ++ b) (all-append is_plain (codes "t=") b refl b_plain)) in
    let bare' =
      trim_space-plain (codes "v1=" ++ sig)
        (plain-no_space (codes "v1=" ++ sig) (all-append is_plain (codes "v1=") sig refl plain)) in
    let parts : split b',' (codes "t=" ++ (b ++ (codes ",v1=" ++ sig)))
        ≡ (codes "t=" ++ b) ∷ (codes "v1=" ++ sig) ∷ [] =
      first ∙ ap (◌∷◌ (codes "t=" ++ b)) second in
    let scan : scan_parts ((codes "t=" ++ b) ∷ (codes "v1=" ++ sig) ∷ []) (negsuc 0) []
        ≡ some (pos ts, sig) =
      scan_timestamp ((codes "v1=" ++ sig) ∷ []) ts b (negsuc 0) [] bare
        (parse_int64-Digits ts b d small)
      ∙ scan_signature [] sig (pos ts) [] bare' in
    ap (λ ps. checked_parts (scan_parts ps (negsuc 0) [])) parts
    ∙ (ap checked_parts scan ∙ rw full refl)

-- The parser reads back the header of a timestamp below 2^63 and a signature that is not empty and
-- has neither a comma nor a space.
pub parse_sig_header-signature_header :
    (ts : ℕ) (sig : Bytes)
    → ts < int64_limit
    → is_empty sig ≡ false
    → all is_plain sig ≡ true
    → parse_sig_header (signature_header ts sig) ≡ some (ts, sig)
unfolding decimal
parse_sig_header-signature_header ts sig small full plain =
    let (b, e, d) = decimal_onto-Digits (ts + 1) ts [] (omega arith) in
    subst (λ s. parse_sig_header (codes "t=" ++ (s ++ (codes ",v1=" ++ sig))) ≡ some (ts, sig))
      (sym (e ∙ append-nil b)) (scanned ts b sig d small full plain)
