-- ===== src/Proxy/Framing/Smuggling.antt =====
-- internal/proxy/framing_guard.go: which header blocks the framing test lets pass.
use veilgate.Prelude.{
  ◌+◌, ◌≤◌, ◌≡◌, ◌↔◌, ◌⊎◌, inl, inr, refl, sym, ap, ◌∙◌, arith, Bool, true, false, not, ◌&&◌, ◌||◌,
  List, [], ◌∷◌, ◌++◌, append_assoc, append-nil, Option, none, some, Bytes, codes, ◌==◌, bytes_eq,
  bytes_beq, bytes_beq_iff, if◌then◌else◌, length, length-append, eq_nil_of_length, any, cut,
  trim_space, to_lower, has_suffix, split_crlf, Bool-cases,
}
use mathlib.Core.Bool.{false≢true}
use veilgate.Proxy.Framing.{
  Tally, no_fields, is_blank, colon, content_length, transfer_encoding, chunked, codings_of,
  all_codings, only_chunked, tally_field, tally_line, tally_lines, ambiguous, bad_lines,
  bad_http_request_framing,
}

-- A continuation of the line above (obs-fold).
abbrev pub is_folded : Bytes → Bool
is_folded [] = false
is_folded (c ∷ _) = is_blank c

abbrev pub field_value : Bytes → Option (Bytes × Bytes) → List Bytes
field_value name none = []
field_value name (some (n, v)) = if to_lower (trim_space n) == name then v ∷ [] else []

-- The values of the header lines with a name, in order.
abbrev pub values : Bytes → List Bytes → List Bytes
values name [] = []
values name (l ∷ ls) = field_value name (cut colon l) ++ values name ls

all_codings-append :
    (vs ws : List Bytes) → all_codings (vs ++ ws) ≡ all_codings vs ++ all_codings ws
all_codings-append [] ws = refl
all_codings-append (v ∷ vs) ws =
    rw (all_codings-append vs ws)
      (sym (append_assoc (codings_of v) (all_codings vs) (all_codings ws)))

abbrev added : Tally → List Bytes → List Bytes → Tally
added t lengths encodings = record {
  lengths = t.lengths + length lengths;
  codings = t.codings ++ all_codings encodings;
}

apart : bytes_beq content_length transfer_encoding ≡ false
unfolding bytes_beq
apart = refl

names_differ : (n : Bytes) → n ≡ content_length → n ≡ transfer_encoding → ⊥
names_differ n p q =
    false≢true (sym apart ∙ (bytes_beq_iff content_length transfer_encoding).1 (sym p ∙ q))

tally_field-added :
    (t : Tally) (f : Option (Bytes × Bytes))
    → tally_field t f ≡ added t (field_value content_length f) (field_value transfer_encoding f)
unfolding tally_field
tally_field-added t none = ground (arith, append-nil t.codings)
tally_field-added t (some (n, v)) = ground (
  arith,
  append-nil t.codings,
  append-nil (codings_of v),
  bytes_beq_iff (to_lower (trim_space n)) content_length,
  bytes_beq_iff (to_lower (trim_space n)) transfer_encoding,
  names_differ (to_lower (trim_space n)),
)

tally_line-added :
    (t : Tally) (l : Bytes)
    → is_folded l ≡ false
    → tally_line l t
      ≡ some (
          added t
            (field_value content_length (cut colon l))
            (field_value transfer_encoding (cut colon l)))
unfolding tally_line cut
tally_line-added t [] h = ground (arith, append-nil t.codings)
tally_line-added t (c ∷ l) h = rw h (ap some (tally_field-added t (cut colon (c ∷ l))))

tally_line_folded : (t : Tally) (l : Bytes) → is_folded l ≡ true → tally_line l t ≡ none
unfolding tally_line
tally_line_folded t [] h = cc
tally_line_folded t (c ∷ l) h = rw h

added-append :
    (t : Tally) (ls ms vs ws : List Bytes)
    → added (added t ls vs) ms ws ≡ added t (ls ++ ms) (vs ++ ws)
added-append t ls ms vs ws = ground (
  arith,
  length-append ls ms,
  all_codings-append vs ws,
  append_assoc t.codings (all_codings vs) (all_codings ws),
)

-- The loop is one pass of counting, unless a folded line stops it.
tally_lines-added :
    (ls : List Bytes) (t : Tally)
    → tally_lines ls t ≡ (
        if any is_folded ls
        then none
        else some (added t (values content_length ls) (values transfer_encoding ls)))
unfolding tally_lines
tally_lines-added [] t = ground (arith, append-nil t.codings)
tally_lines-added (l ∷ ls) t = elim (Bool-cases (is_folded l)) [
  | inl h ↦ rw (tally_line_folded t l h, tally_lines) (rw h)
  | inr h ↦
      rw (tally_line-added t l h, tally_lines)
        (rw h (
          tally_lines-added ls (
            added t (field_value content_length (cut colon l))
              (field_value transfer_encoding (cut colon l)))
          ∙ ap (λ u. if any is_folded ls then none else some u)
              (added-append t _ (values content_length ls) _ (values transfer_encoding ls))))
]

abbrev pub is_http1 : Bytes → Bool
is_http1 line = has_suffix line (codes "HTTP/1.0") || has_suffix line (codes "HTTP/1.1")

-- One way only to find the end of the body: no folded line, at most one length, and a transfer
-- coding only in HTTP/1.1, on its own, with no length beside it.
pub record OneFraming (line : Bytes) (lines : List Bytes) : Type 0 where
  pub unfolded : any is_folded lines ≡ false
  pub one_length : length (values content_length lines) ≤ 1
  pub one_coding :
      (all_codings (values transfer_encoding lines) ≡ [])
      ⊎ ((has_suffix line (codes "HTTP/1.0") ≡ false)
          × (values content_length lines ≡ [])
          × (all_codings (values transfer_encoding lines) ≡ chunked ∷ []))

pub only_chunked_iff : (cs : List Bytes) → (only_chunked cs ≡ true) ↔ (cs ≡ chunked ∷ [])
only_chunked_iff [] = (λ h. cc, λ h. cc)
only_chunked_iff (c ∷ []) = ground (arith, bytes_beq_iff c chunked)
only_chunked_iff (c ∷ d ∷ cs) = (λ h. cc, λ h. cc)

ambiguous_iff :
    (old : Bool) (vs cs : List Bytes)
    → (ambiguous old (record { lengths = length vs; codings = cs }) ≡ false)
      ↔ ((length vs ≤ 1) × ((cs ≡ []) ⊎ ((old ≡ false) × (vs ≡ []) × (cs ≡ chunked ∷ []))))
unfolding ambiguous
ambiguous_iff old vs [] = ground arith
ambiguous_iff old vs (c ∷ cs) = ground (arith, only_chunked_iff (c ∷ cs), eq_nil_of_length vs)

tested : (a b x : Bool) → (a || b) ≡ true → (if not a && not b then false else x) ≡ x
tested a b x h = ground arith

added-no_fields :
    (vs ws : List Bytes)
    → added no_fields vs ws ≡ record { lengths = length vs; codings = all_codings ws }
added-no_fields vs ws = ground arith

-- An HTTP/1.x header block passes the test exactly if it frames the body in one way.
pub bad_lines-OneFraming :
    (line : Bytes) (lines : List Bytes)
    → is_http1 line ≡ true
    → (bad_lines (line ∷ lines) ≡ false) ↔ OneFraming line lines
unfolding bad_lines
bad_lines-OneFraming line lines h = elim (Bool-cases (any is_folded lines)) [
  | inl f ↦
      rw (tally_lines-added lines no_fields, bad_lines)
        (rw f (rw (tested _ _ true h) (λ e. cc, λ o. cc (o.unfolded))))
  | inr f ↦
      rw (tally_lines-added lines no_fields, bad_lines)
        (rw f (
          rw (tested _ _ _ h) (
            (λ e.
                let (one, cs) = (ambiguous_iff _ _ _).0 (sym (counted _) ∙ e) in
                record { unfolded = f; one_length = one; one_coding = cs }),
            λ o. counted _ ∙ (ambiguous_iff _ _ _).1 (o.one_length, o.one_coding),
          )))
]
  where
    counted :
        (old : Bool)
        → ambiguous old
            (added no_fields (values content_length lines) (values transfer_encoding lines))
          ≡ ambiguous old (record {
            lengths = length (values content_length lines);
            codings = all_codings (values transfer_encoding lines);
          })
    counted old = ap (ambiguous old) (added-no_fields _ _)

-- A header block that passes the framing test and is HTTP/1.x frames its body in one way, and one
-- that does is never rejected. What is not HTTP/1.x is not this test's concern.
pub bad_http_request_framing_iff :
    (header line : Bytes) (lines : List Bytes)
    → split_crlf header ≡ line ∷ lines
    → (bad_http_request_framing header ≡ false) ↔ ((is_http1 line ≡ false) ⊎ OneFraming line lines)
unfolding bad_http_request_framing
bad_http_request_framing_iff header line lines e = elim (Bool-cases (is_http1 line)) [
  | inl h ↦ rw e (
    (λ b. inr ((bad_lines-OneFraming line lines h).0 b)),
    elim [ inl n ↦ cc | inr o ↦ (bad_lines-OneFraming line lines h).1 o ],
  )
  | inr h ↦ rw e ((λ b. inl h), λ _. unfold bad_lines in ground arith)
]
