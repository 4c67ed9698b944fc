-- ===== src/Proxy/Upload/Demands.antt =====
-- internal/proxy/upload.go: which requests pass the framing test and an upload policy.
use mathlib.Core.List.{Memᴰ}
use mathlib.Core.Bool.{false≢true}
use veilgate.Prelude.{
  ℕ, ◌≤◌, ◌<◌, ◌≡◌, ◌≢◌, ◌↔◌, ◌⊎◌, inl, inr, refl, sym, ◌∙◌, arith, Bool, true, false, List, [],
  ◌∷◌, Option, none, some, Bytes, codes, is_empty, is_empty_iff, ||-true, any, any_iff, length,
  eq_nil_of_length, trim_space, equal_fold, to_lower, has_prefix, has_suffix, bytes_beq_iff,
  Bool-cases,
}
use veilgate.Http.{Request, header_get, header_values}
use veilgate.Verifier.{Chain}
use veilgate.Proxy.Framing.{chunked}
use veilgate.Proxy.Framing.Smuggling.{only_chunked_iff}
use veilgate.Proxy.Upload.{
  UploadPolicy, transfer_codings, bad_request_framing, upload_method_allowed, type_fits,
  media_type_of, upload_content_type_allowed, declared_too_large, credential_accepted,
  enforce_upload_policy,
}

abbrev lengths : Request → List Bytes
lengths r = header_values (codes "Content-Length") r.headers

abbrev encodings : Request → List Bytes
encodings r = header_values (codes "Transfer-Encoding") r.headers

-- One way only to find the end of the body: at most one length, and a transfer coding only in a
-- version 1 after 1.0, with no length, and then "chunked" alone.
abbrev pub Framed : Request → Type 0
Framed r =
    (length (lengths r) ≤ 1)
    × (((r.transfer_encoding ≡ []) × (encodings r ≡ []))
        ⊎ ((r.proto_major < 2)
            × ((r.proto_major ≡ 0) ⊎ (r.proto_minor ≢ 0))
            × (lengths r ≡ [])
            × (r.content_length ≡ none)
            × (transfer_codings r ≡ chunked ∷ [])))

-- A request passes the framing test exactly if there is one way to find the end of its body.
pub bad_request_framing_iff : (r : Request) → (bad_request_framing r ≡ none) ↔ Framed r
unfolding bad_request_framing
bad_request_framing_iff r =
    ground (arith, only_chunked_iff (transfer_codings r), eq_nil_of_length (lengths r))

-- One of the operator's methods, up to case and surrounding space, or any where none is listed.
abbrev pub MethodFits : UploadPolicy → Bytes → Type 0
MethodFits p method =
    (p.methods ≡ []) ⊎ ((m : Bytes) × Memᴰ m p.methods × (equal_fold (trim_space m) method ≡ true))

-- An allowed type ending in "/" admits what it begins, any other only itself; an empty one nothing.
abbrev pub TypeFits : Bytes → Bytes → Type 0
TypeFits media_type allowed =
    let a = to_lower (trim_space allowed) in
    (a ≢ [])
    × (((has_suffix a (codes "/") ≡ true) × (has_prefix media_type a ≡ true))
        ⊎ ((has_suffix a (codes "/") ≡ false) × (media_type ≡ a)))

type_fits_iff : (t allowed : Bytes) → (type_fits t allowed ≡ true) ↔ TypeFits t allowed
type_fits_iff t allowed = ground (arith, bytes_beq_iff t (to_lower (trim_space allowed)))

abbrev pub ContentFits : (Bytes → Option Bytes) → UploadPolicy → Bytes → Type 0
ContentFits parse p raw =
    (p.allowed_content_types ≡ [])
    ⊎ ((trim_space raw ≢ [])
        × ((a : Bytes) × Memᴰ a p.allowed_content_types × TypeFits (media_type_of parse raw) a))

pub upload_method_allowed_iff :
    (p : UploadPolicy) (method : Bytes)
    → (upload_method_allowed p method ≡ true) ↔ MethodFits p method
unfolding upload_method_allowed
upload_method_allowed_iff p method = (
  λ h. elim ((||-true (is_empty p.methods) _).0 h) [
    | inl e ↦ inl ((is_empty_iff p.methods).0 e)
    | inr a ↦ inr ((any_iff _ p.methods).0 a)
  ],
  λ f. (||-true (is_empty p.methods) _).1 (elim f [
    | inl e ↦ inl ((is_empty_iff p.methods).1 e)
    | inr a ↦ inr ((any_iff _ p.methods).1 a)
  ]),
)

-- The loop over the allowed types, as one statement about each.
any_type_iff :
    (t : Bytes) (allowed : List Bytes)
    → (any (type_fits t) allowed ≡ true) ↔ ((a : Bytes) × Memᴰ a allowed × TypeFits t a)
any_type_iff t allowed = (
  λ h. let (a, m, e) = (any_iff (type_fits t) allowed).0 h in (a, m, (type_fits_iff t a).0 e),
  λ (a, m, f). (any_iff (type_fits t) allowed).1 (a, m, (type_fits_iff t a).1 f),
)

pub upload_content_type_allowed_iff :
    (parse : Bytes → Option Bytes) (p : UploadPolicy) (raw : Bytes)
    → (upload_content_type_allowed parse p raw ≡ true) ↔ ContentFits parse p raw
unfolding upload_content_type_allowed
upload_content_type_allowed_iff parse p raw =
    let each = any_type_iff (media_type_of parse raw) p.allowed_content_types in
    elim (Bool-cases (is_empty p.allowed_content_types)) [
      | inl e ↦ (λ h. inl ((is_empty_iff p.allowed_content_types).0 e), λ f. rw e)
      | inr e ↦ elim (Bool-cases (is_empty (trim_space raw))) [
        | inl b ↦
            rw (e, b)
              (
                λ h. cc,
                elim [
                  | inl none_listed ↦ cc (e, (is_empty_iff p.allowed_content_types).1 none_listed)
                  | inr (text, a) ↦ absurd (text ((is_empty_iff (trim_space raw)).0 b))
                ],
              )
        | inr b ↦
            rw (e, b)
              (
                λ h. inr (λ n. false≢true (sym b ∙ (is_empty_iff (trim_space raw)).1 n), each.0 h),
                elim [
                  | inl none_listed ↦
                      absurd
                        (false≢true (sym e ∙ (is_empty_iff p.allowed_content_types).1 none_listed))
                  | inr (text, a) ↦ each.1 a
                ],
              )
      ]
    ]

-- No limit, no declared length, or one within the limit.
abbrev pub LengthFits : UploadPolicy → Option ℕ → Type 0
LengthFits p none = Unit {0}
LengthFits p (some n) = (p.max_body_bytes ≡ 0) ⊎ (n ≤ p.max_body_bytes)

declared_too_large_iff :
    (p : UploadPolicy) (o : Option ℕ) → (declared_too_large p o ≡ false) ↔ LengthFits p o
unfolding declared_too_large
declared_too_large_iff p none = (λ _. tt, λ _. refl)
declared_too_large_iff p (some n) = ground arith

module _ {S : Type 0} (chain : Chain S) (challenge_passed : Option (S → Request → Bool)) where
  -- What a policy demands of a request.
  pub record Meets (parse : Bytes → Option Bytes) (p : UploadPolicy) (s : S) (r : Request)
      : Type 0 where
    pub method_fits : MethodFits p r.method
    pub length_fits : LengthFits p r.content_length
    pub content_fits : ContentFits parse p (header_get (codes "Content-Type") r)
    pub credential :
        (p.require_auth ≡ false)
        ⊎ ((credential_accepted chain challenge_passed p.verifier_policy s r).passed ≡ true)

  enforced :
      (parse : Bytes → Option Bytes) (p : UploadPolicy) (s : S) (r : Request)
      → let o = enforce_upload_policy chain challenge_passed parse p s r in
        ((o.blocked ≡ none) ↔ (
          (upload_method_allowed p r.method ≡ true)
          × (declared_too_large p r.content_length ≡ false)
          × (upload_content_type_allowed parse p (header_get (codes "Content-Type") r) ≡ true)
          × ((p.require_auth ≡ false)
              ⊎ ((credential_accepted chain challenge_passed p.verifier_policy s r).passed
                  ≡ true))))
        × ((o.auth_accepted ≡ true) ↔ ((o.blocked ≡ none) × (p.require_auth ≡ true)))
  unfolding enforce_upload_policy
  enforced parse p s r = ground arith

  -- A request passes an upload policy exactly if it meets what the policy demands. It counts as
  -- authenticated exactly if it passes a policy that wants a credential.
  pub enforce_upload_policy_iff :
      (parse : Bytes → Option Bytes) (p : UploadPolicy) (s : S) (r : Request)
      → let o = enforce_upload_policy chain challenge_passed parse p s r in
        ((o.blocked ≡ none) ↔ Meets parse p s r)
        × ((o.auth_accepted ≡ true) ↔ ((o.blocked ≡ none) × (p.require_auth ≡ true)))
  enforce_upload_policy_iff parse p s r =
      let (passes, accepted) = enforced parse p s r in
      let content = upload_content_type_allowed_iff parse p (header_get (codes "Content-Type") r) in
      (
        (
          λ h.
              let (m, l, c, a) = passes.0 h in
              record {
                method_fits = (upload_method_allowed_iff p r.method).0 m;
                length_fits = (declared_too_large_iff p r.content_length).0 l;
                content_fits = content.0 c;
                credential = a;
              },
          λ f. passes.1 (
            (upload_method_allowed_iff p r.method).1 f.method_fits,
            (declared_too_large_iff p r.content_length).1 f.length_fits,
            content.1 f.content_fits,
            f.credential,
          ),
        ),
        accepted,
      )
