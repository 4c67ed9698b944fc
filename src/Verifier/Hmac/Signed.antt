-- ===== src/Verifier/Hmac/Signed.antt =====
-- internal/verifier/hmac.go: which requests the verifier accepts, and the body it leaves.
use mathlib.Core.Bool.{false≢true}
use mathlib.Core.Option.{some-injective, none-ne-some}
use veilgate.Prelude.{
  sym, ◌∙◌, ℕ, ◌≡◌, ◌≤◌, ◌+◌, ◌↔◌, refl, ap, arith, true, false, [], ◌∷◌, Option, none, some, Bytes,
  is_empty, split, cut, trim_space, take, hex_decode, Option-cases, inl, inr, bytes_eq, suc, zero,
  bytes_beq_iff,
}
use veilgate.Http.{Request, header_get}
use veilgate.Verifier.Disk.{Disk, Crypto}
use veilgate.Verifier.Hmac.{
  HmacConfig, Cache, valid_client_name, parse_sig_header, load_secret, read_capped_body,
  capped_body, canonical, outside_window, judged, verify_signature, hmac_verify, replaced_body,
}

take-take : (n : ℕ) (s : Bytes) → take n (take n s) ≡ take n s
take-take zero s = refl
take-take (suc n) [] = refl
take-take (suc n) (c ∷ s) = ap (◌∷◌ c) (take-take n s)

module _ (crypto : Crypto) (disk : Disk) (now : ℕ) (cfg : HmacConfig) where
  abbrev pub client_name : Request → Bytes
  client_name r = trim_space (header_get cfg.header_client r)

  -- The signature is that of the first bytes of the body, as many as are hashed, by the secret of the
  -- client, at a time within the window.
  abbrev pub SignedBy : Request → ℕ → Bytes → Bytes → Type 0
  SignedBy r ts sig secret =
      (parse_sig_header (header_get cfg.header_signature r) ≡ some (ts, sig))
      × (now ≤ ts + cfg.clock_skew_sec)
      × (ts ≤ now + cfg.clock_skew_sec)
      × (hex_decode sig
          ≡ some (
              crypto.hmac_sha256 secret
                (canonical crypto ts r (capped_body cfg.max_body_bytes r.body))))

  abbrev pub Signed : Cache → Request → Type 0
  Signed cache r =
      (valid_client_name (client_name r) ≡ true)
      × (ts : ℕ) × (sig : Bytes) × (secret : Bytes) × ((load_secret disk cfg.clients_dir
            (client_name r) cache).1
          ≡ some secret)
      × SignedBy r ts sig secret

  judged_iff :
      (expected : Bytes) (provided : Option Bytes) (client : Bytes)
      → ((judged expected provided client).accepted ≡ true) ↔ (provided ≡ some expected)
  judged_iff expected none client = ground arith
  judged_iff expected (some p) client = ground (arith, bytes_beq_iff expected p)

  verify_signature_iff :
      (client : Bytes) (ts : ℕ) (sig : Bytes) (cache : Cache) (r : Request)
      → ((verify_signature crypto disk now cfg client ts sig cache r).result.accepted ≡ true) ↔ (
          (secret : Bytes) × ((load_secret disk cfg.clients_dir client cache).1 ≡ some secret)
          × (hex_decode sig
              ≡ some (
                  crypto.hmac_sha256 secret
                    (canonical crypto ts r (capped_body cfg.max_body_bytes r.body)))))
  verify_signature_iff client ts sig cache r =
      elim (Option-cases (load_secret disk cfg.clients_dir client cache).1) [
        | inl e ↦
            unfold verify_signature in
            (
              λ h. absurd (false≢true (ground arith)),
              λ (secret, k, _). absurd (none-ne-some _ (sym e ∙ k)),
            )
        | inr (secret, e) ↦
            let key =
              crypto.hmac_sha256 secret
                (canonical crypto ts r (capped_body cfg.max_body_bytes r.body)) in
            let q : (verify_signature crypto disk now cfg client ts sig cache r).result
                ≡ judged key (hex_decode sig) client =
              unfold verify_signature read_capped_body in rw (e, verify_signature) in
            (
              λ h. (
                secret,
                e,
                (judged_iff key (hex_decode sig) client).0 (ap (λ u. u.accepted) (sym q) ∙ h),
              ),
              λ (x, k, d).
                  ap (λ u. u.accepted) q
                  ∙ (judged_iff key (hex_decode sig) client).1 (
                      d
                      ∙ ap
                          (λ y. some (
                            crypto.hmac_sha256 y
                              (canonical crypto ts r (capped_body cfg.max_body_bytes r.body))))
                          (some-injective _ _ (sym k ∙ e))),
            )
      ]

  abbrev parsed : Request → Option (ℕ × Bytes)
  parsed r = parse_sig_header (header_get cfg.header_signature r)

  parsed-nonempty : (h : Bytes) (o : ℕ × Bytes) → parse_sig_header h ≡ some o → is_empty h ≡ false
  unfolding parse_sig_header split cut trim_space
  parsed-nonempty [] o e = absurd (none-ne-some _ e)
  parsed-nonempty (c ∷ h) o e = refl

  valid-nonempty : (s : Bytes) → valid_client_name s ≡ true → is_empty s ≡ false
  unfolding valid_client_name
  valid-nonempty s h = ground arith

  -- Past the guards there is the signature.
  past_guards :
      (cache : Cache) (r : Request) (ts : ℕ) (sig : Bytes)
      → parsed r ≡ some (ts, sig)
      → valid_client_name (client_name r) ≡ true
      → outside_window cfg.clock_skew_sec now ts ≡ false
      → hmac_verify crypto disk now cfg cache r
        ≡ verify_signature crypto disk now cfg (client_name r) ts sig cache r
  past_guards cache r ts sig p v w =
      unfold hmac_verify in rw (parsed-nonempty _ _ p, valid-nonempty _ v, v, p, w, hmac_verify)

  -- Whoever is accepted has passed the guards.
  guarded :
      (cache : Cache) (r : Request)
      → (hmac_verify crypto disk now cfg cache r).result.accepted ≡ true
      → (ts : ℕ) × (sig : Bytes) × (parsed r ≡ some (ts, sig))
        × (valid_client_name (client_name r) ≡ true)
        × (outside_window cfg.clock_skew_sec now ts ≡ false)
  unfolding hmac_verify
  guarded cache r h = elim (Option-cases (parsed r)) [
    | inl p ↦ absurd (false≢true (ground arith))
    | inr ((ts, sig), p) ↦ (ts, sig, p, valid, inside ts sig p)
  ]
    where
      valid : valid_client_name (client_name r) ≡ true
      valid = ground arith

      inside :
          (ts : ℕ) (sig : Bytes)
          → parsed r ≡ some (ts, sig)
          → outside_window cfg.clock_skew_sec now ts ≡ false
      inside ts sig p = ground arith

  -- A request is accepted exactly if its client's name is valid, the client has a secret, and the
  -- signature header gives a time within the window and the keyed hash, under that secret, of the
  -- time, the method, the path and the hash of the body up to the cap.
  pub hmac_verify_iff :
      (cache : Cache) (r : Request)
      → ((hmac_verify crypto disk now cfg cache r).result.accepted ≡ true) ↔ Signed cache r
  hmac_verify_iff cache r = (forth, back)
    where
      forth : (hmac_verify crypto disk now cfg cache r).result.accepted ≡ true → Signed cache r
      forth h =
          let (ts, sig, p, v, w) = guarded cache r h in
          let (secret, k, d) =
            (verify_signature_iff (client_name r) ts sig cache r).0
              (ap (λ o. o.result.accepted) (sym (past_guards cache r ts sig p v w)) ∙ h) in
          (v, ts, sig, secret, k, (p, ground arith, ground arith, d))

      back : Signed cache r → (hmac_verify crypto disk now cfg cache r).result.accepted ≡ true
      back (v, ts, sig, secret, k, (p, early, late, d)) =
          ap (λ o. o.result.accepted) (past_guards cache r ts sig p v (ground arith))
          ∙ (verify_signature_iff (client_name r) ts sig cache r).1 (secret, k, d)

  capped-replaced :
      (b : Option Bytes)
      → capped_body cfg.max_body_bytes (replaced_body cfg.max_body_bytes b)
        ≡ capped_body cfg.max_body_bytes b
  capped-replaced none = refl
  capped-replaced (some b) = take-take cfg.max_body_bytes b

  verify_signature-body :
      (client : Bytes) (ts : ℕ) (sig : Bytes) (cache : Cache) (r : Request)
      → (verify_signature crypto disk now cfg client ts sig cache r).result.accepted ≡ true
      → (verify_signature crypto disk now cfg client ts sig cache r).request.body
        ≡ replaced_body cfg.max_body_bytes r.body
  unfolding verify_signature read_capped_body
  verify_signature-body client ts sig cache r h =
      elim (Option-cases (load_secret disk cfg.clients_dir client cache).1) [
        | inl e ↦ absurd (false≢true (ground arith))
        | inr (secret, e) ↦ rw (e, verify_signature) refl
      ]

  abbrev without_rest : Request → Request
  without_rest r = (read_capped_body cfg.max_body_bytes r).0

  verify_signature-without_rest :
      (client : Bytes) (ts : ℕ) (sig : Bytes) (cache : Cache) (r : Request)
      → (verify_signature crypto disk now cfg client ts sig cache (without_rest r)).result
        ≡ (verify_signature crypto disk now cfg client ts sig cache r).result
  unfolding verify_signature read_capped_body canonical
  verify_signature-without_rest client ts sig cache r =
      elim (Option-cases (load_secret disk cfg.clients_dir client cache).1) [
        | inl e ↦ rw (e, verify_signature) refl
        | inr (secret, e) ↦ rw (e, verify_signature) (rw (capped-replaced r.body) refl)
      ]

  header-without_rest :
      (name : Bytes) (r : Request) → header_get name (without_rest r) ≡ header_get name r
  unfolding header_get read_capped_body
  header-without_rest name r = refl

  verdict-without_rest :
      (cache : Cache) (r : Request)
      → (hmac_verify crypto disk now cfg cache (without_rest r)).result
        ≡ (hmac_verify crypto disk now cfg cache r).result
  unfolding hmac_verify
  verdict-without_rest cache r = elim (Option-cases (parsed r)) [
    | inl p ↦
        ground (
          arith,
          header-without_rest cfg.header_signature r,
          header-without_rest cfg.header_client r,
        )
    | inr ((ts, sig), p) ↦ ground (
      arith,
      header-without_rest cfg.header_signature r,
      header-without_rest cfg.header_client r,
      verify_signature-without_rest (client_name r) ts sig cache r,
    )
  ]

  -- The bytes of the body past the cap count for nothing: the request without them gets the same
  -- verdict.
  pub hmac_verify-capped :
      (cache : Cache) (r : Request)
      → (hmac_verify crypto disk now cfg cache (read_capped_body cfg.max_body_bytes r).0).result
        ≡ (hmac_verify crypto disk now cfg cache r).result
  hmac_verify-capped cache r = verdict-without_rest cache r

  -- A request that is accepted goes on without the bytes of its body past the cap.
  pub hmac_verify-cuts :
      (cache : Cache) (r : Request)
      → (hmac_verify crypto disk now cfg cache r).result.accepted ≡ true
      → (hmac_verify crypto disk now cfg cache r).request.body
        ≡ replaced_body cfg.max_body_bytes r.body
  hmac_verify-cuts cache r h =
      let (ts, sig, p, v, w) = guarded cache r h in
      let q = past_guards cache r ts sig p v w in
      ap (λ o. o.request.body) q
      ∙ verify_signature-body (client_name r) ts sig cache r
          (ap (λ o. o.result.accepted) (sym q) ∙ h)
