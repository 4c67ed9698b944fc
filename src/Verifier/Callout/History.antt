-- ===== src/Verifier/Callout/History.antt =====
-- internal/verifier/callout.go: what vouches for a value that is accepted.
use mathlib.Core.Bool.{false≢true}
use mathlib.Core.Option.{none-ne-some}
use veilgate.Prelude.{
  ℕ, ◌≡◌, ◌<◌, ◌+◌, ◌⊎◌, inl, inr, refl, sym, ap, ◌∙◌, subst, arith, true, false, some, List, [],
  ◌∷◌, Bytes, ltb, Bool-cases, Option-cases, bytes_eq, bytes_beq_iff, ◌==◌, is_empty, lookup,
  insert, lookup-insert, codes,
}
use veilgate.Verifier.Disk.{Crypto}
use veilgate.Verifier.Callout.{
  CalloutEntry, CalloutValidator, Callout, Outcome, vouched, declined, callout, effective_ttl,
  call_out, callout_validate, vouch, refused,
}

Outcome-cases :
    (o : Outcome)
    → ((reason : Bytes) × (o ≡ declined reason))
      ⊎ ((client : Bytes) × (ttl : ℕ) × (o ≡ vouched client ttl))
Outcome-cases (declined reason) = inl (reason, refl)
Outcome-cases (vouched client ttl) = inr (client, ttl, refl)

module _ (crypto : Crypto) where
  -- A value that was validated, and the endpoint, decoder and times of that call.
  abbrev pub Call : Type 0
  Call = Callout × Bytes

  -- The endpoint vouched in that call for a value of the hash, and its answer is kept until the time.
  abbrev pub VouchedBy : ℕ → Call → Bytes → Bytes → ℕ → Type 0
  VouchedBy default (w, value) key client until =
      (ttl : ℕ) × (crypto.sha256 value ≡ key)
      × (callout w value ≡ vouched client ttl)
      × (until ≡ w.after + effective_ttl default ttl)

  -- One of the calls did, the newest of them first.
  abbrev pub SomeVouched : ℕ → List Call → Bytes → Bytes → ℕ → Type 0
  SomeVouched default [] key client until = ⊥
  SomeVouched default (c ∷ calls) key client until =
      VouchedBy default c key client until ⊎ SomeVouched default calls key client until

  -- The validator after calls, the newest of them first.
  unfoldable pub validated : CalloutValidator → List Call → CalloutValidator
  validated v [] = v
  validated v ((w, value) ∷ calls) = (callout_validate crypto w (validated v calls) value).state

  call_out-ttl :
      (w : Callout) (v : CalloutValidator) (value : Bytes)
      → (call_out crypto w v value).state.ttl ≡ v.ttl
  unfolding call_out
  call_out-ttl w v value = ground arith

  callout_validate-ttl :
      (w : Callout) (v : CalloutValidator) (value : Bytes)
      → (callout_validate crypto w v value).state.ttl ≡ v.ttl
  unfolding callout_validate
  callout_validate-ttl w v value = ground (arith, call_out-ttl w v value)

  validated-ttl :
      (start : CalloutValidator) (calls : List Call) → (validated start calls).ttl ≡ start.ttl
  unfolding validated
  validated-ttl start [] = refl
  validated-ttl start ((w, value) ∷ calls) =
      callout_validate-ttl w (validated start calls) value ∙ validated-ttl start calls

  -- An entry of the cache is an old one, or what the endpoint has just vouched for.
  call_out-lookup :
      (w : Callout) (v : CalloutValidator) (value key : Bytes) (entry : CalloutEntry)
      → lookup key (call_out crypto w v value).state.cache ≡ some entry
      → (lookup key v.cache ≡ some entry)
        ⊎ VouchedBy v.ttl (w, value) key entry.client entry.expires_at
  call_out-lookup w v value key entry h = elim (Outcome-cases (callout w value)) [
    | inl (reason, e) ↦
        let q : (call_out crypto w v value).state ≡ v = unfold call_out in rw (e, call_out) in
        inl (ap (λ s. lookup key s.cache) (sym q) ∙ h)
    | inr (client, ttl, e) ↦
        let new : CalloutEntry = record {
          client = client;
          expires_at = w.after + effective_ttl v.ttl ttl;
        } in
        let q : (call_out crypto w v value).state.cache ≡ insert (crypto.sha256 value) new v.cache =
          unfold call_out in rw (e, call_out) in
        let l =
          sym (lookup-insert (crypto.sha256 value) key new v.cache)
          ∙ (ap (lookup key) (sym q) ∙ h) in
        elim (Bool-cases (crypto.sha256 value == key)) [
          | inl same ↦
              let entry_new : new ≡ entry = ground arith in
              inr (
                ttl,
                (bytes_beq_iff _ _).0 same,
                e ∙ ap (λ x. vouched x.client ttl) entry_new,
                ap (λ x. x.expires_at) (sym entry_new),
              )
          | inr other ↦ inl (ground arith)
        ]
  ]

  -- A call is that of the endpoint, or leaves the validator as it was.
  callout_validate-state :
      (w : Callout) (v : CalloutValidator) (value : Bytes)
      → ((callout_validate crypto w v value).state ≡ v)
        ⊎ (callout_validate crypto w v value ≡ call_out crypto w v value)
  callout_validate-state w v value = elim (Bool-cases (is_empty value)) [
    | inl e ↦
        let q : callout_validate crypto w v value ≡ refused v (codes "value empty") =
          unfold callout_validate in rw e in
        inl (ap (λ o. o.state) q)
    | inr e ↦ elim (Option-cases (lookup (crypto.sha256 value) v.cache)) [
      | inl n ↦ inr (unfold callout_validate in rw (e, n, callout_validate))
      | inr (entry, n) ↦ elim (Bool-cases (ltb w.now entry.expires_at)) [
        | inl b ↦
            let q : callout_validate crypto w v value ≡ vouch v entry.client =
              unfold callout_validate in rw (e, n, b, callout_validate) in
            inl (ap (λ o. o.state) q)
        | inr b ↦ inr (unfold callout_validate in rw (e, n, b, callout_validate))
      ]
    ]
  ]

  cached-SomeVouched :
      (start : CalloutValidator) (calls : List Call) (key : Bytes) (entry : CalloutEntry)
      → start.cache ≡ []
      → lookup key (validated start calls).cache ≡ some entry
      → SomeVouched start.ttl calls key entry.client entry.expires_at
  unfolding validated lookup
  cached-SomeVouched start [] key entry fresh h =
      absurd (none-ne-some _ (ap (lookup key) (sym fresh) ∙ h))
  cached-SomeVouched start ((w, value) ∷ calls) key entry fresh h =
      let v = validated start calls in
      let old = cached-SomeVouched start calls key entry fresh in
      let t = validated-ttl start calls in
      elim (callout_validate-state w v value) [
        | inl q ↦ inr (old (ap (λ s. lookup key s.cache) (sym q) ∙ h))
        | inr q ↦
            elim (call_out-lookup w v value key entry
              (ap (λ o. lookup key o.state.cache) (sym q) ∙ h)) [
                | inl kept ↦ inr (old kept)
                | inr by ↦
                    inl (subst (λ d. VouchedBy d (w, value) key entry.client entry.expires_at) t by)
              ]
      ]

  call_out-vouched :
      (w : Callout) (v : CalloutValidator) (value : Bytes)
      → callout_validate crypto w v value ≡ call_out crypto w v value
      → (callout_validate crypto w v value).ok ≡ true
      → (ttl : ℕ) × (callout w value ≡ vouched (callout_validate crypto w v value).client ttl)
  call_out-vouched w v value q h = elim (Outcome-cases (callout w value)) [
    | inl (reason, e) ↦
        let k : (call_out crypto w v value).ok ≡ false = unfold call_out in rw (e, call_out) in
        absurd (false≢true (sym k ∙ (ap (λ o. o.ok) (sym q) ∙ h)))
    | inr (client, ttl, e) ↦
        let k : (call_out crypto w v value).client ≡ client = unfold call_out in rw (e, call_out) in
        (ttl, e ∙ ap (λ c. vouched c ttl) (sym (ap (λ o. o.client) q ∙ k)))
  ]

  -- A value that is accepted after any calls of a new validator: the endpoint vouches for it in this
  -- call, or did in an earlier one, for a value of the same hash and the same client, no longer ago
  -- than its answer is kept.
  pub callout_validate-vouched :
      (start : CalloutValidator) (calls : List Call) (w : Callout) (value : Bytes)
      → start.cache ≡ []
      → (callout_validate crypto w (validated start calls) value).ok ≡ true
      → ((ttl : ℕ) × (callout w value
            ≡ vouched (callout_validate crypto w (validated start calls) value).client ttl))
        ⊎ ((until : ℕ) × SomeVouched start.ttl calls
              (crypto.sha256 value)
              (callout_validate crypto w (validated start calls) value).client
              until
            × (w.now < until))
  callout_validate-vouched start calls w value fresh h =
      let v = validated start calls in
      elim (Bool-cases (is_empty value)) [
        | inl e ↦
            let q : callout_validate crypto w v value ≡ refused v (codes "value empty") =
              unfold callout_validate in rw e in
            absurd (false≢true (ap (λ o. o.ok) (sym q) ∙ h))
        | inr e ↦ elim (Option-cases (lookup (crypto.sha256 value) v.cache)) [
          | inl n ↦ inl (
              call_out-vouched w v value (unfold callout_validate in rw (e, n, callout_validate)) h)
          | inr (entry, n) ↦ elim (Bool-cases (ltb w.now entry.expires_at)) [
            | inl b ↦
                let q : callout_validate crypto w v value ≡ vouch v entry.client =
                  unfold callout_validate in rw (e, n, b, callout_validate) in
                inr (
                  entry.expires_at,
                  subst (λ c. SomeVouched start.ttl calls (crypto.sha256 value) c entry.expires_at)
                      (ap (λ o. o.client) (sym q))
                      (cached-SomeVouched start calls (crypto.sha256 value) entry fresh n),
                  ground arith,
                )
            | inr b ↦ inl (
                call_out-vouched w v value
                  (unfold callout_validate in rw (e, n, b, callout_validate)) h)
          ]
        ]
      ]

  -- A refused value leaves the cache as it was: refusals are not kept.
  pub callout_validate-refused :
      (w : Callout) (v : CalloutValidator) (value : Bytes)
      → (callout_validate crypto w v value).ok ≡ false
      → (callout_validate crypto w v value).state ≡ v
  callout_validate-refused w v value h = elim (callout_validate-state w v value) [
    | inl q ↦ q
    | inr q ↦ elim (Outcome-cases (callout w value)) [
      | inl (reason, e) ↦
          let k : call_out crypto w v value ≡ refused v reason =
            unfold call_out in rw (e, call_out) in
          ap (λ o. o.state) (q ∙ k)
      | inr (client, ttl, e) ↦
          let k : (call_out crypto w v value).ok ≡ true = unfold call_out in rw (e, call_out) in
          absurd (false≢true (sym h ∙ (ap (λ o. o.ok) q ∙ k)))
    ]
  ]
