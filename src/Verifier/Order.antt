-- ===== src/Verifier/Order.antt =====
-- internal/verifier/verifier.go: whose result the chain returns.
use veilgate.Prelude.{
  ◌≡◌, ◌⊎◌, inl, inr, refl, ap, arith, Bool, true, false, not, List, [], ◌∷◌, ◌++◌, Bytes, ◌==◌,
  bytes_eq, any, filter, Bool-cases,
}
use veilgate.Http.{Request}
use veilgate.Verifier.{no_result, Step, Verifier, verify_all, verify_all_except}

-- The verifiers are asked in turn and none accepts; each sees the state and the request that the
-- one before it left.
pub data Declines {S : Type 0} : List (Verifier S) → S → Request → S → Request → Type 0 where
  nobody : (s : S) (r : Request) → Declines [] s r s r
  next :
      {v : Verifier S} {vs : List (Verifier S)} {s s' : S} {r r' : Request}
      → (v.verify s r).result.accepted ≡ false
      → Declines vs (v.verify s r).state (v.verify s r).request s' r'
      → Declines (v ∷ vs) s r s' r'

-- The first verifier that accepts is asked last, and its step is the chain's.
pub record Accepted {S : Type 0} (vs : List (Verifier S)) (s : S) (r : Request) (o : Step S)
    : Type 0 where
  pub before : List (Verifier S)
  pub winner : Verifier S
  pub after : List (Verifier S)
  pub splits : vs ≡ before ++ winner ∷ after
  pub state : S
  pub request : Request
  pub declined : Declines before s r state request
  pub accepts : (winner.verify state request).result.accepted ≡ true
  pub returned : o ≡ winner.verify state request

module _ {S : Type 0} where
  Accepted-cons :
      (v : Verifier S) {vs : List (Verifier S)} {s : S} {r : Request} {o : Step S}
      → (v.verify s r).result.accepted ≡ false
      → Accepted vs (v.verify s r).state (v.verify s r).request o
      → Accepted (v ∷ vs) s r o
  Accepted-cons v no_luck a = record {
    before = v ∷ a.before;
    winner = a.winner;
    after = a.after;
    splits = ap (◌∷◌ v) a.splits;
    state = a.state;
    request = a.request;
    declined = next no_luck a.declined;
    accepts = a.accepts;
    returned = a.returned;
  }

  -- The chain returns the step of the first verifier that accepts, or, where all decline, an empty
  -- result with the state and the request as the last of them left these.
  pub verify_all-first :
      (vs : List (Verifier S)) (s : S) (r : Request)
      → Accepted vs s r (verify_all vs s r)
        ⊎ (Declines vs s r (verify_all vs s r).state (verify_all vs s r).request
            × ((verify_all vs s r).result ≡ no_result))
  unfolding verify_all
  verify_all-first [] s r = inr (nobody s r, refl)
  verify_all-first (v ∷ vs) s r = elim (Bool-cases (v.verify s r).result.accepted) [
    | inl h ↦ inl (record {
      before = [];
      winner = v;
      after = vs;
      splits = refl;
      state = s;
      request = r;
      declined = nobody s r;
      accepts = h;
      returned = ground arith;
    })
    | inr h ↦ rw h (elim (verify_all-first vs (v.verify s r).state (v.verify s r).request) [
      | inl a ↦ inl (Accepted-cons v h a)
      | inr (d, e) ↦ inr (next h d, e)
    ])
  ]

  abbrev pub wanted : List Bytes → Verifier S → Bool
  wanted skip v = not (any (λ n. n == v.name) skip)

  -- `VerifyExcept` is `Verify` on the chain without the verifiers that are named: these are not
  -- called, so they touch neither the state nor the request.
  pub verify_all_except-filter :
      (skip : List Bytes) (vs : List (Verifier S)) (s : S) (r : Request)
      → verify_all_except skip vs s r ≡ verify_all (filter (wanted skip) vs) s r
  unfolding verify_all_except verify_all
  verify_all_except-filter skip [] s r = refl
  verify_all_except-filter skip (v ∷ vs) s r = ground (
    arith,
    verify_all_except-filter skip vs s r,
    verify_all_except-filter skip vs (v.verify s r).state (v.verify s r).request,
  )
