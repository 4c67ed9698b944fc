-- ===== src/Verifier.antt =====
-- internal/verifier/verifier.go: the chain of authenticators that the proxy asks before it falls
-- back on the score. A verifier may read and replace the request's body and keep a cache, so a
-- call takes and returns the request and a state `S` that the verifiers share.
pub mod Disk
pub mod Hmac
pub mod Tokens
pub mod Bearer
pub mod Validators
pub mod Callout
pub mod Jwt
pub mod Order
pub mod Samples
use veilgate.Prelude.{
  ℕ, Bool, true, false, List, [], ◌∷◌, Option, none, some, Bytes, ◌==◌, bytes_eq, if◌then◌else◌,
  length, any,
}
use veilgate.Http.{Request}

pub record Result : Type 0 where
  pub accepted : Bool
  pub name : Bytes
  pub client : Bytes
  pub reason : Bytes

-- `Result{}`
abbrev pub no_result : Result
no_result = record { accepted = false; name = []; client = []; reason = [] }

-- `rejected`, less its counter
abbrev pub rejected : Bytes → Bytes → Result
rejected name reason = record { accepted = false; name = name; client = []; reason = reason }

pub record CredentialDescriptor : Type 0 where
  pub type_name : Bytes
  pub name : Bytes
  pub header : Bytes
  pub scheme : Bytes
  pub validator : Bytes

pub record Step (S : Type 0) : Type 0 where
  pub state : S
  pub request : Request
  pub result : Result

-- `descriptor` is `none` for a verifier that is not `Discoverable`.
pub record Verifier (S : Type 0) : Type 0 where
  pub name : Bytes
  pub verify : S → Request → Step S
  pub descriptor : Option CredentialDescriptor

-- A nil chain is `none`.
abbrev pub Chain : Type 0 → Type 0
Chain S = Option (List (Verifier S))

module _ {S : Type 0} where
  -- `NewChain`: nil entries are dropped.
  unfoldable pub kept : List (Option (Verifier S)) → List (Verifier S)
  kept [] = []
  kept (none ∷ vs) = kept vs
  kept (some v ∷ vs) = v ∷ kept vs

  unfoldable pub new_chain : List (Option (Verifier S)) → Chain S
  unfolding kept
  new_chain vs = some (kept vs)

  -- the loop of `Verify`
  unfoldable pub verify_all : List (Verifier S) → S → Request → Step S
  verify_all [] s r = record { state = s; request = r; result = no_result }
  verify_all (v ∷ vs) s r =
      let o = v.verify s r in
      let rest = verify_all vs o.state o.request in if o.result.accepted then o else rest

  unfoldable pub verify : Chain S → S → Request → Step S
  unfolding verify_all
  verify none s r = record { state = s; request = r; result = no_result }
  verify (some vs) s r = verify_all vs s r

  -- the loop of `VerifyExcept`
  unfoldable pub verify_all_except : List Bytes → List (Verifier S) → S → Request → Step S
  verify_all_except skip [] s r = record { state = s; request = r; result = no_result }
  verify_all_except skip (v ∷ vs) s r =
      let passed_over = verify_all_except skip vs s r in
      let o = v.verify s r in
      let rest = verify_all_except skip vs o.state o.request in
      if any (λ n. n == v.name) skip then passed_over else if o.result.accepted then o else rest

  unfoldable pub verify_except : Chain S → List Bytes → S → Request → Step S
  unfolding verify_all_except
  verify_except none skip s r = record { state = s; request = r; result = no_result }
  verify_except (some vs) skip s r = verify_all_except skip vs s r

  -- `Len`
  abbrev pub chain_length : Chain S → ℕ
  chain_length none = 0
  chain_length (some vs) = length vs

  unfoldable pub descriptors : List (Verifier S) → List CredentialDescriptor
  descriptors [] = []
  descriptors (v ∷ vs) = elim v.descriptor [ none ↦ descriptors vs | some d ↦ d ∷ descriptors vs ]

  unfoldable pub describe : Chain S → List CredentialDescriptor
  unfolding descriptors
  describe none = []
  describe (some vs) = descriptors vs
