-- ===== src/Challenge/Proof.antt =====
-- internal/challenge/challenge.go: `verifyPOW`, which checks a posted solution and remembers it. A
-- call takes place at one time.
use veilgate.Prelude.{
  ℕ, ◌+◌, ◌-◌, ◌*◌, Bool, true, false, not, ◌&&◌, ◌||◌, Option, none, some, [], ◌++◌, Bytes, codes,
  ◌==◌, bytes_eq, ltb, leb, if◌then◌else◌, is_empty, trim_space, has_prefix, has_suffix, take,
  replicate, length, has, insert, retain, ℤ, pos, parse_int64, decimal, hex_encode,
}
use veilgate.Http.{Request, status_bad_request, status_unauthorized, status_no_content}
use veilgate.Challenge.{
  ChallengeRules, VerifyRequest, Env, Seen, minute, sign, challenge_payload, normalized_difficulty,
  challenge_ttl,
}

abbrev natural : Option ℤ → Option ℕ
natural (some (pos n)) = some n
natural _ = none

abbrev parse_unquoted : Option Bytes → Option ℕ
parse_unquoted none = none
parse_unquoted (some s) = natural (parse_int64 s)

-- `parseNonce`
unfoldable pub parse_nonce : Env → Bytes → Option ℕ
parse_nonce env raw =
    let s = trim_space raw in
    if is_empty s
    then none
    else if leb 2 (length s) && (has_prefix s (codes "\"") && has_suffix s (codes "\""))
    then parse_unquoted (env.unquote s)
    else parse_unquoted (some s)

-- `nonceKey`, which is also the text that is hashed
abbrev pub nonce_key : Bytes → ℕ → Bytes
nonce_key challenge nonce = challenge ++ (codes ":" ++ decimal nonce)

-- The hash of the text begins with as many zeros as the difficulty asks for.
unfoldable pub is_solution : Env → ChallengeRules → Bytes → ℕ → Bool
is_solution env cr challenge nonce =
    has_prefix (hex_encode (env.crypto.sha256 (nonce_key challenge nonce)))
      (replicate (normalized_difficulty cr.difficulty) b'0')

abbrev pub missing_field : VerifyRequest → Bool
missing_field req =
    is_empty req.challenge || (is_empty req.ts || (is_empty req.sig || is_empty req.nonce))

abbrev body_of : Option Bytes → Bytes
body_of none = []
body_of (some b) = b

-- The decoder of `verifyPOW`, which is given at most 8 KB.
abbrev pub decoded : Env → Request → Option VerifyRequest
decoded env r = env.decode (take 8192 (body_of r.body))

-- The results of `verifyPOW`, and the entries after it.
pub record Judged : Type 0 where
  pub seen : Seen
  pub ok : Bool
  pub code : ℕ

abbrev pub refused : Seen → ℕ → Judged
refused seen code = record { seen = seen; ok = false; code = code }

-- The entries that have expired go; then `LoadOrStore`.
unfoldable pub load_or_store : ℕ → ℕ → Bytes → Seen → Judged
load_or_store now ttl key seen =
    let kept = retain (λ expires. not (ltb expires now)) seen in
    if has key kept
    then refused kept status_unauthorized
    else record { seen = insert key (now + ttl) kept; ok = true; code = status_no_content }

module _ (env : Env) (secret : Bytes) (max_ttl : ℕ) (cr : ChallengeRules) where
  -- From the time of issue on.
  unfoldable pub verify_solution : ℕ → Seen → VerifyRequest → ℕ → Judged
  verify_solution now seen req issued =
      if ltb (now + 2 * minute) issued
      then refused seen status_unauthorized
      else if ltb (challenge_ttl max_ttl cr) (now - issued)
      then refused seen status_unauthorized
      else elim (parse_nonce env req.nonce) [
        | none ↦ refused seen status_bad_request
        | some nonce ↦
            if not (is_solution env cr req.challenge nonce)
            then refused seen status_unauthorized
            else load_or_store now (challenge_ttl max_ttl cr) (nonce_key req.challenge nonce) seen
      ]

  unfoldable pub verify_decoded : ℕ → Seen → VerifyRequest → Judged
  verify_decoded now seen req =
      if missing_field req
      then refused seen status_bad_request
      else if not (req.sig == sign env secret (challenge_payload req.challenge req.ts))
      then refused seen status_unauthorized
      else elim (env.clock.parse_nano req.ts) [
        | none ↦ refused seen status_bad_request
        | some issued ↦ verify_solution now seen req issued
      ]

  -- `verifyPOW`
  unfoldable pub verify_pow : ℕ → Seen → Request → Judged
  verify_pow now seen r = elim (decoded env r) [
    | none ↦ refused seen status_bad_request
    | some req ↦ verify_decoded now seen req
  ]
