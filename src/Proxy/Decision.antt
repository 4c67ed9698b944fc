-- ===== src/Proxy/Decision.antt =====
-- internal/proxy/proxy.go: `decide`, the credential check after it, and the labels of a score.
use veilgate.Prelude.{
  ℕ, ◌≤◌, ◌<◌, ◌≡◌, ◌↔◌, ◌⊎◌, arith, Bool, true, false, Bytes, codes, ◌==◌, bytes_eq, leb,
  if◌then◌else◌,
}

pub data Decision : Type 0 where
  real challenge tarpit observe : Decision

-- `Config.Mode`. A mode that is none of the four strings is `other`, the end of the switch.
pub data Mode : Type 0 where
  observe_mode challenge_mode tarpit_mode auto_mode other_mode : Mode

-- the strings of the `switch`
unfoldable pub read_mode : Bytes → Mode
read_mode s =
    if s == codes "observe"
    then observe_mode
    else if s == codes "challenge"
    then challenge_mode
    else if s == codes "tarpit"
    then tarpit_mode
    else if s == codes "auto"
    then auto_mode
    else other_mode

pub record Thresholds : Type 0 where
  pub challenge_at : ℕ
  pub tarpit_at : ℕ

unfoldable pub decide : Mode → Thresholds → ℕ → Decision
decide observe_mode t score = observe
decide challenge_mode t score = if leb t.challenge_at score then challenge else real
decide tarpit_mode t score =
    if leb t.tarpit_at score then tarpit else if leb t.challenge_at score then challenge else real
decide auto_mode t score =
    if leb t.tarpit_at score then tarpit else if leb t.challenge_at score then challenge else real
decide other_mode t score = real

abbrev pub is_tarpit : Decision → Bool
is_tarpit tarpit = true
is_tarpit _ = false

-- The authenticator chain: `passed` says that a verifier or a solved challenge accepts the request.
unfoldable pub after_credentials : Decision → Bool → Decision
after_credentials d passed = if is_tarpit d then d else if passed then real else d

pub data Severity : Type 0 where
  info warn error : Severity

-- `requestLog`
unfoldable pub request_log : Decision → Severity
request_log tarpit = error
request_log challenge = warn
request_log _ = info

pub data ThreatLevel : Type 0 where
  low medium high critical : ThreatLevel

unfoldable pub score_to_threat_level : ℕ → ThreatLevel
score_to_threat_level score =
    if leb 80 score
    then critical
    else if leb 60 score
    then high
    else if leb 30 score
    then medium
    else low

-- How far a decision keeps a client from the upstream.
abbrev pub rank : Decision → ℕ
rank real = 0
rank observe = 0
rank challenge = 1
rank tarpit = 2

-- A higher score is never treated more leniently, in any mode and whatever the thresholds.
pub decide_mono :
    (m : Mode) (t : Thresholds) (a b : ℕ) → a ≤ b → rank (decide m t a) ≤ rank (decide m t b)
unfolding decide
decide_mono m t a b h = ground arith

-- A request that is treated as an attack in the end was so by its score: credentials neither
-- cause nor lift it. Without credentials the decision stands.
pub after_credentials-tarpit_iff :
    (d : Decision) (passed : Bool) → (after_credentials d passed ≡ tarpit) ↔ (d ≡ tarpit)
unfolding after_credentials
after_credentials-tarpit_iff d passed = ground arith

-- When the request is diverted: the score reaches the threshold in a mode that enforces it and,
-- for the challenge tier, no credential is accepted.
pub diverted_iff :
    (m : Mode) (t : Thresholds) (score : ℕ) (passed : Bool)
    → let d = after_credentials (decide m t score) passed in
      ((d ≡ tarpit) ↔ (((m ≡ tarpit_mode) ⊎ (m ≡ auto_mode)) × (t.tarpit_at ≤ score)))
      × ((d ≡ challenge) ↔ (
          (passed ≡ false)
          × (t.challenge_at ≤ score)
          × ((m ≡ challenge_mode)
              ⊎ (((m ≡ tarpit_mode) ⊎ (m ≡ auto_mode)) × (score < t.tarpit_at)))))
unfolding decide after_credentials
diverted_iff observe_mode t score passed = ground arith
diverted_iff _ t score passed = ground arith
