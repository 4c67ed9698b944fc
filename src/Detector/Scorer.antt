-- ===== src/Detector/Scorer.antt =====
-- internal/detector/scorer.go and the rules of internal/rules/loader.go: what the scorers are given
-- and what they give. A negative number of the rules counts as 0, which a scorer treats alike.
pub mod Headers
pub mod Toolchain
pub mod Session
pub mod Network
pub mod Behaviour
pub mod Custom
pub mod Total
pub mod Bounds
pub mod Memory
pub mod Honeypots
pub mod Sequences
mod Samples
use veilgate.Prelude.{
  ℕ, Bool, Option, List, [], ◌∷◌, ◌++◌, Bytes, codes, ltb, leb, ◌==◌, bytes_eq, if◌then◌else◌,
  is_empty, any, contains, to_lower, decimal, hex_encode, length,
}
use veilgate.Http.{Request, header_get}

pub record Signal : Type 0 where
  pub name : Bytes
  pub points : ℕ
  pub reason : Bytes

abbrev pub signal : Bytes → ℕ → Bytes → Signal
signal name points reason = record { name = name; points = points; reason = reason }

-- `Signal{}`
abbrev pub no_signal : Signal
no_signal = record { name = []; points = 0; reason = [] }

pub record Score : Type 0 where
  pub total : ℕ
  pub signals : List Signal

-- A request, and the parts of it that `Request` has not: the query, raw and parsed, the host and the
-- request line's target.
pub record Hit : Type 0 where
  pub request : Request
  pub raw_query : Bytes
  pub query : List (Bytes × Bytes)
  pub host : Bytes
  pub request_uri : Bytes

-- A number from which on a signal has its points.
pub record Tier : Type 0 where
  pub at : ℕ
  pub points : ℕ

-- Substrings, and the points for one of them.
pub record Markers : Type 0 where
  pub points : ℕ
  pub substrings : List Bytes
  pub headers : List Bytes

pub record ToolchainRules : Type 0 where
  pub recon_paths : List Bytes
  pub probe_paths : List Bytes
  pub exploit_markers : List Bytes
  pub full : ℕ
  pub partial : ℕ

pub record AuthPathPattern : Type 0 where
  pub pattern : Bytes
  pub label : Bytes
  pub exclude : Bytes

-- `min` is a least number of events or requests; what a signal has not is 0.
pub record Thresholds : Type 0 where
  pub min : ℕ
  pub window_minutes : ℕ
  pub low : Tier
  pub mid : Tier
  pub high : Tier

pub record BehaviouralRules : Type 0 where
  pub schema_paths : List Bytes
  pub auth_path_patterns : List AuthPathPattern
  pub check_limit : ℕ
  pub schema_first_points : ℕ
  pub cache_miss : Thresholds
  pub header_mutation : Thresholds
  pub auth_probe : Thresholds
  pub no_cookie_min : ℕ
  pub no_cookie_points : ℕ
  pub single_points : ℕ
  pub multi_points : ℕ
  pub triple_points : ℕ

pub record DetectorRules : Type 0 where
  pub suspicious_user_agents : Markers
  pub browser_hints : List Bytes
  pub browser_tiers : List Tier
  pub empty_user_agent : ℕ
  pub toolchain : ToolchainRules
  pub path_bruteforce : List Tier
  pub wordlist_paths : Markers
  pub injection_markers : Markers
  pub oob_interaction : Markers
  pub behavioural : BehaviouralRules

-- The first tier that a number reaches.
unfoldable pub first_tier : List Tier → ℕ → Option Tier
first_tier [] n = Option.none
first_tier (t ∷ ts) n = let rest = first_tier ts n in if leb t.at n then Option.some t else rest

-- The first of some texts that is found, in lower case, in one of others.
unfoldable pub first_marker : List Bytes → List Bytes → Option Bytes
first_marker [] places = Option.none
first_marker (sub ∷ subs) places =
    let rest = first_marker subs places in
    if any (λ h. contains h (to_lower sub)) places then Option.some sub else rest

-- `len` of the set of the texts.
unfoldable pub distinct_onto : List Bytes → List Bytes → List Bytes
distinct_onto [] seen = seen
distinct_onto (s ∷ ss) seen = distinct_onto ss (if any (λ t. t == s) seen then seen else s ∷ seen)

abbrev pub distinct : List Bytes → ℕ
distinct ss = length (distinct_onto ss [])

abbrev pub user_agent : Request → Bytes
user_agent r = header_get (codes "User-Agent") r

-- the UTF-8 bytes of an em dash between spaces, and of an arrow
abbrev pub dash : Bytes
dash = 32 ∷ 226 ∷ 128 ∷ 148 ∷ 32 ∷ []

abbrev pub arrow : Bytes
arrow = 226 ∷ 134 ∷ 146 ∷ []

-- A nanosecond's multiple: a minute.
abbrev pub minute : ℕ
minute = 60000000000

-- `orDefault`
abbrev pub or_default : ℕ → ℕ → ℕ
or_default v default = if ltb 0 v then v else default

-- `looksLikeBrowserUA`
unfoldable pub looks_like_browser_ua : Bytes → Bool
looks_like_browser_ua ua =
    let low = to_lower ua in
    if is_empty low
    then Bool.false
    else if contains low (codes "headlesschrome")
    then Bool.false
    else any (λ tok. contains low tok)
        (codes "chrome/"
          ∷ codes "firefox/"
          ∷ codes "safari/"
          ∷ codes "edg/"
          ∷ codes "edge/"
          ∷ codes "opera/"
          ∷ codes "opr/"
          ∷ [])
