-- ===== src/System.antt =====
-- How internal/proxy/proxy.go, internal/detector/scorer.go and internal/challenge/challenge.go work
-- together: the proxy's server with the scorer and the challenge handler that it is given.
pub mod Decisions
mod Samples
use veilgate.Prelude.{ℕ, Bool, Option, some, List, Bytes}
use veilgate.Http.{Request}
use veilgate.Proxy.ClientIp.{Addresses}
use veilgate.Proxy.Serve.{Server, ChallengeHandler}
use veilgate.Challenge.{Env, Handler}
use veilgate.Challenge.Tokens.{passed}
use veilgate.Detector.Scorer.{Hit}
use veilgate.Detector.Scorer.Total.{ScorerConfig, ScorerState, Callees, score}

-- The scorer's state and the challenge handler; `T` is a compiled template.
pub record SystemState (T : Type 0) : Type 0 where
  pub scorer : ScorerState
  pub handler : Handler T

-- What a request's `URL`, `Host` and `RequestURI` hold.
pub record Parts : Type 0 where
  pub raw_query : Bytes
  pub query : List (Bytes × Bytes)
  pub host : Bytes
  pub request_uri : Bytes

abbrev pub hit_of : (Request → Parts) → Request → Hit
hit_of parts r = record {
  request = r;
  raw_query = (parts r).raw_query;
  query = (parts r).query;
  host = (parts r).host;
  request_uri = (parts r).request_uri;
}

-- What the scorer and the handler need besides their state, during one call of `serve`.
pub record Wiring : Type 0 where
  pub config : ScorerConfig
  pub callees : Callees
  pub env : Env
  pub parts : Request → Parts
  pub now : ℕ
  pub start_path : Option Bytes

abbrev pub scored_by : {T : Type 0} → Wiring → Bytes → SystemState T → Request → SystemState T × ℕ
scored_by w client s r =
    let (scorer', given) = score w.config w.callees w.now client (hit_of w.parts r) s.scorer in
    (record s { scorer = scorer' }, given.total)

-- `s.scorer.Score` and `s.challengeHandler.Passed` in `serve`.
abbrev pub wired :
    {a : Addresses} {T : Type 0} → Wiring → Server a (SystemState T) → Server a (SystemState T)
wired w base = record base {
  score = scored_by w;
  challenge_handler =
      some (record { passed = λ s r. passed w.env w.now s.handler r; start_path = w.start_path });
}
