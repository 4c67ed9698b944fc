-- ===== src/Detector/Scorer/Honeypots.antt =====
-- internal/detector/scorer.go: what a path of the honeypot list costs.
use veilgate.Prelude.{
  ℕ, ◌≡◌, ◌≤◌, ◌+◌, refl, ap, ◌∙◌, arith, Bool, true, false, Option, none, some, List, ◌++◌, Bytes,
  ltb, bytes_eq, bytes_beq_iff, if◌then◌else◌, lookup, lookup-insert,
}
use veilgate.Detector.Tracker.{
  ClientEvent, ClientState, Tracker, record_request, record_event, state_of,
}
use veilgate.Detector.Scorer.{Hit}
use veilgate.Detector.Scorer.Network.{score_fleet_rotation}
use veilgate.Detector.Scorer.Total.{
  ScorerConfig, ScorerState, Callees, event_of, is_honeypot, honeypotted, honeypot_signals,
  points_of, capped, further_signals, all_signals, ja4_of, raw_signals, is_trusted, score_client,
  score, configured_by,
}
use veilgate.Detector.Scorer.Memory.{
  ScorerCall, Timely, scored_all, scored_all-Remembers, first-Remembers,
}
use veilgate.Detector.Scorer.Bounds.{untrusted_score, recorded, current, points_of-append}

-- The honeypot hits that are recorded of a client.
abbrev pub hits : ScorerState → Bytes → ℕ
hits s client = (state_of (lookup client s.tracker.clients) 0).honeypot_hits

abbrev hits_in : Tracker → Bytes → ℕ
hits_in t client = (state_of (lookup client t.clients) 0).honeypot_hits

-- Recording a request changes nobody's hits.
record_request-hits :
    (client c : Bytes) (evt : ClientEvent) (t : Tracker)
    → hits_in (record_request client evt t) c ≡ hits_in t c
unfolding record_request record_event
record_request-hits client c evt t = ground (
  arith,
  lookup-insert client c
      (record_event t.window t.max_hist (state_of (lookup client t.clients) evt.timestamp) evt)
      t.clients,
  bytes_beq_iff client c,
)

state_of-hits :
    (o : Option ClientState) (now : ℕ)
    → (state_of o now).honeypot_hits ≡ (state_of o 0).honeypot_hits
state_of-hits none now = refl
state_of-hits (some st) now = refl

honeypotted-hits :
    (hit : Bool) (st : ClientState)
    → (honeypotted hit st).honeypot_hits ≡ (if hit then st.honeypot_hits + 1 else st.honeypot_hits)
unfolding honeypotted
honeypotted-hits true st = refl
honeypotted-hits false st = refl

honeypot_signals-points :
    (st : ClientState)
    → points_of (honeypot_signals true st) ≡ (if ltb 1 st.honeypot_hits then 80 else 50)
unfolding points_of honeypot_signals
honeypot_signals-points st = ground arith

capped-least :
    (again : Bool) (n : ℕ) → (if again then 80 else 50) ≤ n → (if again then 80 else 50) ≤ capped n
capped-least true n h = ground arith
capped-least false n h = ground arith

module _ (cfg : ScorerConfig) (callees : Callees) where
  current-hits :
      (now : ℕ) (client : Bytes) (hit : Hit) (s : ScorerState)
      → (current cfg callees now client hit s).honeypot_hits
        ≡ (if is_honeypot cfg hit.request then hits s client + 1 else hits s client)
  current-hits now client hit s =
      honeypotted-hits (is_honeypot cfg hit.request)
        (state_of (lookup client (recorded cfg callees now client hit s).clients) now)
      ∙ ap (λ n. if is_honeypot cfg hit.request then n + 1 else n)
          (state_of-hits (lookup client (recorded cfg callees now client hit s).clients) now
            ∙ record_request-hits client client (event_of cfg.rules now hit) s.tracker)

  client_points :
      (now : ℕ) (client : Bytes) (hit : Hit) (s : ScorerState) (st : ClientState)
      → is_honeypot cfg hit.request ≡ true
      → cfg.signals ≡ none
      → (if ltb 1 st.honeypot_hits then 80 else 50)
        ≤ (score_client cfg callees now client hit s st).1.total
  unfolding score_client
  client_points now client hit s st h g =
      let fleet_signal =
        (score_fleet_rotation callees.sha1 callees.family cfg.fleet_rotation now client
          (ja4_of cfg callees hit.request) hit.request s.fleet).1 in
      let more = further_signals cfg callees now client hit st fleet_signal in
      let first = honeypot_signals-points st in
      let all : points_of (all_signals cfg callees now client hit st fleet_signal)
          ≡ points_of (honeypot_signals true st) + points_of more =
        ap
          (λ o.
            points_of (configured_by o (raw_signals cfg callees now client hit st fleet_signal)))
          g
        ∙ (ap (λ b. points_of (honeypot_signals b st ++ more)) h
            ∙ points_of-append (honeypot_signals true st) more) in
      capped-least (ltb 1 st.honeypot_hits)
        (points_of (all_signals cfg callees now client hit st fleet_signal)) (ground arith)

  pub honeypot_points :
      (now : ℕ) (client : Bytes) (hit : Hit) (s : ScorerState)
      → is_trusted cfg callees client ≡ false
      → is_honeypot cfg hit.request ≡ true
      → cfg.signals ≡ none
      → (if ltb 0 (hits s client) then 80 else 50) ≤ (score cfg callees now client hit s).1.total
  honeypot_points now client hit s e h g =
      let st = current cfg callees now client hit s in
      let q = ap (λ o. o.1.total) (untrusted_score cfg callees now client hit s e) in
      let n : st.honeypot_hits ≡ hits s client + 1 =
        current-hits now client hit s
        ∙ ap (λ b. if b then hits s client + 1 else hits s client) h in
      let p =
        client_points now client hit
          (record { tracker = recorded cfg callees now client hit s; fleet = s.fleet }) st h g in
      ground arith

  -- Without a registry of signals, a client who is not trusted and asks for a path of the honeypot
  -- list has a total of at least 50, and of at least 80 where the client asks for one again after any
  -- calls of the scorer, its collections and those of the tracker, provided that none of them is
  -- earlier than the first hit and no collection comes later after it than its idle time.
  pub score-honeypot :
      (now again : ℕ) (client : Bytes) (hit hit' : Hit) (s : ScorerState) (calls : List ScorerCall)
      → is_trusted cfg callees client ≡ false
      → is_honeypot cfg hit.request ≡ true
      → is_honeypot cfg hit'.request ≡ true
      → cfg.signals ≡ none
      → Timely now calls
      → (50 ≤ (score cfg callees now client hit s).1.total)
        × (80
            ≤ (score cfg callees again client hit'
                (scored_all cfg callees calls (score cfg callees now client hit s).0)).1.total)
  score-honeypot now again client hit hit' s calls e h h' g timely =
      let after = (score cfg callees now client hit s).0 in
      let later = scored_all cfg callees calls after in
      let first = honeypot_points now client hit s e h g in
      let second = honeypot_points again client hit' later e h' g in
      let (st, l, m) =
        scored_all-Remembers cfg callees calls after client now
          (first-Remembers cfg callees now client hit s e h) timely in
      let counted : hits later client ≡ st.honeypot_hits =
        ap (λ o. (state_of o 0).honeypot_hits) l in
      (ground arith, ground (arith, m.0))
