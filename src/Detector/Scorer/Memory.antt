-- ===== src/Detector/Scorer/Memory.antt =====
-- internal/detector: how long the hits of a honeypot are remembered, over the calls of the scorer, of
-- the tracker and of the fleet tracker.
use mathlib.Core.Option.{some-injective}
use veilgate.Prelude.{
  ℕ, ◌≡◌, ◌≤◌, ◌+◌, ◌-◌, inl, inr, refl, sym, ap, ◌∙◌, subst, arith, Bool, true, false, not, some,
  List, [], ◌∷◌, Bytes, ltb, Bool-cases, Option-cases, ◌==◌, bytes_eq, bytes_beq_iff, lookup,
  insert, lookup-insert, lookup-retain_kept,
}
use veilgate.Detector.Tracker.{
  ClientEvent, ClientState, Tracker, record_request, record_event, state_of, change, with_status,
  record_js_asset_at, record_set_cookie_of, record_status_of, collect,
}
use veilgate.Detector.Tracker.Bounds.{Call, request, js_asset, set_cookie, status_of, gc, perform}
use veilgate.Detector.Fleet.{collect_fleet}
use veilgate.Detector.Scorer.{Hit, Score}
use veilgate.Detector.Scorer.Total.{
  ScorerConfig, ScorerState, Callees, event_of, is_honeypot, honeypotted, is_trusted, score_client,
  score, put_client,
}
use veilgate.Detector.Scorer.Bounds.{untrusted_score, recorded, current}

-- A state with a hit of a honeypot, seen at that time or later.
abbrev pub Marked : ℕ → ClientState → Type 0
Marked since st = (1 ≤ st.honeypot_hits) × (since ≤ st.last_seen)

abbrev pub Remembers : Bytes → ℕ → Tracker → Type 0
Remembers c since t = (st : ClientState) × (lookup c t.clients ≡ some st) × Marked since st

record_event-Marked :
    (window max_hist since : ℕ) (st : ClientState) (evt : ClientEvent)
    → Marked since st
    → since ≤ evt.timestamp
    → Marked since (record_event window max_hist st evt)
unfolding record_event
record_event-Marked window max_hist since st evt m le = (m.0, le)

-- A client's new state that is marked keeps the clients marked.
insert-Remembers :
    (client c : Bytes) (since : ℕ) (st : ClientState) (t : Tracker)
    → Remembers c since t
    → ((old : ClientState)
        → lookup client t.clients ≡ some old
        → Marked since old
        → Marked since st)
    → Remembers c since (record t { clients = insert client st t.clients })
insert-Remembers client c since st t (old, l, m) keep =
    let q = lookup-insert client c st t.clients in
    elim (Bool-cases (client == c)) [
      | inl same ↦
          let i : client ≡ c = (bytes_beq_iff client c).0 same in
          (st, ground arith, keep old (ap (λ k. lookup k t.clients) i ∙ l) m)
      | inr other ↦ (old, ground arith, m)
    ]

record_request-Remembers :
    (client c : Bytes) (since : ℕ) (evt : ClientEvent) (t : Tracker)
    → Remembers c since t
    → since ≤ evt.timestamp
    → Remembers c since (record_request client evt t)
unfolding record_request
record_request-Remembers client c since evt t r le =
    insert-Remembers client c since
      (record_event t.window t.max_hist (state_of (lookup client t.clients) evt.timestamp) evt) t r
      (λ old l m.
        subst (λ o. Marked since (record_event t.window t.max_hist (state_of o evt.timestamp) evt))
          (sym l) (record_event-Marked t.window t.max_hist since old evt m le))

change-Remembers :
    (client c : Bytes) (since : ℕ) (f : ClientState → ClientState) (t : Tracker)
    → ((st : ClientState) → Marked since st → Marked since (f st))
    → Remembers c since t
    → Remembers c since (change client f t)
change-Remembers client c since f t keep r = elim (Option-cases (lookup client t.clients)) [
  | inl e ↦ rw (e, change) r
  | inr (st, e) ↦
      rw (e, change)
        (insert-Remembers client c since (f st) t r (λ old l m.
          keep st
            (subst (λ (x : ClientState). Marked since x) (some-injective old st (sym l ∙ e)) m)))
]

collect-Remembers :
    (c : Bytes) (since now max_idle : ℕ) (t : Tracker)
    → Remembers c since t
    → now ≤ since + max_idle
    → Remembers c since (collect now max_idle t)
unfolding collect
collect-Remembers c since now max_idle t (st, l, m) le = (
  st,
  lookup-retain_kept (λ (x : ClientState). not (ltb max_idle (now - x.last_seen))) c st t.clients l
      (ground arith),
  m,
)

-- A call at its time: no event before that time, and no collection that forgets what was seen then.
abbrev Soon : ℕ → Call → Type 0
Soon since (request id evt) = since ≤ evt.timestamp
Soon since (gc now max_idle) = now ≤ since + max_idle
Soon since _ = Unit {0}

perform-Remembers :
    (call : Call) (c : Bytes) (since : ℕ) (t : Tracker)
    → Remembers c since t
    → Soon since call
    → Remembers c since (perform call t)
unfolding perform record_js_asset_at record_set_cookie_of record_status_of
perform-Remembers (request id evt) c since t r le = record_request-Remembers id c since evt t r le
perform-Remembers (js_asset now id) c since t r le =
    change-Remembers id c since (λ st. record st { last_js_asset_at = some now }) t (λ st m. m) r
perform-Remembers (set_cookie id) c since t r le =
    change-Remembers id c since (λ st. record st { set_cookie_received = true }) t (λ st m. m) r
perform-Remembers (status_of id status path method) c since t r le =
    change-Remembers id c since (with_status status path method) t (λ st m. m) r
perform-Remembers (gc now max_idle) c since t r le = collect-Remembers c since now max_idle t r le

-- `Score`, a call of the tracker by the proxy or by the collection, and `FleetGC`.
pub data ScorerCall : Type 0 where
  scoring : ℕ → Bytes → Hit → ScorerCall
  tracking : Call → ScorerCall
  collecting_fleet : ℕ → ℕ → ScorerCall

-- Nothing is earlier than that time, and no collection comes so late that it forgets a client that was
-- seen then.
abbrev pub Timely : ℕ → List ScorerCall → Type 0
Timely since [] = Unit {0}
Timely since (scoring now client hit ∷ calls) = (since ≤ now) × Timely since calls
Timely since (tracking call ∷ calls) = Soon since call × Timely since calls
Timely since (collecting_fleet now max_idle ∷ calls) = Timely since calls

honeypotted-Marked :
    (since : ℕ) (hit : Bool) (st : ClientState)
    → Marked since st
    → Marked since (honeypotted hit st)
unfolding honeypotted
honeypotted-Marked since true st m = (omega (arith, m.0), m.1)
honeypotted-Marked since false st m = m

module _ (cfg : ScorerConfig) (callees : Callees) where
  -- The scorer after calls.
  unfoldable pub scored_all : List ScorerCall → ScorerState → ScorerState
  scored_all [] s = s
  scored_all (scoring now client hit ∷ calls) s =
      scored_all calls (score cfg callees now client hit s).0
  scored_all (tracking call ∷ calls) s =
      scored_all calls (record s { tracker = perform call s.tracker })
  scored_all (collecting_fleet now max_idle ∷ calls) s =
      scored_all calls (record s { fleet = collect_fleet now max_idle s.fleet })

  -- The tracker after a call that is scored.
  score-tracker :
      (now : ℕ) (client : Bytes) (hit : Hit) (s : ScorerState)
      → is_trusted cfg callees client ≡ false
      → (n : ℕ) × ((score cfg callees now client hit s).0.tracker
          ≡ put_client client
              (record (current cfg callees now client hit s) { score = n })
              (recorded cfg callees now client hit s))
  unfolding score_client
  score-tracker now client hit s e =
      let o =
        score_client cfg callees now client hit
          (record { tracker = recorded cfg callees now client hit s; fleet = s.fleet })
          (current cfg callees now client hit s) in
      (
        o.1.total,
        ap (λ (x : ScorerState × Score). x.0.tracker)
            (untrusted_score cfg callees now client hit s e),
      )

  score-Remembers :
      (now : ℕ) (client c : Bytes) (hit : Hit) (since : ℕ) (s : ScorerState)
      → Remembers c since s.tracker
      → since ≤ now
      → Remembers c since (score cfg callees now client hit s).0.tracker
  score-Remembers now client c hit since s r le =
      elim (Bool-cases (is_trusted cfg callees client)) [
        | inl e ↦
            let q : (score cfg callees now client hit s).0 ≡ s = unfold score in rw e refl in
            subst (λ (x : ScorerState). Remembers c since x.tracker) (sym q) r
        | inr e ↦
            let t = recorded cfg callees now client hit s in
            let (n, q) = score-tracker now client hit s e in
            let again : Remembers c since t =
              record_request-Remembers client c since (event_of cfg.rules now hit) s.tracker r
                (unfold event_of in le) in
            subst (λ (x : Tracker). Remembers c since x) (sym q)
              (insert-Remembers client c since
                (record (current cfg callees now client hit s) { score = n }) t again
                (λ old l m.
                  subst
                    (λ o. Marked since (honeypotted (is_honeypot cfg hit.request) (state_of o now)))
                    (sym l) (honeypotted-Marked since (is_honeypot cfg hit.request) old m)))
      ]

  pub scored_all-Remembers :
      (calls : List ScorerCall) (s : ScorerState) (c : Bytes) (since : ℕ)
      → Remembers c since s.tracker
      → Timely since calls
      → Remembers c since (scored_all calls s).tracker
  unfolding scored_all
  scored_all-Remembers [] s c since r u = r
  scored_all-Remembers (scoring now client hit ∷ calls) s c since r (le, u) =
      scored_all-Remembers calls (score cfg callees now client hit s).0 c since
        (score-Remembers now client c hit since s r le) u
  scored_all-Remembers (tracking call ∷ calls) s c since r (soon, u) =
      scored_all-Remembers calls (record s { tracker = perform call s.tracker }) c since
        (perform-Remembers call c since s.tracker r soon) u
  scored_all-Remembers (collecting_fleet now max_idle ∷ calls) s c since r u =
      scored_all-Remembers calls (record s { fleet = collect_fleet now max_idle s.fleet }) c since r
        u

  current-Marked :
      (now : ℕ) (client : Bytes) (hit : Hit) (s : ScorerState)
      → is_honeypot cfg hit.request ≡ true
      → Marked now (current cfg callees now client hit s)
  current-Marked now client hit s h =
      let evt = event_of cfg.rules now hit in
      let t = s.tracker in
      let st =
        record_event t.window t.max_hist (state_of (lookup client t.clients) evt.timestamp) evt in
      let l : lookup client (recorded cfg callees now client hit s).clients ≡ some st =
        unfold record_request in
        (lookup-insert client client st t.clients ∙ ground (arith, bytes_beq_iff client client)) in
      let m : Marked now (honeypotted true st) =
        unfold honeypotted record_event event_of in (omega arith, omega arith) in
      subst (λ o. Marked now (honeypotted (is_honeypot cfg hit.request) (state_of o now))) (sym l)
        (subst (λ b. Marked now (honeypotted b st)) (sym h) m)

  -- A hit of a honeypot is remembered from its time on.
  pub first-Remembers :
      (now : ℕ) (client : Bytes) (hit : Hit) (s : ScorerState)
      → is_trusted cfg callees client ≡ false
      → is_honeypot cfg hit.request ≡ true
      → Remembers client now (score cfg callees now client hit s).0.tracker
  first-Remembers now client hit s e h =
      let t = recorded cfg callees now client hit s in
      let (n, q) = score-tracker now client hit s e in
      let st : ClientState = record (current cfg callees now client hit s) { score = n } in
      let l : lookup client (put_client client st t).clients ≡ some st =
        lookup-insert client client st t.clients ∙ ground (arith, bytes_beq_iff client client) in
      subst (λ (x : Tracker). Remembers client now x) (sym q)
        (st, l, current-Marked now client hit s h)
