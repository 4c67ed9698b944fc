-- ===== src/Detector/Scorer/Bounds.antt =====
-- internal/detector/scorer.go: the total, and what decides it.
use veilgate.Prelude.{
  ℕ, ◌≡◌, ◌≤◌, ◌+◌, ◌⊎◌, inl, inr, refl, sym, ap, ◌∙◌, subst, arith, true, false, Option, none,
  some, List, [], ◌∷◌, ◌++◌, Bytes, ltb, Bool-cases, Option-cases, bytes_eq, All, Map, lookup,
}
use veilgate.Detector.Tracker.{ClientState, Tracker, record_request, state_of}
use veilgate.Detector.Scorer.{Signal, Hit}
use veilgate.Detector.Scorer.Custom.{SignalEntry, Signals, apply_signal_config}
use veilgate.Detector.Scorer.Network.{score_fleet_rotation}
use veilgate.Detector.Scorer.Total.{
  ScorerConfig, ScorerState, Callees, event_of, is_honeypot, honeypotted, points_of, capped,
  is_trusted, score_client, score, configured_by, raw_signals, ja4_of,
}

capped-bound : (n : ℕ) → capped n ≤ 100
capped-bound n = ground arith

pub points_of-append : (xs ys : List Signal) → points_of (xs ++ ys) ≡ points_of xs + points_of ys
unfolding points_of
points_of-append [] ys = omega arith
points_of-append (x ∷ xs) ys = omega (arith, points_of-append xs ys)

-- The registry lets the signal through: it has no entry, or an enabled one.
abbrev pub Enabled : Map Bytes SignalEntry → Signal → Type 0
Enabled entries sig =
    (lookup sig.name entries ≡ none)
    ⊎ ((entry : SignalEntry) × (lookup sig.name entries ≡ some entry) × (entry.enabled ≡ true))

apply_signal_config-All :
    (entries : Map Bytes SignalEntry) (sigs : List Signal)
    → All (Enabled entries) (apply_signal_config entries sigs)
unfolding apply_signal_config
apply_signal_config-All entries [] = tt
apply_signal_config-All entries (sig ∷ sigs) = elim (Option-cases (lookup sig.name entries)) [
  | inl e ↦ rw e (inl e, apply_signal_config-All entries sigs)
  | inr (entry, e) ↦ elim (Bool-cases entry.enabled) [
    | inr off ↦ rw (e, off) (apply_signal_config-All entries sigs)
    | inl on ↦ elim (Bool-cases (ltb 0 entry.points)) [
      | inl p ↦ rw (e, on, p) (inr (entry, e, on), apply_signal_config-All entries sigs)
      | inr p ↦ rw (e, on, p) (inr (entry, e, on), apply_signal_config-All entries sigs)
    ]
  ]
]

configured_by-Enabled :
    (o : Option Signals) (sg : Signals) (sigs : List Signal)
    → o ≡ some sg
    → All (Enabled sg.signals) (configured_by o sigs)
configured_by-Enabled o sg sigs g =
    subst (λ x. All (Enabled sg.signals) (configured_by x sigs)) (sym g)
      (apply_signal_config-All sg.signals sigs)

module _ (cfg : ScorerConfig) (callees : Callees) where
  abbrev pub recorded : ℕ → Bytes → Hit → ScorerState → Tracker
  recorded now client hit s = record_request client (event_of cfg.rules now hit) s.tracker

  abbrev pub current : ℕ → Bytes → Hit → ScorerState → ClientState
  current now client hit s =
      honeypotted (is_honeypot cfg hit.request)
        (state_of (lookup client (recorded now client hit s).clients) now)

  pub untrusted_score :
      (now : ℕ) (client : Bytes) (hit : Hit) (s : ScorerState)
      → is_trusted cfg callees client ≡ false
      → score cfg callees now client hit s
        ≡ score_client cfg callees now client hit
            (record { tracker = recorded now client hit s; fleet = s.fleet })
            (current now client hit s)
  untrusted_score now client hit s e = unfold score in rw e refl

  -- No total is above 100, and that of a client who is not trusted is the sum of the points of the
  -- signals given with it, cut off at 100.
  pub score-total :
      (now : ℕ) (client : Bytes) (hit : Hit) (s : ScorerState)
      → ((score cfg callees now client hit s).1.total ≤ 100)
        × ((is_trusted cfg callees client ≡ true)
            ⊎ ((score cfg callees now client hit s).1.total
                ≡ capped (points_of (score cfg callees now client hit s).1.signals)))
  score-total now client hit s = elim (Bool-cases (is_trusted cfg callees client)) [
    | inl e ↦
        let q : (score cfg callees now client hit s).1.total ≡ 0 = unfold score in rw e refl in
        (omega (arith, q), inl e)
    | inr e ↦
        let q = untrusted_score now client hit s e in
        let total : (score cfg callees now client hit s).1.total
            ≡ capped (points_of (score cfg callees now client hit s).1.signals) =
          unfold score_client in
          (ap (λ o. o.1.total) q ∙ ap (λ o. capped (points_of o.1.signals)) (sym q)) in
        (
          omega (
            arith,
            total,
            capped-bound (points_of (score cfg callees now client hit s).1.signals),
          ),
          inr total,
        )
  ]

  score_client-Enabled :
      (now : ℕ) (client : Bytes) (hit : Hit) (s : ScorerState) (st : ClientState) (sg : Signals)
      → cfg.signals ≡ some sg
      → All (Enabled sg.signals) (score_client cfg callees now client hit s st).1.signals
  unfolding score_client
  score_client-Enabled now client hit s st sg g =
      let fleet_signal =
        (score_fleet_rotation callees.sha1 callees.family cfg.fleet_rotation now client
          (ja4_of cfg callees hit.request) hit.request s.fleet).1 in
      configured_by-Enabled cfg.signals sg (raw_signals cfg callees now client hit st fleet_signal)
        g

  -- With a registry of signals, no signal that the registry has disabled is given to a client who is
  -- not trusted.
  pub score-Enabled :
      (now : ℕ) (client : Bytes) (hit : Hit) (s : ScorerState) (sg : Signals)
      → cfg.signals ≡ some sg
      → is_trusted cfg callees client ≡ false
      → All (Enabled sg.signals) (score cfg callees now client hit s).1.signals
  score-Enabled now client hit s sg g e =
      let q = untrusted_score now client hit s e in
      subst (λ o. All (Enabled sg.signals) o.1.signals) (sym q)
        (score_client-Enabled now client hit
          (record { tracker = recorded now client hit s; fleet = s.fleet })
          (current now client hit s) sg g)
