-- ===== src/Detector/Scorer/Network.antt =====
-- internal/detector/scorer_network.go: signals of a client's address and fingerprints. The databases
-- are arguments, which are given what they answer.
use veilgate.Prelude.{
  ℕ, Bool, not, ◌||◌, Option, none, some, List, ◌++◌, Bytes, codes, ltb, ◌==◌, bytes_eq,
  if◌then◌else◌, is_empty, length, take, decimal,
}
use veilgate.Http.{Request}
use veilgate.Detector.Tracker.{ClientState}
use veilgate.Detector.Fleet.{FleetTracker, Traits, fleet_fingerprint, observe_ip}
use veilgate.Detector.Scorer.{Signal, signal, no_signal, Tier, first_tier, user_agent, dash}
use veilgate.Detector.Scorer.Headers.{Classified, header_bitmap}

-- `scoreTLS`, given what the database answers, `none` for no match.
unfoldable pub score_tls : Option Classified → Signal
score_tls none = no_signal
score_tls (some (label, category, conf)) =
    if category == codes "agent" || category == codes "scanner"
    then signal (codes "tls_agent") (if ltb conf 80 then 30 else 45)
        (codes "TLS fingerprint matches known agent library: " ++ label)
    else if category == codes "bot"
    then signal (codes "tls_bot") 25 (codes "TLS fingerprint matches known bot: " ++ label)
    else if category == codes "unknown"
    then signal (codes "tls_non_browser") 20
        (codes "TLS fingerprint does not match any known browser")
    else no_signal

-- `scoreIPReputation`, given the category and the points of the address, `none` for none.
unfoldable pub score_ip_reputation : Option (Bytes × ℕ) → Signal
score_ip_reputation none = no_signal
score_ip_reputation (some (cat, points)) =
    if ltb 0 points
    then signal (codes "ip_reputation") points
        (codes "client IP matches " ++ (cat ++ codes " CIDR list"))
    else no_signal

-- `UARotation` of the rules.
pub record UaRotation : Type 0 where
  pub enabled : Bool
  pub distinct_uas_for_fire : ℕ
  pub points : ℕ

-- `FleetRotation` of the rules.
pub record FleetRotation : Type 0 where
  pub enabled : Bool
  pub window_seconds : ℕ
  pub max_fingerprints : ℕ
  pub tiers : List Tier

-- What the fleet tracker is told of a request; `family` reduces a user agent, a parameter.
unfoldable pub fleet_traits : (Bytes → Bytes) → Bytes → Request → Traits
fleet_traits family ja4 r = record {
  ua_family = family (user_agent r);
  ja4_prefix = take 10 ja4;
  header_set_id = header_bitmap r;
  method = r.method;
}

abbrev rotated : List Tier → Bytes → Traits → ℕ → Signal
rotated tiers fp traits n = elim (first_tier tiers n) [
  | none ↦ no_signal
  | some tier ↦ signal (codes "ip_rotation_fleet") tier.points (
      decimal n
      ++ (codes " distinct client IPs share fingerprint "
          ++ (fp
              ++ (codes " (ua="
                  ++ (traits.ua_family
                      ++ (codes " ja4="
                          ++ (traits.ja4_prefix
                              ++ (codes ")" ++ (dash ++ codes "proxy/VPN rotation")))))))))
]

-- `scoreUARotation`
unfoldable pub score_ua_rotation : UaRotation → ClientState → Signal
score_ua_rotation cfg st =
    let n = length st.unique_uas in
    if not cfg.enabled
    then no_signal
    else if ltb cfg.distinct_uas_for_fire 2
    then no_signal
    else if ltb n cfg.distinct_uas_for_fire
    then no_signal
    else signal (codes "ua_rotation") cfg.points (
        codes "client sent "
        ++ (decimal n
            ++ (codes " distinct User-Agents inside the window"
                ++ (dash ++ codes "UA pool rotation"))))

-- `scoreFleetRotation`: the fleet tracker after it, and the signal.
unfoldable pub score_fleet_rotation :
    (Bytes → Bytes)
    → (Bytes → Bytes)
    → FleetRotation
    → ℕ
    → Bytes
    → Bytes
    → Request
    → FleetTracker
    → FleetTracker × Signal
score_fleet_rotation sha1 family cfg now client ja4 r fleet =
    let traits = fleet_traits family ja4 r in
    let fp = fleet_fingerprint sha1 traits in
    let (fleet', n) = observe_ip fp client now fleet in
    if not cfg.enabled || is_empty cfg.tiers
    then (fleet, no_signal)
    else (fleet', rotated cfg.tiers fp traits n)
