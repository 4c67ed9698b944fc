-- ===== src/Detector/Fleet.antt =====
-- internal/detector/fleet.go: client addresses that share a behavioural fingerprint. The hash is a
-- parameter; times are numbers, and the lock is left out.
pub mod Rotation
use veilgate.Prelude.{
  ℕ, ◌+◌, Bool, not, List, [], ◌∷◌, ◌++◌, Option, none, some, Bytes, codes, bytes_eq, ◌==◌, nat_eq,
  ltb, leb, if◌then◌else◌, length, take, Map, lookup, insert, retain, map, to_lower, to_upper,
  trim_space, hex_encode,
}

pub record FleetEntry : Type 0 where
  pub first_seen : ℕ
  pub last_seen : ℕ
  pub ips : Map Bytes ℕ

pub record FleetTracker : Type 0 where
  pub fingerprints : Map Bytes FleetEntry
  pub window : ℕ
  pub max_fingerprints : ℕ

-- `NewFleetTracker`, with times in seconds; what is not positive is 0
abbrev pub new_fleet_tracker : ℕ → ℕ → FleetTracker
new_fleet_tracker window_seconds max_fingerprints = record {
  fingerprints = [];
  window = if window_seconds == 0 then 600 else window_seconds;
  max_fingerprints = if max_fingerprints == 0 then 20000 else max_fingerprints;
}

-- What a fingerprint is made of.
pub record Traits : Type 0 where
  pub ua_family : Bytes
  pub ja4_prefix : Bytes
  pub header_set_id : Bytes
  pub method : Bytes

abbrev pub joined : Traits → Bytes
joined t =
    to_lower (trim_space t.ua_family)
    ++ (codes "|"
        ++ (to_lower (trim_space t.ja4_prefix)
            ++ (codes "|"
                ++ (to_lower (trim_space t.header_set_id)
                    ++ (codes "|" ++ to_upper (trim_space t.method))))))

-- `fleetFingerprint`
unfoldable pub fleet_fingerprint : (Bytes → Bytes) → Traits → Bytes
fleet_fingerprint sha1 t = hex_encode (take 6 (sha1 (joined t)))

-- `ts.Before(now.Add(-window))`
abbrev pub is_stale : ℕ → ℕ → ℕ → Bool
is_stale window now ts = ltb (ts + window) now

-- The eviction where the map is full: the entries that were last seen before the window.
abbrev pub relieved : ℕ → FleetTracker → Map Bytes FleetEntry
relieved now ft =
    if leb ft.max_fingerprints (length ft.fingerprints)
    then retain (λ e. not (is_stale ft.window now e.last_seen)) ft.fingerprints
    else ft.fingerprints

abbrev pub entry_or_new : ℕ → Option FleetEntry → FleetEntry
entry_or_new now none = record { first_seen = now; last_seen = now; ips = [] }
entry_or_new now (some e) = e

-- The entry of the fingerprint with one more address, less those before the window.
abbrev pub seen : ℕ → ℕ → Bytes → FleetEntry → FleetEntry
seen window now ip e = record {
  first_seen = e.first_seen;
  last_seen = now;
  ips = retain (λ ts. not (is_stale window now ts)) (insert ip now e.ips);
}

-- `Observe`: the tracker after it, and the number of addresses.
unfoldable pub observe_ip : Bytes → Bytes → ℕ → FleetTracker → FleetTracker × ℕ
observe_ip fp ip now ft =
    let kept = relieved now ft in
    let e = seen ft.window now ip (entry_or_new now (lookup fp kept)) in
    (record ft { fingerprints = insert fp e kept }, length e.ips)

-- `GC`
unfoldable pub collect_fleet : ℕ → ℕ → FleetTracker → FleetTracker
collect_fleet now max_idle ft = record ft {
  fingerprints = retain (λ e. not (is_stale max_idle now e.last_seen)) ft.fingerprints;
}

-- `Snapshot`
unfoldable pub snapshot : FleetTracker → List (Bytes × ℕ)
snapshot ft = map (λ (fp, e). (fp, length e.ips)) ft.fingerprints
