-- ===== src/Detector/Fleet/Rotation.antt =====
-- internal/detector/fleet.go: the number of addresses that share a fingerprint.
use mathlib.Core.Option.{none-ne-some, some-injective}
use veilgate.Prelude.{
  ◌∙◌, ℕ, ◌≡◌, ◌≤◌, refl, ap, arith, Bool, true, not, List, [], ◌∷◌, Option, none, some, Bytes,
  bytes_eq, ◌==◌, length, lookup, insert, retain, IsMap, insert-IsMap, retain-IsMap, lookup-insert,
  lookup-retain, Map, Bool-cases, Option-cases, inl, inr, subst, sym, All, leb,
}
use veilgate.Detector.Fleet.{
  FleetEntry, FleetTracker, new_fleet_tracker, is_stale, relieved, entry_or_new, seen, observe_ip,
}

-- No address of an entry was seen after the entry.
abbrev pub Within : ℕ → Map Bytes ℕ → Type 0
Within last = All (λ (kv : Bytes × ℕ). kv.1 ≤ last)

abbrev fresh : ℕ → ℕ → ℕ → Bool
fresh window now ts = not (is_stale window now ts)

insert-Within :
    (ip : Bytes) (now last : ℕ) (m : Map Bytes ℕ)
    → last ≤ now
    → Within last m
    → Within now (insert ip now m)
unfolding insert
insert-Within ip now last [] le w = (omega arith, tt)
insert-Within ip now last ((j, ts) ∷ m) le w = elim (Bool-cases (j == ip)) [
  | inl h ↦ rw h (omega arith, later m w.1)
  | inr h ↦ rw h (omega (arith, le, w.0), insert-Within ip now last m le w.1)
]
  where
    later : (m : Map Bytes ℕ) → Within last m → Within now m
    later [] w = tt
    later (kv ∷ m) w = (omega (arith, le, w.0), later m w.1)

retain-Within :
    (window now last : ℕ) (m : Map Bytes ℕ)
    → Within last m
    → Within last (retain (fresh window now) m)
retain-Within window now last [] w = tt
retain-Within window now last ((j, ts) ∷ m) w = elim (Bool-cases (fresh window now ts)) [
  | inl h ↦ rw h (w.0, retain-Within window now last m w.1)
  | inr h ↦ rw h (retain-Within window now last m w.1)
]

stale-retain :
    (window now last : ℕ) (m : Map Bytes ℕ)
    → is_stale window now last ≡ true
    → Within last m
    → retain (fresh window now) m ≡ []
stale-retain window now last [] h w = refl
stale-retain window now last ((j, ts) ∷ m) h w =
    ground (arith, stale-retain window now last m h w.1, w.0)

-- Where all addresses are stale only the new one is left.
stale-insert :
    (window now last : ℕ) (ip : Bytes) (m : Map Bytes ℕ)
    → is_stale window now last ≡ true
    → Within last m
    → retain (fresh window now) (insert ip now m) ≡ (ip, now) ∷ []
unfolding insert
stale-insert window now last ip [] h w = ground arith
stale-insert window now last ip ((j, ts) ∷ m) h w =
    ground
      (arith, stale-retain window now last m h w.1, stale-insert window now last ip m h w.1, w.0)

-- Each fingerprint has one entry, and no address of it was seen after the entry, nor any entry
-- after the time.
pub record IsGrouped (now : ℕ) (ft : FleetTracker) : Type 0 where
  pub one_entry : IsMap ft.fingerprints
  pub in_time :
      (fp : Bytes) (e : FleetEntry)
      → lookup fp ft.fingerprints ≡ some e
      → (e.last_seen ≤ now) × Within e.last_seen e.ips

-- One observation after the other.
pub record Observation : Type 0 where
  pub fingerprint : Bytes
  pub ip : Bytes
  pub at_time : ℕ

unfoldable pub observe_all : List Observation → FleetTracker → FleetTracker
observe_all [] ft = ft
observe_all (o ∷ os) ft = observe_all os (observe_ip o.fingerprint o.ip o.at_time ft).0

-- The times, from a first one on, do not go back; the last of them.
abbrev pub InOrder : ℕ → List Observation → Type 0
InOrder now [] = Unit {0}
InOrder now (o ∷ os) = (now ≤ o.at_time) × InOrder o.at_time os

abbrev pub last_time : ℕ → List Observation → ℕ
last_time now [] = now
last_time now (o ∷ os) = last_time o.at_time os

relieved-IsMap : (now : ℕ) (ft : FleetTracker) → IsMap ft.fingerprints → IsMap (relieved now ft)
relieved-IsMap now ft m = elim (Bool-cases (leb ft.max_fingerprints (length ft.fingerprints))) [
  | inl h ↦
      rw (h, relieved)
        (retain-IsMap (λ (e : FleetEntry). not (is_stale ft.window now e.last_seen)) ft.fingerprints
          m)
  | inr h ↦ rw (h, relieved) m
]

-- An entry is kept, or it is stale.
relieved-lookup :
    (now : ℕ) (ft : FleetTracker) (fp : Bytes) (e : FleetEntry)
    → IsMap ft.fingerprints
    → lookup fp (relieved now ft) ≡ some e
    → lookup fp ft.fingerprints ≡ some e
relieved-lookup now ft fp e m h = ground (
  arith,
  lookup-retain (λ (e : FleetEntry). not (is_stale ft.window now e.last_seen)) fp ft.fingerprints m,
)

seen-Within :
    (window now last : ℕ) (ip : Bytes) (e : FleetEntry)
    → last ≤ now
    → Within last e.ips
    → Within now (seen window now ip e).ips
seen-Within window now last ip e le w =
    retain-Within window now now (insert ip now e.ips) (insert-Within ip now last e.ips le w)

entry-Within :
    (now : ℕ) (found : Option FleetEntry)
    → ((e : FleetEntry) → found ≡ some e → (e.last_seen ≤ now) × Within e.last_seen e.ips)
    → ((entry_or_new now found).last_seen ≤ now)
      × Within (entry_or_new now found).last_seen (entry_or_new now found).ips
entry-Within now none h = (omega arith, tt)
entry-Within now (some e) h = h e refl

observe_ip-IsGrouped :
    (before now : ℕ) (fp ip : Bytes) (ft : FleetTracker)
    → before ≤ now
    → IsGrouped before ft
    → IsGrouped now (observe_ip fp ip now ft).0
unfolding observe_ip
observe_ip-IsGrouped before now fp ip ft le k =
    let kept = relieved now ft in
    let old = entry_or_new now (lookup fp kept) in
    let new = seen ft.window now ip old in
    let (early, w) = entry-Within now (lookup fp kept) (λ e h. held fp e h) in
    record {
      one_entry = insert-IsMap fp new kept (relieved-IsMap now ft k.one_entry);
      in_time = λ f e h. elim (Bool-cases (fp == f)) [
        | inl same ↦
            let q : new ≡ e = some-injective _ _ (ground (arith, lookup-insert fp f new kept)) in
            subst (λ (x : FleetEntry). (x.last_seen ≤ now) × Within x.last_seen x.ips) q
              (omega arith, seen-Within ft.window now old.last_seen ip old early w)
        | inr other ↦ held f e (ground (arith, lookup-insert fp f new kept))
      ];
    }
  where
    held :
        (f : Bytes) (e : FleetEntry)
        → lookup f (relieved now ft) ≡ some e
        → (e.last_seen ≤ now) × Within e.last_seen e.ips
    held f e h =
        let (early, w) = k.in_time f e (relieved-lookup now ft f e k.one_entry h) in
        (omega (arith, early, le), w)

observe_all-IsGrouped :
    (start : ℕ) (os : List Observation) (ft : FleetTracker)
    → InOrder start os
    → IsGrouped start ft
    → IsGrouped (last_time start os) (observe_all os ft)
unfolding observe_all
observe_all-IsGrouped start [] ft o k = k
observe_all-IsGrouped start (x ∷ os) ft o k =
    observe_all-IsGrouped x.at_time os (observe_ip x.fingerprint x.ip x.at_time ft).0 o.1
      (observe_ip-IsGrouped start x.at_time x.fingerprint x.ip ft o.0 k)

-- The entry as it would be without the eviction.
abbrev pub unrelieved : Bytes → Bytes → ℕ → FleetTracker → FleetEntry
unrelieved fp ip now ft = seen ft.window now ip (entry_or_new now (lookup fp ft.fingerprints))

observe_ip-unrelieved :
    (before now : ℕ) (fp ip : Bytes) (ft : FleetTracker)
    → IsGrouped before ft
    → (observe_ip fp ip now ft).1 ≡ length (unrelieved fp ip now ft).ips
unfolding observe_ip
observe_ip-unrelieved before now fp ip ft k =
    let kept =
      lookup-retain (λ (e : FleetEntry). not (is_stale ft.window now e.last_seen)) fp
        ft.fingerprints k.one_entry in
    elim (Bool-cases (leb ft.max_fingerprints (length ft.fingerprints))) [
      | inr roomy ↦ rw (roomy, relieved) refl
      | inl full ↦ elim (Option-cases (lookup fp ft.fingerprints)) [
        | inl e ↦
            let gone : lookup fp (relieved now ft) ≡ none = ground (arith, kept) in
            rw (gone, e) refl
        | inr (x, e) ↦ elim (Bool-cases (is_stale ft.window now x.last_seen)) [
          | inl old ↦
              let gone : lookup fp (relieved now ft) ≡ none = ground (arith, kept) in
              rw (gone, e)
                (ap length (stale-insert ft.window now x.last_seen ip [] old tt)
                  ∙ sym (
                      ap length
                        (stale-insert ft.window now x.last_seen ip x.ips old (k.in_time fp x e).1)))
          | inr young ↦
              let same : lookup fp (relieved now ft) ≡ some x = ground (arith, kept) in
              rw (same, e) refl
        ]
      ]
    ]

-- After observations in the order of their times of a new tracker, the eviction that a further
-- observation makes is not to be seen in its count: that is the number of addresses without it.
pub observe_ip-count :
    (window max : ℕ) (os : List Observation) (fp ip : Bytes) (now : ℕ)
    → InOrder 0 os
    → let ft = observe_all os (new_fleet_tracker window max) in
      (observe_ip fp ip now ft).1 ≡ length (unrelieved fp ip now ft).ips
unfolding lookup
observe_ip-count window max os fp ip now o =
    observe_ip-unrelieved (last_time 0 os) now fp ip (observe_all os (new_fleet_tracker window max))
      (observe_all-IsGrouped 0 os (new_fleet_tracker window max) o
        (record { one_entry = tt; in_time = λ f e h. absurd (none-ne-some e h) }))
