-- ===== src/Detector/Tracker/Window.antt =====
-- internal/detector/tracker.go: the rolling window, and who is touched by a call.
use veilgate.Prelude.{
  ℕ, ◌-◌, ◌≤◌, ◌≡◌, refl, ap, arith, Bool, true, not, List, [], ◌∷◌, ◌++◌, none, some, Bytes,
  bytes_eq, nat_eq, filter, All, IsMap, lookup-retain, Bool-cases, inl, inr, ltb, if◌then◌else◌,
}
use veilgate.Detector.Tracker.{
  ClientEvent, ClientState, Tracker, evict, newest, record_event, after_cutoff, collect, get,
}

-- Each event is no later than the ones after it.
abbrev pub Ordered : List ClientEvent → Type 0
Ordered [] = Unit {0}
Ordered (e ∷ es) = All (λ (f : ClientEvent). e.timestamp ≤ f.timestamp) es × Ordered es

abbrev pub inside : ℕ → ℕ → ClientEvent → Bool
inside window now e = after_cutoff window now e.timestamp

filter_of_All :
    (window now start : ℕ) (es : List ClientEvent)
    → after_cutoff window now start ≡ true
    → All (λ (f : ClientEvent). start ≤ f.timestamp) es
    → filter (inside window now) es ≡ es
filter_of_All window now start [] h later = refl
filter_of_All window now start (e ∷ es) h later =
    ground (arith, filter_of_All window now start es h later.1)

evict-filter :
    (window now : ℕ) (es : List ClientEvent)
    → Ordered es
    → evict window now es ≡ filter (inside window now) es
unfolding evict
evict-filter window now [] o = refl
evict-filter window now (e ∷ es) o = elim (Bool-cases (inside window now e)) [
  | inl h ↦ ground (arith, filter_of_All window now e.timestamp es h o.0)
  | inr h ↦ ground (arith, evict-filter window now es o.1)
]

-- Where a client's requests are recorded in the order of their times, its history after a request
-- is what lies inside the window, the newest of it where that is more than the history holds.
pub record_event-window :
    (window max_hist : ℕ) (st : ClientState) (evt : ClientEvent)
    → Ordered (st.events ++ evt ∷ [])
    → (record_event window max_hist st evt).events
      ≡ newest max_hist (filter (inside window evt.timestamp) (st.events ++ evt ∷ []))
unfolding record_event
record_event-window window max_hist st evt o =
    ap (newest max_hist) (evict-filter window evt.timestamp (st.events ++ evt ∷ []) o)

-- A collection forgets exactly the clients that have been idle for longer than allowed.
pub collect-idle :
    (now max_idle : ℕ) (t : Tracker) (id : Bytes) (st : ClientState)
    → IsMap t.clients
    → get id t ≡ some st
    → get id (collect now max_idle t)
      ≡ (if ltb max_idle (now - st.last_seen) then none else some st)
unfolding collect
collect-idle now max_idle t id st m e = ground (
  arith,
  lookup-retain (λ (s : ClientState). not (ltb max_idle (now - s.last_seen))) id t.clients m,
)
