-- ===== src/Detector/Tracker/Bounds.antt =====
-- internal/detector/tracker.go: what holds of the tracker after any calls.
use mathlib.Core.Option.{none-ne-some}
use veilgate.Prelude.{
  ℕ, ◌+◌, ◌-◌, ◌≤◌, ◌≡◌, refl, arith, not, List, [], ◌∷◌, ◌++◌, Option, none, some, Bytes, ◌==◌,
  bytes_eq, nat_eq, length, length-drop, lookup, insert, IsMap, insert-IsMap, retain-IsMap,
  lookup-insert, lookup-retain, Bool-cases, Option-cases, inl, inr, subst, sym, ltb,
}
use veilgate.Detector.Tracker.{
  ClientEvent, ClientState, Tracker, new_tracker, new_state, evict, newest, record_event, state_of,
  record_request, record_js_asset_at, record_set_cookie_of, mark_last, record_status_of,
  with_status, collect, change, put, before_cutoff,
}

-- The history is bounded, each user agent is listed once, and no count passes the number of
-- requests.
pub record IsBounded (max_hist : ℕ) (st : ClientState) : Type 0 where
  pub history : length st.events ≤ max_hist
  pub agents : IsMap st.unique_uas
  pub cookies : st.cookies_sent ≤ st.requests_total
  pub fetches : st.document_fetches + st.subresource_fetches ≤ st.requests_total
  pub changes : st.header_mutations ≤ st.requests_total

newest-length : (max : ℕ) (es : List ClientEvent) → length (newest max es) ≤ max
newest-length max es = ground (arith, length-drop (length es - max) es)

mark_last-length : (status : ℕ) (es : List ClientEvent) → length (mark_last status es) ≡ length es
unfolding mark_last
mark_last-length status [] = refl
mark_last-length status (e ∷ []) = refl
mark_last-length status (e ∷ f ∷ es) = ground (arith, mark_last-length status (f ∷ es))

record_event-IsBounded :
    (window max_hist : ℕ) (st : ClientState) (evt : ClientEvent)
    → IsBounded max_hist st
    → IsBounded max_hist (record_event window max_hist st evt)
unfolding record_event
record_event-IsBounded window max_hist st evt b = record {
  history = newest-length max_hist (evict window evt.timestamp (st.events ++ evt ∷ []));
  agents =
      retain-IsMap (λ ts. not (before_cutoff window evt.timestamp ts))
        (insert evt.user_agent evt.timestamp st.unique_uas)
        (insert-IsMap evt.user_agent evt.timestamp st.unique_uas b.agents);
  cookies = ground (arith, b.cookies);
  fetches = ground (arith, b.fetches);
  changes = ground (arith, b.changes);
}

with_status-IsBounded :
    (max_hist status : ℕ) (path method : Bytes) (st : ClientState)
    → IsBounded max_hist st
    → IsBounded max_hist (with_status status path method st)
with_status-IsBounded max_hist status path method st b = record {
  history = omega (arith, mark_last-length status st.events, b.history);
  agents = b.agents;
  cookies = b.cookies;
  fetches = b.fetches;
  changes = b.changes;
}

new_state-IsBounded : (max_hist now : ℕ) → IsBounded max_hist (new_state now)
new_state-IsBounded max_hist now = record {
  history = omega arith;
  agents = tt;
  cookies = omega arith;
  fetches = omega arith;
  changes = omega arith;
}

-- A call of the tracker: `Record`, `RecordJSAsset`, `RecordSetCookie`, `RecordStatus` and `GC`.
pub data Call : Type 0 where
  request : Bytes → ClientEvent → Call
  js_asset : ℕ → Bytes → Call
  set_cookie : Bytes → Call
  status_of : Bytes → ℕ → Bytes → Bytes → Call
  gc : ℕ → ℕ → Call

unfoldable pub perform : Call → Tracker → Tracker
perform (request id evt) t = record_request id evt t
perform (js_asset now id) t = record_js_asset_at now id t
perform (set_cookie id) t = record_set_cookie_of id t
perform (status_of id status path method) t = record_status_of id status path method t
perform (gc now max_idle) t = collect now max_idle t

unfoldable pub perform_all : List Call → Tracker → Tracker
perform_all [] t = t
perform_all (c ∷ cs) t = perform_all cs (perform c t)

pub record IsTracking (max_hist : ℕ) (t : Tracker) : Type 0 where
  pub limit : t.max_hist ≡ max_hist
  pub one_state : IsMap t.clients
  pub bounded :
      (id : Bytes) (st : ClientState) → lookup id t.clients ≡ some st → IsBounded max_hist st

put-IsTracking :
    (max_hist : ℕ) (id : Bytes) (st : ClientState) (t : Tracker)
    → IsBounded max_hist st
    → IsTracking max_hist t
    → IsTracking max_hist (put id st t)
put-IsTracking max_hist id st t b k = record {
  limit = k.limit;
  one_state = insert-IsMap id st t.clients k.one_state;
  bounded = λ j s e. elim (Bool-cases (id == j)) [
    | inl same ↦ subst (IsBounded max_hist) (ground (arith, lookup-insert id j st t.clients)) b
    | inr other ↦ k.bounded j s (ground (arith, lookup-insert id j st t.clients))
  ];
}

change-IsTracking :
    (max_hist : ℕ) (id : Bytes) (f : ClientState → ClientState) (t : Tracker)
    → ((st : ClientState) → IsBounded max_hist st → IsBounded max_hist (f st))
    → IsTracking max_hist t
    → IsTracking max_hist (change id f t)
change-IsTracking max_hist id f t keeps k = elim (Option-cases (lookup id t.clients)) [
  | inl e ↦ rw (e, change) k
  | inr (st, e) ↦
      rw (e, change) (put-IsTracking max_hist id (f st) t (keeps st (k.bounded id st e)) k)
]

collect-IsTracking :
    (max_hist now max_idle : ℕ) (t : Tracker)
    → IsTracking max_hist t
    → IsTracking max_hist (collect now max_idle t)
unfolding collect
collect-IsTracking max_hist now max_idle t k = record {
  limit = k.limit;
  one_state = retain-IsMap _ t.clients k.one_state;
  bounded = λ j s e. k.bounded j s (
      ground (
        arith,
        lookup-retain (λ (st : ClientState). not (ltb max_idle (now - st.last_seen))) j t.clients
            k.one_state,
      ));
}

perform-IsTracking :
    (max_hist : ℕ) (c : Call) (t : Tracker)
    → IsTracking max_hist t
    → IsTracking max_hist (perform c t)
unfolding perform record_request record_js_asset_at record_set_cookie_of record_status_of
perform-IsTracking max_hist (request id evt) t k =
    put-IsTracking max_hist id _ t
      (subst
        (λ m.
          IsBounded max_hist
            (record_event t.window m (state_of (lookup id t.clients) evt.timestamp) evt))
        (sym k.limit)
        (record_event-IsBounded t.window max_hist _ evt (known (lookup id t.clients) refl)))
      k
  where
    known :
        (found : Option ClientState)
        → lookup id t.clients ≡ found
        → IsBounded max_hist (state_of found evt.timestamp)
    known none e = new_state-IsBounded max_hist evt.timestamp
    known (some st) e = k.bounded id st e
perform-IsTracking max_hist (js_asset now id) t k =
    change-IsTracking max_hist id _ t
      (λ st b. record {
        history = b.history;
        agents = b.agents;
        cookies = b.cookies;
        fetches = b.fetches;
        changes = b.changes;
      })
      k
perform-IsTracking max_hist (set_cookie id) t k =
    change-IsTracking max_hist id _ t
      (λ st b. record {
        history = b.history;
        agents = b.agents;
        cookies = b.cookies;
        fetches = b.fetches;
        changes = b.changes;
      })
      k
perform-IsTracking max_hist (status_of id status path method) t k =
    change-IsTracking max_hist id (with_status status path method) t
      (with_status-IsBounded max_hist status path method) k
perform-IsTracking max_hist (gc now max_idle) t k = collect-IsTracking max_hist now max_idle t k

-- After any calls of a new tracker each client has one state, whose history has at most 200 events,
-- whose user agents are listed once, and whose counts of cookies, fetches and header changes are at
-- most the count of its requests.
pub perform_all-IsTracking :
    (window : ℕ) (cs : List Call) → IsTracking 200 (perform_all cs (new_tracker window))
unfolding perform_all lookup
perform_all-IsTracking window cs =
    onward cs (new_tracker window)
      (record { limit = refl; one_state = tt; bounded = λ id st e. absurd (none-ne-some st e) })
  where
    onward : (cs : List Call) (t : Tracker) → IsTracking 200 t → IsTracking 200 (perform_all cs t)
    onward [] t k = k
    onward (c ∷ cs) t k = onward cs (perform c t) (perform-IsTracking 200 c t k)
