-- ===== src/Detector/Tracker.antt =====
-- internal/detector/tracker.go: the state that is kept for each client. Times are numbers; `time.Now`
-- is an argument. The locks are left out, and a nil state is a missing key.
pub mod Bounds
pub mod Window
use veilgate.Prelude.{
  ℕ, ◌+◌, ◌-◌, Bool, true, false, not, ◌&&◌, ◌||◌, List, [], ◌∷◌, ◌++◌, Option, none, some, Bytes,
  codes, ◌==◌, nat_eq, bytes_eq, ltb, leb, if◌then◌else◌, is_empty, length, drop, Map, lookup,
  insert, retain,
}

pub record ClientEvent : Type 0 where
  pub timestamp : ℕ
  pub path : Bytes
  pub query : Bytes
  pub method : Bytes
  pub status : ℕ
  pub user_agent : Bytes
  pub ja4 : Bytes
  pub sec_fetch_dest : Bytes
  pub has_cookie : Bool
  pub tool_stage : Bytes
  pub header_bitmap : Bytes
  pub has_conditional : Bool
  pub has_origin_header : Bool

-- `LastJSAssetAt` is `none` for the zero time.
pub record ClientState : Type 0 where
  pub events : List ClientEvent
  pub first_seen : ℕ
  pub last_seen : ℕ
  pub unique_uas : Map Bytes ℕ
  pub last_status : ℕ
  pub last_non200_path : Bytes
  pub last_non200_method : Bytes
  pub cookies_sent : ℕ
  pub requests_total : ℕ
  pub last_js_asset_at : Option ℕ
  pub document_fetches : ℕ
  pub subresource_fetches : ℕ
  pub header_mutations : ℕ
  pub last_header_bitmap : Bytes
  pub set_cookie_received : Bool
  pub has_cross_origin_requests : Bool
  pub honeypot_hits : ℕ
  pub score : ℕ

pub record Tracker : Type 0 where
  pub clients : Map Bytes ClientState
  pub window : ℕ
  pub max_hist : ℕ

-- `NewTracker`, with the window in the unit of the times
abbrev pub new_tracker : ℕ → Tracker
new_tracker window = record { clients = []; window = window; max_hist = 200 }

abbrev pub new_state : ℕ → ClientState
new_state now = record {
  events = [];
  first_seen = now;
  last_seen = 0;
  unique_uas = [];
  last_status = 0;
  last_non200_path = [];
  last_non200_method = [];
  cookies_sent = 0;
  requests_total = 0;
  last_js_asset_at = none;
  document_fetches = 0;
  subresource_fetches = 0;
  header_mutations = 0;
  last_header_bitmap = [];
  set_cookie_received = false;
  has_cross_origin_requests = false;
  honeypot_hits = 0;
  score = 0;
}

-- `ts.After(now.Add(-window))`, with the window on the other side
abbrev pub after_cutoff : ℕ → ℕ → ℕ → Bool
after_cutoff window now ts = ltb now (ts + window)

-- `ts.Before(cutoff)`
abbrev pub before_cutoff : ℕ → ℕ → ℕ → Bool
before_cutoff window now ts = ltb (ts + window) now

-- The loop that drops the events before the first one inside the window.
unfoldable pub evict : ℕ → ℕ → List ClientEvent → List ClientEvent
evict window now [] = []
evict window now (e ∷ es) =
    let rest = evict window now es in if after_cutoff window now e.timestamp then e ∷ es else rest

-- The newest `max` events.
abbrev pub newest : ℕ → List ClientEvent → List ClientEvent
newest max es = if ltb max (length es) then drop (length es - max) es else es

-- The header bitmap's part: the number of changes, and the last bitmap.
abbrev pub mutations : ClientState → ClientEvent → ℕ
mutations st evt =
    if not (is_empty evt.header_bitmap)
      && (not (is_empty st.last_header_bitmap) && not (evt.header_bitmap == st.last_header_bitmap))
    then st.header_mutations + 1
    else st.header_mutations

-- `Record` on the state of the client.
unfoldable pub record_event : ℕ → ℕ → ClientState → ClientEvent → ClientState
record_event window max_hist st evt = record {
  events = newest max_hist (evict window evt.timestamp (st.events ++ evt ∷ []));
  first_seen = st.first_seen;
  last_seen = evt.timestamp;
  unique_uas =
      retain (λ ts. not (before_cutoff window evt.timestamp ts))
        (insert evt.user_agent evt.timestamp st.unique_uas);
  last_status = st.last_status;
  last_non200_path = st.last_non200_path;
  last_non200_method = st.last_non200_method;
  cookies_sent = if evt.has_cookie then st.cookies_sent + 1 else st.cookies_sent;
  requests_total = st.requests_total + 1;
  last_js_asset_at = st.last_js_asset_at;
  document_fetches =
      if evt.sec_fetch_dest == codes "document"
      then st.document_fetches + 1
      else st.document_fetches;
  subresource_fetches =
      if is_empty evt.sec_fetch_dest || evt.sec_fetch_dest == codes "document"
      then st.subresource_fetches
      else st.subresource_fetches + 1;
  header_mutations = mutations st evt;
  last_header_bitmap =
      if is_empty evt.header_bitmap then st.last_header_bitmap else evt.header_bitmap;
  set_cookie_received = st.set_cookie_received;
  has_cross_origin_requests = st.has_cross_origin_requests || evt.has_origin_header;
  honeypot_hits = st.honeypot_hits;
  score = st.score;
}

abbrev pub state_of : Option ClientState → ℕ → ClientState
state_of none now = new_state now
state_of (some st) now = st

abbrev put : Bytes → ClientState → Tracker → Tracker
put id st t = record t { clients = insert id st t.clients }

-- `Record`
unfoldable pub record_request : Bytes → ClientEvent → Tracker → Tracker
record_request id evt t =
    put id (record_event t.window t.max_hist (state_of (lookup id t.clients) evt.timestamp) evt) t

-- `Get`
abbrev pub get : Bytes → Tracker → Option ClientState
get id t = lookup id t.clients

abbrev pub change : Bytes → (ClientState → ClientState) → Tracker → Tracker
change id f t = elim (get id t) [ none ↦ t | some st ↦ put id (f st) t ]

-- `RecordJSAsset`
unfoldable pub record_js_asset_at : ℕ → Bytes → Tracker → Tracker
record_js_asset_at now id t = change id (λ st. record st { last_js_asset_at = some now }) t

-- `RecordSetCookie`
unfoldable pub record_set_cookie_of : Bytes → Tracker → Tracker
record_set_cookie_of id t = change id (λ st. record st { set_cookie_received = true }) t

-- The status of the last event.
unfoldable pub mark_last : ℕ → List ClientEvent → List ClientEvent
mark_last status [] = []
mark_last status (e ∷ []) = record e { status = status } ∷ []
mark_last status (e ∷ f ∷ es) = e ∷ mark_last status (f ∷ es)

abbrev pub with_status : ℕ → Bytes → Bytes → ClientState → ClientState
with_status status path method st = record st {
  last_status = status;
  last_non200_path = if leb 400 status then path else st.last_non200_path;
  last_non200_method = if leb 400 status then method else st.last_non200_method;
  events = mark_last status st.events;
}

-- `RecordStatus`
unfoldable pub record_status_of : Bytes → ℕ → Bytes → Bytes → Tracker → Tracker
record_status_of id status path method t = change id (with_status status path method) t

-- `Len`
abbrev pub tracked : Tracker → ℕ
tracked t = length t.clients

-- `GC`
unfoldable pub collect : ℕ → ℕ → Tracker → Tracker
collect now max_idle t = record t {
  clients = retain (λ st. not (ltb max_idle (now - st.last_seen))) t.clients;
}
