-- ===== src/Detector/Samples.antt =====
-- Runs of the trackers, and the theorems at these.
use veilgate.Prelude.{List, runs, ℕ, ◌≡◌, refl, true, false, [], ◌∷◌, Bytes, codes, length}
use veilgate.Detector.Fleet.{new_fleet_tracker, observe_ip}
use veilgate.Detector.Fleet.Rotation.{Observation, observe_all}
use veilgate.Detector.Tracker.{
  ClientEvent, ClientState, Tracker, new_tracker, new_state, evict, record_event,
}
use veilgate.Detector.Tracker.Bounds.{
  request, js_asset, set_cookie, status_of, gc, perform_all, IsTracking, perform_all-IsTracking,
}

abbrev event_at : ℕ → ClientEvent
event_at now = record {
  timestamp = now;
  path = codes "/";
  query = [];
  method = codes "GET";
  status = 0;
  user_agent = codes "curl";
  ja4 = [];
  sec_fetch_dest = codes "document";
  has_cookie = true;
  tool_stage = [];
  header_bitmap = codes "11";
  has_conditional = false;
  has_origin_header = false;
}

abbrev client : Bytes
client = codes "10.0.0.1"

perform_all-IsTracking_example : IsTracking 200 (
    perform_all
      (request client (event_at 5)
        ∷ status_of client 404 (codes "/") (codes "GET")
        ∷ js_asset 6 client
        ∷ set_cookie client
        ∷ gc 9 2
        ∷ [])
      (new_tracker 60))
perform_all-IsTracking_example = perform_all-IsTracking 60 (
    request client (event_at 5)
    ∷ status_of client 404 (codes "/") (codes "GET")
    ∷ js_asset 6 client
    ∷ set_cookie client
    ∷ gc 9 2
    ∷ [])

-- Two requests, of which the first is outside the window at the third.
abbrev busy : ClientState
busy = record (new_state 1) { events = event_at 1 ∷ event_at 50 ∷ []; last_seen = 50 }

two_left : length (record_event 60 200 busy (event_at 70)).events ≡ 2
unfolding runs record_event evict
two_left = refl

abbrev watched : Tracker
watched = record { clients = (client, busy) ∷ []; window = 60; max_hist = 200 }

-- Two fingerprints of one address each, in a tracker for one.
abbrev sightings : List Observation
sightings =
    record { fingerprint = codes "a"; ip = codes "1.1.1.1"; at_time = 10 }
    ∷ record { fingerprint = codes "b"; ip = codes "2.2.2.2"; at_time = 80 }
    ∷ []

rotated :
    (observe_ip (codes "b") (codes "3.3.3.3") 90 (observe_all sightings (new_fleet_tracker 60 1))).1
    ≡ 2
unfolding runs observe_ip observe_all
rotated = refl
