-- ===== src/Proxy/Guard.antt =====
-- internal/proxy/framing_guard.go: `framingGuardConn`, which reads the first request of a
-- connection ahead, tests its framing, and then replays what it read. The connection beneath is the
-- list of what its reads return; after the last one it is at its end.
pub mod Stream
pub mod Verdict
use veilgate.Prelude.{
  ℕ, zero, suc, ◌+◌, ◌-◌, Bool, true, false, not, ◌&&◌, ◌||◌, List, [], ◌∷◌, ◌++◌, Option, none,
  some, Bytes, codes, ◌==◌, nat_eq, leb, if◌then◌else◌, is_empty, length, take, drop, contains,
  index,
}
use veilgate.Proxy.Framing.{bad_http_request_framing}

-- `n, err` of a Read, with the bytes in place of their number.
pub record Read : Type 0 where
  pub got : Bytes
  pub failed : Bool

abbrev pub at_end : Read
at_end = record { got = []; failed = true }

-- `Read` with room for `cap` bytes: what does not fit stays for the next call.
unfoldable pub inner_read : ℕ → List Read → Read × List Read
inner_read cap [] = (at_end, [])
inner_read cap (c ∷ cs) =
    if leb (length c.got) cap
    then (c, cs)
    else (record { got = take cap c.got; failed = false }, record c { got = drop cap c.got } ∷ cs)

abbrev pub max_framing_guard_header_bytes : ℕ
max_framing_guard_header_bytes = 32768

abbrev pub read_size : ℕ
read_size = 4096

abbrev pub blank_line : Bytes
blank_line = 13 ∷ 10 ∷ 13 ∷ 10 ∷ []

abbrev pub bad_request_response : Bytes
bad_request_response =
    codes "HTTP/1.1 400 Bad Request\r\nContent-Length: 0\r\nConnection: close\r\n\r\n"

-- `h2` says that the connection negotiated "h2". `sent` is what the guard wrote itself.
pub record Conn : Type 0 where
  pub h2 : Bool
  pub inner : List Read
  pub checked : Bool
  pub replay : Option Bytes
  pub closed : Bool
  pub sent : Bytes
  pub inner_closed : Bool

abbrev pub accept : Bool → List Read → Conn
accept h2 inner = record {
  h2 = h2;
  inner = inner;
  checked = false;
  replay = none;
  closed = false;
  sent = [];
  inner_closed = false;
}

-- How the loop ended: the bytes read, and whether by the error of a read.
pub record Gathered : Type 0 where
  pub raw : Bytes
  pub failed : Bool
  pub rest : List Read

-- `none` where the fuel ran out
unfoldable pub gather : ℕ → Bytes → List Read → Option Gathered
gather zero buf cs = none
gather (suc fuel) buf cs =
    if leb max_framing_guard_header_bytes (length buf)
    then some (record { raw = buf; failed = false; rest = cs })
    else let (r, cs') = inner_read read_size cs in
      let buf' = buf ++ r.got in
      let more = gather fuel buf' cs' in
      if not (is_empty r.got) && contains buf' blank_line
      then some (record { raw = buf'; failed = false; rest = cs' })
      else if r.failed
      then some (record { raw = buf'; failed = true; rest = cs' })
      else more

abbrev pub replayed : Conn → Gathered → Conn
replayed c g = record c { inner = g.rest; replay = some g.raw }

abbrev pub refused : Conn → Gathered → Conn
refused c g = record c {
  inner = g.rest;
  replay = none;
  closed = true;
  sent = c.sent ++ bad_request_response;
  inner_closed = true;
}

unfoldable pub finish_check : Conn → Gathered → Conn
finish_check c g = if g.failed then replayed c g else elim (index g.raw blank_line) [
  | none ↦ replayed c g
  | some header_end ↦
      if bad_http_request_framing (take header_end g.raw) then refused c g else replayed c g
]

-- Every read takes a byte, a list entry or the end of the connection.
abbrev pub size : List Read → ℕ
size [] = 0
size (c ∷ cs) = suc (length c.got + size cs)

unfoldable pub check_first_request : Conn → Option Conn
unfolding gather finish_check
check_first_request c = if c.h2 then some c else elim (gather (suc (size c.inner)) [] c.inner) [
  | none ↦ none
  | some g ↦ some (finish_check c g)
]

abbrev pass_on : ℕ → Conn → Read × Conn
pass_on cap c = let (r, rest) = inner_read cap c.inner in (r, record c { inner = rest })

-- `replay.Read` with room for `cap` bytes of a replay that is not used up
abbrev from_replay : ℕ → Conn → Option Bytes → Read × Conn
from_replay cap c none = pass_on cap c
from_replay cap c (some raw) =
    if is_empty raw || cap == 0
    then pass_on cap c
    else (record { got = take cap raw; failed = false }, record c { replay = some (drop cap raw) })

unfoldable pub serve_read : ℕ → Conn → Read × Conn
serve_read cap c = if c.closed then (at_end, c) else from_replay cap c c.replay

-- `Read`: `none` where the check ran out of fuel, which it does not.
unfoldable pub read : ℕ → Conn → Option (Read × Conn)
unfolding check_first_request serve_read
read cap c =
    if c.checked
    then some (serve_read cap c)
    else elim (check_first_request (record c { checked = true })) [
      | none ↦ none
      | some c' ↦ some (serve_read cap c')
    ]
