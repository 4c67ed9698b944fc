-- ===== src/Admin.antt =====
-- internal/admin/auth.go, with `handleLogin` and `handleLogout` of handlers.go, `protect` of admin.go
-- and `apiAuth`, `apiLogin` and `apiLogout` of api.go: the sessions of the admin console. Times are
-- nanoseconds. The user database, the decoders of forms and JSON and the random bytes are arguments;
-- pages, headers and the audit log are left out. The sessions are `none` where signing in is off.
pub mod Calls
pub mod Sessions
mod Samples
use veilgate.Prelude.{
  ℕ, ◌+◌, Bool, true, false, not, ◌&&◌, ◌||◌, Option, none, some, [], ◌++◌, Bytes, bytes_eq, codes,
  ltb, ◌==◌, if◌then◌else◌, is_empty, has_prefix, Map, lookup, insert, remove, retain, hex_encode,
}
use veilgate.Http.{
  Request, status_method_not_allowed, status_bad_request, status_unauthorized, status_unavailable,
}
use veilgate.Verifier.Validators.{cookie}

abbrev pub session_cookie : Bytes
session_cookie = codes "vg-session"

-- 8 hours
abbrev pub session_ttl : ℕ
session_ttl = 28800000000000

pub record SessionEntry : Type 0 where
  pub username : Bytes
  pub expiry : ℕ

-- `AuthState`, less the lock and the credentials
abbrev pub Sessions : Type 0
Sessions = Map Bytes SessionEntry

-- Where the credentials are: the database with its `CheckPassword`, or in memory.
pub data Credentials : Type 0 where
  database : (Bytes → Bytes → Bool) → Credentials
  in_memory : Bytes → Bytes → Credentials

-- `Validate`
unfoldable pub validate : Credentials → Bytes → Bytes → Bool
validate (database check_password) user pass = check_password user pass
validate (in_memory username password) user pass = user == username && pass == password

-- `gc`, at one tick
unfoldable pub collect_sessions : ℕ → Sessions → Sessions
collect_sessions now ss = retain (λ (e : SessionEntry). not (ltb e.expiry now)) ss

-- `NewSession`, given the 32 bytes: the identifier, and the sessions after it
unfoldable pub new_session : ℕ → Bytes → Bytes → Sessions → Bytes × Sessions
new_session now random user ss = (
  hex_encode random,
  insert (hex_encode random) (record { username = user; expiry = now + session_ttl }) ss,
)

abbrev entry_of : Option Bytes → Sessions → Option SessionEntry
entry_of none ss = none
entry_of (some id) ss = lookup id ss

-- The entry of the request's cookie.
abbrev pub session_of : Request → Sessions → Option SessionEntry
session_of r ss = entry_of (cookie session_cookie r) ss

abbrev is_open : ℕ → Option SessionEntry → Bool
is_open now none = false
is_open now (some e) = ltb now e.expiry

abbrev name_of : ℕ → Option SessionEntry → Bytes
name_of now none = []
name_of now (some e) = if ltb e.expiry now then [] else e.username

-- `Check`
unfoldable pub check_session : ℕ → Request → Sessions → Bool
check_session now r ss = is_open now (session_of r ss)

-- `Username`
unfoldable pub session_username : ℕ → Request → Sessions → Bytes
session_username now r ss = name_of now (session_of r ss)

abbrev without : Option Bytes → Sessions → Sessions
without none ss = ss
without (some id) ss = remove id ss

-- `Destroy`
unfoldable pub destroy : Request → Sessions → Sessions
destroy r ss = without (cookie session_cookie r) ss

-- The fields of the posted form, or of the posted JSON, which has no `next`; an absent one is empty.
pub record LoginForm : Type 0 where
  pub user : Bytes
  pub pass : Bytes
  pub next : Bytes

-- What is answered: a redirect, the page to sign in, with an error or without, a status of the API, or
-- the page asked for, as that user.
pub data AdminAnswer : Type 0 where
  redirect : Bytes → AdminAnswer
  login_page : Bool → AdminAnswer
  replied : ℕ → AdminAnswer
  admitted : Bytes → AdminAnswer

-- The answer, the session cookie it sets, empty where it clears it, and the sessions after it.
pub record Handled : Type 0 where
  pub answer : AdminAnswer
  pub set_cookie : Option Bytes
  pub sessions : Option Sessions

-- A request to sign in: the credentials as they are at that time, the form, `none` for an error, and
-- what `rand.Read` gives, `none` for an error.
pub record SignIn : Type 0 where
  pub now : ℕ
  pub request : Request
  pub credentials : Credentials
  pub form : Option LoginForm
  pub random : Option Bytes

unfoldable pub next_path : Bytes → Bytes
next_path next =
    if is_empty next || not (has_prefix next (codes "/")) then codes "/dashboard" else next

abbrev pub unchanged : AdminAnswer → Option Sessions → Handled
unchanged answer auth = record { answer = answer; set_cookie = none; sessions = auth }

-- A valid sign-in, from `NewSession` on, which is answered like that.
abbrev pub signed_in : AdminAnswer → ℕ → LoginForm → Option Bytes → Sessions → Handled
signed_in answer now form none ss = unchanged (replied 500) (some ss)
signed_in answer now form (some random) ss = record {
  answer = answer;
  set_cookie = some (new_session now random form.user ss).0;
  sessions = some (new_session now random form.user ss).1;
}

unfoldable pub post_login : SignIn → Sessions → Handled
post_login s ss = elim s.form [
  | none ↦ unchanged (replied status_bad_request) (some ss)
  | some form ↦
      if not (validate s.credentials form.user form.pass)
      then unchanged (login_page true) (some ss)
      else signed_in (redirect (next_path form.next)) s.now form s.random ss
]

-- `handleLogin`
unfoldable pub handle_login : SignIn → Option Sessions → Handled
handle_login s auth = elim auth [
  | none ↦ unchanged (redirect (codes "/dashboard")) none
  | some ss ↦
      if check_session s.now s.request ss
      then unchanged (redirect (codes "/dashboard")) (some ss)
      else if s.request.method == codes "GET"
      then unchanged (login_page false) (some ss)
      else if s.request.method == codes "POST"
      then post_login s ss
      else unchanged (replied status_method_not_allowed) (some ss)
]

-- `handleLogout`
unfoldable pub handle_logout : Request → Option Sessions → Handled
handle_logout r none = unchanged (redirect (codes "/login")) none
handle_logout r (some ss) = record {
  answer = redirect (codes "/login");
  set_cookie = some [];
  sessions = some (destroy r ss);
}

-- `protect`; `must_change` is the database's, false without one.
unfoldable pub protect : (Bytes → Bool) → ℕ → Request → Option Sessions → AdminAnswer
protect must_change now r none = admitted (codes "admin")
protect must_change now r (some ss) =
    let username = session_username now r ss in
    if not (check_session now r ss)
    then redirect (codes "/login?next=" ++ r.path)
    else if must_change username && not (r.path == codes "/account/password")
    then redirect (codes "/account/password")
    else admitted username

abbrev pub is_public : Bytes → Bool
is_public path = path == codes "/api/v1/health" || path == codes "/api/v1/auth/login"

abbrev checked : ℕ → Request → Option Sessions → Bool
checked now r none = true
checked now r (some ss) = check_session now r ss

-- `apiAuth`: whether the handler is called. If not, the answer is 401.
unfoldable pub api_auth : ℕ → Request → Option Sessions → Bool
api_auth now r auth = if is_public r.path then true else checked now r auth

-- `apiLogin`
unfoldable pub api_login : SignIn → Option Sessions → Handled
api_login s auth =
    if not (s.request.method == codes "POST")
    then unchanged (replied status_method_not_allowed) auth
    else elim auth [
      | none ↦ unchanged (replied status_unavailable) none
      | some ss ↦ elim s.form [
        | none ↦ unchanged (replied status_bad_request) (some ss)
        | some form ↦
            if not (validate s.credentials form.user form.pass)
            then unchanged (replied status_unauthorized) (some ss)
            else signed_in (replied 200) s.now form s.random ss
      ]
    ]

abbrev destroyed : Request → Option Sessions → Handled
destroyed r none = unchanged (replied 200) none
destroyed r (some ss) = record {
  answer = replied 200;
  set_cookie = some [];
  sessions = some (destroy r ss);
}

-- `apiLogout`, behind `apiAuth`
unfoldable pub api_logout : ℕ → Request → Option Sessions → Handled
api_logout now r auth =
    if api_auth now r auth then destroyed r auth else unchanged (replied status_unauthorized) auth
