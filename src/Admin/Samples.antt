-- ===== src/Admin/Samples.antt =====
-- Examples and tests for internal/admin: one user, who signs in at time 5.
use veilgate.Prelude.{◌≡◌, refl, false, some, List, [], ◌∷◌, Bytes, codes, runs, hex_encode, remove}
use veilgate.Http.{Request}
use veilgate.Verifier.Validators.{cookie, cookie_part, parse_cookie_value}
use veilgate.Admin.{
  Credentials, in_memory, SignIn, redirect, handle_login, post_login, handle_logout, protect,
  api_auth, api_login, api_logout, check_session, session_username, session_cookie, validate,
  new_session, destroy, collect_sessions,
}
use veilgate.Admin.Calls.{
  AdminCall, signing_in, api_signing_in, signing_out, api_signing_out, collecting_sessions,
  perform_admin,
}
use veilgate.Admin.Sessions.{sessions_after, Vouched, protect-Vouched, api_auth-Vouched}

abbrev root_only : Credentials
root_only = in_memory (codes "root") (codes "pw")

abbrev asking : Bytes → Bytes → List (Bytes × Bytes) → Request
asking method path headers = record {
  method = method;
  path = path;
  remote_addr = [];
  proto_major = 1;
  proto_minor = 1;
  headers = headers;
  transfer_encoding = [];
  content_length = some 0;
  body = some [];
}

abbrev sign_in : SignIn
sign_in = record {
  now = 5;
  request = asking (codes "POST") (codes "/login") [];
  credentials = root_only;
  form = some (record { user = codes "root"; pass = codes "pw"; next = [] });
  random = some (1 ∷ 2 ∷ []);
}

abbrev with_session : Bytes → Request
with_session path = asking (codes "GET") path ((codes "Cookie", codes "vg-session=0102") ∷ [])

-- The newest call first.
abbrev day : List AdminCall
day =
    collecting_sessions 9
    ∷ signing_out (asking (codes "GET") (codes "/logout") [])
    ∷ api_signing_out 8 (asking (codes "POST") (codes "/api/v1/auth/logout") [])
    ∷ api_signing_in sign_in
    ∷ []

signed_out_run :
    protect
      (λ user. false)
      10
      (with_session (codes "/rules"))
      (some (sessions_after (api_signing_out 9 (with_session (codes "/api/v1/auth/logout")) ∷ day)))
    ≡ redirect (codes "/login?next=/rules")
unfolding runs protect session_username check_session cookie cookie_part parse_cookie_value
    sessions_after perform_admin api_logout api_auth handle_logout destroy remove collect_sessions
    handle_login post_login api_login validate new_session hex_encode
signed_out_run = refl

page_signed_out_run :
    api_auth 10 (with_session (codes "/api/v1/config")) (
      some
        (sessions_after (signing_out (with_session (codes "/logout")) ∷ signing_in sign_in ∷ [])))
    ≡ false
unfolding runs api_auth check_session cookie cookie_part parse_cookie_value sessions_after
    perform_admin handle_logout destroy remove handle_login post_login validate new_session
    hex_encode
page_signed_out_run = refl

protect-Vouched_example :
    (id : Bytes) × (cookie session_cookie (with_session (codes "/rules")) ≡ some id)
    × Vouched id (codes "root") 10 day
unfolding runs protect session_username check_session cookie cookie_part parse_cookie_value
    sessions_after perform_admin api_logout api_auth handle_logout destroy remove collect_sessions
    handle_login post_login api_login validate new_session hex_encode
protect-Vouched_example =
    protect-Vouched day (λ user. false) 10 (with_session (codes "/rules")) (codes "root") refl

api_auth-Vouched_example :
    (id : Bytes) × (user : Bytes) × (cookie session_cookie (with_session (codes "/api/v1/config"))
      ≡ some id)
    × Vouched id user 10 (signing_in sign_in ∷ [])
unfolding runs api_auth check_session cookie cookie_part parse_cookie_value sessions_after
    perform_admin handle_login post_login validate new_session hex_encode
api_auth-Vouched_example =
    api_auth-Vouched (signing_in sign_in ∷ []) 10 (with_session (codes "/api/v1/config")) refl refl
