-- ===== src/Admin/Sessions.antt =====
-- internal/admin: who gets past `protect` and `apiAuth`, after any sign-ins, sign-outs and
-- collections.
use veilgate.Prelude.{
  ℕ, ◌≡◌, ◌<◌, ◌⊎◌, ◌≢◌, Bool, inl, inr, arith, refl, sym, ap, ◌∙◌, subst, true, false, some, List,
  [], ◌∷◌, Bytes, bytes_eq, IsMap, lookup, Option-cases,
}
use veilgate.Http.{Request}
use veilgate.Verifier.Validators.{cookie}
use veilgate.Admin.{
  session_cookie, SessionEntry, Sessions, collect_sessions, check_session, session_username,
  destroy, admitted, handle_logout, protect, is_public, api_auth,
}
use veilgate.Admin.Calls.{
  AdminCall, signing_in, api_signing_in, signing_out, api_signing_out, collecting_sessions,
  perform_admin, Opens, handle_login-Effect, api_login-Effect, Effect-entry, destroy-entry,
  api_logout-cases, unopened, perform_admin-IsMap, collect_sessions-entry,
}

-- The sessions after calls of a new state, the newest call first.
unfoldable pub sessions_after : List AdminCall → Sessions
sessions_after [] = []
sessions_after (call ∷ older) = perform_admin call (sessions_after older)

sessions_after-IsMap : (calls : List AdminCall) → IsMap (sessions_after calls)
unfolding sessions_after
sessions_after-IsMap [] = tt
sessions_after-IsMap (call ∷ older) =
    perform_admin-IsMap call (sessions_after older) (sessions_after-IsMap older)

-- A call opened the session, and no later request to sign out carried its identifier; one over the
-- API that is made after `now` does not count.
abbrev pub Vouched : Bytes → Bytes → ℕ → List AdminCall → Type 0
Vouched id user now [] = ⊥
Vouched id user now (signing_in s ∷ older) = Opens s id user now ⊎ Vouched id user now older
Vouched id user now (api_signing_in s ∷ older) = Opens s id user now ⊎ Vouched id user now older
Vouched id user now (signing_out r ∷ older) =
    (cookie session_cookie r ≢ some id) × Vouched id user now older
Vouched id user now (api_signing_out t r ∷ older) =
    ((now < t) ⊎ (cookie session_cookie r ≢ some id)) × Vouched id user now older
Vouched id user now (collecting_sessions t ∷ older) = Vouched id user now older

-- A session that is open was opened by a call and not closed since.
sessions_after-Vouched :
    (calls : List AdminCall) (id : Bytes) (x : SessionEntry) (now : ℕ)
    → lookup id (sessions_after calls) ≡ some x
    → now < x.expiry
    → Vouched id x.username now calls
unfolding sessions_after
sessions_after-Vouched [] id x now l lt = unfold lookup in cc
sessions_after-Vouched (signing_in s ∷ older) id x now l lt =
    let ss = sessions_after older in
    elim (Effect-entry s ss _ id x now (handle_login-Effect s ss) l lt) [
      | inl o ↦ inl o
      | inr k ↦ inr (sessions_after-Vouched older id x now k lt)
    ]
sessions_after-Vouched (api_signing_in s ∷ older) id x now l lt =
    let ss = sessions_after older in
    elim (Effect-entry s ss _ id x now (api_login-Effect s ss) l lt) [
      | inl o ↦ inl o
      | inr k ↦ inr (sessions_after-Vouched older id x now k lt)
    ]
sessions_after-Vouched (signing_out r ∷ older) id x now l lt =
    let ss = sessions_after older in
    let q : perform_admin (signing_out r) ss ≡ destroy r ss =
      unfold perform_admin handle_logout in refl in
    let (c, k) = destroy-entry r ss id x (sym (ap (lookup id) q) ∙ l) in
    (c, sessions_after-Vouched older id x now k lt)
sessions_after-Vouched (api_signing_out t r ∷ older) id x now l lt =
    let ss = sessions_after older in
    elim (api_logout-cases t r ss) [
      | inl q ↦
          let (c, k) = destroy-entry r ss id x (sym (ap (lookup id) q) ∙ l) in
          (inr c, sessions_after-Vouched older id x now k lt)
      | inr (shut, q) ↦
          let k : lookup id ss ≡ some x = sym (ap (lookup id) q) ∙ l in
          (unopened t now r ss id x shut k lt, sessions_after-Vouched older id x now k lt)
    ]
sessions_after-Vouched (collecting_sessions t ∷ older) id x now l lt =
    let ss = sessions_after older in
    let q : perform_admin (collecting_sessions t) ss ≡ collect_sessions t ss =
      unfold perform_admin in refl in
    let k =
      collect_sessions-entry t ss id x (sessions_after-IsMap older) (sym (ap (lookup id) q) ∙ l) in
    sessions_after-Vouched older id x now k lt

-- The entry that lets a request past `Check`.
check_session-entry :
    (now : ℕ) (r : Request) (ss : Sessions)
    → check_session now r ss ≡ true
    → (id : Bytes) × (x : SessionEntry) × (cookie session_cookie r ≡ some id)
      × (lookup id ss ≡ some x)
      × (now < x.expiry)
unfolding check_session
check_session-entry now r ss h = elim (Option-cases (cookie session_cookie r)) [
  | inl e ↦ absurd (ground arith)
  | inr (id, e) ↦ elim (Option-cases (lookup id ss)) [
    | inl l ↦ absurd (ground arith)
    | inr (x, l) ↦ (id, x, e, l, ground arith)
  ]
]

session_username-entry :
    (now : ℕ) (r : Request) (ss : Sessions) (id : Bytes) (x : SessionEntry)
    → cookie session_cookie r ≡ some id
    → lookup id ss ≡ some x
    → now < x.expiry
    → session_username now r ss ≡ x.username
unfolding session_username
session_username-entry now r ss id x e l lt = ground arith

protect-admitted :
    (must_change : Bytes → Bool) (now : ℕ) (r : Request) (user : Bytes) (ss : Sessions)
    → protect must_change now r (some ss) ≡ admitted user
    → (check_session now r ss ≡ true) × (session_username now r ss ≡ user)
unfolding protect
protect-admitted must_change now r user ss h = (ground arith, ground arith)

-- Where signing in is on, a request that gets past `protect` as some user, after any sign-ins,
-- sign-outs, both on the pages and over the API, and collections of a new state: its cookie is the
-- identifier of a session that a sign-in with that user's then valid credentials opened less than 8
-- hours ago, and no later request to sign out, made by now, carried it.
pub protect-Vouched :
    (calls : List AdminCall) (must_change : Bytes → Bool) (now : ℕ) (r : Request) (user : Bytes)
    → protect must_change now r (some (sessions_after calls)) ≡ admitted user
    → (id : Bytes) × (cookie session_cookie r ≡ some id) × Vouched id user now calls
protect-Vouched calls must_change now r user h =
    let ss = sessions_after calls in
    let (is_open, name) = protect-admitted must_change now r user ss h in
    let (id, x, e, l, lt) = check_session-entry now r ss is_open in
    let u : x.username ≡ user = sym (session_username-entry now r ss id x e l lt) ∙ name in
    (
      id,
      e,
      subst (λ name. Vouched id name now calls) u (sessions_after-Vouched calls id x now l lt),
    )

-- Where signing in is on, a request for a path of the API that is not public gets past `apiAuth`, after
-- any such calls, only with the cookie of a session that a sign-in with some user's then valid
-- credentials opened less than 8 hours ago, and that no later request to sign out, made by now,
-- carried.
pub api_auth-Vouched :
    (calls : List AdminCall) (now : ℕ) (r : Request)
    → is_public r.path ≡ false
    → api_auth now r (some (sessions_after calls)) ≡ true
    → (id : Bytes) × (user : Bytes) × (cookie session_cookie r ≡ some id)
      × Vouched id user now calls
api_auth-Vouched calls now r private h =
    let ss = sessions_after calls in
    let is_open : check_session now r ss ≡ true = unfold api_auth in ground arith in
    let (id, x, e, l, lt) = check_session-entry now r ss is_open in
    (id, x.username, e, sessions_after-Vouched calls id x now l lt)
