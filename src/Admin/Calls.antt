-- ===== src/Admin/Calls.antt =====
-- internal/admin: what one sign-in, sign-out or collection does to the sessions.
use mathlib.Core.Option.{some-injective}
use veilgate.Prelude.{
  ℕ, ◌≡◌, ◌<◌, ◌+◌, ◌⊎◌, ◌≢◌, inl, inr, arith, sym, ap, ◌∙◌, subst, true, false, not, Option, none,
  some, [], Bytes, bytes_eq, bytes_beq_iff, codes, ltb, ◌==◌, if◌then◌else◌, IsMap, lookup, insert,
  lookup-insert, lookup-remove, lookup-retain, insert-IsMap, remove-IsMap, retain-IsMap,
  Option-cases, Bool-cases, hex_encode,
}
use veilgate.Http.{Request}
use veilgate.Verifier.Validators.{cookie}
use veilgate.Admin.{
  session_cookie, session_ttl, SessionEntry, Sessions, validate, collect_sessions, new_session,
  check_session, destroy, LoginForm, SignIn, post_login, handle_login, handle_logout, api_auth,
  api_login, api_logout,
}

-- A sign-in, a sign-out, both also over the API, and a tick of `gc`.
pub data AdminCall : Type 0 where
  signing_in api_signing_in : SignIn → AdminCall
  signing_out : Request → AdminCall
  api_signing_out : ℕ → Request → AdminCall
  collecting_sessions : ℕ → AdminCall

abbrev or_none : Option Sessions → Sessions
or_none none = []
or_none (some ss) = ss

-- The sessions after a call, where signing in is on.
unfoldable pub perform_admin : AdminCall → Sessions → Sessions
perform_admin (signing_in s) ss = or_none (handle_login s (some ss)).sessions
perform_admin (api_signing_in s) ss = or_none (api_login s (some ss)).sessions
perform_admin (signing_out r) ss = or_none (handle_logout r (some ss)).sessions
perform_admin (api_signing_out t r) ss = or_none (api_logout t r (some ss)).sessions
perform_admin (collecting_sessions t) ss = collect_sessions t ss

-- A sign-in with the valid credentials, at that time, of that user, less than 8 hours before `now`,
-- whose random bytes make that identifier.
abbrev pub Opens : SignIn → Bytes → Bytes → ℕ → Type 0
Opens s id user now =
    (form : LoginForm) × (random : Bytes) × (s.form ≡ some form)
    × (s.random ≡ some random)
    × (s.request.method ≡ codes "POST")
    × (form.user ≡ user)
    × (validate s.credentials form.user form.pass ≡ true)
    × (hex_encode random ≡ id)
    × (now < s.now + session_ttl)

-- What a sign-in does to the sessions: nothing, or it opens one.
abbrev Effect : SignIn → Sessions → Sessions → Type 0
Effect s ss after =
    (after ≡ ss)
    ⊎ ((form : LoginForm) × (random : Bytes) × (s.form ≡ some form)
        × (s.random ≡ some random)
        × (s.request.method ≡ codes "POST")
        × (validate s.credentials form.user form.pass ≡ true)
        × (after
            ≡ insert (hex_encode random)
                (record { username = form.user; expiry = s.now + session_ttl }) ss))

pub handle_login-Effect :
    (s : SignIn) (ss : Sessions) → Effect s ss (perform_admin (signing_in s) ss)
unfolding perform_admin
handle_login-Effect s ss = elim (Option-cases s.form) [
  | inl e ↦ inl (unfold handle_login post_login in ground arith)
  | inr (form, e) ↦ elim (Option-cases s.random) [
    | inl f ↦ inl (unfold handle_login post_login in ground arith)
    | inr (random, f) ↦
        let after = perform_admin (signing_in s) ss in
        let opened : Sessions =
          insert (hex_encode random) (record { username = form.user; expiry = s.now + session_ttl })
            ss in
        let either : (after ≡ ss)
            ⊎ ((s.request.method == codes "POST" ≡ true)
                × ((validate s.credentials form.user form.pass ≡ true) × (after ≡ opened))) =
          unfold handle_login post_login new_session in ground arith in
        elim either [
          | inl q ↦ inl q
          | inr (m, (v, q)) ↦
              inr (form, random, e, f, (bytes_beq_iff s.request.method (codes "POST")).0 m, v, q)
        ]
  ]
]

pub api_login-Effect :
    (s : SignIn) (ss : Sessions) → Effect s ss (perform_admin (api_signing_in s) ss)
unfolding perform_admin
api_login-Effect s ss = elim (Option-cases s.form) [
  | inl e ↦ inl (unfold api_login in ground arith)
  | inr (form, e) ↦ elim (Option-cases s.random) [
    | inl f ↦ inl (unfold api_login in ground arith)
    | inr (random, f) ↦
        let after = perform_admin (api_signing_in s) ss in
        let opened : Sessions =
          insert (hex_encode random) (record { username = form.user; expiry = s.now + session_ttl })
            ss in
        let either : (after ≡ ss)
            ⊎ ((s.request.method == codes "POST" ≡ true)
                × ((validate s.credentials form.user form.pass ≡ true) × (after ≡ opened))) =
          unfold api_login new_session in ground arith in
        elim either [
          | inl q ↦ inl q
          | inr (m, (v, q)) ↦
              inr (form, random, e, f, (bytes_beq_iff s.request.method (codes "POST")).0 m, v, q)
        ]
  ]
]

Effect-IsMap : (s : SignIn) (ss after : Sessions) → Effect s ss after → IsMap ss → IsMap after
Effect-IsMap s ss after (inl q) m = subst (λ (x : Sessions). IsMap x) (sym q) m
Effect-IsMap s ss after (inr (form, random, e, f, p, v, q)) m =
    subst (λ (x : Sessions). IsMap x) (sym q)
      (insert-IsMap (hex_encode random)
        (record { username = form.user; expiry = s.now + session_ttl }) ss m)

-- An entry that is there after a sign-in, and open, is opened by it or was there before.
pub Effect-entry :
    (s : SignIn) (ss after : Sessions) (id : Bytes) (x : SessionEntry) (now : ℕ)
    → Effect s ss after
    → lookup id after ≡ some x
    → now < x.expiry
    → Opens s id x.username now ⊎ (lookup id ss ≡ some x)
Effect-entry s ss after id x now (inl q) l lt = inr (sym (ap (lookup id) q) ∙ l)
Effect-entry s ss after id x now (inr (form, random, e, f, m, v, q)) l lt =
    let new : SessionEntry = record { username = form.user; expiry = s.now + session_ttl } in
    let r : (if hex_encode random == id then some new else lookup id ss) ≡ some x =
      sym (lookup-insert (hex_encode random) id new ss) ∙ (sym (ap (lookup id) q) ∙ l) in
    elim (Bool-cases (hex_encode random == id)) [
      | inl same ↦
          let i : new ≡ x = ground arith in
          inl (
            form,
            random,
            e,
            f,
            m,
            ap (λ (y : SessionEntry). y.username) i,
            v,
            (bytes_beq_iff (hex_encode random) id).0 same,
            subst (λ (y : SessionEntry). now < y.expiry) (sym i) lt,
          )
      | inr other ↦ inr (ground arith)
    ]

destroy-IsMap : (r : Request) (ss : Sessions) → IsMap ss → IsMap (destroy r ss)
unfolding destroy
destroy-IsMap r ss m = elim (Option-cases (cookie session_cookie r)) [
  | inl e ↦ ground arith
  | inr (id, e) ↦ ground (arith, remove-IsMap id ss m)
]

-- An entry that is there after a sign-out was there before, and the request did not carry it.
pub destroy-entry :
    (r : Request) (ss : Sessions) (id : Bytes) (x : SessionEntry)
    → lookup id (destroy r ss) ≡ some x
    → (cookie session_cookie r ≢ some id) × (lookup id ss ≡ some x)
unfolding destroy
destroy-entry r ss id x l = elim (Option-cases (cookie session_cookie r)) [
  | inl e ↦ (λ c. cc, ground arith)
  | inr (j, e) ↦
      let k : (if j == id then none else lookup id ss) ≡ some x =
        ground (arith, lookup-remove j id ss) in
      elim (Bool-cases (j == id)) [
        | inl same ↦ absurd (ground arith)
        | inr other ↦
            (λ c. ground (arith, bytes_beq_iff j id, some-injective j id (sym e ∙ c)), ground arith)
      ]
]

-- `api_logout` is `destroy` for an open session.
pub api_logout-cases :
    (t : ℕ) (r : Request) (ss : Sessions)
    → (perform_admin (api_signing_out t r) ss ≡ destroy r ss)
      ⊎ ((check_session t r ss ≡ false) × (perform_admin (api_signing_out t r) ss ≡ ss))
unfolding perform_admin api_logout api_auth
api_logout-cases t r ss = ground arith

pub unopened :
    (t now : ℕ) (r : Request) (ss : Sessions) (id : Bytes) (x : SessionEntry)
    → check_session t r ss ≡ false
    → lookup id ss ≡ some x
    → now < x.expiry
    → (now < t) ⊎ (cookie session_cookie r ≢ some id)
unfolding check_session
unopened t now r ss id x c l lt = elim (Option-cases (cookie session_cookie r)) [
  | inl e ↦ inr (λ d. cc)
  | inr (j, e) ↦ elim (Bool-cases (j == id)) [
    | inl same ↦
        let i : j ≡ id = (bytes_beq_iff j id).0 same in
        let k : lookup j ss ≡ some x = ap (λ y. lookup y ss) i ∙ l in inl (ground arith)
    | inr other ↦ inr (λ d. ground (arith, bytes_beq_iff j id, some-injective j id (sym e ∙ d)))
  ]
]

pub perform_admin-IsMap :
    (call : AdminCall) (ss : Sessions) → IsMap ss → IsMap (perform_admin call ss)
perform_admin-IsMap (signing_in s) ss m = Effect-IsMap s ss _ (handle_login-Effect s ss) m
perform_admin-IsMap (api_signing_in s) ss m = Effect-IsMap s ss _ (api_login-Effect s ss) m
perform_admin-IsMap (signing_out r) ss m =
    unfold perform_admin handle_logout in destroy-IsMap r ss m
perform_admin-IsMap (api_signing_out t r) ss m = elim (api_logout-cases t r ss) [
  | inl q ↦ subst (λ (x : Sessions). IsMap x) (sym q) (destroy-IsMap r ss m)
  | inr (c, q) ↦ subst (λ (x : Sessions). IsMap x) (sym q) m
]
perform_admin-IsMap (collecting_sessions t) ss m =
    unfold perform_admin collect_sessions in
    retain-IsMap (λ (e : SessionEntry). not (ltb e.expiry t)) ss m

pub collect_sessions-entry :
    (t : ℕ) (ss : Sessions) (id : Bytes) (x : SessionEntry)
    → IsMap ss
    → lookup id (collect_sessions t ss) ≡ some x
    → lookup id ss ≡ some x
unfolding collect_sessions
collect_sessions-entry t ss id x m l = elim (Option-cases (lookup id ss)) [
  | inl e ↦ ground (arith, lookup-retain (λ (y : SessionEntry). not (ltb y.expiry t)) id ss m)
  | inr (y, e) ↦ ground (arith, lookup-retain (λ (y : SessionEntry). not (ltb y.expiry t)) id ss m)
]
