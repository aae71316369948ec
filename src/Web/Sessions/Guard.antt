-- ===== src/Web/Sessions/Guard.antt =====
-- What a request has when it passes `auth_middleware` of crates/agent/src/web/mod.rs.
use text.Mathlib.Text.{starts_with}
use peer_deploy.Prelude.{
  ℕ, ◌+◌, String, ◌≡◌, refl, ◌⊎◌, inl, inr, true, false, Option, some, arith, length, str_eq,
  Bool-cases, Option-cases,
}
use mathlib.Core.Path.{subst}
use peer_deploy.Prelude.Dict.{Dict}
use peer_deploy.Prelude.Entries.{NodupKeys}
use peer_deploy.Common.Job.{Clock, later}
use peer_deploy.Web.Sessions.{
  Session, Request, retain_live, validate_bearer, bearer_token, extract_token_from_query,
  authorize_bearer_header, authorize_query, authorize_ws_request, auth_middleware,
}
use peer_deploy.Web.Sessions.Retained.{
  Admits, NodupKeys-retain_live, get-retain_live, admit-false, validate_bearer-Admits,
}

-- The token that a request presents: in its header, or, for the websocket, in its query.
abbrev pub Presents : Request → String → Type 0
Presents req token =
    (bearer_token req.auth_header ≡ some token)
    ⊎ ((str_eq req.path "/ws" ≡ true) × (extract_token_from_query req.query ≡ some token))

-- Requests that need no session: OPTIONS, and the paths outside `/api/` and `/ws`.
abbrev pub IsOpen : Request → Type 0
IsOpen req =
    (req.options ≡ true)
    ⊎ ((starts_with req.path "/api/" ≡ false) × (str_eq req.path "/ws" ≡ false))

header-Admits :
    (now : Clock) (value : Option (Option String)) (sessions : Dict Session)
    → NodupKeys sessions
    → (authorize_bearer_header now value sessions).0 ≡ true
    → (token : String) × (bearer_token value ≡ some token) × Admits now sessions token
unfolding authorize_bearer_header
header-Admits now value sessions h e = elim (Option-cases (bearer_token value)) [
  | inl absent ↦ absurd (ground (arith, rw (absent, authorize_bearer_header) at e))
  | inr (token, given) ↦ (
    token,
    given,
    validate_bearer-Admits now token sessions h (rw (given, authorize_bearer_header) at e),
  )
]

-- What is admitted later, after expired sessions were removed, is admitted by the table before.
earlier :
    (now : Clock) (k : ℕ) (sessions : Dict Session) (token : String)
    → NodupKeys sessions
    → Admits (later k now) (retain_live now sessions) token
    → Admits now sessions token
earlier now k sessions token h a =
    let found = get-retain_live now sessions token a.session h a.there in
    record { session = a.session; there = found.0; authenticated = a.authenticated; live = found.1 }

after_header :
    (now : Clock) (value : Option (Option String)) (sessions : Dict Session)
    → (authorize_bearer_header now value sessions).0 ≡ false
    → ((authorize_bearer_header now value sessions).1 ≡ sessions)
      ⊎ ((authorize_bearer_header now value sessions).1 ≡ retain_live now sessions)
unfolding authorize_bearer_header validate_bearer
after_header now value sessions e = elim (Option-cases (bearer_token value)) [
  | inl absent ↦ inl (rw (absent, authorize_bearer_header) refl)
  | inr (token, given) ↦ inr (
      rw (given, authorize_bearer_header)
        (admit-false (now (length sessions)) token (retain_live now sessions)
          (rw (given, authorize_bearer_header) at e)))
]

query-Admits :
    (now : Clock) (query : Option String) (sessions : Dict Session)
    → NodupKeys sessions
    → (authorize_query now query sessions).0 ≡ true
    → (token : String) × (extract_token_from_query query ≡ some token) × Admits now sessions token
unfolding authorize_query
query-Admits now query sessions h e = elim (Option-cases (extract_token_from_query query)) [
  | inl absent ↦ absurd (ground (arith, rw (absent, authorize_query) at e))
  | inr (token, given) ↦
      (token, given, validate_bearer-Admits now token sessions h (rw (given, authorize_query) at e))
]

second_way :
    (now : Clock) (k : ℕ) (query : Option String) (sessions rest : Dict Session)
    → NodupKeys sessions
    → (rest ≡ sessions) ⊎ (rest ≡ retain_live now sessions)
    → (authorize_query (later k now) query rest).0 ≡ true
    → (token : String) × (extract_token_from_query query ≡ some token) × Admits now sessions token
second_way now k query sessions rest h (inl same) e =
    let (token, given, a) =
      query-Admits (later k now) query sessions h
        (subst (λ r. (authorize_query (later k now) query r).0 ≡ true) same e) in
    (
      token,
      given,
      record {
        session = a.session;
        there = a.there;
        authenticated = a.authenticated;
        live = (k + a.live.0, a.live.1);
      },
    )
second_way now k query sessions rest h (inr same) e =
    let (token, given, a) =
      query-Admits (later k now) query (retain_live now sessions)
        (NodupKeys-retain_live now sessions h)
        (subst (λ r. (authorize_query (later k now) query r).0 ≡ true) same e) in
    (token, given, earlier now k sessions token h a)

ws-Admits :
    (now : Clock) (req : Request) (sessions : Dict Session)
    → NodupKeys sessions
    → str_eq req.path "/ws" ≡ true
    → (authorize_ws_request now req.auth_header req.query sessions).0 ≡ true
    → (token : String) × Presents req token × Admits now sessions token
unfolding authorize_ws_request
ws-Admits now req sessions h ws e =
    elim (Bool-cases (authorize_bearer_header now req.auth_header sessions).0) [
      | inl first ↦
          let (token, given, a) = header-Admits now req.auth_header sessions h first in
          (token, inl given, a)
      | inr refused ↦
          let (token, given, a) =
            second_way now (length sessions + 1) req.query sessions
              (authorize_bearer_header now req.auth_header sessions).1 h
              (after_header now req.auth_header sessions refused) (ground (arith, refused, e)) in
          (token, inr (ws, given), a)
    ]

-- Who passes the check: a request under `/api/` or to `/ws`, unless its method is OPTIONS, goes on only if it presents a
-- token that is the id of an authenticated session which at that moment has been active in the last thirty minutes. This
-- is for a table with no id twice.
pub auth_middleware-Admits :
    (now : Clock) (req : Request) (sessions : Dict Session)
    → NodupKeys sessions
    → (auth_middleware now req sessions).0 ≡ true
    → IsOpen req ⊎ ((token : String) × Presents req token × Admits now sessions token)
unfolding auth_middleware
auth_middleware-Admits now req sessions h e = elim (Bool-cases req.options) [
  | inl options ↦ inl (inl options)
  | inr method ↦ elim (Bool-cases (starts_with req.path "/api/")) [
    | inl api ↦
        let (token, given, a) =
          header-Admits now req.auth_header sessions h (ground (arith, method, api, e)) in
        inr (token, inl given, a)
    | inr outside ↦ elim (Bool-cases (str_eq req.path "/ws")) [
      | inl ws ↦ inr (ws-Admits now req sessions h ws (ground (arith, method, outside, ws, e)))
      | inr other ↦ inl (inr (outside, other))
    ]
  ]
]
