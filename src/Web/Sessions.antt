-- ===== src/Web/Sessions.antt =====
-- The sessions of the web interface (`Session` and `WebState` of crates/agent/src/web/types.rs) and the check of a request
-- (`auth_middleware` of crates/agent/src/web/mod.rs). Times are in nanoseconds; `now i` is the reading of the clock at the i-th
-- call. The random id of a session is an argument.
pub mod Retained
pub mod Guard
use text.Mathlib.Text.{starts_with}
use peer_deploy.Prelude.{
  ℕ, ◌+◌, ◌-◌, ◌*◌, String, Bool, true, false, Option, none, some, List, [], ◌∷◌, length, leb, ltb,
  str_eq, if◌then◌else◌,
}
use peer_deploy.Prelude.Dict
use peer_deploy.Prelude.Dict.{Dict}
use peer_deploy.Common.Job.{Clock, later}
use peer_deploy.Deploy.State.{trim}
use peer_deploy.Execution.Staging.{strip_prefix}
use peer_deploy.Cli.Text.{split_once, split}

pub record Session : Type 0 where
  pub id : String
  pub last_active : ℕ
  pub authenticated : Bool

-- 30 minutes
abbrev pub session_limit : ℕ
session_limit = 30 * 60 * 1000000000

-- `Session::new`
abbrev pub new_session : String → ℕ → Session
new_session id now = record { id = id; last_active = now; authenticated = false }

-- `is_expired`: a clock that has gone back counts as expired.
unfoldable pub is_expired : ℕ → Session → Bool
is_expired now s = if leb s.last_active now then ltb session_limit (now - s.last_active) else true

abbrev pub touch : ℕ → Session → Session
touch now s = record s { last_active = now }

-- `sessions.retain(|_, session| !session.is_expired())`
unfoldable pub retain_live : Clock → Dict Session → Dict Session
unfolding is_expired
retain_live now [] = []
retain_live now ((id, s) ∷ sessions) =
    let rest = retain_live (later 1 now) sessions in
    if is_expired (now 0) s then rest else (id, s) ∷ rest

unfoldable pub create_session : Clock → String → Dict Session → Dict Session
unfolding retain_live
create_session now id sessions =
    retain_live (later 1 now) (Dict.insert id (new_session id (now 0)) sessions)

unfoldable pub authenticate_session : Clock → String → Dict Session → Bool × Dict Session
unfolding is_expired
authenticate_session now session_id sessions = elim (Dict.get sessions session_id) [
  | none ↦ (false, sessions)
  | some s ↦ if is_expired (now 0) s then (false, sessions) else (
    true,
    Dict.modify session_id (λ (x : Session). record (touch (now 1) x) { authenticated = true })
        sessions,
  )
]

-- What follows the removal of the expired sessions.
unfoldable pub admit : ℕ → String → Dict Session → Bool × Dict Session
admit now token sessions = elim (Dict.get sessions token) [
  | none ↦ (false, sessions)
  | some s ↦
      if s.authenticated then (true, Dict.modify token (touch now) sessions) else (false, sessions)
]

unfoldable pub validate_bearer : Clock → String → Dict Session → Bool × Dict Session
unfolding admit retain_live
validate_bearer now token sessions = admit (now (length sessions)) token (retain_live now sessions)

-- A request: `options` for the method OPTIONS; the header, if it is there, with the text that `to_str` gives.
pub record Request : Type 0 where
  pub options : Bool
  pub path : String
  pub auth_header : Option (Option String)
  pub query : Option String

-- `strip_prefix("Bearer ").or_else(..).unwrap_or("")`
unfoldable pub without_scheme : String → String
without_scheme text = elim (strip_prefix text "Bearer ") [
  | some token ↦ token
  | none ↦ elim (strip_prefix text "bearer ") [ some token ↦ token | none ↦ "" ]
]

-- The token of the header, if it is not empty.
unfoldable pub bearer_token : Option (Option String) → Option String
unfolding without_scheme trim
bearer_token none = none
bearer_token (some none) = none
bearer_token (some (some text)) =
    let token = trim (without_scheme text) in if str_eq token "" then none else some token

unfoldable pub authorize_bearer_header :
    Clock → Option (Option String) → Dict Session → Bool × Dict Session
unfolding bearer_token validate_bearer
authorize_bearer_header now value sessions = elim (bearer_token value) [
  | none ↦ (false, sessions)
  | some token ↦ validate_bearer now token sessions
]

-- `for pair in query.split('&')`
unfoldable pub find_token : List String → Option String
unfolding split_once trim
find_token [] = none
find_token (pair ∷ pairs) =
    let rest = find_token pairs in
    elim (split_once b'=' pair) [
      | none ↦ if str_eq (trim pair) "token" then some "" else rest
      | some (key, value) ↦ if str_eq (trim key) "token" then some value else rest
    ]

unfoldable pub extract_token_from_query : Option String → Option String
unfolding find_token split
extract_token_from_query none = none
extract_token_from_query (some query) = find_token (split b'&' query)

-- The second way of a websocket, after a header that did not authorize.
unfoldable pub authorize_query : Clock → Option String → Dict Session → Bool × Dict Session
unfolding extract_token_from_query validate_bearer
authorize_query now query sessions = elim (extract_token_from_query query) [
  | none ↦ (false, sessions)
  | some token ↦ validate_bearer now token sessions
]

unfoldable pub authorize_ws_request :
    Clock → Option (Option String) → Option String → Dict Session → Bool × Dict Session
unfolding authorize_bearer_header authorize_query
authorize_ws_request now header query sessions =
    let first = authorize_bearer_header now header sessions in
    if first.0 then first else authorize_query (later (length sessions + 1) now) query first.1

-- Whether the request goes on to its handler; if not, the answer is UNAUTHORIZED.
unfoldable pub auth_middleware : Clock → Request → Dict Session → Bool × Dict Session
unfolding authorize_bearer_header authorize_ws_request
auth_middleware now req sessions =
    if req.options
    then (true, sessions)
    else if starts_with req.path "/api/"
    then authorize_bearer_header now req.auth_header sessions
    else if str_eq req.path "/ws"
    then authorize_ws_request now req.auth_header req.query sessions
    else (true, sessions)
