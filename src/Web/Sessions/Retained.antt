-- ===== src/Web/Sessions/Retained.antt =====
-- What `validate_bearer` of crates/agent/src/web/types.rs admits, after it has removed the expired sessions.
use peer_deploy.Prelude.{
  ℕ, ◌+◌, String, ◌≡◌, refl, inl, inr, true, false, none, some, [], ◌∷◌, arith, length, str_eq,
  eq_iff, Bool-cases, Option-cases,
}
use mathlib.Core.Path.{subst}
use peer_deploy.Prelude.Dict
use peer_deploy.Prelude.Dict.{Dict}
use peer_deploy.Prelude.Entries.{NodupKeys}
use peer_deploy.Common.Job.{Clock, later}
use peer_deploy.Web.Sessions.{Session, is_expired, retain_live, admit, validate_bearer}

-- The session is not expired at a reading of the clock.
abbrev pub IsLive : Clock → Session → Type 0
IsLive now s = (i : ℕ) × (is_expired (now i) s ≡ false)

-- The token is that of an authenticated session that is not expired.
pub record Admits (now : Clock) (sessions : Dict Session) (token : String) : Type 0 where
  pub session : Session
  pub there : Dict.get sessions token ≡ some session
  pub authenticated : session.authenticated ≡ true
  pub live : IsLive now session

get-retain_live-none :
    (now : Clock) (sessions : Dict Session) (key : String)
    → Dict.get sessions key ≡ none
    → Dict.get (retain_live now sessions) key ≡ none
unfolding retain_live Dict.get
get-retain_live-none now [] key h = refl
get-retain_live-none now ((id, s) ∷ sessions) key h =
    ground (arith, h, get-retain_live-none (later 1 now) sessions key)

later-IsLive : (now : Clock) (s : Session) → IsLive (later 1 now) s → IsLive now s
later-IsLive now s (i, live) = (1 + i, live)

pub NodupKeys-retain_live :
    (now : Clock) (sessions : Dict Session)
    → NodupKeys sessions
    → NodupKeys (retain_live now sessions)
unfolding retain_live
NodupKeys-retain_live now [] h = tt
NodupKeys-retain_live now ((id, t) ∷ sessions) h =
    let rest = NodupKeys-retain_live (later 1 now) sessions h.1 in
    elim (Bool-cases (is_expired (now 0) t)) [
      | inl expired ↦ rw (expired) rest
      | inr live ↦ rw (live) (get-retain_live-none (later 1 now) sessions id h.0, rest)
    ]

-- A session of the table that is there and is not expired.
abbrev pub Found : Clock → Dict Session → String → Session → Type 0
Found now sessions key s = (Dict.get sessions key ≡ some s) × IsLive now s

Found-later :
    (now : Clock) (id : String) (t : Session) (sessions : Dict Session) (key : String) (s : Session)
    → Dict.get sessions id ≡ none
    → Found (later 1 now) sessions key s
    → Found now ((id, t) ∷ sessions) key s
unfolding Dict.get
Found-later now id t sessions key s fresh (there, live) =
    (ground (arith, fresh, there, eq_iff id key), later-IsLive now s live)

Found-here :
    (now : Clock) (id : String) (t : Session) (sessions : Dict Session) (key : String) (s : Session)
    → is_expired (now 0) t ≡ false
    → str_eq id key ≡ true
    → Dict.get ((id, t) ∷ sessions) key ≡ some s
    → Found now ((id, t) ∷ sessions) key s
unfolding Dict.get
Found-here now id t sessions key s live same e = (
  e,
  (0, subst (λ u. is_expired (now 0) u ≡ false) {x = t} {y = s} (ground (arith, same, e)) live),
)

-- A session that is kept was there and is not expired.
pub get-retain_live :
    (now : Clock) (sessions : Dict Session) (key : String) (s : Session)
    → NodupKeys sessions
    → Dict.get (retain_live now sessions) key ≡ some s
    → Found now sessions key s
unfolding retain_live Dict.get
get-retain_live now [] key s h e = absurd (ground (arith, e))
get-retain_live now ((id, t) ∷ sessions) key s h e =
    let rest = get-retain_live (later 1 now) sessions key s h.1 in
    elim (Bool-cases (is_expired (now 0) t)) [
      | inl expired ↦ Found-later now id t sessions key s h.0 (rest (ground (arith, expired, e)))
      | inr live ↦ elim (Bool-cases (str_eq id key)) [
        | inl same ↦ Found-here now id t sessions key s live same (ground (arith, live, same, e))
        | inr other ↦
            Found-later now id t sessions key s h.0 (rest (ground (arith, live, other, e)))
      ]
    ]

admit-true :
    (now : ℕ) (token : String) (sessions : Dict Session)
    → (admit now token sessions).0 ≡ true
    → (s : Session) × (Dict.get sessions token ≡ some s) × (s.authenticated ≡ true)
unfolding admit
admit-true now token sessions h = elim (Option-cases (Dict.get sessions token)) [
  | inl missing ↦ absurd (ground (arith, rw (missing, admit) at h))
  | inr (s, there) ↦ elim (Bool-cases s.authenticated) [
    | inl known ↦ (s, there, known)
    | inr unknown ↦ absurd (ground (arith, rw (there, admit, unknown) at h))
  ]
]

-- A token that is refused changes nothing more.
pub admit-false :
    (now : ℕ) (token : String) (sessions : Dict Session)
    → (admit now token sessions).0 ≡ false
    → (admit now token sessions).1 ≡ sessions
unfolding admit
admit-false now token sessions h = elim (Option-cases (Dict.get sessions token)) [
  | inl missing ↦ rw (missing, admit) refl
  | inr (s, there) ↦ elim (Bool-cases s.authenticated) [
    | inl known ↦ absurd (ground (arith, rw (there, admit, known) at h))
    | inr unknown ↦ rw (there, admit, unknown) refl
  ]
]

pub validate_bearer-Admits :
    (now : Clock) (token : String) (sessions : Dict Session)
    → NodupKeys sessions
    → (validate_bearer now token sessions).0 ≡ true
    → Admits now sessions token
unfolding validate_bearer
validate_bearer-Admits now token sessions h e =
    let (s, there, known) = admit-true (now (length sessions)) token (retain_live now sessions) e in
    let found = get-retain_live now sessions token s h there in
    record { session = s; there = found.0; authenticated = known; live = found.1 }
