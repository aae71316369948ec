-- ===== src/P2p/Content/Waiting.antt =====
-- The numbers of answers and of waiting requests in the tables of crates/agent/src/p2p/mod.rs.
use peer_deploy.Prelude.{
  ℕ, ◌+◌, String, ◌≡◌, refl, Option, none, List, [], ◌∷◌, ◌++◌, ◌==◌, arith, eq_iff, if◌then◌else◌,
}
use peer_deploy.Prelude.Dict
use peer_deploy.Prelude.Dict.{Dict, get-remove}
use peer_deploy.Prelude.Entries.{NodupKeys}
use peer_deploy.JobManager.Operations.{unwrap_or}
use peer_deploy.Storage.Store.{Bytes}
use peer_deploy.P2p.Content.{ContentEvent, have, request, get, reply, tick}

-- How often a request stands in a list, is answered, and waits.
abbrev pub count : ℕ → List ℕ → ℕ
count w [] = 0
count w (x ∷ xs) = (if x == w then 1 else 0) + count w xs

abbrev pub answered : ℕ → List (ℕ × Option Bytes) → ℕ
answered w [] = 0
answered w ((x, bytes) ∷ answers) = (if x == w then 1 else 0) + answered w answers

abbrev pub waiting : ℕ → Dict (List ℕ) → ℕ
waiting w [] = 0
waiting w ((digest, waiters) ∷ pending) = count w waiters + waiting w pending

-- How often a request is made in the events.
abbrev pub requested : ℕ → List ContentEvent → ℕ
requested w [] = 0
requested w (request disk now readable digest x ∷ events) =
    (if x == w then 1 else 0) + requested w events
requested w (have source digest ∷ events) = requested w events
requested w (get disk now readable digest ∷ events) = requested w events
requested w (reply digest decoded ∷ events) = requested w events
requested w (tick ∷ events) = requested w events

module _ (w : ℕ) where
  pub count-append : (xs ys : List ℕ) → count w (xs ++ ys) ≡ count w xs + count w ys
  count-append [] ys = omega arith
  count-append (x ∷ xs) ys = omega (arith, count-append xs ys)

  pub answered-append :
      (xs ys : List (ℕ × Option Bytes)) → answered w (xs ++ ys) ≡ answered w xs + answered w ys
  answered-append [] ys = omega arith
  answered-append ((x, b) ∷ xs) ys = omega (arith, answered-append xs ys)

  pub waiting-insert :
      (digest : String) (waiters : List ℕ) (m : Dict (List ℕ))
      → waiting w (Dict.insert digest waiters m) + count w (unwrap_or (Dict.get m digest) [])
        ≡ waiting w m + count w waiters
  unfolding Dict.insert Dict.get
  waiting-insert digest waiters [] = omega arith
  waiting-insert digest waiters ((k, xs) ∷ m) =
      ground (arith, eq_iff k digest, waiting-insert digest waiters m)

  waiting-missing :
      (digest : String) (m : Dict (List ℕ))
      → Dict.get m digest ≡ none
      → waiting w (Dict.remove digest m) ≡ waiting w m
  unfolding Dict.remove Dict.get
  waiting-missing digest [] e = refl
  waiting-missing digest ((k, xs) ∷ m) e = ground (arith, eq_iff k digest, waiting-missing digest m)

  pub waiting-remove :
      (digest : String) (m : Dict (List ℕ))
      → NodupKeys m
      → waiting w (Dict.remove digest m) + count w (unwrap_or (Dict.get m digest) []) ≡ waiting w m
  unfolding Dict.remove Dict.get
  waiting-remove digest [] h = omega arith
  waiting-remove digest ((k, xs) ∷ m) h =
      ground (arith, eq_iff k digest, waiting-missing digest m, waiting-remove digest m h.1, h.0)
