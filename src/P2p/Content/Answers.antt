-- ===== src/P2p/Content/Answers.antt =====
-- The requests for blobs and their answers (crates/agent/src/p2p/mod.rs).
use peer_deploy.Prelude.{
  ℕ, ◌+◌, String, ◌≡◌, refl, sym, ap, Bool, Option, none, some, List, [], ◌∷◌, ◌++◌, ◌==◌, length,
  leb, arith, inl, inr, Option-cases, eq_iff, Bool-cases, if◌then◌else◌,
}
use mathlib.Core.Path.{subst}
use peer_deploy.Prelude.Dict
use peer_deploy.Prelude.Dict.{Dict, get-remove}
use peer_deploy.Prelude.Entries.{NodupKeys, NodupKeys-insert}
use peer_deploy.JobManager.Operations.{unwrap_or}
use peer_deploy.Storage.Store.{Bytes, ContentStore, get_path}
use peer_deploy.Storage.Integrity.Steps.{Then}
use peer_deploy.P2p.Content.{
  ContentNode, ContentEvent, have, request, get, reply, tick, handle, handle_each, handle_have,
  handle_request, handle_get, handle_data, announce, answer, answer_each, wait_for, offer,
  read_blob, max_inline,
}
use peer_deploy.P2p.Content.Waiting.{
  count, answered, waiting, requested, count-append, answered-append, waiting-insert,
  waiting-remove,
}

module _ (w : ℕ) where
  -- What `k` requests more, of the one that is counted, come to.
  pub record Accounts (k : ℕ) (n m : ContentNode) : Type 0 where
    pub balance :
        answered w m.answers + waiting w m.pending_storage
        ≡ answered w n.answers + waiting w n.pending_storage + k
    pub nodup : NodupKeys m.pending_storage

  abbrev one : ℕ → ℕ
  one x = if x == w then 1 else 0

  answer-Accounts :
      (x : ℕ) (bytes : Option Bytes) (n : ContentNode)
      → NodupKeys n.pending_storage
      → Accounts (one x) n (answer x bytes n)
  unfolding answer
  answer-Accounts x bytes n h = record {
    balance = omega (arith, answered-append w n.answers ((x, bytes) ∷ []));
    nodup = h;
  }

  wait_for-Accounts :
      (digest : String) (x : ℕ) (n : ContentNode)
      → NodupKeys n.pending_storage
      → Accounts (one x) n (wait_for digest x n)
  unfolding wait_for
  wait_for-Accounts digest x n h =
      let old = unwrap_or (Dict.get n.pending_storage digest) [] in
      record {
        balance = omega (
          arith,
          waiting-insert w digest (old ++ x ∷ []) n.pending_storage,
          count-append w old (x ∷ []),
        );
        nodup = NodupKeys-insert digest _ n.pending_storage h;
      }

  answer_each-answers :
      (bytes : Option Bytes) (waiters : List ℕ) (n : ContentNode)
      → (answered w (answer_each bytes waiters n).answers ≡ answered w n.answers + count w waiters)
        × ((answer_each bytes waiters n).pending_storage ≡ n.pending_storage)
  unfolding answer_each answer
  answer_each-answers bytes [] n = (omega arith, refl)
  answer_each-answers bytes (x ∷ waiters) n =
      let rest = answer_each-answers bytes waiters (answer x bytes n) in
      (omega (arith, rest.0, answered-append w n.answers ((x, bytes) ∷ [])), rest.1)

  NodupKeys-remove :
      (digest : String) (m : Dict (List ℕ)) → NodupKeys m → NodupKeys (Dict.remove digest m)
  unfolding Dict.remove
  NodupKeys-remove digest [] h = tt
  NodupKeys-remove digest ((k, xs) ∷ m) h =
      ground (arith, get-remove digest k m, eq_iff k digest, NodupKeys-remove digest m h.1, h.0)

  handle_data-Accounts :
      (digest : String) (decoded : Option Bytes) (n : ContentNode)
      → NodupKeys n.pending_storage
      → Accounts 0 n (handle_data digest decoded n)
  unfolding handle_data
  handle_data-Accounts digest decoded n h =
      elim (Option-cases (Dict.get n.pending_storage digest)) [
        | inl nobody ↦ rw (nobody, handle_data) (record { balance = omega arith; nodup = h })
        | inr (waiters, there) ↦
            let m = record n { pending_storage = Dict.remove digest n.pending_storage } in
            let all = answer_each-answers decoded waiters m in
            rw (there, handle_data)
              (record {
                balance = omega (
                  arith,
                  all.0,
                  ap (waiting w) all.1,
                  waiting-remove w digest n.pending_storage h,
                  ap (λ o. count w (unwrap_or o [])) there,
                );
                nodup = subst NodupKeys (sym all.1) (NodupKeys-remove digest n.pending_storage h);
              })
      ]

  -- The accounts from the node after the look into the store.
  looked :
      (k : ℕ) (n : ContentNode) (f : Option String → ContentStore → ContentNode)
      → ((path : Option String) (store : ContentStore) → Accounts k n (f path store))
      → (r : Option (Option String × ContentStore))
      → Then (Accounts k n) (elim r [ none ↦ none | some (path, store) ↦ some (f path store) ])
  looked k n f a none = tt
  looked k n f a (some (path, store)) = a path store

  requested_lem :
      (readable : Bool) (digest : String) (x : ℕ) (n : ContentNode) (path : Option String)
      (store : ContentStore)
      → NodupKeys n.pending_storage
      → Accounts (one x) n (elim path [
        | some p ↦ answer x (read_blob readable p store) (record n { store = store })
        | none ↦ wait_for digest x (record n { store = store })
      ])
  requested_lem readable digest x n none store h =
      let a = wait_for-Accounts digest x (record n { store = store }) h in
      record { balance = a.balance; nodup = a.nodup }
  requested_lem readable digest x n (some p) store h =
      let a = answer-Accounts x (read_blob readable p store) (record n { store = store }) h in
      record { balance = a.balance; nodup = a.nodup }

  offer-Accounts :
      (digest : String) (bytes : Option Bytes) (n : ContentNode)
      → NodupKeys n.pending_storage
      → Accounts 0 n (offer digest bytes n)
  unfolding offer
  offer-Accounts digest none n h = record { balance = omega arith; nodup = h }
  offer-Accounts digest (some bytes) n h = elim (Bool-cases (leb (length bytes) max_inline)) [
    | inl small ↦ rw (small) (record { balance = omega arith; nodup = h })
    | inr large ↦ rw (large) (record { balance = omega arith; nodup = h })
  ]

  got_lem :
      (readable : Bool) (digest : String) (n : ContentNode) (path : Option String)
      (store : ContentStore)
      → NodupKeys n.pending_storage
      → Accounts 0 n (elim path [
        | some p ↦ offer digest (read_blob readable p store) (record n { store = store })
        | none ↦ record n { store = store }
      ])
  got_lem readable digest n none store h = record { balance = omega arith; nodup = h }
  got_lem readable digest n (some p) store h =
      let a = offer-Accounts digest (read_blob readable p store) (record n { store = store }) h in
      record { balance = a.balance; nodup = a.nodup }

  handle-Accounts :
      (e : ContentEvent) (n : ContentNode)
      → NodupKeys n.pending_storage
      → Then (Accounts (requested w (e ∷ [])) n) (handle e n)
  unfolding handle handle_have handle_request handle_get announce
  handle-Accounts (have source digest) n h = record { balance = omega arith; nodup = h }
  handle-Accounts (request disk now readable digest x) n h =
      looked (one x + 0) n _
        (λ path store.
          let a = requested_lem readable digest x n path store h in
          record { balance = omega (arith, a.balance); nodup = a.nodup })
        (get_path disk now digest n.store)
  handle-Accounts (get disk now readable digest) n h =
      looked 0 n _ (λ path store. got_lem readable digest n path store h)
        (get_path disk now digest n.store)
  handle-Accounts (reply digest decoded) n h = handle_data-Accounts digest decoded n h
  handle-Accounts tick n h = record { balance = omega arith; nodup = h }

  requested-cons :
      (e : ContentEvent) (events : List ContentEvent)
      → requested w (e ∷ events) ≡ requested w (e ∷ []) + requested w events
  requested-cons (have source digest) events = omega arith
  requested-cons (request disk now readable digest x) events = omega arith
  requested-cons (get disk now readable digest) events = omega arith
  requested-cons (reply digest decoded) events = omega arith
  requested-cons tick events = omega arith

  -- The accounts of the rest, after the first event.
  then_each :
      (e : ContentEvent) (events : List ContentEvent) (n m : ContentNode) (o : Option ContentNode)
      → ((k : ContentNode)
          → NodupKeys k.pending_storage
          → handle_each events k ≡ some m
          → Accounts (requested w events) k m)
      → Then (Accounts (requested w (e ∷ [])) n) o
      → (elim o [ none ↦ none | some k ↦ handle_each events k ]) ≡ some m
      → Accounts (requested w (e ∷ events)) n m
  then_each e events n m none rest h ran = absurd (ground (arith, ran))
  then_each e events n m (some k) rest h ran =
      let a = rest k h.nodup ran in
      record {
        balance = omega (arith, a.balance, h.balance, requested-cons e events);
        nodup = a.nodup;
      }

  handle_each-Accounts :
      (events : List ContentEvent) (n m : ContentNode)
      → NodupKeys n.pending_storage
      → handle_each events n ≡ some m
      → Accounts (requested w events) n m
  unfolding handle_each
  handle_each-Accounts [] n m h ran =
      subst (Accounts 0 n) {x = n} {y = m} (ground (arith, ran))
        (record { balance = omega arith; nodup = h })
  handle_each-Accounts (e ∷ events) n m h ran =
      then_each e events n m (handle e n) (λ k. handle_each-Accounts events k m)
        (handle-Accounts e n h) ran

  -- No request for a blob is lost or answered twice: after any sequence of requests, questions,
  -- replies, announcements and ticks that ends without a panic, the answers to a request and its
  -- entries in the table of waiting requests are together as many as the times it was made. This is for a request
  -- that was neither answered nor waiting at the start, and a table with no digest twice.
  pub answered-handle_each :
      (events : List ContentEvent) (n m : ContentNode)
      → NodupKeys n.pending_storage
      → answered w n.answers ≡ 0
      → waiting w n.pending_storage ≡ 0
      → handle_each events n ≡ some m
      → answered w m.answers + waiting w m.pending_storage ≡ requested w events
  answered-handle_each events n m h a b ran =
      omega (arith, a, b, (handle_each-Accounts events n m h ran).balance)
