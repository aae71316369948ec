-- ===== src/P2p/Content.antt =====
-- The exchange of blobs between nodes in `run_agent` of crates/agent/src/p2p/mod.rs: the index of who has
-- which blob, and the requests of crates/agent/src/p2p/storage.rs. A waiting request is the number of its
-- reply channel. Messages are published whole; `decoded` is the result of the base64 decoding.
pub mod Waiting
pub mod Answers
use peer_deploy.Prelude.{
  ℕ, ◌*◌, String, Bool, true, false, Option, none, some, List, [], ◌∷◌, ◌++◌, length, leb, take,
  map, if◌then◌else◌,
}
use peer_deploy.Prelude.Dict
use peer_deploy.Prelude.Dict.{Dict}
use peer_deploy.Common.Component.{contains}
use peer_deploy.JobManager.Operations.{unwrap_or}
use peer_deploy.Storage.Store.{Bytes, ContentStore, IndexEntry, Disk, get_path, list}

pub data ContentMessage : Type 0 where
  storage_get : String → ContentMessage
  storage_data : String → Bytes → ContentMessage
  storage_have : String → ℕ → ContentMessage

pub record ContentNode : Type 0 where
  pub store : ContentStore
  -- the peers that have announced a blob
  pub content_index : Dict (List String)
  -- the requests that wait for a blob
  pub pending_storage : Dict (List ℕ)
  -- what was sent on the reply channels, and what was published
  pub answers : List (ℕ × Option Bytes)
  pub published : List ContentMessage

-- `set.insert(peer)`
unfoldable pub add_peer : String → List String → List String
unfolding contains
add_peer peer peers = if contains peers peer then peers else peers ++ peer ∷ []

-- `Command::StorageHave`
unfoldable pub handle_have : String → String → ContentNode → ContentNode
unfolding add_peer
handle_have source digest n = record n {
  content_index =
      Dict.insert digest (add_peer source (unwrap_or (Dict.get n.content_index digest) []))
        n.content_index;
}

-- `map.get(d).map(|s| s.len()).unwrap_or(0)`
unfoldable pub peers_with : String → ContentNode → ℕ
peers_with digest n = length (unwrap_or (Dict.get n.content_index digest) [])

-- `tokio::fs::read(path)` of a blob; `readable` tells whether it succeeds.
unfoldable pub read_blob : Bool → String → ContentStore → Option Bytes
read_blob readable path store = if readable then Dict.get store.blobs path else none

unfoldable pub answer : ℕ → Option Bytes → ContentNode → ContentNode
answer waiter bytes n = record n { answers = n.answers ++ (waiter, bytes) ∷ [] }

-- `pend.entry(digest).or_default().push(req.resp)`, and the question to the peers.
unfoldable pub wait_for : String → ℕ → ContentNode → ContentNode
wait_for digest waiter n = record n {
  pending_storage =
      Dict.insert digest (unwrap_or (Dict.get n.pending_storage digest) [] ++ waiter ∷ [])
        n.pending_storage;
  published = n.published ++ storage_get digest ∷ [];
}

-- The request of a run on this node; `none` is the panic of `get_path`.
unfoldable pub handle_request : Disk → ℕ → Bool → String → ℕ → ContentNode → Option ContentNode
unfolding read_blob answer wait_for
handle_request disk now readable digest waiter n = elim (get_path disk now digest n.store) [
  | none ↦ none
  | some (path, store) ↦ some (elim path [
    | some p ↦ answer waiter (read_blob readable p store) (record n { store = store })
    | none ↦ wait_for digest waiter (record n { store = store })
  ])
]

-- 8 MiB
abbrev pub max_inline : ℕ
max_inline = 8 * 1024 * 1024

-- `if size <= 8 * 1024 * 1024`
unfoldable pub offer : String → Option Bytes → ContentNode → ContentNode
offer digest none n = n
offer digest (some bytes) n =
    if leb (length bytes) max_inline
    then record n { published = n.published ++ storage_data digest bytes ∷ [] }
    else n

-- `Command::StorageGet`
unfoldable pub handle_get : Disk → ℕ → Bool → String → ContentNode → Option ContentNode
unfolding read_blob offer
handle_get disk now readable digest n = elim (get_path disk now digest n.store) [
  | none ↦ none
  | some (path, store) ↦ some (elim path [
    | some p ↦ offer digest (read_blob readable p store) (record n { store = store })
    | none ↦ record n { store = store }
  ])
]

-- `for w in waiters { let _ = w.send(...); }`
unfoldable pub answer_each : Option Bytes → List ℕ → ContentNode → ContentNode
unfolding answer
answer_each bytes [] n = n
answer_each bytes (w ∷ waiters) n = answer_each bytes waiters (answer w bytes n)

-- `Command::StorageData`
unfoldable pub handle_data : String → Option Bytes → ContentNode → ContentNode
unfolding answer_each
handle_data digest decoded n = elim (Dict.get n.pending_storage digest) [
  | none ↦ n
  | some waiters ↦
      answer_each decoded waiters
        (record n { pending_storage = Dict.remove digest n.pending_storage })
]

-- `storage_announce_tick`: a sample of at most eight blobs.
unfoldable pub announce : ContentNode → ContentNode
announce n = record n {
  published =
      n.published
      ++ map (λ (e : String × IndexEntry). storage_have e.0 e.1.size_bytes) (take 8 (list n.store));
}

-- What happens at a node, in the order in which its loop takes it.
pub data ContentEvent : Type 0 where
  have : String → String → ContentEvent
  request : Disk → ℕ → Bool → String → ℕ → ContentEvent
  get : Disk → ℕ → Bool → String → ContentEvent
  reply : String → Option Bytes → ContentEvent
  tick : ContentEvent

unfoldable pub handle : ContentEvent → ContentNode → Option ContentNode
unfolding handle_have handle_request handle_get handle_data announce
handle (have source digest) n = some (handle_have source digest n)
handle (request disk now readable digest waiter) n =
    handle_request disk now readable digest waiter n
handle (get disk now readable digest) n = handle_get disk now readable digest n
handle (reply digest decoded) n = some (handle_data digest decoded n)
handle tick n = some (announce n)

unfoldable pub handle_each : List ContentEvent → ContentNode → Option ContentNode
unfolding handle
handle_each [] n = some n
handle_each (e ∷ events) n = elim (handle e n) [ none ↦ none | some m ↦ handle_each events m ]
