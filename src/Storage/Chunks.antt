-- ===== src/Storage/Chunks.antt =====
-- The handler of `Command::StoragePutChunk` in `run_agent` of crates/agent/src/p2p/mod.rs.
use peer_deploy.Prelude.{
  ℕ, String, Bool, Option, none, some, List, [], ◌∷◌, ◌++◌, length, ltb, set, all, replicate, not,
  str_eq, if◌then◌else◌,
}
use peer_deploy.Prelude.Dict
use peer_deploy.Prelude.Dict.{Dict}
use peer_deploy.Common.Component.{is_empty}
use peer_deploy.Storage.Store.{Bytes, ContentStore, Disk, put_bytes}

-- A blob that is being put together: the number of chunks last announced, and the chunks.
pub record ChunkBuffer : Type 0 where
  pub total : ℕ
  pub chunks : List Bytes

-- `or_insert_with(|| (total_chunks, vec![Vec::new(); total_chunks as usize]))`
abbrev pub or_fresh : ℕ → Option ChunkBuffer → ChunkBuffer
or_fresh total_chunks none = record { total = total_chunks; chunks = replicate total_chunks [] }
or_fresh total_chunks (some b) = b

-- The writes to the entry.
unfoldable pub place : ℕ → ℕ → Bytes → ChunkBuffer → ChunkBuffer
place chunk_index total_chunks bytes b = record {
  total = total_chunks;
  chunks = if ltb chunk_index (length b.chunks) then set b.chunks chunk_index bytes else b.chunks;
}

-- `entry.1.iter().all(|c| !c.is_empty())`
unfoldable pub is_complete : ChunkBuffer → Bool
is_complete b = all (λ c. not (is_empty c)) b.chunks

-- The chunks one after the other.
unfoldable pub assemble : List Bytes → Bytes
assemble [] = []
assemble (c ∷ chunks) = c ++ assemble chunks

-- The buffers and the store of a node, and the digests that it has announced.
pub record BlobNode : Type 0 where
  pub chunk_bufs : Dict ChunkBuffer
  pub store : ContentStore
  pub announced : List (String × ℕ)

-- `let _ = store.put_bytes(...)`, and the announcement after it; `none` is a panic.
unfoldable pub store_and_announce :
    (Bytes → String) → Disk → ℕ → String → Bytes → BlobNode → Option BlobNode
store_and_announce sha256_hex disk now digest bytes n =
    elim (put_bytes sha256_hex disk now bytes n.store) [
      | none ↦ none
      | some (r, s) ↦
          some (record n { store = s; announced = n.announced ++ (digest, length bytes) ∷ [] })
    ]

-- `if calc == digest`
unfoldable pub accept_blob :
    (Bytes → String) → Disk → ℕ → String → Bytes → BlobNode → Option BlobNode
unfolding store_and_announce
accept_blob sha256_hex disk now digest bytes n =
    if str_eq (sha256_hex bytes) digest
    then store_and_announce sha256_hex disk now digest bytes n
    else some n

-- The handler after the base64 decoding; `decoded` is its result.
unfoldable pub put_chunk :
    (Bytes → String) → Disk → ℕ → String → ℕ → ℕ → Option Bytes → BlobNode → Option BlobNode
unfolding place is_complete assemble accept_blob
put_chunk sha256_hex disk now digest chunk_index total_chunks none n = some n
put_chunk sha256_hex disk now digest chunk_index total_chunks (some bytes) n =
    let b =
      place chunk_index total_chunks bytes (or_fresh total_chunks (Dict.get n.chunk_bufs digest)) in
    if is_complete b
    then accept_blob sha256_hex disk now digest (assemble b.chunks)
        (record n { chunk_bufs = Dict.remove digest n.chunk_bufs })
    else some (record n { chunk_bufs = Dict.insert digest b n.chunk_bufs })

-- `Command::StoragePut`: the whole blob in one message.
unfoldable pub put_whole :
    (Bytes → String) → Disk → ℕ → String → Option Bytes → BlobNode → Option BlobNode
unfolding accept_blob
put_whole sha256_hex disk now digest none n = some n
put_whole sha256_hex disk now digest (some bytes) n = accept_blob sha256_hex disk now digest bytes n
