-- ===== src/Storage/Integrity.antt =====
-- The content addressing of crates/agent/src/storage/mod.rs and of the messages that fill the store:
-- each blob stands under the digest of its bytes.
pub mod Steps
use peer_deploy.Prelude.{
  ℕ, ◌≡◌, refl, String, Bool, true, false, Option, none, some, List, [], ◌∷◌, All, inl, inr, arith,
  ◌++◌, length, ◌-◌, ltb, leb, str_eq, eq_iff, eq_refl, Bool-cases, Option-cases, if◌then◌else◌,
}
use mathlib.Core.Path.{subst}
use Prim.Native.String.{len}
use peer_deploy.Prelude.Dict
use peer_deploy.Prelude.Dict.{Dict, is_some, get-insert, get-remove}
use peer_deploy.Prelude.Entries.{Entries, Entries-insert, Entries-remove, Entries-get}
use peer_deploy.Prelude.Sort.{sort_by_key}
use peer_deploy.Prelude.Outcome.{Result, ok, err}
use peer_deploy.Storage.Store.{
  Bytes, IndexEntry, ContentStore, Disk, path_for_digest, save_index, index_blob, put_bytes,
  get_path, pin, gc_loop, gc_to_target, last_accessed, total_size,
}
use peer_deploy.Storage.Chunks.{
  BlobNode, ChunkBuffer, store_and_announce, accept_blob, put_chunk, put_whole, is_complete, place,
  or_fresh, assemble,
}
use peer_deploy.Storage.Integrity.Steps.{
  IsIntact, Then, put_bytes-IsIntact, get_path-IsIntact, pin-IsIntact, gc_to_target-IsIntact,
  accept_blob-IsIntact, stored,
}

-- The calls that reach the store.
pub data Call : Type 0 where
  put : Disk → ℕ → Bytes → Call
  lookup : Disk → ℕ → String → Call
  pin_blob : Disk → String → Bool → Call
  collect : (String → Bool) → Disk → ℕ → Call
  chunk : Disk → ℕ → String → ℕ → ℕ → Option Bytes → Call
  whole : Disk → ℕ → String → Option Bytes → Call

-- A write of a blob that fails in the call leaves no file.
abbrev pub IsClean : Call → Type 0
IsClean (put disk now bytes) = disk.blob_left ≡ none
IsClean (chunk disk now digest index total bytes) = disk.blob_left ≡ none
IsClean (whole disk now digest bytes) = disk.blob_left ≡ none
IsClean _ = Unit

module _ (sha256_hex : Bytes → String) where
  -- `none` is a panic.
  unfoldable pub call : Call → BlobNode → Option BlobNode
  call (put disk now bytes) n = elim (put_bytes sha256_hex disk now bytes n.store) [
    | none ↦ none
    | some (r, s) ↦ some (record n { store = s })
  ]
  call (lookup disk now digest) n = elim (get_path disk now digest n.store) [
    | none ↦ none
    | some (r, s) ↦ some (record n { store = s })
  ]
  call (pin_blob disk digest value) n =
      some (record n { store = (pin disk digest value n.store).1 })
  call (collect removable disk target) n =
      some (record n { store = (gc_to_target removable disk target n.store).1 })
  call (chunk disk now digest index total bytes) n =
      put_chunk sha256_hex disk now digest index total bytes n
  call (whole disk now digest bytes) n = put_whole sha256_hex disk now digest bytes n

  unfoldable pub run : List Call → BlobNode → Option BlobNode
  unfolding call
  run [] n = some n
  run (c ∷ calls) n = elim (call c n) [ none ↦ none | some m ↦ run calls m ]

  call-IsIntact :
      (c : Call) (n : BlobNode)
      → IsClean c
      → IsIntact sha256_hex n.store
      → Then (λ m. IsIntact sha256_hex m.store) (call c n)
  unfolding call put_chunk put_whole
  call-IsIntact (put disk now bytes) n clean h =
      stored sha256_hex (λ r s. record n { store = s }) (λ r s g. g)
        (put_bytes sha256_hex disk now bytes n.store)
        (put_bytes-IsIntact sha256_hex disk now bytes n.store clean h)
  call-IsIntact (lookup disk now digest) n clean h =
      stored sha256_hex (λ r s. record n { store = s }) (λ r s g. g)
        (get_path disk now digest n.store) (get_path-IsIntact sha256_hex disk now digest n.store h)
  call-IsIntact (pin_blob disk digest value) n clean h =
      pin-IsIntact sha256_hex disk digest value n.store h
  call-IsIntact (collect removable disk target) n clean h =
      gc_to_target-IsIntact sha256_hex removable disk target n.store h
  call-IsIntact (chunk disk now digest index total none) n clean h = h
  call-IsIntact (chunk disk now digest index total (some bytes)) n clean h =
      let b = place index total bytes (or_fresh total (Dict.get n.chunk_bufs digest)) in
      elim (Bool-cases (is_complete b)) [
        | inl complete ↦
            rw (complete, Then)
              (accept_blob-IsIntact sha256_hex disk now digest (assemble b.chunks)
                (record n { chunk_bufs = Dict.remove digest n.chunk_bufs }) clean h)
        | inr partial ↦ rw (partial, Then) h
      ]
  call-IsIntact (whole disk now digest none) n clean h = h
  call-IsIntact (whole disk now digest (some bytes)) n clean h =
      accept_blob-IsIntact sha256_hex disk now digest bytes n clean h

  Then-run :
      (calls : List Call) (r : Option BlobNode)
      → ((m : BlobNode)
          → IsIntact sha256_hex m.store
          → Then (λ k. IsIntact sha256_hex k.store) (run calls m))
      → Then (λ m. IsIntact sha256_hex m.store) r
      → Then (λ m. IsIntact sha256_hex m.store) (elim r [ none ↦ none | some m ↦ run calls m ])
  Then-run calls none keep k = tt
  Then-run calls (some m) keep k = keep m k

  run_each-IsIntact :
      (calls : List Call) (n : BlobNode)
      → All IsClean calls
      → IsIntact sha256_hex n.store
      → Then (λ m. IsIntact sha256_hex m.store) (run calls n)
  unfolding run
  run_each-IsIntact [] n clean h = h
  run_each-IsIntact (c ∷ calls) n clean h =
      Then-run calls (call c n) (λ m. run_each-IsIntact calls m clean.1)
        (call-IsIntact c n clean.0 h)

  -- After any sequence of calls that ends without a panic (stores, lookups, pins, collections, chunks
  -- and whole blobs from the network), a blob of the store has the digest that it stands under, if
  -- this was so at the start. Any write may fail, but the failed write of a blob must not leave a file
  -- behind: a part of the bytes would stay under the digest.
  pub run-IsIntact :
      (calls : List Call) (n m : BlobNode) (digest : String) (bytes : Bytes)
      → All IsClean calls
      → IsIntact sha256_hex n.store
      → run calls n ≡ some m
      → Dict.get m.store.blobs digest ≡ some bytes
      → sha256_hex bytes ≡ digest
  run-IsIntact calls n m digest bytes clean h e found =
      Entries-get (λ d b. sha256_hex b ≡ d) digest bytes m.store.blobs
        (subst (Then (λ k. IsIntact sha256_hex k.store)) e (run_each-IsIntact calls n clean h))
        found
