-- ===== src/Storage/Tests.antt =====
-- Witnesses of the theorems on the content store, on a store of two blobs.
use peer_deploy.Prelude.{ℕ, String, ◌≡◌, refl, true, false, none, some, List, [], ◌∷◌}
use peer_deploy.Prelude.Dict
use peer_deploy.Prelude.Dict.{Dict}
use peer_deploy.Storage.Store.{
  Bytes, ContentStore, Disk, gc_to_target, put_bytes, index_blob, path_for_digest, save_index,
  touch_entry,
}
use peer_deploy.Storage.Chunks.{
  BlobNode, put_chunk, place, is_complete, assemble, accept_blob, store_and_announce,
}
use peer_deploy.Storage.Collect.{IsCollected, gc_to_target-IsCollected}
use peer_deploy.Storage.Reassembly.{received, put_chunk-received}
use peer_deploy.Prelude.Outcome.{ok}
use peer_deploy.Storage.Held.{IsHeld, IsFound, put_bytes-IsHeld}
use peer_deploy.Storage.Integrity.{Call, chunk, run, call, run-IsIntact}

-- A stand-in for the hash.
abbrev digest_of : Bytes → String
digest_of [] = "empty"
digest_of (b ∷ bytes) = "filled"

abbrev sound : Disk
sound = record { blob_written = true; blob_left = none; index_written = true }

abbrev before : BlobNode
before = record { chunk_bufs = []; store = record { blobs = []; entries = [] }; announced = [] }

abbrev chunks : List Call
chunks =
    chunk sound 5 "filled" 1 2 (some (3 ∷ [])) ∷ chunk sound 6 "filled" 0 2 (some (1 ∷ 2 ∷ [])) ∷ []

abbrev after : BlobNode
after = record {
  chunk_bufs = [];
  store = record {
    blobs = ("filled", 1 ∷ 2 ∷ 3 ∷ []) ∷ [];
    entries = ("filled", record { size_bytes = 3; last_accessed_unix = 6; pinned = false }) ∷ [];
  };
  announced = ("filled", 3) ∷ [];
}

chunks_run : run digest_of chunks before ≡ some after
unfolding run call put_chunk place is_complete assemble accept_blob store_and_announce put_bytes
    index_blob path_for_digest save_index touch_entry Dict.get Dict.insert Dict.remove
    Dict.insert_sorted
chunks_run = refl

run-IsIntact_example : digest_of (1 ∷ 2 ∷ 3 ∷ []) ≡ "filled"
unfolding Dict.get
run-IsIntact_example =
    run-IsIntact digest_of chunks before after "filled" (1 ∷ 2 ∷ 3 ∷ []) (refl, (refl, tt)) tt
      chunks_run refl

abbrev full : ContentStore
full = record {
  blobs = ("aaaa", 1 ∷ []) ∷ ("bbbb", 2 ∷ []) ∷ [];
  entries =
      ("aaaa", record { size_bytes = 10; last_accessed_unix = 4; pinned = false })
      ∷ ("bbbb", record { size_bytes = 20; last_accessed_unix = 3; pinned = true })
      ∷ [];
}

gc_to_target-IsCollected_example :
    IsCollected 15 full.entries (gc_to_target (λ digest. true) sound 15 full).1.entries
unfolding Dict.get
gc_to_target-IsCollected_example =
    gc_to_target-IsCollected (λ digest. true) sound 15 full (refl, (refl, tt)) refl

-- The second of two chunks comes first.
put_chunk-received_example :
    put_chunk digest_of sound 5 "filled" 1 2 (some (3 ∷ [])) before
    ≡ received digest_of sound 5 "filled" ((1 ∷ 2 ∷ []) ∷ (3 ∷ []) ∷ []) (false ∷ true ∷ []) before
unfolding Dict.get
put_chunk-received_example =
    put_chunk-received digest_of sound 5 "filled" ((1 ∷ 2 ∷ []) ∷ (3 ∷ []) ∷ [])
      (false ∷ false ∷ []) 1 (3 ∷ []) before (refl, (refl, tt)) refl refl refl

abbrev nothing : ContentStore
nothing = record { blobs = []; entries = [] }

-- A disk that runs full after one byte.
abbrev full_disk : Disk
full_disk = record { blob_written = false; blob_left = some (1 ∷ []); index_written = true }

abbrev filled : ContentStore
filled = record {
  blobs = ("filled", 7 ∷ 8 ∷ []) ∷ [];
  entries = ("filled", record { size_bytes = 2; last_accessed_unix = 4; pinned = true }) ∷ [];
}

abbrev put_again : ContentStore
put_again = record {
  blobs = filled.blobs;
  entries = ("filled", record { size_bytes = 3; last_accessed_unix = 9; pinned = true }) ∷ [];
}

filled_again : put_bytes digest_of sound 9 (1 ∷ 2 ∷ 3 ∷ []) filled ≡ some (ok "filled", put_again)
unfolding put_bytes Dict.get Dict.insert_sorted
filled_again = refl

put_bytes-IsHeld_example :
    ("filled" ≡ digest_of (1 ∷ 2 ∷ 3 ∷ []))
    × IsHeld digest_of (1 ∷ 2 ∷ 3 ∷ []) 9 filled put_again
    × ((disk : Disk) (next : ℕ) → IsFound digest_of (1 ∷ 2 ∷ 3 ∷ []) disk next put_again)
put_bytes-IsHeld_example =
    put_bytes-IsHeld digest_of (1 ∷ 2 ∷ 3 ∷ []) sound 9 filled put_again "filled" (refl, tt)
      filled_again
