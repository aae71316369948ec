-- ===== src/Storage/Integrity/Steps.antt =====
-- The content addressing of crates/agent/src/storage/mod.rs and of the messages that fill the store:
-- each blob stands under the digest of its bytes.
use peer_deploy.Prelude.{
  ℕ, ◌≡◌, refl, String, Bool, true, false, Option, none, some, [], ◌∷◌, inl, inr, ◌++◌, length, ◌-◌,
  ltb, leb, str_eq, Bool-cases, Option-cases, if◌then◌else◌,
}
use Prim.Native.String.{len}
use peer_deploy.Prelude.Dict
use peer_deploy.Prelude.Dict.{Dict, is_some, get-insert, get-remove}
use peer_deploy.Prelude.Entries.{Entries, Entries-insert, Entries-remove}
use peer_deploy.Prelude.Sort.{sort_by_key}
use peer_deploy.Storage.Store.{
  Bytes, IndexEntry, ContentStore, Disk, path_for_digest, save_index, leave_blob, index_blob,
  put_bytes, get_path, pin, gc_loop, gc_to_target, last_accessed, total_size,
}
use peer_deploy.Storage.Chunks.{BlobNode, store_and_announce, accept_blob}

-- What holds of the store after a call that may panic.
abbrev pub Then {ℓ} : {A : Type ℓ} → (A → Type 0) → Option A → Type 0
Then P none = Unit
Then P (some a) = P a

module _ (sha256_hex : Bytes → String) where
  abbrev pub IsIntact : ContentStore → Type 0
  IsIntact s = Entries (λ digest bytes. sha256_hex bytes ≡ digest) s.blobs

  -- Writing the index does not touch the blobs.
  pub save_index-blobs :
      (w : Bool) (entries : Dict IndexEntry) (s : ContentStore)
      → (save_index w entries s).1.blobs ≡ s.blobs
  unfolding save_index
  save_index-blobs true entries s = refl
  save_index-blobs false entries s = refl

  index_blob-IsIntact :
      (disk : Disk) (now : ℕ) (digest : String) (bytes : Bytes) (s : ContentStore)
      → IsIntact s
      → IsIntact (index_blob sha256_hex disk now digest bytes s).1
  unfolding index_blob save_index
  index_blob-IsIntact disk now digest bytes s h = elim (Bool-cases disk.index_written) [
    | inl written ↦ rw (written) h
    | inr failed ↦ rw (failed) h
  ]

  pub put_bytes-IsIntact :
      (disk : Disk) (now : ℕ) (bytes : Bytes) (s : ContentStore)
      → disk.blob_left ≡ none
      → IsIntact s
      → Then (λ r. IsIntact r.1) (put_bytes sha256_hex disk now bytes s)
  unfolding put_bytes path_for_digest leave_blob
  put_bytes-IsIntact disk now bytes s clean h =
      let digest = sha256_hex bytes in
      elim (Bool-cases (ltb (len digest) 4)) [
        | inl short ↦ rw (short, Then) tt
        | inr long ↦
            rw (long, Then)
              (elim (Bool-cases (is_some (Dict.get s.blobs digest))) [
                | inl present ↦ rw (present) (index_blob-IsIntact disk now digest bytes s h)
                | inr absent ↦ rw (absent) (elim (Bool-cases disk.blob_written) [
                  | inl written ↦ rw (written) (
                      index_blob-IsIntact disk now digest bytes
                        (record s { blobs = Dict.insert digest bytes s.blobs })
                        (Entries-insert (λ d b. sha256_hex b ≡ d) digest bytes s.blobs refl h))
                  | inr failed ↦ rw (failed, clean) h
                ])
              ])
      ]

  pub get_path-IsIntact :
      (disk : Disk) (now : ℕ) (digest : String) (s : ContentStore)
      → IsIntact s
      → Then (λ r. IsIntact r.1) (get_path disk now digest s)
  unfolding get_path path_for_digest
  get_path-IsIntact disk now digest s h = elim (Bool-cases (ltb (len digest) 4)) [
    | inl short ↦ rw (short, Then) tt
    | inr long ↦
        rw (long, Then)
          (elim (Bool-cases (is_some (Dict.get s.blobs digest))) [
            | inl present ↦ rw (present) (elim (Option-cases (Dict.get s.entries digest)) [
              | inl missing ↦ rw (missing) h
              | inr (e, found) ↦ rw (found, save_index-blobs) h
            ])
            | inr absent ↦ rw (absent) h
          ])
  ]

  pub pin-IsIntact :
      (disk : Disk) (digest : String) (value : Bool) (s : ContentStore)
      → IsIntact s
      → IsIntact (pin disk digest value s).1
  unfolding pin
  pin-IsIntact disk digest value s h = elim (Option-cases (Dict.get s.entries digest)) [
    | inl missing ↦ rw (missing, pin) h
    | inr (e, found) ↦ rw (found, pin, save_index-blobs) h
  ]

  removed :
      (removable : String → Bool) (digest : String) (s : ContentStore)
      → IsIntact s
      → Entries
          (λ d b. sha256_hex b ≡ d)
          (if removable digest then Dict.remove digest s.blobs else s.blobs)
  removed removable digest s h = elim (Bool-cases (removable digest)) [
    | inl gone ↦ rw (gone) (Entries-remove (λ d b. sha256_hex b ≡ d) digest s.blobs h)
    | inr stays ↦ rw (stays) h
  ]

  gc_loop-IsIntact :
      (removable : String → Bool) (target : ℕ) (items : Dict IndexEntry) (current : ℕ)
      (s : ContentStore)
      → IsIntact s
      → IsIntact (gc_loop removable target items current s)
  unfolding gc_loop
  gc_loop-IsIntact removable target [] current s h = h
  gc_loop-IsIntact removable target ((digest, entry) ∷ items) current s h =
      let blobs = if removable digest then Dict.remove digest s.blobs else s.blobs in
      elim (Bool-cases (leb current target)) [
        | inl done ↦ rw (done) h
        | inr more ↦ rw (more) (elim (Bool-cases entry.pinned) [
          | inl pinned ↦ rw (pinned) (gc_loop-IsIntact removable target items current s h)
          | inr free ↦ rw (free) (
              gc_loop-IsIntact removable target items (current - entry.size_bytes)
                (record { blobs = blobs; entries = Dict.remove digest s.entries })
                (removed removable digest s h))
        ])
      ]

  pub gc_to_target-IsIntact :
      (removable : String → Bool) (disk : Disk) (target : ℕ) (s : ContentStore)
      → IsIntact s
      → IsIntact (gc_to_target removable disk target s).1
  unfolding gc_to_target
  gc_to_target-IsIntact removable disk target s h = rw (save_index-blobs) (
      gc_loop-IsIntact removable target (sort_by_key last_accessed s.entries)
        (total_size (sort_by_key last_accessed s.entries)) s h)

  -- A node whose store is replaced by the one that a call returns.
  pub stored :
      {A : Type 0} (f : A → ContentStore → BlobNode)
      → ((a : A) (s : ContentStore) → IsIntact s → IsIntact (f a s).store)
      → (r : Option (A × ContentStore)) → Then (λ q. IsIntact q.1) r
      → Then (λ m. IsIntact m.store) (elim r [ none ↦ none | some (a, s) ↦ some (f a s) ])
  stored f keep none k = tt
  stored f keep (some (a, s)) k = keep a s k

  pub accept_blob-IsIntact :
      (disk : Disk) (now : ℕ) (digest : String) (bytes : Bytes) (n : BlobNode)
      → disk.blob_left ≡ none
      → IsIntact n.store
      → Then (λ m. IsIntact m.store) (accept_blob sha256_hex disk now digest bytes n)
  unfolding accept_blob store_and_announce
  accept_blob-IsIntact disk now digest bytes n clean h =
      elim (Bool-cases (str_eq (sha256_hex bytes) digest)) [
        | inl same ↦
            rw (same, Then)
              (stored
                (λ r s. record n {
                  store = s;
                  announced = n.announced ++ (digest, length bytes) ∷ [];
                })
                (λ r s g. g) (put_bytes sha256_hex disk now bytes n.store)
                (put_bytes-IsIntact disk now bytes n.store clean h))
        | inr other ↦ rw (other, Then) h
      ]
