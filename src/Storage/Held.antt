-- ===== src/Storage/Held.antt =====
-- What a successful `put_bytes` of crates/agent/src/storage/mod.rs promises: the blob is found again.
use Prim.Native.String.{len}
use peer_deploy.Prelude.{
  ℕ, String, ◌≡◌, refl, ◌∙◌, ap, Bool, false, Option, some, none, arith, ltb, length, str_eq,
  eq_refl, Bool-cases, Option-cases, inl, inr,
}
use mathlib.Core.Path.{subst}
use peer_deploy.Prelude.Dict
use peer_deploy.Prelude.Dict.{is_some, get-insert, get-insert_sorted}
use peer_deploy.Prelude.Entries.{Entries-get}
use peer_deploy.Prelude.Outcome.{Result, ok}
use peer_deploy.Storage.Store.{
  Bytes, IndexEntry, ContentStore, Disk, path_for_digest, save_index, touch_entry, index_blob,
  put_bytes, get_path,
}
use peer_deploy.Storage.Integrity.Steps.{IsIntact, save_index-blobs}

-- Whether the entry of a digest is pinned.
abbrev pub is_pinned : Option IndexEntry → Bool
is_pinned none = false
is_pinned (some e) = e.pinned

module _ (sha256_hex : Bytes → String) (bytes : Bytes) where
  abbrev digest : String
  digest = sha256_hex bytes

  -- The blob and its entry are there, and the rest of the store is as it was.
  pub record IsHeld (now : ℕ) (s s' : ContentStore) : Type 0 where
    pub blob : Bytes
    pub held : Dict.get s'.blobs digest ≡ some blob
    pub same_digest : sha256_hex blob ≡ digest
    pub entry : IndexEntry
    pub listed : Dict.get s'.entries digest ≡ some entry
    pub size : entry.size_bytes ≡ length bytes
    pub accessed : entry.last_accessed_unix ≡ now
    pub pinned : entry.pinned ≡ is_pinned (Dict.get s.entries digest)
    pub other_blobs :
        (j : String) → str_eq digest j ≡ false → Dict.get s'.blobs j ≡ Dict.get s.blobs j
    pub other_entries :
        (j : String) → str_eq digest j ≡ false → Dict.get s'.entries j ≡ Dict.get s.entries j

  -- The store after the index is written.
  abbrev indexed : ℕ → ContentStore → ContentStore
  indexed now s = record s {
    entries =
        Dict.insert_sorted digest (touch_entry (length bytes) now (Dict.get s.entries digest))
          s.entries;
  }

  -- Where the bytes come from: they are there, or they are written.
  record IsWritten (s t : ContentStore) : Type 0 where
    blob : Bytes
    held : Dict.get t.blobs digest ≡ some blob
    same_digest : sha256_hex blob ≡ digest
    same_entries : t.entries ≡ s.entries
    other_blobs : (j : String) → str_eq digest j ≡ false → Dict.get t.blobs j ≡ Dict.get s.blobs j

  indexed_of :
      (disk : Disk) (now : ℕ) (t s' : ContentStore)
      → index_blob sha256_hex disk now digest bytes t ≡ (ok digest, s')
      → indexed now t ≡ s'
  unfolding index_blob save_index
  indexed_of disk now t s' e = ground (arith, e)

  written :
      (disk : Disk) (now : ℕ) (s s' : ContentStore)
      → IsIntact sha256_hex s
      → put_bytes sha256_hex disk now bytes s ≡ some (ok digest, s')
      → (t : ContentStore) × IsWritten s t × (indexed now t ≡ s')
  unfolding put_bytes path_for_digest
  written disk now s s' h e = elim (Bool-cases (ltb (len digest) 4)) [
    | inl short ↦ absurd (ground (arith, short, e))
    | inr long ↦ elim (Option-cases (Dict.get s.blobs digest)) [
      | inr (blob, here) ↦ (
        s,
        record {
          blob = blob;
          held = here;
          same_digest = Entries-get (λ d b. sha256_hex b ≡ d) digest blob s.blobs h here;
          same_entries = refl;
          other_blobs = λ j ne. refl;
        },
        indexed_of disk now s s' (ground (arith, long, here, e)),
      )
      | inl absent ↦ elim (Bool-cases disk.blob_written) [
        | inr failed ↦ absurd (ground (arith, long, absent, failed, e))
        | inl whole ↦ (
          record s { blobs = Dict.insert digest bytes s.blobs },
          record {
            blob = bytes;
            held = get-insert digest digest bytes s.blobs ∙ rw (eq_refl digest) refl;
            same_digest = refl;
            same_entries = refl;
            other_blobs = λ j ne. get-insert digest j bytes s.blobs ∙ rw (ne) refl;
          },
          indexed_of disk now _ s' (ground (arith, long, absent, whole, e)),
        )
      ]
    ]
  ]

  put_bytes-digest :
      (disk : Disk) (now : ℕ) (s s' : ContentStore) (d : String)
      → put_bytes sha256_hex disk now bytes s ≡ some (ok d, s')
      → d ≡ digest
  unfolding put_bytes path_for_digest index_blob save_index
  put_bytes-digest disk now s s' d e = ground (arith, e)

  -- A look-up of the digest leads to the path of its blob, and changes no blob.
  abbrev pub IsFound : Disk → ℕ → ContentStore → Type 0
  IsFound disk next s =
      (s' : ContentStore) × (get_path disk next digest s ≡ some (some digest, s'))
      × (s'.blobs ≡ s.blobs)

  -- A look-up of the blob leads to it, whatever becomes of the index.
  found :
      (disk : Disk) (next : ℕ) (s : ContentStore) (blob : Bytes)
      → ltb (len digest) 4 ≡ false
      → Dict.get s.blobs digest ≡ some blob
      → IsFound disk next s
  unfolding get_path path_for_digest save_index
  found disk next s blob long here = elim (Option-cases (Dict.get s.entries digest)) [
    | inl missing ↦ (s, ground (arith, long, here, missing), refl)
    | inr (e, listed) ↦
        let noted =
          Dict.modify digest (λ (x : IndexEntry). record x { last_accessed_unix = next })
            s.entries in
        (
          (save_index disk.index_written noted s).1,
          ground (arith, long, here, listed),
          save_index-blobs sha256_hex disk.index_written noted s,
        )
  ]

  put_bytes_long :
      (disk : Disk) (now : ℕ) (s s' : ContentStore) (r : Result String String)
      → put_bytes sha256_hex disk now bytes s ≡ some (r, s')
      → ltb (len digest) 4 ≡ false
  unfolding put_bytes path_for_digest
  put_bytes_long disk now s s' r e = elim (Bool-cases (ltb (len digest) 4)) [
    | inl short ↦ absurd (ground (arith, short, e))
    | inr long ↦ long
  ]

  -- A call that succeeds answers the digest of the bytes. After it, there is a blob of this digest
  -- under it, the index lists it with the size of the bytes, the time of the call, and the pin that
  -- it had, and no other blob or entry has changed; a look-up of the digest leads to this blob, also
  -- where the index cannot be written. This is for a store whose blobs stand under their
  -- digests.
  pub put_bytes-IsHeld :
      (disk : Disk) (now : ℕ) (s s' : ContentStore) (d : String)
      → IsIntact sha256_hex s
      → put_bytes sha256_hex disk now bytes s ≡ some (ok d, s')
      → (d ≡ digest) × IsHeld now s s' × ((disk' : Disk) (next : ℕ) → IsFound disk' next s')
  unfolding touch_entry
  put_bytes-IsHeld disk now s s' d h e =
      let same = put_bytes-digest disk now s s' d e in
      let (t, w, ends) = written disk now s s' h (e ∙ ap (λ x. some (ok x, s')) same) in
      let held = subst (IsHeld now s) ends (record {
        blob = w.blob;
        held = w.held;
        same_digest = w.same_digest;
        entry = touch_entry (length bytes) now (Dict.get s.entries digest);
        listed =
            get-insert_sorted digest digest _ t.entries ∙ rw (eq_refl digest, w.same_entries) refl;
        size = ground arith;
        accessed = ground arith;
        pinned = ground arith;
        other_blobs = w.other_blobs;
        other_entries =
            λ j ne. get-insert_sorted digest j _ t.entries ∙ rw (ne, w.same_entries) refl;
      }) in
      (
        same,
        held,
        λ disk' next.
            found disk' next s' held.blob (put_bytes_long disk now s s' (ok d) e) held.held,
      )
