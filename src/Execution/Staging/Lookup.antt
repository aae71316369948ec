-- ===== src/Execution/Staging/Lookup.antt =====
-- What the calls of the store in a run answer (crates/agent/src/p2p/jobs_wasm.rs and its neighbours).
use Prim.Native.String.{len}
use peer_deploy.Prelude.{
  ℕ, String, ◌≡◌, refl, true, Option, none, some, [], inl, inr, Bool-cases, Option-cases, arith,
  ltb,
}
use peer_deploy.Prelude.Dict
use peer_deploy.Prelude.Dict.{Dict, is_some}
use peer_deploy.Prelude.Outcome.{Result, ok}
use peer_deploy.Storage.Store.{
  Bytes, ContentStore, Disk, path_for_digest, get_path, put_bytes, index_blob, save_index,
}
use peer_deploy.Storage.Integrity.Steps.{IsIntact, Then, put_bytes-IsIntact, get_path-IsIntact}
use peer_deploy.Execution.Site.{Worker, Site, lookup, put}
use peer_deploy.Execution.Logic.{After}

module _ (w : Worker) where
  -- Nothing is started yet, the blobs stand under their digests, and failed writes of blobs leave none.
  pub record IsIdle (s : Site) : Type 0 where
    pub intact : IsIntact w.sha256_hex s.store
    pub none_started : s.launched ≡ []
    pub clean : (i : ℕ) → (w.disk i).blob_left ≡ none

  -- The step keeps the site idle.
  abbrev pub Idles : {A : Type 0} → Option (Result A String × Site) → Type 0
  Idles r = After IsIdle (λ a s. IsIdle s) r

  IsIdle-store :
      (s : Site) (store : ContentStore)
      → IsIdle s
      → IsIntact w.sha256_hex store
      → IsIdle (record s { store = store })
  IsIdle-store s store h i = record { intact = i; none_started = h.none_started; clean = h.clean }

  -- What a look into the store answers.
  abbrev pub Found : String → Option String → ContentStore → Type 0
  Found digest none store = Unit
  Found digest (some path) store =
      (path ≡ digest) × ((bytes : Bytes) × (Dict.get store.blobs path ≡ some bytes))

  some_of_is_some : (o : Option Bytes) → is_some o ≡ true → (b : Bytes) × (o ≡ some b)
  some_of_is_some none e = absurd (ground arith)
  some_of_is_some (some b) e = (b, refl)

  get_path-Found :
      (disk : Disk) (now : ℕ) (digest : String) (store : ContentStore)
      → Then (λ r. Found digest r.0 r.1) (get_path disk now digest store)
  unfolding get_path path_for_digest save_index
  get_path-Found disk now digest store = elim (Bool-cases (ltb (len digest) 4)) [
    | inl short ↦ rw (short, Then) tt
    | inr long ↦
        rw (long, Then)
          (elim (Bool-cases (is_some (Dict.get store.blobs digest))) [
            | inr absent ↦ rw (absent) tt
            | inl here ↦
                let found = some_of_is_some (Dict.get store.blobs digest) here in
                rw (here) (elim (Option-cases (Dict.get store.entries digest)) [
                  | inl missing ↦ rw (missing) (refl, found)
                  | inr (e, listed) ↦ rw (listed) (elim (Bool-cases disk.index_written) [
                    | inl written ↦ rw (written) (refl, found)
                    | inr failed ↦ rw (failed) (refl, found)
                  ])
                ])
          ])
  ]

  index_blob-digest :
      (disk : Disk) (now : ℕ) (bytes : Bytes) (store : ContentStore) (d : String)
      → (index_blob w.sha256_hex disk now (w.sha256_hex bytes) bytes store).0 ≡ ok d
      → d ≡ w.sha256_hex bytes
  unfolding index_blob save_index
  index_blob-digest disk now bytes store d e = ground arith

  put_bytes-digest :
      (disk : Disk) (now : ℕ) (bytes : Bytes) (store : ContentStore)
      → Then
          (λ r. (d : String) → r.0 ≡ ok d → d ≡ w.sha256_hex bytes)
          (put_bytes w.sha256_hex disk now bytes store)
  unfolding put_bytes path_for_digest index_blob save_index
  put_bytes-digest disk now bytes store = elim (Bool-cases (ltb (len (w.sha256_hex bytes)) 4)) [
    | inl short ↦ rw (short, Then) tt
    | inr long ↦
        rw (long, Then)
          (elim (Bool-cases (is_some (Dict.get store.blobs (w.sha256_hex bytes)))) [
            | inl here ↦ rw (here) (index_blob-digest disk now bytes store)
            | inr absent ↦ rw (absent) (elim (Bool-cases disk.blob_written) [
              | inl written ↦ rw (written) (index_blob-digest disk now bytes _)
              | inr failed ↦ rw (failed) (λ d e. absurd (ground arith))
            ])
          ])
  ]

  lookup_of :
      (digest : String) (s : Site) (r : Option (Option String × ContentStore))
      → IsIdle s
      → Then (λ q. IsIntact w.sha256_hex q.1) r
      → Then (λ q. Found digest q.0 q.1) r
      → After IsIdle
          (λ path s'. IsIdle s' × Found digest path s'.store)
          (elim r [ none ↦ none | some (path, store) ↦ some (ok path, record s { store = store }) ])
  lookup_of digest s none h i f = tt
  lookup_of digest s (some (path, store)) h i f = (IsIdle-store s store h i, f)

  pub lookup_lem :
      (i : ℕ) (digest : String) (s : Site)
      → IsIdle s
      → After IsIdle (λ path s'. IsIdle s' × Found digest path s'.store) (lookup w i digest s)
  unfolding lookup
  lookup_lem i digest s h =
      lookup_of digest s (get_path (w.disk i) (w.time i) digest s.store) h
        (get_path-IsIntact w.sha256_hex (w.disk i) (w.time i) digest s.store h.intact)
        (get_path-Found (w.disk i) (w.time i) digest s.store)

  put_of :
      (bytes : Bytes) (s : Site) (r : Option (Result String String × ContentStore))
      → IsIdle s
      → Then (λ q. IsIntact w.sha256_hex q.1) r
      → Then (λ q. (d : String) → q.0 ≡ ok d → d ≡ w.sha256_hex bytes) r
      → After IsIdle
          (λ a s'. IsIdle s' × ((d : String) → a ≡ ok d → d ≡ w.sha256_hex bytes))
          (elim r [ none ↦ none | some (a, store) ↦ some (ok a, record s { store = store }) ])
  put_of bytes s none h i f = tt
  put_of bytes s (some (a, store)) h i f = (IsIdle-store s store h i, f)

  pub put_lem :
      (i : ℕ) (bytes : Bytes) (s : Site)
      → IsIdle s
      → After IsIdle
          (λ r s'. IsIdle s' × ((d : String) → r ≡ ok d → d ≡ w.sha256_hex bytes))
          (put w i bytes s)
  unfolding put
  put_lem i bytes s h =
      put_of bytes s (put_bytes w.sha256_hex (w.disk i) (w.time i) bytes s.store) h
        (put_bytes-IsIntact w.sha256_hex (w.disk i) (w.time i) bytes s.store (h.clean i) h.intact)
        (put_bytes-digest (w.disk i) (w.time i) bytes s.store)

-- A look into the store changes no blob.
module _ (w : Worker) (P : Site → Type 0) where
  get_path-blobs :
      (disk : Disk) (now : ℕ) (digest : String) (store : ContentStore)
      → Then (λ r. r.1.blobs ≡ store.blobs) (get_path disk now digest store)
  unfolding get_path path_for_digest save_index
  get_path-blobs disk now digest store = elim (Bool-cases (ltb (len digest) 4)) [
    | inl short ↦ rw (short, Then) tt
    | inr long ↦
        rw (long, Then)
          (elim (Bool-cases (is_some (Dict.get store.blobs digest))) [
            | inr absent ↦ rw (absent) refl
            | inl here ↦ rw (here) (elim (Option-cases (Dict.get store.entries digest)) [
              | inl missing ↦ rw (missing) refl
              | inr (e, listed) ↦ rw (listed) (ground arith)
            ])
          ])
  ]

  looked :
      (s : Site)
      → ((store : ContentStore) → store.blobs ≡ s.store.blobs → P (record s { store = store }))
      → (r : Option (Option String × ContentStore)) → Then (λ q. q.1.blobs ≡ s.store.blobs) r
      → After P
          (λ a s'. P s')
          (elim r [ none ↦ none | some (path, store) ↦ some (ok path, record s { store = store }) ])
  looked s k none e = tt
  looked s k (some (path, store)) e = k store e

  pub After-lookup :
      (i : ℕ) (digest : String) (s : Site)
      → ((store : ContentStore) → store.blobs ≡ s.store.blobs → P (record s { store = store }))
      → After P (λ a s'. P s') (lookup w i digest s)
  unfolding lookup
  After-lookup i digest s k =
      looked s k (get_path (w.disk i) (w.time i) digest s.store)
        (get_path-blobs (w.disk i) (w.time i) digest s.store)
