-- ===== src/Execution/Staging/Idle.antt =====
-- The staging of a run (crates/agent/src/p2p/jobs_wasm.rs and its neighbours) starts nothing, and
-- the binary that it stores has the declared digest.
use mathlib.Core.Path.{subst}
use peer_deploy.Prelude.{
  ℕ, String, arith, All, ◌≡◌, refl, sym, ◌∙◌, Option, none, some, List, inl, inr, Bool-cases,
  str_eq, eq_iff,
}
use peer_deploy.Prelude.Dict
use peer_deploy.Prelude.Dict.{Dict, is_some}
use peer_deploy.Prelude.Entries.{Entries, Entries-get}
use peer_deploy.Prelude.Outcome.{Result, ok, err}
use peer_deploy.Common.Job.{PreStageSpec}
use peer_deploy.Storage.Store.{Bytes}
use peer_deploy.Execution.Site.{Worker, Site, lookup, put}
use peer_deploy.Execution.Staging.{
  stage_bytes, check_digest, pre_stage, store_binary, present, or_raise,
}
use peer_deploy.Execution.Logic.{After, After-continue, After-weaken}
use peer_deploy.Execution.Staging.Keeps.{stage_bytes-keeps, pre_stage-keeps}
use peer_deploy.Execution.Staging.Lookup.{After-lookup, IsIdle, Found, lookup_lem, put_lem}

module _ (w : Worker) where
  abbrev Idle : Site → Type 0
  Idle = IsIdle w

  lookup-IsIdle :
      (i : ℕ) (digest : String) (s : Site)
      → Idle s
      → After Idle (λ a s'. Idle s') (lookup w i digest s)
  lookup-IsIdle i digest s h =
      After-weaken Idle _ (λ a s'. Idle s') (lookup w i digest s) (λ a s' k. k.0)
        (lookup_lem w i digest s h)

  put-IsIdle :
      (i : ℕ) (bytes : Bytes) (s : Site) → Idle s → After Idle (λ a s'. Idle s') (put w i bytes s)
  put-IsIdle i bytes s h =
      After-weaken Idle _ (λ a s'. Idle s') (put w i bytes s) (λ a s' k. k.0)
        (put_lem w i bytes s h)

  pub stage_bytes-IsIdle :
      (source : String) (sha256_hex : Option String) (s : Site)
      → Idle s
      → After Idle (λ a s'. Idle s') (stage_bytes w source sha256_hex s)
  stage_bytes-IsIdle = stage_bytes-keeps w Idle lookup-IsIdle put-IsIdle

  -- Nothing is started, and the blobs are `blobs`.
  abbrev pub IdleWith : Dict Bytes → Site → Type 0
  IdleWith blobs s = Idle s × (s.store.blobs ≡ blobs)

  lookup-IdleWith :
      (blobs : Dict Bytes) (i : ℕ) (digest : String) (s : Site)
      → IdleWith blobs s
      → After (IdleWith blobs) (λ a s'. IdleWith blobs s') (lookup w i digest s)
  lookup-IdleWith blobs i digest s h = After-lookup w (IdleWith blobs) i digest s λ store same. (
    record {
      intact = subst (Entries (λ d b. w.sha256_hex b ≡ d)) (sym same) h.0.intact;
      none_started = h.0.none_started;
      clean = h.0.clean;
    },
    same ∙ h.1,
  )

  -- The attachments are written outside of the store.
  abbrev pub IsOutside : List PreStageSpec → Type 0
  IsOutside items = All (λ item. w.blob_at item.dest ≡ none) items

  -- Such attachments neither start anything nor change a blob.
  pub pre_stage-IdleWith :
      (i : ℕ) (items : List PreStageSpec) (s : Site)
      → IsOutside items
      → Idle s
      → After (IdleWith s.store.blobs) (λ a s'. IdleWith s.store.blobs s') (pre_stage w i items s)
  pre_stage-IdleWith i items s outside h =
      pre_stage-keeps w (IdleWith s.store.blobs) (lookup-IdleWith s.store.blobs)
        (λ s' files k.
          (record { intact = k.0.intact; none_started = k.0.none_started; clean = k.0.clean }, k.1))
        (λ dest. w.blob_at dest ≡ none)
        (λ dest digest bytes s' o e k. absurd (ground (arith, o, e))) i items s outside (h, refl)

  -- Bytes that pass have the declared digest.
  pub check_digest-IsIdle :
      (hex : String) (bytes : Bytes) (s : Site)
      → Idle s
      → After Idle
          (λ a s'. Idle s' × (w.sha256_hex bytes ≡ hex))
          (check_digest w (some hex) bytes s)
  unfolding check_digest
  check_digest-IsIdle hex bytes s h = elim (Bool-cases (str_eq (w.sha256_hex bytes) hex)) [
    | inl same ↦ rw (same) (h, (eq_iff (w.sha256_hex bytes) hex).0 same)
    | inr other ↦ rw (other) h
  ]

  -- The stored binary: its path leads to bytes with the path's digest.
  pub record Stored (bytes : Bytes) (path : String) (s : Site) : Type 0 where
    pub idle : Idle s
    pub blob : Bytes
    pub present : Dict.get s.store.blobs path ≡ some blob
    pub same_digest : w.sha256_hex blob ≡ w.sha256_hex bytes

  present-Stored :
      (bytes : Bytes) (digest : String) (path : Option String) (s : Site)
      → digest ≡ w.sha256_hex bytes
      → Idle s
      → Found w digest path s.store
      → After Idle (λ p s'. Stored bytes p s') (present path s)
  unfolding present
  present-Stored bytes digest none s e h f = h
  present-Stored bytes digest (some path) s e h f = record {
    idle = h;
    blob = f.1.0;
    present = f.1.1;
    same_digest =
        Entries-get (λ d b. w.sha256_hex b ≡ d) path f.1.0 s.store.blobs h.intact f.1.1 ∙ f.0 ∙ e;
  }

  or_raise-digest :
      (r : Result String String) (s : Site) (bytes : Bytes)
      → Idle s
      → ((d : String) → r ≡ ok d → d ≡ w.sha256_hex bytes)
      → After Idle (λ d s'. Idle s' × (d ≡ w.sha256_hex bytes)) (or_raise "cas put failed: " r s)
  or_raise-digest (ok d) s bytes h k = (h, k d refl)
  or_raise-digest (err e) s bytes h k = h

  pub store_binary-Stored :
      (bytes : Bytes) (s : Site)
      → Idle s
      → After Idle (λ p s'. Stored bytes p s') (store_binary w bytes s)
  unfolding store_binary
  store_binary-Stored bytes s h =
      After-continue Idle _ (λ p s'. Stored bytes p s') (put w 2 bytes s) _ (put_lem w 2 bytes s h)
        λ r s1 k.
          After-continue Idle (λ d s'. Idle s' × (d ≡ w.sha256_hex bytes))
            (λ p s'. Stored bytes p s') (or_raise "cas put failed: " r s1) _
            (or_raise-digest r s1 bytes k.0 k.1)
            λ d s2 k2.
              After-continue Idle _ (λ p s'. Stored bytes p s') (lookup w 3 d s2) _
                (lookup_lem w 3 d s2 k2.0)
                λ path s3 k3. present-Stored bytes d path s3 k2.1 k3.0 k3.1
