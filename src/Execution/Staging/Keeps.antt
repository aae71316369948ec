-- ===== src/Execution/Staging/Keeps.antt =====
-- What the staging of a run (crates/agent/src/p2p/jobs_wasm.rs and its neighbours) leaves alone:
-- whatever the calls of the store and the writes of files keep.
use text.Mathlib.Text.{starts_with}
use peer_deploy.Prelude.{
  ℕ, suc, String, ◌≡◌, refl, All, ◌||◌, Option, none, some, List, [], ◌∷◌, inl, inr, Bool-cases,
  str_eq,
}
use peer_deploy.Prelude.Dict
use peer_deploy.Prelude.Dict.{Dict, is_some}
use peer_deploy.Prelude.Outcome.{Result, ok, err}
use peer_deploy.Common.Job.{PreStageSpec}
use peer_deploy.Storage.Store.{Bytes}
use peer_deploy.Execution.Site.{Worker, Site, pure, lookup, put}
use peer_deploy.Execution.Staging.{
  fetch_bytes, read_blob, keep_answer, ask_peers, from_cas, ask_attachment, some_or, instead,
  from_source, stage_bytes, check_digest, attachment, write_path, write_dest, stage_item, pre_stage,
  store_binary, present, or_raise, strip_prefix,
}
use peer_deploy.Execution.Logic.{After, After-continue}

module _ (w : Worker) (P : Site → Type 0) where
  -- A task that reads only.
  or_raise-keeps :
      {A : Type 0} (text : String) (r : Result A String) (s : Site)
      → P s
      → After P (λ a s'. P s') (or_raise text r s)
  or_raise-keeps text (ok a) s h = h
  or_raise-keeps text (err e) s h = h

  some_or-keeps :
      (text : String) (answer : Option Bytes) (s : Site)
      → P s
      → After P (λ a s'. P s') (some_or text answer s)
  unfolding some_or
  some_or-keeps text none s h = h
  some_or-keeps text (some bytes) s h = h

  ask_attachment-keeps :
      (storage : Option (String → Option Bytes)) (hex : String) (s : Site)
      → P s
      → After P (λ a s'. P s') (ask_attachment storage hex s)
  unfolding ask_attachment
  ask_attachment-keeps none hex s h = h
  ask_attachment-keeps (some answer) hex s h = some_or-keeps _ (answer hex) s h

  attachment-keeps :
      (hex : String) (path : Option String) (s : Site)
      → P s
      → After P (λ a s'. P s') (attachment w hex path s)
  unfolding attachment
  attachment-keeps hex (some path) s h = or_raise-keeps _ (read_blob w path s) s h
  attachment-keeps hex none s h = ask_attachment-keeps w.storage hex s h

  pub check_digest-keeps :
      (sha256_hex : Option String) (bytes : Bytes) (s : Site)
      → P s
      → After P (λ a s'. P s') (check_digest w sha256_hex bytes s)
  unfolding check_digest
  check_digest-keeps none bytes s h = h
  check_digest-keeps (some hex) bytes s h = elim (Bool-cases (str_eq (w.sha256_hex bytes) hex)) [
    | inl same ↦ rw (same) h
    | inr other ↦ rw (other) h
  ]

  present-keeps : (path : Option String) (s : Site) → P s → After P (λ a s'. P s') (present path s)
  unfolding present
  present-keeps none s h = h
  present-keeps (some path) s h = h

module _ (w : Worker) (P : Site → Type 0)
    (on_lookup : (i : ℕ) (digest : String) (s : Site)
      → P s
      → After P (λ a s'. P s') (lookup w i digest s))
    (on_files : (s : Site) (files : Dict Bytes) → P s → P (record s { files = files }))
    (D : String → Type 0)
    (on_blob : (dest digest : String) (bytes : Bytes) (s : Site)
      → D dest
      → w.blob_at dest ≡ some digest
      → P s
      → P (record s {
        store = record s.store { blobs = Dict.insert digest bytes s.store.blobs };
      })) where
  write_path-keeps :
      (blob : Option String) (dest : String) (bytes : Bytes) (s : Site)
      → D dest
      → w.blob_at dest ≡ blob
      → P s
      → P (write_path blob dest bytes s)
  unfolding write_path
  write_path-keeps none dest bytes s d e h = on_files s (Dict.insert dest bytes s.files) h
  write_path-keeps (some digest) dest bytes s d e h = on_blob dest digest bytes s d e h

  write_dest-keeps :
      (fails : Option String) (dest : String) (bytes : Bytes) (s : Site)
      → D dest
      → P s
      → After P (λ a s'. P s') (write_dest fails (w.blob_at dest) dest bytes s)
  unfolding write_dest
  write_dest-keeps (some e) dest bytes s d h = h
  write_dest-keeps none dest bytes s d h = write_path-keeps (w.blob_at dest) dest bytes s d refl h

  stage_item-keeps :
      (i : ℕ) (dest : String) (hex : Option String) (s : Site)
      → D dest
      → P s
      → After P (λ a s'. P s') (stage_item w i dest hex s)
  unfolding stage_item
  stage_item-keeps i dest none s d h = h
  stage_item-keeps i dest (some hex) s d h =
      After-continue P (λ a s'. P s') (λ a s'. P s') (lookup w i hex s) _ (on_lookup i hex s h)
        λ path s1 k.
          After-continue P (λ a s'. P s') (λ a s'. P s') (attachment w hex path s1) _
            (attachment-keeps w P hex path s1 k)
            λ bytes s2 k2. write_dest-keeps (w.write_fails dest) dest bytes s2 d k2

  pub pre_stage-keeps :
      (i : ℕ) (items : List PreStageSpec) (s : Site)
      → All (λ item. D item.dest) items
      → P s
      → After P (λ a s'. P s') (pre_stage w i items s)
  unfolding pre_stage
  pre_stage-keeps i [] s d h = h
  pre_stage-keeps i (item ∷ items) s d h =
      After-continue P (λ a s'. P s') (λ a s'. P s')
        (stage_item w i item.dest (strip_prefix item.source "cas:") s)
        (λ _. pre_stage w (suc i) items)
        (stage_item-keeps i item.dest (strip_prefix item.source "cas:") s d.0 h)
        (λ a s' k. pre_stage-keeps (suc i) items s' d.1 k)

module _ (w : Worker) (P : Site → Type 0)
    (on_lookup : (i : ℕ) (digest : String) (s : Site)
      → P s
      → After P (λ a s'. P s') (lookup w i digest s))
    (on_put : (i : ℕ) (bytes : Bytes) (s : Site)
      → P s
      → After P (λ a s'. P s') (put w i bytes s)) where
  keep_answer-keeps :
      (answer : Option Bytes) (s : Site) → P s → After P (λ a s'. P s') (keep_answer w answer s)
  unfolding keep_answer
  keep_answer-keeps none s h = h
  keep_answer-keeps (some bytes) s h =
      After-continue P (λ a s'. P s') (λ a s'. P s') (put w 1 bytes s) (λ r. pure bytes)
        (on_put 1 bytes s h) (λ r s' k. k)

  ask_peers-keeps :
      (storage : Option (String → Option Bytes)) (hex : String) (s : Site)
      → P s
      → After P (λ a s'. P s') (ask_peers w storage hex s)
  unfolding ask_peers
  ask_peers-keeps none hex s h = h
  ask_peers-keeps (some answer) hex s h = keep_answer-keeps (answer hex) s h

  from_cas-keeps :
      (hex : String) (path : Option String) (s : Site)
      → P s
      → After P (λ a s'. P s') (from_cas w hex path s)
  unfolding from_cas
  from_cas-keeps hex (some path) s h =
      or_raise-keeps w P "cas read failed: " (read_blob w path s) s h
  from_cas-keeps hex none s h = ask_peers-keeps w.storage hex s h

  from_source-keeps :
      (hex : String) (storage : Option (String → Option Bytes)) (s : Site)
      → P s
      → After P (λ a s'. P s') (instead storage hex s)
  unfolding instead
  from_source-keeps hex none s h = h
  from_source-keeps hex (some answer) s h = some_or-keeps w P _ (answer hex) s h

  fetched-keeps :
      (hex : String) (r : Result Bytes String) (s : Site)
      → P s
      → After P (λ a s'. P s') (from_source w hex r s)
  unfolding from_source
  fetched-keeps hex (ok bytes) s h = h
  fetched-keeps hex (err e) s h = from_source-keeps hex w.storage s h

  pub stage_bytes-keeps :
      (source : String) (sha256_hex : Option String) (s : Site)
      → P s
      → After P (λ a s'. P s') (stage_bytes w source sha256_hex s)
  unfolding stage_bytes
  stage_bytes-keeps source none s h = or_raise-keeps w P _ (fetch_bytes w source) s h
  stage_bytes-keeps source (some hex) s h =
      elim (Bool-cases (starts_with source "cached:" || starts_with source "cas:")) [
        | inl cached ↦ rw (cached) (
            After-continue P (λ a s'. P s') (λ a s'. P s') (lookup w 0 hex s)
              (λ path. from_cas w hex path) (on_lookup 0 hex s h)
              (λ path s' k. from_cas-keeps hex path s' k))
        | inr fetched ↦ rw (fetched) (fetched-keeps hex (fetch_bytes w source) s h)
      ]

  pub store_binary-keeps :
      (bytes : Bytes) (s : Site) → P s → After P (λ a s'. P s') (store_binary w bytes s)
  unfolding store_binary
  store_binary-keeps bytes s h =
      After-continue P (λ a s'. P s') (λ a s'. P s') (put w 2 bytes s) _ (on_put 2 bytes s h)
        λ r s1 h1.
          After-continue P (λ a s'. P s') (λ a s'. P s') (or_raise "cas put failed: " r s1) _
            (or_raise-keeps w P "cas put failed: " r s1 h1)
            λ d s2 h2.
              After-continue P (λ a s'. P s') (λ a s'. P s') (lookup w 3 d s2) _
                (on_lookup 3 d s2 h2) λ path s3 h3. present-keeps w P path s3 h3
