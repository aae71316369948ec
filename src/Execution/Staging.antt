-- ===== src/Execution/Staging.antt =====
-- How a run gets its bytes: `fetch_bytes` of crates/agent/src/p2p/handlers/util.rs, and the staging of
-- the binary and of the attachments in jobs_wasm.rs, jobs_native.rs and jobs_qemu.rs of
-- crates/agent/src/p2p, whose texts are the same.
pub mod Lookup
pub mod Keeps
pub mod Idle
use Prim.Native.String.{len, slice}
use text.Mathlib.Text.{starts_with}
use peer_deploy.Prelude.{
  ℕ, suc, String, Bool, ◌||◌, Option, none, some, List, [], ◌∷◌, str_eq, if◌then◌else◌,
}
use peer_deploy.Prelude.Dict
use peer_deploy.Prelude.Outcome.{Result, ok, err}
use peer_deploy.Prelude.Text.{concat}
use peer_deploy.Common.Job.{PreStageSpec}
use peer_deploy.Storage.Store.{Bytes}
use peer_deploy.Execution.Site.{
  Worker, Site, Task, ◌>>=◌, ◌>>◌, pure, raise, lift, modify, lookup, put,
}

-- `strip_prefix`
abbrev pub strip_prefix : String → String → Option String
strip_prefix source prefix =
    if starts_with source prefix then some (slice source (len prefix) (len source)) else none

-- `map_err(|e| format!(...))` and `?`
abbrev pub or_raise : {A : Type 0} → String → Result A String → Task A
or_raise text (ok a) = pure a
or_raise text (err e) = raise (concat (text ∷ e ∷ []))

-- `if let Some(bytes) = sto.get(...)`, with the text of the error.
unfoldable pub some_or : String → Option Bytes → Task Bytes
some_or text none = raise text
some_or text (some bytes) = pure bytes

unfoldable pub instead : Option (String → Option Bytes) → String → Task Bytes
unfolding some_or
instead none hex = raise "job failed: unsupported source and no P2P storage"
instead (some answer) hex =
    some_or "job failed: fetch unavailable and P2P fetch failed" (answer hex)

unfoldable pub ask_attachment : Option (String → Option Bytes) → String → Task Bytes
unfolding some_or
ask_attachment none hex = raise "prestage: digest not local and no P2P storage available"
ask_attachment (some answer) hex =
    some_or (concat ("prestage: digest not available via P2P: " ∷ hex ∷ [])) (answer hex)

-- A write to a path, which replaces a blob if the path is inside the store. A failed write is taken to
-- change nothing.
unfoldable pub write_path : Option String → String → Bytes → Site → Site
write_path none dest bytes s = record s { files = Dict.insert dest bytes s.files }
write_path (some digest) dest bytes s = record s {
  store = record s.store { blobs = Dict.insert digest bytes s.store.blobs };
}

-- `tokio::fs::write(&item.dest, &bytes)`, with the error if it fails, and the blob at the path.
unfoldable pub write_dest : Option String → Option String → String → Bytes → Task Unit
unfolding write_path
write_dest (some e) blob dest bytes = raise (concat ("prestage write failed: " ∷ e ∷ []))
write_dest none blob dest bytes = modify (write_path blob dest bytes)

unfoldable pub present : Option String → Task String
present none = raise "cas path missing"
present (some path) = pure path

module _ (w : Worker) where
  unfoldable pub fetch_bytes : String → Result Bytes String
  fetch_bytes url =
      if starts_with url "file:"
      then w.read_source (slice url 5 (len url))
      else if starts_with url "http://" || starts_with url "https://"
      then w.http_get url
      else err (concat ("unsupported source: " ∷ url ∷ []))

  -- `tokio::fs::read(path)` on a blob of the store.
  unfoldable pub read_blob : String → Site → Result Bytes String
  read_blob path s = elim (w.read_fails path) [
    | some e ↦ err e
    | none ↦ elim (Dict.get s.store.blobs path) [
      | none ↦ err "No such file or directory (os error 2)"
      | some bytes ↦ ok bytes
    ]
  ]

  abbrev pub read_or : String → String → Task Bytes
  read_or text path s = or_raise text (read_blob path s) s

  -- The answer of the peers is saved; the result of the save is dropped.
  unfoldable pub keep_answer : Option Bytes → Task Bytes
  keep_answer none = raise "job failed: digest not available via P2P"
  keep_answer (some bytes) = do r ← put w 1 bytes; pure bytes

  -- `else if let Some(sto) = &storage`
  unfoldable pub ask_peers : Option (String → Option Bytes) → String → Task Bytes
  unfolding keep_answer
  ask_peers none hex = raise "job failed: digest not local and no P2P storage available"
  ask_peers (some answer) hex = keep_answer (answer hex)

  unfoldable pub from_cas : String → Option String → Task Bytes
  unfolding ask_peers read_blob
  from_cas hex (some path) = read_or "cas read failed: " path
  from_cas hex none = ask_peers w.storage hex

  unfoldable pub from_source : String → Result Bytes String → Task Bytes
  unfolding instead
  from_source hex (ok bytes) = pure bytes
  from_source hex (err e) = instead w.storage hex

  -- The bytes of the binary.
  unfoldable pub stage_bytes : String → Option String → Task Bytes
  unfolding fetch_bytes from_cas from_source
  stage_bytes source none = or_raise "job failed: fetch: " (fetch_bytes source)
  stage_bytes source (some hex) =
      if starts_with source "cached:" || starts_with source "cas:"
      then (do path ← lookup w 0 hex; from_cas hex path)
      else from_source hex (fetch_bytes source)

  unfoldable pub check_digest : Option String → Bytes → Task Unit
  check_digest none bytes = pure tt
  check_digest (some hex) bytes =
      if str_eq (w.sha256_hex bytes) hex then pure tt else raise "job failed: digest mismatch"

  -- The bytes of an attachment.
  unfoldable pub attachment : String → Option String → Task Bytes
  unfolding read_blob ask_attachment
  attachment hex (some path) = read_or "prestage cas read failed: " path
  attachment hex none = ask_attachment w.storage hex

  -- `if let Some(hex) = item.source.strip_prefix("cas:")`
  unfoldable pub stage_item : ℕ → String → Option String → Task Unit
  unfolding attachment write_dest
  stage_item i dest none = pure tt
  stage_item i dest (some hex) = do
    path ← lookup w i hex
    bytes ← attachment hex path
    write_dest (w.write_fails dest) (w.blob_at dest) dest bytes

  -- The loop over `job.execution.pre_stage`; the store's calls have the numbers from `i` on.
  unfoldable pub pre_stage : ℕ → List PreStageSpec → Task Unit
  unfolding stage_item
  pre_stage i [] = pure tt
  pre_stage i (item ∷ items) = do
    stage_item i item.dest (strip_prefix item.source "cas:")
    pre_stage (suc i) items

  -- The binary is put into the store, and the path of its blob is looked up.
  unfoldable pub store_binary : Bytes → Task String
  unfolding present
  store_binary bytes = do
    r ← put w 2 bytes
    digest ← or_raise "cas put failed: " r
    path ← lookup w 3 digest
    present path
