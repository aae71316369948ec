-- ===== src/Storage/Store.antt =====
-- `ContentStore` of crates/agent/src/storage/mod.rs. The file system's blobs are a map from digests
-- to bytes (the path of a digest holds the digest itself), and index.json is held as its value. The
-- hash `sha256_hex` of the crate sha2 is a parameter; digests are texts, bytes are numbers.
use Prim.Native.String.{len}
use peer_deploy.Prelude.{
  ℕ, ◌+◌, ◌-◌, String, Bool, true, false, Option, none, some, List, [], ◌∷◌, length, leb, ltb,
  if◌then◌else◌,
}
use peer_deploy.Prelude.Dict
use peer_deploy.Prelude.Dict.{Dict, is_some}
use peer_deploy.Prelude.Outcome.{Result, ok, err}
use peer_deploy.Prelude.Sort.{sort_by_key}

abbrev pub Bytes : Type 0
Bytes = List ℕ

pub record IndexEntry : Type 0 where
  pub size_bytes : ℕ
  pub last_accessed_unix : ℕ
  pub pinned : Bool

-- `IndexEntry::default`
abbrev pub default_entry : IndexEntry
default_entry = record { size_bytes = 0; last_accessed_unix = 0; pinned = false }

pub record ContentStore : Type 0 where
  pub blobs : Dict Bytes
  pub entries : Dict IndexEntry

-- `path_for_digest`: the slices `[0..2]` and `[2..4]` panic on a shorter digest.
unfoldable pub path_for_digest : String → Option String
path_for_digest digest = if ltb (len digest) 4 then none else some digest

-- `has`: `none` is the panic.
unfoldable pub has : String → ContentStore → Option Bool
unfolding path_for_digest
has digest s = elim (path_for_digest digest) [
  | none ↦ none
  | some path ↦ some (is_some (Dict.get s.blobs path))
]

-- `idx.entries.entry(digest).or_default()` and the writes to it.
unfoldable pub touch_entry : ℕ → ℕ → Option IndexEntry → IndexEntry
touch_entry size now none = record default_entry { size_bytes = size; last_accessed_unix = now }
touch_entry size now (some e) = record e { size_bytes = size; last_accessed_unix = now }

-- Which of the writes to the disk succeed in a call, and, if the write of a blob fails, what it leaves
-- in the file, if it has made one.
pub record Disk : Type 0 where
  pub blob_written : Bool
  pub blob_left : Option Bytes
  pub index_written : Bool

-- The blobs after a failed write.
unfoldable pub leave_blob : Option Bytes → String → ContentStore → ContentStore
leave_blob none path s = s
leave_blob (some part) path s = record s { blobs = Dict.insert path part s.blobs }

-- `save_index`: a failed write leaves the old file.
unfoldable pub save_index :
    Bool → Dict IndexEntry → ContentStore → Result Unit String × ContentStore
save_index true entries s = (ok tt, record s { entries = entries })
save_index false entries s = (err "write failed", s)

module _ (sha256_hex : Bytes → String) where
  -- The update of the index, after the blob is in place.
  unfoldable pub index_blob :
      Disk → ℕ → String → Bytes → ContentStore → Result String String × ContentStore
  unfolding touch_entry save_index
  index_blob disk now digest bytes s =
      let entry = touch_entry (length bytes) now (Dict.get s.entries digest) in
      let (saved, s') =
        save_index disk.index_written (Dict.insert_sorted digest entry s.entries) s in
      elim saved [ ok _ ↦ (ok digest, s') | err e ↦ (err e, s') ]

  -- `put_bytes`. A digest has 64 characters, so its path exists. `none` is a panic.
  unfoldable pub put_bytes :
      Disk → ℕ → Bytes → ContentStore → Option (Result String String × ContentStore)
  unfolding index_blob path_for_digest leave_blob
  put_bytes disk now bytes s =
      let digest = sha256_hex bytes in
      elim (path_for_digest digest) [
        | none ↦ none
        | some path ↦
            if is_some (Dict.get s.blobs path)
            then some (index_blob disk now digest bytes s)
            else if disk.blob_written
            then some (
                index_blob disk now digest bytes
                  (record s { blobs = Dict.insert path bytes s.blobs }))
            else some (err "write failed", leave_blob disk.blob_left path s)
      ]

-- `get_path`: the path of a blob that exists, and the store after the access is noted.
unfoldable pub get_path : Disk → ℕ → String → ContentStore → Option (Option String × ContentStore)
unfolding path_for_digest save_index
get_path disk now digest s = elim (path_for_digest digest) [
  | none ↦ none
  | some path ↦
      if is_some (Dict.get s.blobs path)
      then some (
        some path,
        (elim (Dict.get s.entries digest) [
          | none ↦ s
          | some e ↦
              (save_index disk.index_written
                (Dict.modify digest (λ (x : IndexEntry). record x { last_accessed_unix = now })
                  s.entries)
                s).1
        ]),
      )
      else some (none, s)
]

unfoldable pub list : ContentStore → Dict IndexEntry
list s = s.entries

unfoldable pub pin : Disk → String → Bool → ContentStore → Result Unit String × ContentStore
unfolding save_index
pin disk digest value s = elim (Dict.get s.entries digest) [
  | none ↦ (err "digest not found", s)
  | some e ↦
      save_index disk.index_written
        (Dict.modify digest (λ (x : IndexEntry). record x { pinned = value }) s.entries) s
]

-- `values().map(|e| e.size_bytes).sum()`
unfoldable pub total_size : Dict IndexEntry → ℕ
total_size [] = 0
total_size ((d, e) ∷ entries) = e.size_bytes + total_size entries

unfoldable pub total_size_bytes : ContentStore → ℕ
unfolding total_size
total_size_bytes s = total_size s.entries

abbrev pub last_accessed : String × IndexEntry → ℕ
last_accessed item = item.1.last_accessed_unix

-- The loop of `gc_to_target` on the sorted items: the blobs and the index after it. `removable` tells
-- whether `remove_file` succeeds on the blob of a digest; its failure is passed over in silence.
unfoldable pub gc_loop : (String → Bool) → ℕ → Dict IndexEntry → ℕ → ContentStore → ContentStore
gc_loop removable target [] current s = s
gc_loop removable target ((digest, entry) ∷ items) current s =
    let removed = gc_loop removable target items (current - entry.size_bytes) (record {
      blobs = if removable digest then Dict.remove digest s.blobs else s.blobs;
      entries = Dict.remove digest s.entries;
    }) in
    let kept = gc_loop removable target items current s in
    if leb current target then s else if entry.pinned then kept else removed

-- `gc_to_target`. The loop removes files as it goes; the index is saved at its end, so a failed
-- write of the index leaves the old index with the blobs gone. The digests of the index have at least
-- four characters, since only `put_bytes` adds them, so `path_for_digest` does not panic here.
unfoldable pub gc_to_target :
    (String → Bool) → Disk → ℕ → ContentStore → Result Unit String × ContentStore
unfolding gc_loop total_size save_index
gc_to_target removable disk target s =
    let items = sort_by_key last_accessed s.entries in
    let s' = gc_loop removable target items (total_size items) s in
    save_index disk.index_written s'.entries (record s { blobs = s'.blobs })
