-- ===== src/Storage/Reassembly.antt =====
-- The reassembly of a blob from its chunks (`Command::StoragePutChunk` in crates/agent/src/p2p/mod.rs),
-- whatever the order in which they come.
use peer_deploy.Prelude.{
  ℕ, String, ◌≡◌, refl, ap, ◌∙◌, inl, inr, Bool, true, false, not, Option, some, List, [], ◌∷◌,
  zero, suc, length, set, all, All, get_elem?, arith, ltb, Bool-cases, if◌then◌else◌,
}
use peer_deploy.Prelude.Dict
use peer_deploy.Common.Component.{is_empty}
use peer_deploy.Storage.Store.{Bytes, Disk}
use peer_deploy.Storage.Chunks.{
  ChunkBuffer, BlobNode, or_fresh, place, is_complete, assemble, accept_blob, put_chunk,
}

-- The chunks that have come, and nothing in place of the others.
abbrev pub fill : List Bool → List Bytes → List Bytes
fill [] chunks = []
fill (m ∷ mask) [] = []
fill (m ∷ mask) (c ∷ chunks) = (if m then c else []) ∷ fill mask chunks

abbrev pub all_true : List Bool → Bool
all_true mask = all (λ b. b) mask

length-fill :
    (mask : List Bool) (chunks : List Bytes)
    → length mask ≡ length chunks
    → length (fill mask chunks) ≡ length chunks
length-fill [] [] h = refl
length-fill [] (c ∷ chunks) h = absurd (omega (arith, h))
length-fill (m ∷ mask) [] h = absurd (omega (arith, h))
length-fill (m ∷ mask) (c ∷ chunks) h = omega (arith, length-fill mask chunks (omega (arith, h)))

set-fill :
    (mask : List Bool) (chunks : List Bytes) (i : ℕ) (c : Bytes)
    → length mask ≡ length chunks
    → get_elem? chunks i ≡ some c
    → set (fill mask chunks) i c ≡ fill (set mask i true) chunks
set-fill [] [] i c h e = refl
set-fill [] (d ∷ chunks) i c h e = absurd (omega (arith, h))
set-fill (m ∷ mask) [] i c h e = absurd (omega (arith, h))
set-fill (m ∷ mask) (d ∷ chunks) zero c h e = ground (arith, e)
set-fill (m ∷ mask) (d ∷ chunks) (suc i) c h e =
    ap (λ l. (if m then d else []) ∷ l) (set-fill mask chunks i c (omega (arith, h)) e)

-- All of the chunks are there exactly when none of the buffer is empty.
all-fill :
    (mask : List Bool) (chunks : List Bytes)
    → length mask ≡ length chunks
    → All (λ c. is_empty c ≡ false) chunks
    → all (λ c. not (is_empty c)) (fill mask chunks) ≡ all_true mask
all-fill [] [] h full = refl
all-fill [] (c ∷ chunks) h full = absurd (omega (arith, h))
all-fill (m ∷ mask) [] h full = absurd (omega (arith, h))
all-fill (true ∷ mask) (c ∷ chunks) h full =
    ground (arith, full.0, all-fill mask chunks (omega (arith, h)) full.1)
all-fill (false ∷ mask) (c ∷ chunks) h full = refl

fill_whole :
    (mask : List Bool) (chunks : List Bytes)
    → length mask ≡ length chunks
    → all_true mask ≡ true
    → fill mask chunks ≡ chunks
fill_whole [] [] h e = refl
fill_whole [] (c ∷ chunks) h e = absurd (omega (arith, h))
fill_whole (m ∷ mask) [] h e = absurd (omega (arith, h))
fill_whole (true ∷ mask) (c ∷ chunks) h e =
    ap (λ l. c ∷ l) (fill_whole mask chunks (omega (arith, h)) e)
fill_whole (false ∷ mask) (c ∷ chunks) h e = absurd (ground (arith, e))

length-set : (mask : List Bool) (i : ℕ) → length (set mask i true) ≡ length mask
length-set [] i = refl
length-set (m ∷ mask) zero = refl
length-set (m ∷ mask) (suc i) = omega (arith, length-set mask i)

index_fits :
    (chunks : List Bytes) (i : ℕ) (c : Bytes)
    → get_elem? chunks i ≡ some c
    → ltb i (length chunks) ≡ true
index_fits [] i c e = absurd (ground (arith, e))
index_fits (d ∷ chunks) zero c e = ground arith
index_fits (d ∷ chunks) (suc i) c e = ground (arith, index_fits chunks i c e)

place-fill :
    (mask : List Bool) (chunks : List Bytes) (i : ℕ) (c : Bytes) (b : ChunkBuffer)
    → length mask ≡ length chunks
    → get_elem? chunks i ≡ some c
    → b.chunks ≡ fill mask chunks
    → place i (length chunks) c b
      ≡ record { total = length chunks; chunks = fill (set mask i true) chunks }
unfolding place
place-fill mask chunks i c b h e same =
    rw (same, length-fill mask chunks h, index_fits chunks i c e, set-fill mask chunks i c h e) refl

filled :
    (mask : List Bool) (chunks : List Bytes) (b : Bool)
    → length mask ≡ length chunks
    → All (λ c. is_empty c ≡ false) chunks
    → all_true mask ≡ b
    → is_complete (record { total = length chunks; chunks = fill mask chunks }) ≡ b
unfolding is_complete
filled mask chunks b h full e = all-fill mask chunks h full ∙ e

-- The node after a chunk, when the marked chunks of the blob have come: the whole blob is checked and
-- stored when none is missing, and kept in the buffer otherwise.
unfoldable pub received :
    (Bytes → String) → Disk → ℕ → String → List Bytes → List Bool → BlobNode → Option BlobNode
received sha256_hex disk now digest chunks mask n =
    if all_true mask
    then accept_blob sha256_hex disk now digest (assemble chunks)
        (record n { chunk_bufs = Dict.remove digest n.chunk_bufs })
    else some (record n {
      chunk_bufs =
          Dict.insert digest (record { total = length chunks; chunks = fill mask chunks })
            n.chunk_bufs;
    })

-- The end of `put_chunk`, by the buffer.
abbrev with_buffer : (Bytes → String) → Disk → ℕ → String → BlobNode → ChunkBuffer → Option BlobNode
with_buffer sha256_hex disk now digest n b =
    if is_complete b
    then accept_blob sha256_hex disk now digest (assemble b.chunks)
        (record n { chunk_bufs = Dict.remove digest n.chunk_bufs })
    else some (record n { chunk_bufs = Dict.insert digest b n.chunk_bufs })

-- When the buffer of a blob holds the chunks that have come, in their places, a further chunk, new or
-- repeated, adds just itself to them; the blob that is checked against the digest and stored when
-- none is missing is the chunks in their order, whatever the order in which they came. This is for
-- chunks of at least one byte.
pub put_chunk-received :
    (sha256_hex : Bytes → String) (disk : Disk) (now : ℕ) (digest : String) (chunks : List Bytes)
    (mask : List Bool) (i : ℕ) (c : Bytes) (n : BlobNode)
    → All (λ d. is_empty d ≡ false) chunks
    → length mask ≡ length chunks
    → (or_fresh (length chunks) (Dict.get n.chunk_bufs digest)).chunks ≡ fill mask chunks
    → get_elem? chunks i ≡ some c
    → put_chunk sha256_hex disk now digest i (length chunks) (some c) n
      ≡ received sha256_hex disk now digest chunks (set mask i true) n
unfolding put_chunk received
put_chunk-received sha256_hex disk now digest chunks mask i c n full h held e =
    let b = or_fresh (length chunks) (Dict.get n.chunk_bufs digest) in
    let mask' = set mask i true in
    let h' = length-set mask i ∙ h in
    let placed = place-fill mask chunks i c b h e held in
    ap (with_buffer sha256_hex disk now digest n) placed ∙ elim (Bool-cases (all_true mask')) [
      | inl whole ↦
          rw (filled mask' chunks true h' full whole, whole, fill_whole mask' chunks h' whole) refl
      | inr partial ↦ rw (filled mask' chunks false h' full partial, partial) refl
    ]
