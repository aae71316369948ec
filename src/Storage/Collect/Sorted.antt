-- ===== src/Storage/Collect/Sorted.antt =====
-- The items of the garbage collector of crates/agent/src/storage/mod.rs: the index in the order of
-- the last access.
use peer_deploy.Prelude.{
  ◌+◌, String, ◌≡◌, refl, ◌∙◌, inl, inr, none, some, [], ◌∷◌, arith, str_eq, eq_iff, eq_refl,
  Bool-cases, if◌then◌else◌,
}
use peer_deploy.Prelude.Dict
use peer_deploy.Prelude.Dict.{Dict, get-remove}
use peer_deploy.Prelude.Entries.{NodupKeys}
use peer_deploy.Prelude.Sort.{insert_by_key, sort_by_key}
use peer_deploy.Storage.Store.{IndexEntry, total_size, last_accessed}

get-insert_by_key :
    (k d : String) (e : IndexEntry) (l : Dict IndexEntry)
    → Dict.get l d ≡ none
    → Dict.get (insert_by_key last_accessed (d, e) l) k
      ≡ (if str_eq d k then some e else Dict.get l k)
unfolding insert_by_key Dict.get
get-insert_by_key k d e [] h = refl
get-insert_by_key k d e ((j, f) ∷ l) h =
    ground (arith, eq_iff d k, eq_iff j k, eq_iff j d, eq_refl d, get-insert_by_key k d e l)

pub get-sort_by_key :
    (k : String) (l : Dict IndexEntry)
    → NodupKeys l
    → Dict.get (sort_by_key last_accessed l) k ≡ Dict.get l k
unfolding sort_by_key Dict.get
get-sort_by_key k [] h = refl
get-sort_by_key k ((d, e) ∷ l) h =
    get-insert_by_key k d e (sort_by_key last_accessed l) (get-sort_by_key d l h.1 ∙ h.0)
    ∙ rw (get-sort_by_key k l h.1) refl

NodupKeys-insert_by_key :
    (d : String) (e : IndexEntry) (l : Dict IndexEntry)
    → Dict.get l d ≡ none
    → NodupKeys l
    → NodupKeys (insert_by_key last_accessed (d, e) l)
unfolding insert_by_key Dict.get
NodupKeys-insert_by_key d e [] h n = (h, tt)
NodupKeys-insert_by_key d e ((j, f) ∷ l) h n =
    ground (arith, eq_iff d j, eq_iff j d, get-insert_by_key j d e l, NodupKeys-insert_by_key d e l)

pub NodupKeys-sort_by_key :
    (l : Dict IndexEntry) → NodupKeys l → NodupKeys (sort_by_key last_accessed l)
unfolding sort_by_key
NodupKeys-sort_by_key [] n = tt
NodupKeys-sort_by_key ((d, e) ∷ l) n =
    NodupKeys-insert_by_key d e (sort_by_key last_accessed l) (get-sort_by_key d l n.1 ∙ n.0)
      (NodupKeys-sort_by_key l n.1)

total_size-insert_by_key :
    (d : String) (e : IndexEntry) (l : Dict IndexEntry)
    → total_size (insert_by_key last_accessed (d, e) l) ≡ e.size_bytes + total_size l
unfolding insert_by_key total_size
total_size-insert_by_key d e [] = refl
total_size-insert_by_key d e ((j, f) ∷ l) = ground (arith, total_size-insert_by_key d e l)

pub total_size-sort_by_key :
    (l : Dict IndexEntry) → total_size (sort_by_key last_accessed l) ≡ total_size l
unfolding sort_by_key total_size
total_size-sort_by_key [] = refl
total_size-sort_by_key ((d, e) ∷ l) =
    ground
      (arith, total_size-insert_by_key d e (sort_by_key last_accessed l), total_size-sort_by_key l)

-- A key that is absent is not removed.
total_size-remove_absent :
    (digest : String) (l : Dict IndexEntry)
    → Dict.get l digest ≡ none
    → total_size (Dict.remove digest l) ≡ total_size l
unfolding total_size Dict.remove Dict.get
total_size-remove_absent digest [] h = refl
total_size-remove_absent digest ((d, e) ∷ l) h =
    ground (arith, eq_iff d digest, total_size-remove_absent digest l)

-- Removing one entry takes its size from the total.
pub total_size-remove :
    (digest : String) (e : IndexEntry) (l : Dict IndexEntry)
    → NodupKeys l
    → Dict.get l digest ≡ some e
    → total_size (Dict.remove digest l) + e.size_bytes ≡ total_size l
unfolding total_size Dict.remove Dict.get
total_size-remove digest e [] n h = absurd (ground arith)
total_size-remove digest e ((d, f) ∷ l) n h = elim (Bool-cases (str_eq d digest)) [
  | inl same ↦ ground (arith, same, eq_iff d digest, total_size-remove_absent digest l, n.0)
  | inr other ↦ ground (arith, other, total_size-remove digest e l n.1)
]

NodupKeys-get-remove :
    (d digest : String) (l : Dict IndexEntry)
    → Dict.get l d ≡ none
    → Dict.get (Dict.remove digest l) d ≡ none
NodupKeys-get-remove d digest l h = ground (arith, get-remove digest d l)

pub NodupKeys-remove :
    (digest : String) (l : Dict IndexEntry) → NodupKeys l → NodupKeys (Dict.remove digest l)
unfolding Dict.remove
NodupKeys-remove digest [] n = tt
NodupKeys-remove digest ((d, e) ∷ l) n =
    ground (arith, NodupKeys-remove digest l n.1, NodupKeys-get-remove d digest l n.0)
