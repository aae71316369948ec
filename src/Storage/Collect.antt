-- ===== src/Storage/Collect.antt =====
-- The garbage collector `gc_to_target` of crates/agent/src/storage/mod.rs: what it keeps, what it
-- drops and when it stops.
mod Sorted
use peer_deploy.Prelude.{
  ℕ, ◌-◌, ◌≤◌, String, ◌≡◌, ◌⊎◌, sym, ◌∙◌, ap, inl, inr, Bool, true, false, some, none, [], ◌∷◌,
  All, arith, leb, str_eq, eq_iff, eq_refl, Bool-cases, Option-cases, if◌then◌else◌,
}
use peer_deploy.Prelude.Dict
use peer_deploy.Prelude.Dict.{Dict, get-remove}
use peer_deploy.Prelude.Entries.{NodupKeys}
use peer_deploy.Prelude.Sort.{IsSorted, sort_by_key, sort_by_key-IsSorted}
use peer_deploy.Storage.Store.{
  IndexEntry, ContentStore, Disk, gc_loop, gc_to_target, save_index, total_size, last_accessed,
}
use peer_deploy.Storage.Collect.Sorted.{
  get-sort_by_key, NodupKeys-sort_by_key, total_size-sort_by_key, total_size-remove,
  NodupKeys-remove,
}

-- An index after a collection, against the one before it: nothing is new or changed, what is pinned
-- is kept, the target is met or only pinned entries are left, and what went was not accessed after
-- anything that stayed without a pin.
pub record IsCollected (target : ℕ) (before after : Dict IndexEntry) : Type 0 where
  pub old : (d : String) (e : IndexEntry) → Dict.get after d ≡ some e → Dict.get before d ≡ some e
  pub pins :
      (d : String) (e : IndexEntry)
      → Dict.get before d ≡ some e
      → e.pinned ≡ true
      → Dict.get after d ≡ some e
  pub within :
      (total_size after ≤ target)
      ⊎ ((d : String) (e : IndexEntry) → Dict.get after d ≡ some e → e.pinned ≡ true)
  pub oldest :
      (d : String) (e : IndexEntry) (k : String) (f : IndexEntry)
      → Dict.get before d ≡ some e
      → Dict.get after d ≡ none
      → Dict.get after k ≡ some f
      → f.pinned ≡ false
      → e.last_accessed_unix ≤ f.last_accessed_unix

-- The items still to come are in the index, and every entry of the index that is not pinned is among
-- the items.
record IsReady (items entries : Dict IndexEntry) : Type 0 where
  nodup : NodupKeys entries
  distinct : NodupKeys items
  sorted : IsSorted last_accessed items
  listed : (d : String) (e : IndexEntry) → Dict.get items d ≡ some e → Dict.get entries d ≡ some e
  covered :
      (d : String) (e : IndexEntry)
      → Dict.get entries d ≡ some e
      → e.pinned ≡ false
      → Dict.get items d ≡ some e

-- An element that a key leads to is in the list.
All-get :
    (m : ℕ) (k : String) (f : IndexEntry) (items : Dict IndexEntry)
    → All (λ b. m ≤ last_accessed b) items
    → Dict.get items k ≡ some f
    → m ≤ f.last_accessed_unix
unfolding Dict.get
All-get m k f [] h e = absurd (ground arith)
All-get m k f ((d, g) ∷ items) h e = elim (Bool-cases (str_eq d k)) [
  | inl same ↦ ground (arith, same, h.0, e)
  | inr other ↦ All-get m k f items h.1 (ground (arith, other, e))
]

-- The first item is passed over when it is pinned.
IsReady-keep :
    (digest : String) (entry : IndexEntry) (items entries : Dict IndexEntry)
    → entry.pinned ≡ true
    → IsReady ((digest, entry) ∷ items) entries
    → IsReady items entries
unfolding Dict.get
IsReady-keep digest entry items entries h r = record {
  nodup = r.nodup;
  distinct = r.distinct.1;
  sorted = r.sorted.1;
  listed = λ d e he. let l = r.listed d e in ground (arith, l, r.distinct.0, eq_iff digest d);
  covered = λ d e he hp. let c = r.covered d e he hp in ground (arith, c, eq_iff digest d);
}

-- The first item is removed from the index.
IsReady-remove :
    (digest : String) (entry : IndexEntry) (items entries : Dict IndexEntry)
    → IsReady ((digest, entry) ∷ items) entries
    → IsReady items (Dict.remove digest entries)
unfolding Dict.get
IsReady-remove digest entry items entries r = record {
  nodup = NodupKeys-remove digest entries r.nodup;
  distinct = r.distinct.1;
  sorted = r.sorted.1;
  listed = λ d e he.
      let l = r.listed d e in
      ground (arith, l, r.distinct.0, eq_iff digest d, get-remove digest d entries);
  covered = λ d e he hp.
      let c = r.covered d e in ground (arith, c, eq_iff digest d, get-remove digest d entries);
}

-- The index when the loop stops.
stopped :
    (target : ℕ) (entries : Dict IndexEntry)
    → (total_size entries ≤ target)
      ⊎ ((d : String) (e : IndexEntry) → Dict.get entries d ≡ some e → e.pinned ≡ true)
    → IsCollected target entries entries
stopped target entries w = record {
  old = λ d e h. h;
  pins = λ d e h p. h;
  within = w;
  oldest = λ d e k f h h' hk hf. absurd (ground (arith, h, h'));
}

-- The first item is in the index.
first-listed :
    (digest : String) (entry : IndexEntry) (items entries : Dict IndexEntry)
    → IsReady ((digest, entry) ∷ items) entries
    → Dict.get entries digest ≡ some entry
unfolding Dict.get
first-listed digest entry items entries r = r.listed digest entry (ground (arith, eq_refl digest))

-- An entry without a pin is among the later items, unless it is the first.
later-covered :
    (digest : String) (entry : IndexEntry) (items entries : Dict IndexEntry)
    → IsReady ((digest, entry) ∷ items) entries
    → (k : String) (f : IndexEntry) → Dict.get (Dict.remove digest entries) k ≡ some f
    → f.pinned ≡ false
    → Dict.get items k ≡ some f
later-covered digest entry items entries r k f h hf =
    (IsReady-remove digest entry items entries r).covered k f h hf

-- One removal before the rest of the loop.
IsCollected-remove :
    (target : ℕ) (digest : String) (entry : IndexEntry) (items entries after : Dict IndexEntry)
    → IsReady ((digest, entry) ∷ items) entries
    → entry.pinned ≡ false
    → IsCollected target (Dict.remove digest entries) after
    → IsCollected target entries after
IsCollected-remove target digest entry items entries after r p c =
    let first = first-listed digest entry items entries r in
    record {
      old = λ d e h. ground (arith, c.old d e h, get-remove digest d entries);
      pins = λ d e h hp. elim (Bool-cases (str_eq digest d)) [
        | inl same ↦ absurd (ground (arith, same, eq_iff digest d, first, h, hp, p))
        | inr other ↦ c.pins d e (get-remove digest d entries ∙ rw (other) h) hp
      ];
      within = c.within;
      oldest = λ d e k f h h' hk hf. elim (Bool-cases (str_eq digest d)) [
        | inl same ↦
            let m =
              All-get entry.last_accessed_unix k f items r.sorted.0
                (later-covered digest entry items entries r k f (c.old k f hk) hf) in
            ground (arith, same, eq_iff digest d, first, h, m)
        | inr other ↦ c.oldest d e k f (get-remove digest d entries ∙ rw (other) h) h' hk hf
      ];
    }

gc_loop_lem :
    (removable : String → Bool) (target : ℕ) (items : Dict IndexEntry) (s : ContentStore)
    (current : ℕ)
    → current ≡ total_size s.entries
    → IsReady items s.entries
    → IsCollected target s.entries (gc_loop removable target items current s).entries
unfolding gc_loop Dict.get
gc_loop_lem removable target [] s current e r = stopped target s.entries (
    inr (λ d f h. elim (Bool-cases f.pinned) [
      | inl pinned ↦ pinned
      | inr free ↦ absurd (ground (arith, r.covered d f h free))
    ]))
gc_loop_lem removable target ((digest, entry) ∷ items) s current e r =
    elim (Bool-cases (leb current target)) [
      | inl le ↦ rw (le) (stopped target s.entries (inl (ground (arith, le))))
      | inr gt ↦ rw (gt) (elim (Bool-cases entry.pinned) [
        | inl pinned ↦ rw (pinned) (
            gc_loop_lem removable target items s current e
              (IsReady-keep digest entry items s.entries pinned r))
        | inr free ↦ rw (free) (
            IsCollected-remove target digest entry items s.entries _ r free (
              gc_loop_lem removable target items _ (current - entry.size_bytes)
                (ground (
                  arith,
                  total_size-remove digest entry s.entries r.nodup
                      (first-listed digest entry items s.entries r),
                ))
                (IsReady-remove digest entry items s.entries r)))
      ])
    ]

-- With no digest twice in the index, a collection whose index is written keeps every pinned entry,
-- changes no entry that it keeps, stops with a total within the target or with pinned entries only,
-- and drops no entry that was accessed after an unpinned one it keeps.
pub gc_to_target-IsCollected :
    (removable : String → Bool) (disk : Disk) (target : ℕ) (s : ContentStore)
    → NodupKeys s.entries
    → disk.index_written ≡ true
    → IsCollected target s.entries (gc_to_target removable disk target s).1.entries
unfolding gc_to_target save_index
gc_to_target-IsCollected removable disk target s n w = rw (w) (
    gc_loop_lem removable target (sort_by_key last_accessed s.entries) s
      (total_size (sort_by_key last_accessed s.entries)) (total_size-sort_by_key s.entries)
      (record {
        nodup = n;
        distinct = NodupKeys-sort_by_key s.entries n;
        sorted = sort_by_key-IsSorted last_accessed s.entries;
        listed = λ d e h. sym (get-sort_by_key d s.entries n) ∙ h;
        covered = λ d e h p. get-sort_by_key d s.entries n ∙ h;
      }))
