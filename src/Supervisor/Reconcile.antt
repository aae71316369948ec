-- ===== src/Supervisor/Reconcile.antt =====
-- Repeated turns of `reconcile_once`, and its turns after `cleanup_component`, in
-- crates/agent/src/supervisor.rs.
use peer_deploy.Prelude.{
  ℕ, ◌-◌, ◌<◌, String, ◌≡◌, refl, ap, ◌∙◌, inl, inr, Bool, false, some, [], ◌∷◌, zero, suc, arith,
  ltb, eq_iff, Bool-cases,
}
use peer_deploy.Prelude.Dict
use peer_deploy.Prelude.Dict.{Dict, get-insert, get-remove}
use peer_deploy.Prelude.Entries.{Entries, NodupKeys, Entries-all, Entries-get}
use peer_deploy.Supervisor.{
  DesiredComponent, Supervisor, ensure_counter, launch_replica, launch_replicas, want,
  reconcile_component, reconcile_each, reconcile_once,
}
use peer_deploy.Supervisor.Replicas.{count, topped_up, reconcile_each-get}

-- A write of the value that is there changes nothing.
insert-same : (k : String) (v : ℕ) (m : Dict ℕ) → Dict.get m k ≡ some v → Dict.insert k v m ≡ m
unfolding Dict.insert Dict.get
insert-same k v [] h = absurd (ground arith)
insert-same k v ((j, w) ∷ m) h = ground (arith, h, eq_iff j k, insert-same k v m)

module _ (is_http : String → Bool) where
  launch_replicas-desired :
      (n : ℕ) (d : DesiredComponent) (c : String) (s : Supervisor)
      → (launch_replicas is_http n d c s).desired ≡ s.desired
  unfolding launch_replicas launch_replica
  launch_replicas-desired zero d c s = refl
  launch_replicas-desired (suc n) d c s =
      launch_replicas-desired n d c (launch_replica is_http d c s)
      ∙ elim (Bool-cases (is_http d.path)) [ inl http ↦ rw (http) refl | inr task ↦ rw (task) refl ]

  pub reconcile_each-desired :
      (items : Dict DesiredComponent) (s : Supervisor)
      → (reconcile_each is_http items s).desired ≡ s.desired
  unfolding reconcile_each reconcile_component
  reconcile_each-desired [] s = refl
  reconcile_each-desired ((name, d) ∷ items) s =
      reconcile_each-desired items (reconcile_component is_http name d s)
      ∙ elim (Bool-cases (ltb (count name s) (want d.spec))) [
        | inl few ↦ rw (few) (
            launch_replicas-desired (want d.spec - count name s) d name
              (record s { counts = ensure_counter name s.counts }))
        | inr enough ↦ rw (enough) refl
      ]

  -- The counter of the item exists and is not below the wanted number.
  abbrev pub IsServed : Supervisor → String → DesiredComponent → Type 0
  IsServed s name d = (k : ℕ) × (Dict.get s.counts name ≡ some k) × (ltb k (want d.spec) ≡ false)

  reconcile_component-served :
      (name : String) (d : DesiredComponent) (s : Supervisor)
      → IsServed s name d
      → reconcile_component is_http name d s ≡ s
  unfolding reconcile_component ensure_counter
  reconcile_component-served name d s (k, h, enough) =
      rw (h, enough) (ap (λ c. record s { counts = c }) (insert-same name k s.counts h))

  reconcile_each-served :
      (items : Dict DesiredComponent) (s : Supervisor)
      → Entries (IsServed s) items
      → reconcile_each is_http items s ≡ s
  unfolding reconcile_each
  reconcile_each-served [] s h = refl
  reconcile_each-served ((name, d) ∷ items) s h =
      ap (reconcile_each is_http items) (reconcile_component-served name d s h.0)
      ∙ reconcile_each-served items s h.1

  topped_up-enough : (d : DesiredComponent) (k : ℕ) → ltb (topped_up d k) (want d.spec) ≡ false
  unfolding topped_up
  topped_up-enough d k = ground arith

  -- A second reconciliation after a first, with no task ended in between, changes nothing, for desired
  -- components with no name twice and wanted numbers that fit 64 bits.
  pub reconcile_once_idem :
      (s : Supervisor)
      → NodupKeys s.desired
      → Entries (λ name d. want d.spec < 18446744073709551616) s.desired
      → reconcile_once is_http (reconcile_once is_http s) ≡ reconcile_once is_http s
  unfolding reconcile_once
  reconcile_once_idem s n b =
      ap (λ items. reconcile_each is_http items (reconcile_each is_http s.desired s))
        (reconcile_each-desired s.desired s)
      ∙ reconcile_each-served s.desired (reconcile_each is_http s.desired s) (
          Entries-all (IsServed (reconcile_each is_http s.desired s)) s.desired n (λ name d h. (
            topped_up d (count name s),
            reconcile_each-get is_http name d s.desired s n h
                (Entries-get (λ i e. want e.spec < 18446744073709551616) name d s.desired b h),
            topped_up-enough d (count name s),
          )))
