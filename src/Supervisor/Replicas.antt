-- ===== src/Supervisor/Replicas.antt =====
-- The counts of replicas after the loop of `reconcile_once` in crates/agent/src/supervisor.rs.
use mathlib.Core.Path.{subst}
use peer_deploy.Prelude.{
  ℕ, ◌+◌, ◌-◌, ◌<◌, String, ◌≡◌, refl, sym, ap, ◌∙◌, inl, inr, Bool, true, false, none, some, [],
  ◌∷◌, zero, suc, arith, ltb, str_eq, eq_iff, eq_refl, Bool-cases, if◌then◌else◌,
}
use peer_deploy.Prelude.Dict
use peer_deploy.Prelude.Dict.{Dict, get-insert, get-modify, map_some}
use peer_deploy.Prelude.Entries.{NodupKeys}
use peer_deploy.Metrics.{increment}
use peer_deploy.Supervisor.{
  DesiredComponent, Supervisor, ensure_counter, launch_replica, launch_replicas, want, value_or,
  reconcile_component, reconcile_each, reconcile_once,
}

-- The count under a name.
abbrev pub count : String → Supervisor → ℕ
count name s = value_or 0 (Dict.get s.counts name)

-- What `reconcile_once` brings a count to.
unfoldable pub topped_up : DesiredComponent → ℕ → ℕ
topped_up d n = let w = want d.spec in if ltb n w then w else n

some-inj : (d e : DesiredComponent) → some d ≡ some e → d ≡ e
some-inj d e h = ap (λ o. elim o [ none ↦ d | some f ↦ f ]) h

-- The supervisor once the counter of a name exists.
abbrev pub ensured : String → Supervisor → Supervisor
ensured name s = record s { counts = ensure_counter name s.counts }

pub get-ensured :
    (name : String) (s : Supervisor) → Dict.get (ensured name s).counts name ≡ some (count name s)
unfolding ensure_counter
get-ensured name s = ground (arith, get-insert name name (count name s) s.counts, eq_refl name)

get-ensured_other :
    (name j : String) (s : Supervisor)
    → str_eq name j ≡ false
    → Dict.get (ensured name s).counts j ≡ Dict.get s.counts j
unfolding ensure_counter
get-ensured_other name j s h = get-insert name j (count name s) s.counts ∙ rw (h) refl

module _ (is_http : String → Bool) where
  launch_replica-counts :
      (d : DesiredComponent) (c : String) (s : Supervisor)
      → (launch_replica is_http d c s).counts ≡ Dict.modify c increment s.counts
  unfolding launch_replica
  launch_replica-counts d c s = ground arith

  launch_replica-desired :
      (d : DesiredComponent) (c : String) (s : Supervisor)
      → (launch_replica is_http d c s).desired ≡ s.desired
  unfolding launch_replica
  launch_replica-desired d c s = ground arith

  launch_replicas-get :
      (n k : ℕ) (d : DesiredComponent) (c : String) (s : Supervisor)
      → Dict.get s.counts c ≡ some k
      → k + n < 18446744073709551616
      → Dict.get (launch_replicas is_http n d c s).counts c ≡ some (k + n)
  unfolding launch_replicas increment
  launch_replicas-get zero k d c s h b = h ∙ ap some (omega arith)
  launch_replicas-get (suc n) k d c s h b =
      launch_replicas-get n (k + 1) d c (launch_replica is_http d c s)
        (ap (λ m. Dict.get m c) (launch_replica-counts d c s)
          ∙ get-modify c c increment s.counts
          ∙ rw (eq_refl c, h) (ap some (omega (arith, b))))
        (omega (arith, b))
      ∙ ap some (omega arith)

  launch_replicas-other :
      (n : ℕ) (d : DesiredComponent) (c j : String) (s : Supervisor)
      → str_eq c j ≡ false
      → Dict.get (launch_replicas is_http n d c s).counts j ≡ Dict.get s.counts j
  unfolding launch_replicas
  launch_replicas-other zero d c j s h = refl
  launch_replicas-other (suc n) d c j s h =
      launch_replicas-other n d c j (launch_replica is_http d c s) h
      ∙ ap (λ m. Dict.get m j) (launch_replica-counts d c s)
      ∙ get-modify c j increment s.counts
      ∙ rw (h) refl

  few-fits :
      (k w : ℕ) → ltb k w ≡ true → w < 18446744073709551616 → k + (w - k) < 18446744073709551616
  few-fits k w few b = ground (arith, few, b)

  few-sum : (k w : ℕ) → ltb k w ≡ true → k + (w - k) ≡ w
  few-sum k w few = ground (arith, few)

  reconcile_component-get :
      (name : String) (d : DesiredComponent) (s : Supervisor)
      → want d.spec < 18446744073709551616
      → Dict.get (reconcile_component is_http name d s).counts name
        ≡ some (topped_up d (count name s))
  unfolding reconcile_component topped_up
  reconcile_component-get name d s b = elim (Bool-cases (ltb (count name s) (want d.spec))) [
    | inl few ↦ rw (few) (
        launch_replicas-get (want d.spec - count name s) (count name s) d name (ensured name s)
          (get-ensured name s) (few-fits (count name s) (want d.spec) few b)
        ∙ ap some (few-sum (count name s) (want d.spec) few))
    | inr enough ↦ rw (enough) (get-ensured name s)
  ]

  pub reconcile_component-other :
      (name j : String) (d : DesiredComponent) (s : Supervisor)
      → str_eq name j ≡ false
      → Dict.get (reconcile_component is_http name d s).counts j ≡ Dict.get s.counts j
  unfolding reconcile_component
  reconcile_component-other name j d s h = elim (Bool-cases (ltb (count name s) (want d.spec))) [
    | inl few ↦ rw (few) (
        launch_replicas-other (want d.spec - count name s) d name j (ensured name s) h
        ∙ get-ensured_other name j s h)
    | inr enough ↦ rw (enough) (get-ensured_other name j s h)
  ]

  reconcile_each-other :
      (j : String) (items : Dict DesiredComponent) (s : Supervisor)
      → Dict.get items j ≡ none
      → Dict.get (reconcile_each is_http items s).counts j ≡ Dict.get s.counts j
  unfolding reconcile_each Dict.get
  reconcile_each-other j [] s h = refl
  reconcile_each-other j ((name, d) ∷ items) s h =
      reconcile_each-other j items (reconcile_component is_http name d s) (ground (arith, h))
      ∙ reconcile_component-other name j d s (ground (arith, h))

  -- The first item, which no later one changes.
  reconcile_each-first :
      (name : String) (d : DesiredComponent) (items : Dict DesiredComponent) (s : Supervisor)
      → Dict.get items name ≡ none
      → want d.spec < 18446744073709551616
      → Dict.get (reconcile_each is_http items (reconcile_component is_http name d s)).counts name
        ≡ some (topped_up d (count name s))
  reconcile_each-first name d items s h b =
      reconcile_each-other name items (reconcile_component is_http name d s) h
      ∙ reconcile_component-get name d s b

  pub reconcile_each-get :
      (j : String) (e : DesiredComponent) (items : Dict DesiredComponent) (s : Supervisor)
      → NodupKeys items
      → Dict.get items j ≡ some e
      → want e.spec < 18446744073709551616
      → Dict.get (reconcile_each is_http items s).counts j ≡ some (topped_up e (count j s))
  unfolding reconcile_each Dict.get
  reconcile_each-get j e [] s n h b = absurd (ground arith)
  reconcile_each-get j e ((name, d) ∷ items) s n h b = elim (Bool-cases (str_eq name j)) [
    | inl same ↦
        subst
          (λ i.
            Dict.get (reconcile_each is_http items (reconcile_component is_http name d s)).counts i
            ≡ some (topped_up e (count i s)))
          ((eq_iff name j).0 same)
          (subst
            (λ f.
              Dict.get (reconcile_each is_http items (reconcile_component is_http name f s)).counts
                name
              ≡ some (topped_up e (count name s)))
            (sym (some-inj d e (ground (arith, same, h))))
            (reconcile_each-first name e items s n.0 b))
    | inr other ↦
        reconcile_each-get j e items (reconcile_component is_http name d s) n.1
          (ground (arith, other, h)) b
        ∙ ap (λ k. some (topped_up e (value_or 0 k))) (reconcile_component-other name j d s other)
  ]

  -- A reconciliation brings the count of each desired component to its wanted number, the larger of
  -- 1 and `replicas` (1 if absent), if the count is below it, and leaves a count that is not below it
  -- as it is, for desired components with no name twice and a wanted number that fits 64 bits.
  pub reconcile_once-count :
      (name : String) (d : DesiredComponent) (s : Supervisor)
      → NodupKeys s.desired
      → Dict.get s.desired name ≡ some d
      → want d.spec < 18446744073709551616
      → Dict.get (reconcile_once is_http s).counts name ≡ some (topped_up d (count name s))
  unfolding reconcile_once
  reconcile_once-count name d s n h b = reconcile_each-get name d s.desired s n h b
