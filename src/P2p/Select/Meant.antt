-- ===== src/P2p/Select/Meant.antt =====
-- Which pushes a node takes: the selection in crates/agent/src/p2p/mod.rs with the checks of
-- crates/agent/src/p2p/handlers/push.rs.
use peer_deploy.Prelude.{
  String, ◌≡◌, refl, ap, ◌∙◌, ◌⊎◌, inl, inr, true, false, some, List, arith, any, str_eq, eq_iff,
  Bool-cases,
}
use peer_deploy.Prelude.Outcome.{ok}
use peer_deploy.Common.Component.{is_empty, contains}
use peer_deploy.Common.Signed.{PushPackage}
use peer_deploy.Common.Targeting.{Occurs, any_found}
use peer_deploy.Deploy.Crypto.{Crypto}
use peer_deploy.Deploy.Push.{Node, PushFiles}
use peer_deploy.Deploy.Push.Trust.{IsAuthentic, handle_push_package-IsAuthentic}
use peer_deploy.P2p.Select.{selected, push_selected, push_component}

-- Ids that are given name the node, tags that are given share one with its roles, and it is no node for the interface.
pub record IsMeant (ids tags : List String) (id : String) (roles : List String) : Type 0 where
  pub named : (is_empty ids ≡ true) ⊎ Occurs id ids
  pub tagged : (is_empty tags ≡ true) ⊎ ((tag : String) × Occurs tag tags × Occurs tag roles)
  pub no_ui : contains roles "ui" ≡ false

contains-Occurs : (l : List String) (x : String) → contains l x ≡ true → Occurs x l
unfolding contains
contains-Occurs l x h =
    let (a, o, q) = any_found (λ p. str_eq p x) l h in (o.0, o.1 ∙ ap some ((eq_iff a x).0 q))

shared_tag :
    (tags roles : List String)
    → any (λ t. contains roles t) tags ≡ true
    → (tag : String) × Occurs tag tags × Occurs tag roles
shared_tag tags roles h =
    let (tag, o, q) = any_found (λ t. contains roles t) tags h in
    (tag, o, contains-Occurs roles tag q)

selected_named :
    (ids tags : List String) (id : String) (roles : List String)
    → selected ids tags id roles ≡ true
    → (is_empty ids ≡ true) ⊎ Occurs id ids
unfolding selected
selected_named ids tags id roles h = elim (Bool-cases (is_empty ids)) [
  | inl none_given ↦ inl none_given
  | inr given ↦ inr (contains-Occurs ids id (ground (arith, given, h)))
]

selected_tagged :
    (ids tags : List String) (id : String) (roles : List String)
    → selected ids tags id roles ≡ true
    → (is_empty tags ≡ true) ⊎ ((tag : String) × Occurs tag tags × Occurs tag roles)
unfolding selected
selected_tagged ids tags id roles h = elim (Bool-cases (is_empty tags)) [
  | inl none_given ↦ inl none_given
  | inr given ↦ inr (shared_tag tags roles (ground (arith, given, h)))
]

push_selected-IsMeant :
    (pkg : PushPackage) (id : String) (roles : List String)
    → push_selected pkg id roles ≡ true
    → IsMeant pkg.unsigned.target_peer_ids pkg.unsigned.target_tags id roles
unfolding push_selected
push_selected-IsMeant pkg id roles h =
    let ids = pkg.unsigned.target_peer_ids in
    let tags = pkg.unsigned.target_tags in
    let chosen : selected ids tags id roles ≡ true = ground (arith, h) in
    record {
      named = selected_named ids tags id roles chosen;
      tagged = selected_tagged ids tags id roles chosen;
      no_ui = ground (arith, h);
    }

module _ (crypto : Crypto) (files : PushFiles) (id : String) (roles : List String) where
  -- What a push that the node has accepted guarantees, from the message to the supervisor: the node was meant by the
  -- ids and the tags of the package and has not the role `ui`, and the package is authentic: signed by the trusted owner
  -- or the first one, with the declared digest.
  pub push_component-IsAuthentic :
      (pkg : PushPackage) (n : Node)
      → (push_component crypto id roles files pkg n).0 ≡ some (ok tt)
      → IsMeant pkg.unsigned.target_peer_ids pkg.unsigned.target_tags id roles
        × IsAuthentic crypto files pkg n
  unfolding push_component
  push_component-IsAuthentic pkg n h = elim (Bool-cases (push_selected pkg id roles)) [
    | inl chosen ↦ (
      push_selected-IsMeant pkg id roles chosen,
      handle_push_package-IsAuthentic crypto files pkg n (ground (arith, rw (chosen) at h)),
    )
    | inr other ↦ absurd (ground (arith, rw (other) at h))
  ]

  -- A node that is not selected is left as it was, whatever the package.
  push_component_ignored :
      (pkg : PushPackage) (n : Node)
      → push_selected pkg id roles ≡ false
      → (push_component crypto id roles files pkg n).1 ≡ n
  unfolding push_component
  push_component_ignored pkg n h = rw (h) refl
