-- ===== src/Common/Targeting.antt =====
-- The nodes that `ComponentSpec::matches_target` of crates/common/src/lib.rs selects.
use peer_deploy.Prelude.{
  ℕ, String, ◌≡◌, ◌⊎◌, ◌↔◌, refl, ap, ◌∙◌, inl, inr, Bool, true, false, some, List, [], ◌∷◌, zero,
  suc, arith, any, get_elem?, str_eq, eq_iff, eq_refl, Bool-cases,
}
use peer_deploy.Common.Component.{
  ComponentSpec, is_empty, contains, peer_excluded, tags_excluded, matches_target,
}

-- The text stands at some index of the list.
abbrev pub Occurs : String → List String → Type 0
Occurs x l = (i : ℕ) × (get_elem? l i ≡ some x)

pub any_found :
    (p : String → Bool) (l : List String)
    → any p l ≡ true
    → (a : String) × Occurs a l × (p a ≡ true)
any_found p [] h = absurd (ground (arith, h))
any_found p (a ∷ l) h = elim (Bool-cases (p a)) [
  | inl hit ↦ (a, (zero, refl), hit)
  | inr miss ↦ let (b, (i, e), q) = any_found p l (ground (arith, miss, h)) in (b, (suc i, e), q)
]

any_hit :
    (p : String → Bool) (l : List String) (a : String) (i : ℕ)
    → get_elem? l i ≡ some a
    → p a ≡ true
    → any p l ≡ true
any_hit p [] a i e h = absurd (ground (arith, e))
any_hit p (b ∷ l) a zero e h = ground (arith, e, h)
any_hit p (b ∷ l) a (suc i) e h = ground (arith, any_hit p l a i e h)

-- The node is among the targets, and one of its roles is among the tags, where either is given.
abbrev pub IsTarget : ComponentSpec → String → List String → Type 0
IsTarget spec id roles =
    ((is_empty spec.target_peer_ids ≡ true) ⊎ Occurs id spec.target_peer_ids)
    × ((is_empty spec.target_tags ≡ true)
        ⊎ ((tag : String) × Occurs tag spec.target_tags × Occurs tag roles))

not_peer_excluded :
    (ids : List String) (id : String)
    → peer_excluded ids (some id) ≡ false
    → (is_empty ids ≡ true) ⊎ Occurs id ids
unfolding peer_excluded contains
not_peer_excluded ids id h = elim (Bool-cases (is_empty ids)) [
  | inl none_given ↦ inl none_given
  | inr given ↦
      let (a, o, q) = any_found (λ p. str_eq p id) ids (ground (arith, given, h)) in
      inr (o.0, o.1 ∙ ap some ((eq_iff a id).0 q))
]

not_tags_excluded :
    (tags roles : List String)
    → tags_excluded tags (some roles) ≡ false
    → (is_empty tags ≡ true) ⊎ ((tag : String) × Occurs tag tags × Occurs tag roles)
unfolding tags_excluded
not_tags_excluded tags roles h = elim (Bool-cases (is_empty tags)) [
  | inl none_given ↦ inl none_given
  | inr given ↦
      let (tag, o, q) =
        any_found (λ tag. any (λ r. str_eq r tag) roles) tags (ground (arith, given, h)) in
      let (role, u, r) = any_found (λ r. str_eq r tag) roles q in
      inr (tag, o, (u.0, u.1 ∙ ap some ((eq_iff role tag).0 r)))
]

peer_included :
    (ids : List String) (id : String)
    → (is_empty ids ≡ true) ⊎ Occurs id ids
    → peer_excluded ids (some id) ≡ false
unfolding peer_excluded contains
peer_included ids id (inl none_given) = ground (arith, none_given)
peer_included ids id (inr (i, e)) =
    ground (arith, any_hit (λ p. str_eq p id) ids id i e (eq_refl id))

tags_included :
    (tags roles : List String)
    → (is_empty tags ≡ true) ⊎ ((tag : String) × Occurs tag tags × Occurs tag roles)
    → tags_excluded tags (some roles) ≡ false
unfolding tags_excluded
tags_included tags roles (inl none_given) = ground (arith, none_given)
tags_included tags roles (inr (tag, (i, e), (j, f))) = ground (
  arith,
  any_hit (λ t. any (λ r. str_eq r t) roles) tags tag i e
      (any_hit (λ r. str_eq r tag) roles tag j f (eq_refl tag)),
)

-- A component is for a node exactly if its list of peers is empty or contains the node's id, and its
-- list of tags is empty or shares a tag with the node's roles.
pub matches_target-IsTarget :
    (spec : ComponentSpec) (id : String) (roles : List String)
    → (matches_target spec (some id) (some roles) ≡ true) ↔ IsTarget spec id roles
unfolding matches_target
matches_target-IsTarget spec id roles = (
  λ h. (
    not_peer_excluded spec.target_peer_ids id (ground (arith, h)),
    not_tags_excluded spec.target_tags roles (ground (arith, h)),
  ),
  λ t.
      ground (
        arith,
        peer_included spec.target_peer_ids id t.0,
        tags_included spec.target_tags roles t.1,
      ),
)
