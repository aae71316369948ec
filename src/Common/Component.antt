-- ===== src/Common/Component.antt =====
-- `ComponentSpec`, `Manifest` and `ComponentSpec::matches_target` of crates/common/src/lib.rs.
use peer_deploy.Prelude.{
  ℕ, String, Bool, true, false, not, ◌&&◌, Option, none, some, List, [], ◌∷◌, any, str_eq,
  if◌then◌else◌,
}
use peer_deploy.Prelude.Dict.{Dict}

pub record MountSpec : Type 0 where
  pub host : String
  pub guest : String
  pub ro : Bool

pub data Protocol : Type 0 where
  tcp udp : Protocol

pub record ServicePort : Type 0 where
  pub name : Option String
  pub port : ℕ
  pub protocol : Protocol

pub data Visibility : Type 0 where
  local public : Visibility

pub record ComponentSpec : Type 0 where
  pub source : String
  pub sha256_hex : String
  pub memory_max_mb : Option ℕ
  pub fuel : Option ℕ
  pub epoch_ms : Option ℕ
  pub replicas : Option ℕ
  pub mounts : Option (List MountSpec)
  pub ports : Option (List ServicePort)
  pub visibility : Option Visibility
  pub target_peer_ids : List String
  pub target_tags : List String
  pub start : Bool

pub record Manifest : Type 0 where
  pub components : Dict ComponentSpec

-- `is_empty()`
abbrev pub is_empty {ℓ} : {A : Type ℓ} → List A → Bool
is_empty [] = true
is_empty (x ∷ xs) = false

-- `iter().any(|p| p == id)`
unfoldable pub contains : List String → String → Bool
contains xs id = any (λ p. str_eq p id) xs

-- The first early return of `matches_target`.
unfoldable pub peer_excluded : List String → Option String → Bool
unfolding contains
peer_excluded target_peer_ids none = false
peer_excluded target_peer_ids (some id) =
    not (is_empty target_peer_ids) && not (contains target_peer_ids id)

-- The second.
unfoldable pub tags_excluded : List String → Option (List String) → Bool
unfolding contains
tags_excluded target_tags none = false
tags_excluded target_tags (some role_list) =
    not (is_empty target_tags) && not (any (λ tag. any (λ r. str_eq r tag) role_list) target_tags)

unfoldable pub matches_target : ComponentSpec → Option String → Option (List String) → Bool
unfolding peer_excluded tags_excluded
matches_target spec peer_id roles =
    if peer_excluded spec.target_peer_ids peer_id
    then false
    else if tags_excluded spec.target_tags roles
    then false
    else true
