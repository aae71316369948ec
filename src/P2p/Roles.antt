-- ===== src/P2p/Roles.antt =====
-- The roles of a node in `run_agent` of crates/agent/src/p2p/mod.rs: those of the start, and the handler of
-- `Command::UpdateRoles`. `written` tells whether the write of the state succeeds.
pub mod Normal
pub mod Canonical
use Prim.Native.String.{compare}
use text.Mathlib.Text.{is_le}
use peer_deploy.Prelude.{
  String, Bool, true, false, not, ◌&&◌, ◌||◌, Option, List, [], ◌∷◌, any, str_eq, if◌then◌else◌,
}
use peer_deploy.Common.Component.{is_empty, contains}
use peer_deploy.Deploy.State.{DataDir, load_roles, save_roles}

-- `roles.sort()`
unfoldable pub insert_text : String → List String → List String
insert_text r [] = r ∷ []
insert_text r (x ∷ xs) =
    let rest = insert_text r xs in if is_le (compare r x) then r ∷ x ∷ xs else x ∷ rest

unfoldable pub sort : List String → List String
unfolding insert_text
sort [] = []
sort (x ∷ xs) = insert_text x (sort xs)

-- `roles.dedup()`: what follows the text `x` that is kept.
unfoldable pub dedup_after : String → List String → List String
dedup_after x [] = []
dedup_after x (y ∷ ys) =
    let kept = y ∷ dedup_after y ys in
    let rest = dedup_after x ys in if str_eq y x then rest else kept

unfoldable pub dedup : List String → List String
unfolding dedup_after
dedup [] = []
dedup (x ∷ xs) = x ∷ dedup_after x xs

unfoldable pub normalize : List String → List String
unfolding sort dedup
normalize roles = dedup (sort roles)

-- `persisted != roles`
unfoldable pub texts_eq : List String → List String → Bool
texts_eq [] [] = true
texts_eq (x ∷ xs) (y ∷ ys) = str_eq x y && texts_eq xs ys
texts_eq _ _ = false

pub record RolesNode : Type 0 where
  pub local_peer_id : String
  pub ephemeral : Bool
  pub roles : List String
  pub dir : DataDir

-- The roles at the start, from those of the command line. An ephemeral node neither saves nor restores.
unfoldable pub start_roles : Bool → RolesNode → RolesNode
unfolding normalize texts_eq
start_roles written n =
    let sorted = normalize n.roles in
    let persisted = load_roles n.dir in
    if not (is_empty n.roles)
    then record n {
      roles = sorted;
      dir =
          if not n.ephemeral && not (texts_eq persisted sorted)
          then save_roles written sorted n.dir
          else n.dir;
    }
    else if not n.ephemeral && not (is_empty persisted)
    then record n { roles = persisted }
    else n

-- `Command::UpdateRoles`
unfoldable pub update_roles : Bool → List String → List String → RolesNode → RolesNode
unfolding normalize contains
update_roles written target_peer_ids new_roles n =
    if is_empty target_peer_ids || contains target_peer_ids n.local_peer_id
    then record n {
      roles = normalize new_roles;
      dir = if n.ephemeral then n.dir else save_roles written (normalize new_roles) n.dir;
    }
    else n
