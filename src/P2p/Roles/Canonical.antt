-- ===== src/P2p/Roles/Canonical.antt =====
-- What an update of the roles of a node makes of them (crates/agent/src/p2p/mod.rs), and what a restart finds.
use peer_deploy.Prelude.{
  String, ◌≡◌, refl, sym, ◌∙◌, Bool, true, false, ◌||◌, List, [], ◌∷◌, inl, inr, Bool-cases,
}
use peer_deploy.Common.Component.{is_empty, contains}
use peer_deploy.Deploy.State.{DataDir, load_state, load_roles, save_state, save_roles}
use peer_deploy.P2p.Roles.{RolesNode, normalize, start_roles, update_roles}
use peer_deploy.P2p.Roles.Normal.{normalize-IsStrict, contains-normalize, strict_ext}

-- `normalize` depends on the members only.
normalize-same :
    (xs ys : List String)
    → ((r : String) → contains xs r ≡ contains ys r)
    → normalize xs ≡ normalize ys
normalize-same xs ys e =
    strict_ext (normalize xs) (normalize ys) (normalize-IsStrict xs) (normalize-IsStrict ys)
      (λ r. contains-normalize r xs ∙ e r ∙ sym (contains-normalize r ys))

-- Two updates that name the same roles, in any order and any number of times, leave a node in the same state, with
-- the same roles in memory and the same file.
pub update_roles-same :
    (written : Bool) (targets xs ys : List String) (n : RolesNode)
    → ((r : String) → contains xs r ≡ contains ys r)
    → update_roles written targets xs n ≡ update_roles written targets ys n
unfolding update_roles
update_roles-same written targets xs ys n e = rw (normalize-same xs ys e) refl

-- The roles of the file are those in memory.
abbrev pub IsSaved : RolesNode → Type 0
IsSaved n = (n.ephemeral ≡ false) × (load_roles n.dir ≡ n.roles)

load_roles-save_roles :
    (roles : List String) (d : DataDir) → load_roles (save_roles true roles d) ≡ roles
unfolding load_roles save_roles load_state save_state
load_roles-save_roles roles d = refl

update_roles-IsSaved :
    (targets roles : List String) (n : RolesNode)
    → IsSaved n
    → IsSaved (update_roles true targets roles n)
unfolding update_roles
update_roles-IsSaved targets roles n h =
    elim (Bool-cases (is_empty targets || contains targets n.local_peer_id)) [
      | inl mine ↦
          rw (mine, update_roles) (h.0, rw h.0 (load_roles-save_roles (normalize roles) n.dir))
      | inr other ↦ rw (other, update_roles) h
    ]

-- The updates in the order in which they come, each written.
abbrev pub update_each : List (List String × List String) → RolesNode → RolesNode
update_each [] n = n
update_each ((targets, roles) ∷ updates) n = update_each updates (update_roles true targets roles n)

update_each-IsSaved :
    (updates : List (List String × List String)) (n : RolesNode)
    → IsSaved n
    → IsSaved (update_each updates n)
update_each-IsSaved [] n h = h
update_each-IsSaved ((targets, roles) ∷ updates) n h =
    update_each-IsSaved updates (update_roles true targets roles n)
      (update_roles-IsSaved targets roles n h)

-- A node that is started again without roles of its own.
abbrev pub restarted : RolesNode → RolesNode
restarted n = record n { roles = [] }

restore_lem :
    (written : Bool) (roles : List String) (n : RolesNode)
    → n.ephemeral ≡ false
    → load_roles n.dir ≡ roles
    → start_roles written (restarted n) ≡ record n { roles = roles }
unfolding start_roles
restore_lem written [] n h e = rw (h, e) refl
restore_lem written (r ∷ roles) n h e = rw (h, e) refl

-- A restart without roles on the command line restores the roles that the updates left: after any sequence of updates
-- of the roles whose writes succeed, on a node that is not ephemeral and whose file holds its roles, the restarted node
-- is the node as it was.
pub start_roles-update_each :
    (written : Bool) (updates : List (List String × List String)) (n : RolesNode)
    → IsSaved n
    → start_roles written (restarted (update_each updates n)) ≡ update_each updates n
start_roles-update_each written updates n h =
    let m = update_each updates n in
    let saved = update_each-IsSaved updates n h in restore_lem written m.roles m saved.0 saved.1
