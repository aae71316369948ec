-- ===== src/P2p/Select.antt =====
-- The selection of a node for a push and for an upgrade in `run_agent` of crates/agent/src/p2p/mod.rs, before the
-- handlers of crates/agent/src/p2p/handlers run.
pub mod Meant
mod Tests
use peer_deploy.Prelude.{
  String, Bool, true, false, not, ◌&&◌, Option, none, some, List, [], any, if◌then◌else◌,
}
use peer_deploy.Prelude.Outcome.{Result}
use peer_deploy.Common.Component.{is_empty, contains}
use peer_deploy.Common.Signed.{PushPackage, AgentUpgrade}
use peer_deploy.Deploy.Crypto.{Crypto}
use peer_deploy.Deploy.State.{DataDir}
use peer_deploy.Deploy.Push.{Node, PushFiles, PushAcceptanceError, handle_push_package}
use peer_deploy.Deploy.Upgrade.{UpgradeHost, Upgraded, platform_differs, handle_upgrade}

-- "Selection: peer IDs or tags"
unfoldable pub selected : List String → List String → String → List String → Bool
unfolding contains
selected sel_ids sel_tags local_peer_id roles =
    let by_id = if not (is_empty sel_ids) then contains sel_ids local_peer_id else true in
    if by_id && not (is_empty sel_tags) then any (λ t. contains roles t) sel_tags else by_id

-- "Never accept pushes on nodes tagged as UI"
unfoldable pub push_selected : PushPackage → String → List String → Bool
unfolding selected contains
push_selected pkg local_peer_id roles =
    let chosen =
      selected pkg.unsigned.target_peer_ids pkg.unsigned.target_tags local_peer_id roles in
    if chosen && contains roles "ui" then false else chosen

-- "Optional platform prefilter"
unfoldable pub upgrade_selected : UpgradeHost → AgentUpgrade → String → List String → Bool
unfolding selected platform_differs
upgrade_selected host pkg local_peer_id roles =
    let chosen = selected pkg.target_peer_ids pkg.target_tags local_peer_id roles in
    if chosen && platform_differs host pkg.target_platform then false else chosen

module _ (crypto : Crypto) (local_peer_id : String) (roles : List String) where
  -- `Command::PushComponent`: the verdict of the handler, if it is called.
  unfoldable pub push_component :
      PushFiles → PushPackage → Node → Option (Result Unit PushAcceptanceError) × Node
  unfolding push_selected handle_push_package
  push_component files pkg n =
      if push_selected pkg local_peer_id roles
      then (
        some (handle_push_package crypto files pkg n).0,
        (handle_push_package crypto files pkg n).1,
      )
      else (none, n)

  -- `Command::UpgradeAgent`; `none` is a panic.
  unfoldable pub upgrade_agent : UpgradeHost → AgentUpgrade → DataDir → Option Upgraded
  unfolding upgrade_selected handle_upgrade
  upgrade_agent host pkg d =
      if upgrade_selected host pkg local_peer_id roles
      then handle_upgrade crypto host pkg d
      else some (record { messages = []; dir = d; exited = false })
