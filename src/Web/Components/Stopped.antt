-- ===== src/Web/Components/Stopped.antt =====
-- What the stop of a component (crates/agent/src/web/handlers.rs) leaves, and what a restart
-- (`restore_from_disk` of crates/agent/src/supervisor.rs) makes of it.
use peer_deploy.Prelude.{String, ◌≡◌, true, Option, none, some, List, []}
use peer_deploy.Prelude.Dict
use peer_deploy.Prelude.Dict.{Dict, is_some}
use peer_deploy.Supervisor.{Supervisor}
use peer_deploy.Deploy.Crypto.{Crypto}
use peer_deploy.Deploy.Push.{Node}
use peer_deploy.Deploy.Restore.{restore_from_disk}

-- The component is stopped on the node: its tasks are gone and no restart brings it back; the supervisor still wants it.
pub record IsStopped (crypto : Crypto) (name : String) (n m : Node) : Type 0 where
  pub tasks : Dict.get m.supervisor.tasks name ≡ none
  pub restarts :
      (peer_id : Option String) (roles : Option (List String)) (s s' : Supervisor)
      → s.desired ≡ []
      → restore_from_disk crypto m.dir peer_id roles s ≡ some s'
      → Dict.get s'.desired name ≡ none
  pub desired : m.supervisor.desired ≡ n.supervisor.desired
  pub known : is_some (Dict.get m.supervisor.desired name) ≡ true
