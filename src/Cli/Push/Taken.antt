-- ===== src/Cli/Push/Taken.antt =====
-- A push from the command (crates/agent/src/cmd/push.rs) to the supervisor of a node.
use peer_deploy.Prelude.{◌≡◌, true, Option, some}
use peer_deploy.Prelude.Dict
use peer_deploy.Prelude.Outcome.{Result, ok}
use peer_deploy.Common.Signed.{PushUnsigned}
use peer_deploy.Storage.Store.{Bytes}
use peer_deploy.Supervisor.{DesiredComponent, Supervisor, get_component}
use peer_deploy.Deploy.Crypto.{Crypto, artifact_path}
use peer_deploy.Deploy.Push.{Node, PushFiles, PushAcceptanceError, pushed_spec}

-- The component that the options describe, with its artifact.
abbrev pub component : Crypto → PushUnsigned → Bytes → DesiredComponent
component crypto u bin = record {
  name = u.component_name;
  path = artifact_path u.component_name (crypto.sha256_hex bin);
  spec = pushed_spec u;
}

-- The node has accepted the package and wants the component.
pub record IsTaken (crypto : Crypto) (u : PushUnsigned) (bin : Bytes)
    (r : Option (Result Unit PushAcceptanceError) × Node) : Type 0 where
  pub accepted : r.0 ≡ some (ok tt)
  pub desired : get_component u.component_name r.1.supervisor ≡ some (component crypto u bin)

-- The same of the handler's own result.
abbrev IsDone :
    (crypto : Crypto) (u : PushUnsigned) (bin : Bytes)
    → Result Unit PushAcceptanceError × Node
    → Type 0
IsDone crypto u bin r =
    (r.0 ≡ ok tt) × (get_component u.component_name r.1.supervisor ≡ some (component crypto u bin))

module _ (crypto : Crypto) (files : PushFiles) where
  -- Every operation on files succeeds.
  abbrev pub IsWritable : Type 0
  IsWritable = (files.stage_dir_created ≡ true) × (files.artifact_written ≡ true)
