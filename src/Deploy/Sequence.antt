-- ===== src/Deploy/Sequence.antt =====
-- Any sequence of signed messages to a node: `handle_push_package`, `handle_apply_manifest` and
-- `handle_upgrade` of crates/agent/src/p2p/handlers, one after the other, from any senders.
use peer_deploy.Prelude.{String, ◌≡◌, refl, ◌∙◌, Option, none, some, List, [], ◌∷◌}
use peer_deploy.Common.Signed.{PushPackage, SignedManifest, AgentUpgrade}
use peer_deploy.Deploy.Crypto.{Crypto}
use peer_deploy.Deploy.State.{DataDir, load_trusted_owner}
use peer_deploy.Deploy.Push.{Node, PushFiles, handle_push_package}
use peer_deploy.Deploy.Push.Trust.{handle_push_package-owner}
use peer_deploy.Deploy.Apply.{ApplyFiles, handle_apply_manifest}
use peer_deploy.Deploy.Apply.Accept.{handle_apply_manifest-owner}
use peer_deploy.Deploy.Upgrade.{UpgradeHost, Upgraded, handle_upgrade}
use peer_deploy.Deploy.Upgrade.Accept.{Ends}
use peer_deploy.Deploy.Upgrade.Owner.{KeepsOwner, handle_upgrade-owner}

-- A message, with the outcomes of the operations on files while it is handled.
pub data Message : Type 0 where
  push : PushFiles → PushPackage → Message
  apply_manifest : ApplyFiles → SignedManifest → Message
  upgrade_agent : UpgradeHost → AgentUpgrade → Message

-- The node after an upgrade; one that panics leaves it as it was.
abbrev pub upgraded : Node → Option Upgraded → Node
upgraded n none = n
upgraded n (some u) = record n { dir = u.dir }

module _ (crypto : Crypto) (id : String) (roles : List String) where
  -- The node after one message.
  unfoldable pub deliver : Message → Node → Node
  deliver (push files pkg) n = (handle_push_package crypto files pkg n).1
  deliver (apply_manifest files signed) n = (handle_apply_manifest crypto files id roles signed n).1
  deliver (upgrade_agent host pkg) n = upgraded n (handle_upgrade crypto host pkg n.dir)

  unfoldable pub deliver_all : List Message → Node → Node
  unfolding deliver
  deliver_all [] n = n
  deliver_all (m ∷ messages) n = deliver_all messages (deliver m n)

  load_trusted_owner-ap :
      (d e : DataDir) → d.owner_pub ≡ e.owner_pub → load_trusted_owner d ≡ load_trusted_owner e
  unfolding load_trusted_owner
  load_trusted_owner-ap d e h = rw (h) refl

  upgraded-owner :
      (n : Node) (u : Option Upgraded)
      → Ends (KeepsOwner n.dir) u
      → (upgraded n u).dir.owner_pub ≡ n.dir.owner_pub
  upgraded-owner n none h = refl
  upgraded-owner n (some u) h = h

  deliver-owner :
      (m : Message) (o : String) (n : Node)
      → load_trusted_owner n.dir ≡ some o
      → (deliver m n).dir.owner_pub ≡ n.dir.owner_pub
  unfolding deliver
  deliver-owner (push files pkg) o n h = handle_push_package-owner crypto files pkg o n h
  deliver-owner (apply_manifest files signed) o n h =
      handle_apply_manifest-owner crypto files id roles signed o n h
  deliver-owner (upgrade_agent host pkg) o n h =
      upgraded-owner n (handle_upgrade crypto host pkg n.dir)
        (handle_upgrade-owner crypto host pkg o n.dir h)

  -- Once a node has a trusted owner, no sequence of push packages, manifests and upgrades changes it,
  -- whatever their signatures and whatever files cannot be written.
  pub deliver_all-owner :
      (messages : List Message) (o : String) (n : Node)
      → load_trusted_owner n.dir ≡ some o
      → load_trusted_owner (deliver_all messages n).dir ≡ some o
  unfolding deliver_all
  deliver_all-owner [] o n h = h
  deliver_all-owner (m ∷ messages) o n h =
      deliver_all-owner messages o (deliver m n)
        (load_trusted_owner-ap (deliver m n).dir n.dir (deliver-owner m o n h) ∙ h)
