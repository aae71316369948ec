-- ===== src/P2p/Select/Tests.antt =====
-- Witnesses: a push that the node takes, and an upgrade that is sent again.
use peer_deploy.Prelude.{refl, arith, inr, some, [], ◌∷◌}
use peer_deploy.Common.Signed.{PushPackage}
use peer_deploy.Deploy.Samples.{crypto, dir, node_a, push_files, pushed, host, upgrade}
use peer_deploy.Deploy.State.{default_state, DataDir, load_trusted_owner, load_state}
use peer_deploy.Deploy.Push.Trust.{IsAuthentic}
use peer_deploy.Deploy.Upgrade.{handle_upgrade}
use peer_deploy.Deploy.Upgrade.Accept.{IsVetted}
use peer_deploy.Deploy.Upgrade.Replay.{altered, Installs, handle_upgrade-altered}
use peer_deploy.Prelude.Dict
use peer_deploy.Prelude.Text.{concat}
use peer_deploy.Binary.Bytes.{detect_binary_os, slice, bytes_eq, arch_matches}
use peer_deploy.Binary.Elf.{detect_elf_arch, elf_machine}
use peer_deploy.Binary.Host.{binary_target_matches_host}
use peer_deploy.Deploy.Upgrade.{platform_differs}
use peer_deploy.P2p.Select.{push_component}
use peer_deploy.P2p.Select.Meant.{IsMeant, push_component-IsAuthentic}

abbrev for_edge : PushPackage
for_edge = record pushed {
  unsigned = record pushed.unsigned { target_peer_ids = "n1" ∷ []; target_tags = "edge" ∷ [] };
}

push_component-IsAuthentic_example :
    IsMeant ("n1" ∷ []) ("edge" ∷ []) "n1" ("web" ∷ "edge" ∷ [])
    × IsAuthentic crypto push_files for_edge node_a
unfolding push_component load_trusted_owner Dict.get
push_component-IsAuthentic_example =
    push_component-IsAuthentic crypto push_files "n1" ("web" ∷ "edge" ∷ []) for_edge node_a refl

abbrev vetted : IsVetted crypto host upgrade dir
unfolding load_trusted_owner binary_target_matches_host detect_binary_os slice bytes_eq
    detect_elf_arch elf_machine arch_matches platform_differs concat
vetted = record {
  sig = _;
  bin = _;
  decoded = (refl, refl);
  verified = refl;
  owner = inr refl;
  digest = refl;
  target = record { os = "linux"; arches = "x86_64" ∷ [] };
  fits = refl;
  platform = refl;
}

-- The same node after a later upgrade.
abbrev later_dir : DataDir
later_dir = record dir { state_json = some (record default_state { agent_version = 9 }) }

handle_upgrade-altered_example :
    Installs 10 vetted.bin (handle_upgrade crypto host (altered 10 [] [] upgrade) later_dir)
unfolding load_trusted_owner load_state
handle_upgrade-altered_example =
    handle_upgrade-altered crypto host upgrade 10 [] [] dir later_dir vetted
      (refl, refl, refl, refl, refl, refl) refl (omega arith)
