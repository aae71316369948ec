-- ===== src/Deploy/Tests.antt =====
-- Witnesses of the theorems on deployments.
use peer_deploy.Prelude.{◌≡◌, ◌⊎◌, refl, some, [], ◌∷◌}
use peer_deploy.Prelude.Dict
use peer_deploy.Prelude.Outcome.{ok}
use peer_deploy.Metrics.{new_metrics}
use peer_deploy.Prelude.Text.{concat}
use peer_deploy.Prelude.Entries.{Entries}
use peer_deploy.Supervisor.{Supervisor, set_desired, new_supervisor}
use peer_deploy.Common.Component.{matches_target, peer_excluded, tags_excluded}
use peer_deploy.Deploy.Crypto.{artifact_path}
use peer_deploy.Deploy.State.{load_desired_manifest}
use peer_deploy.Deploy.Restore.{is_cached, restore_components, restore_from_disk}
use peer_deploy.Deploy.Restore.Verified.{IsVerified, restore_from_disk-IsVerified}
use peer_deploy.Deploy.Crypto.{Crypto}
use peer_deploy.Deploy.State.{
  DataDir, load_trusted_owner, trim, trim_start, trim_end, is_whitespace,
}
use peer_deploy.Deploy.Push.{
  handle_push_package, check_push_signature, check_push_digest, trust_push, stage_push,
  stage_artifact,
}
use peer_deploy.Deploy.Apply.{handle_apply_manifest}
use peer_deploy.Deploy.Apply.Steps.{IsRejected}
use peer_deploy.Deploy.Apply.Accept.{IsAccepted, handle_apply_manifest-outcome}
use peer_deploy.Deploy.Upgrade.{handle_upgrade}
use peer_deploy.Deploy.Upgrade.Accept.{Ends, Vetted, handle_upgrade-outcome}
use peer_deploy.Deploy.Sequence.{
  push, apply_manifest, upgrade_agent, deliver_all, deliver_all-owner,
}
use peer_deploy.Deploy.Samples.{
  web_spec, elf, crypto, dir, node_a, push_files, pushed, apply_files, manifest, host, upgrade,
}

push_run : (handle_push_package crypto push_files pushed node_a).0 ≡ ok tt
unfolding handle_push_package check_push_signature check_push_digest trust_push stage_push
    stage_artifact load_trusted_owner trim trim_start trim_end is_whitespace Dict.get
push_run = refl

handle_apply_manifest-outcome_example :
    IsAccepted crypto apply_files "peer-1" [] manifest node_a
      (handle_apply_manifest crypto apply_files "peer-1" [] manifest node_a)
    ⊎ IsRejected node_a (handle_apply_manifest crypto apply_files "peer-1" [] manifest node_a)
handle_apply_manifest-outcome_example =
    handle_apply_manifest-outcome crypto apply_files "peer-1" [] manifest node_a refl

handle_upgrade-outcome_example :
    Ends (Vetted crypto host upgrade dir) (handle_upgrade crypto host upgrade dir)
handle_upgrade-outcome_example = handle_upgrade-outcome crypto host upgrade dir refl

deliver_all-owner_example :
    load_trusted_owner
      (deliver_all crypto "peer-1" []
        (push push_files pushed
          ∷ apply_manifest apply_files manifest
          ∷ upgrade_agent host upgrade
          ∷ [])
        node_a).dir
    ≡ some "alice"
unfolding load_trusted_owner trim trim_start trim_end is_whitespace
deliver_all-owner_example =
    deliver_all-owner crypto "peer-1" []
      (push push_files pushed
        ∷ apply_manifest apply_files manifest
        ∷ upgrade_agent host upgrade
        ∷ [])
      "alice" node_a refl

-- A manifest with one component, whose artifact is on the disk.
abbrev one_component : Crypto
one_component = record crypto {
  parse_manifest = λ text. ok (record { components = ("web", web_spec) ∷ [] });
}

abbrev cached_dir : DataDir
cached_dir = record dir {
  desired_manifest = some "[components.web]";
  artifacts = ("web-0123456789abcdef.wasm", elf) ∷ [];
}

abbrev restored : Supervisor
restored =
    set_desired
      (("web", record { name = "web"; path = "web-0123456789abcdef.wasm"; spec = web_spec }) ∷ [])
      (new_supervisor new_metrics)

restore_run :
    restore_from_disk one_component cached_dir
      (some "peer-1")
      (some [])
      (new_supervisor new_metrics)
    ≡ some restored
unfolding restore_from_disk restore_components is_cached load_desired_manifest artifact_path concat
    matches_target peer_excluded tags_excluded Dict.get
restore_run = refl

restore_from_disk-IsVerified_example :
    Entries (IsVerified one_component cached_dir (some "peer-1") (some [])) restored.desired
restore_from_disk-IsVerified_example =
    restore_from_disk-IsVerified one_component cached_dir (some "peer-1") (some [])
      (new_supervisor new_metrics) restored refl restore_run
