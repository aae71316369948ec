-- ===== src/Deploy/Upgrade/Owner.antt =====
-- The owner file through `handle_upgrade` of crates/agent/src/p2p/handlers/upgrade.rs.
use peer_deploy.Prelude.{
  String, ◌≡◌, refl, ◌∙◌, inl, inr, Bool, true, false, Option, none, some, leb, str_eq, Bool-cases,
}
use peer_deploy.Prelude.Outcome.{Result, ok, err, Result-cases}
use peer_deploy.Common.Signed.{AgentUpgrade}
use peer_deploy.Storage.Store.{Bytes}
use peer_deploy.Binary.Host.{Target, TargetError, binary_target_matches_host}
use peer_deploy.Binary.Safety.{binary_target_matches_host-ne-none}
use peer_deploy.Deploy.Crypto.{Crypto}
use peer_deploy.Deploy.State.{DataDir, load_trusted_owner, load_state, save_state, AgentState}
use peer_deploy.Deploy.Upgrade.{
  UpgradeHost, Upgraded, platform_differs, switch_binary, write_binary, check_version, check_target,
  check_digest, upgrade_signed, trust_upgrade, handle_upgrade,
}
use peer_deploy.Deploy.Upgrade.Accept.{Ends}

-- The owner file is as before.
abbrev pub KeepsOwner : DataDir → Upgraded → Type 0
KeepsOwner d u = u.dir.owner_pub ≡ d.owner_pub

save_state-owner :
    (w : Bool) (s : AgentState) (d : DataDir) → (save_state w s d).owner_pub ≡ d.owner_pub
unfolding save_state
save_state-owner true s d = refl
save_state-owner false s d = refl

module _ (crypto : Crypto) (host : UpgradeHost) where
  switch_binary-owner :
      (pkg : AgentUpgrade) (d : DataDir) → KeepsOwner d (switch_binary crypto host pkg d)
  unfolding switch_binary
  switch_binary-owner pkg d = elim (Bool-cases host.spawned) [
    | inl spawned ↦ rw (spawned, save_state-owner) refl
    | inr failed ↦ rw (failed) (save_state-owner _ _ _ ∙ save_state-owner _ _ d)
  ]

  write_binary-owner :
      (pkg : AgentUpgrade) (bin : Bytes) (d : DataDir)
      → KeepsOwner d (write_binary crypto host pkg bin d)
  unfolding write_binary
  write_binary-owner pkg bin d = elim (Bool-cases host.bin_dir_created) [
    | inr no_dir ↦ rw (no_dir) refl
    | inl dir ↦ rw (dir) (elim (Bool-cases host.file_opened) [
      | inr closed ↦ rw (closed) refl
      | inl opened ↦ rw (opened) (elim (Bool-cases host.file_written) [
        | inr cut ↦ rw (cut) refl
        | inl written ↦ rw (written) (elim (Bool-cases host.file_synced) [
          | inr lost ↦ rw (lost) refl
          | inl synced ↦ rw (synced) (switch_binary-owner pkg _)
        ])
      ])
    ])
  ]

  check_version-owner :
      (pkg : AgentUpgrade) (bin : Bytes) (d : DataDir)
      → KeepsOwner d (check_version crypto host pkg bin d)
  unfolding check_version
  check_version-owner pkg bin d = elim (Bool-cases (leb pkg.version (load_state d).agent_version)) [
    | inl stale ↦ rw (stale, check_version) refl
    | inr newer ↦ rw (newer, check_version) (write_binary-owner pkg bin d)
  ]

  check_target-owner :
      (pkg : AgentUpgrade) (bin : Bytes) (d : DataDir) (v : Option (Result Target TargetError))
      → binary_target_matches_host host.os host.arch bin ≡ v
      → Ends (KeepsOwner d) (check_target crypto host pkg bin d)
  unfolding check_target
  check_target-owner pkg bin d none e =
      absurd (binary_target_matches_host-ne-none host.os host.arch bin e)
  check_target-owner pkg bin d (some (err t)) e = rw (e, check_target, Ends) refl
  check_target-owner pkg bin d (some (ok t)) e =
      elim (Bool-cases (platform_differs host pkg.target_platform)) [
        | inl other ↦ rw (e, check_target, other, Ends) refl
        | inr same ↦ rw (e, check_target, same, Ends) (check_version-owner pkg bin d)
      ]

  trust_upgrade-owner :
      (pkg : AgentUpgrade) (bin : Bytes) (o : String) (d : DataDir)
      → load_trusted_owner d ≡ some o
      → Ends (KeepsOwner d) (trust_upgrade crypto host pkg bin d)
  unfolding trust_upgrade check_digest
  trust_upgrade-owner pkg bin o d known = elim (Bool-cases (str_eq o pkg.owner_pub_bs58)) [
    | inr foreign ↦ rw (known, trust_upgrade, foreign, Ends) refl
    | inl trusted ↦ elim (Bool-cases (str_eq (crypto.sha256_hex bin) pkg.binary_sha256_hex)) [
      | inr other ↦ rw (known, trust_upgrade, trusted, other, check_digest, Ends) refl
      | inl same ↦
          rw (known, trust_upgrade, trusted, same, check_digest)
            (check_target-owner pkg bin d _ refl)
    ]
  ]

  pub handle_upgrade-owner :
      (pkg : AgentUpgrade) (o : String) (d : DataDir)
      → load_trusted_owner d ≡ some o
      → Ends (KeepsOwner d) (handle_upgrade crypto host pkg d)
  unfolding handle_upgrade
  handle_upgrade-owner pkg o d known = elim (Result-cases (crypto.decode pkg.signature_b64)) [
    | inr (e, bad) ↦ rw (bad, handle_upgrade, Ends) refl
    | inl (sig, good) ↦ elim (Result-cases (crypto.decode pkg.binary_b64)) [
      | inr (e, bad) ↦ rw (good, handle_upgrade, bad, Ends) refl
      | inl (bin, fine) ↦ elim (Bool-cases (upgrade_signed crypto host pkg bin sig)) [
        | inr forged ↦ rw (good, handle_upgrade, fine, forged, Ends) refl
        | inl valid ↦ rw (good, handle_upgrade, fine, valid) (trust_upgrade-owner pkg bin o d known)
      ]
    ]
  ]
