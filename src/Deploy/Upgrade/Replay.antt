-- ===== src/Deploy/Upgrade/Replay.antt =====
-- The version of an upgrade (crates/agent/src/p2p/handlers/upgrade.rs), which the signature does not cover.
use peer_deploy.Prelude.{
  ℕ, ◌<◌, String, ◌≡◌, refl, ap, ◌∙◌, true, false, Option, none, some, List, [], ◌∷◌, arith, leb,
  eq_refl, if◌then◌else◌,
}
use peer_deploy.Prelude.Dict
use peer_deploy.Prelude.Text.{concat, format_u64}
use peer_deploy.Prelude.Outcome.{ok}
use peer_deploy.Common.Signed.{AgentUpgrade}
use peer_deploy.Storage.Store.{Bytes}
use peer_deploy.Deploy.Crypto.{Crypto}
use peer_deploy.Deploy.State.{DataDir, load_trusted_owner, load_state, save_state}
use peer_deploy.Deploy.Upgrade.{
  UpgradeHost, Upgraded, switch_binary, write_binary, check_version, check_target, check_digest,
  upgrade_signed, trust_upgrade, handle_upgrade,
}
use peer_deploy.Deploy.Upgrade.Accept.{IsVetted}

-- Every operation of the upgrade succeeds.
abbrev pub IsWorking : UpgradeHost → Type 0
IsWorking host =
    (host.bin_dir_created ≡ true)
    × (host.file_opened ≡ true)
    × (host.file_written ≡ true)
    × (host.file_synced ≡ true)
    × (host.state_written ≡ true)
    × (host.spawned ≡ true)

-- The package with other fields that are not signed.
abbrev pub altered : ℕ → List String → List String → AgentUpgrade → AgentUpgrade
altered version target_peer_ids target_tags pkg = record pkg {
  version = version;
  target_peer_ids = target_peer_ids;
  target_tags = target_tags;
}

-- The new process runs the binary, as the version.
pub record IsInstalled (version : ℕ) (bin : Bytes) (u : Upgraded) : Type 0 where
  pub exited : u.exited ≡ true
  pub agent_version : (load_state u.dir).agent_version ≡ version
  pub binary :
      Dict.get u.dir.binaries (concat ("realm-agent-v" ∷ format_u64 version ∷ [])) ≡ some bin

-- The call ends with that.
abbrev pub Installs : ℕ → Bytes → Option Upgraded → Type 0
Installs version bin none = ⊥
Installs version bin (some u) = IsInstalled version bin u

above_stale : (m n : ℕ) → m < n → leb n m ≡ false
above_stale m n h = ground arith

module _ (crypto : Crypto) (host : UpgradeHost) where
  check_version-IsInstalled :
      (pkg : AgentUpgrade) (bin : Bytes) (d : DataDir)
      → IsWorking host
      → (load_state d).agent_version < pkg.version
      → IsInstalled pkg.version bin (check_version crypto host pkg bin d)
  unfolding check_version write_binary switch_binary save_state load_state
  check_version-IsInstalled pkg bin d (made, opened, written, synced, saved, spawned) lt =
      let name = concat ("realm-agent-v" ∷ format_u64 pkg.version ∷ []) in
      rw (above_stale _ _ lt, made, opened, written, synced, saved, spawned)
        (record {
          exited = refl;
          agent_version = refl;
          binary =
              (Dict.get-insert name name bin d.binaries
                ∙ ap (λ b. if b then some bin else Dict.get d.binaries name) (eq_refl name));
        })

  check_target-Installs :
      (pkg : AgentUpgrade) (v : ℕ) (ids tags : List String) (d d' : DataDir)
      (vetted : IsVetted crypto host pkg d)
      → IsWorking host
      → (load_state d').agent_version < v
      → Installs v vetted.bin (check_target crypto host (altered v ids tags pkg) vetted.bin d')
  unfolding check_target
  check_target-Installs pkg v ids tags d d' vetted w lt =
      rw (vetted.fits, check_target, vetted.platform)
        (check_version-IsInstalled (altered v ids tags pkg) vetted.bin d' w lt)

  trust_upgrade-Installs :
      (pkg : AgentUpgrade) (v : ℕ) (ids tags : List String) (d d' : DataDir)
      (vetted : IsVetted crypto host pkg d)
      → IsWorking host
      → load_trusted_owner d' ≡ some pkg.owner_pub_bs58
      → (load_state d').agent_version < v
      → Installs v vetted.bin (trust_upgrade crypto host (altered v ids tags pkg) vetted.bin d')
  unfolding trust_upgrade check_digest
  trust_upgrade-Installs pkg v ids tags d d' vetted w owner lt =
      rw
        (
          owner,
          trust_upgrade,
          eq_refl pkg.owner_pub_bs58,
          vetted.digest,
          eq_refl pkg.binary_sha256_hex,
        )
        (check_target-Installs pkg v ids tags d d' vetted w lt)

  upgrade_signed-altered :
      (pkg : AgentUpgrade) (v : ℕ) (ids tags : List String) (bin sig : Bytes)
      → crypto.verify_bytes_ed25519 pkg.owner_pub_bs58 bin sig ≡ ok true
      → upgrade_signed crypto host (altered v ids tags pkg) bin sig ≡ true
  unfolding upgrade_signed
  upgrade_signed-altered pkg v ids tags bin sig h = rw (h, upgrade_signed) refl

  -- The version of an upgrade is not signed, so that a package that passed the checks once can be replayed by anyone: at
  -- any later state of a node that trusts its owner, the same package with any version above the node's and with any
  -- targets makes the node run the old binary as that version. This is for a host whose files and process creation work.
  pub handle_upgrade-altered :
      (pkg : AgentUpgrade) (v : ℕ) (ids tags : List String) (d d' : DataDir)
      (vetted : IsVetted crypto host pkg d)
      → IsWorking host
      → load_trusted_owner d' ≡ some pkg.owner_pub_bs58
      → (load_state d').agent_version < v
      → Installs v vetted.bin (handle_upgrade crypto host (altered v ids tags pkg) d')
  unfolding handle_upgrade
  handle_upgrade-altered pkg v ids tags d d' vetted w owner lt =
      let signed = upgrade_signed-altered pkg v ids tags vetted.bin vetted.sig vetted.verified in
      rw (vetted.decoded.0, handle_upgrade, vetted.decoded.1, signed)
        (trust_upgrade-Installs pkg v ids tags d d' vetted w owner lt)
