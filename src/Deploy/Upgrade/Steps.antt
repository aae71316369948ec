-- ===== src/Deploy/Upgrade/Steps.antt =====
-- The part of `handle_upgrade` in crates/agent/src/p2p/handlers/upgrade.rs that follows the checks of
-- the package: the version, the file and the new process.
use peer_deploy.Prelude.{◌<◌, String, ◌≡◌, refl, ◌⊎◌, inl, inr, true, false, arith, leb, Bool-cases}
use peer_deploy.Prelude.Dict.{Dict}
use peer_deploy.Common.Signed.{AgentUpgrade}
use peer_deploy.Storage.Store.{Bytes}
use peer_deploy.Deploy.Crypto.{Crypto}
use peer_deploy.Deploy.State.{DataDir, load_state, save_state}
use peer_deploy.Deploy.Upgrade.{
  UpgradeHost, Upgraded, reject, switch_binary, write_binary, check_version,
}

-- The old process stays: the agent's and the manifest's versions are as before, and the previous
-- version is as before or is the agent's version, which is recorded before the new process is started.
pub record IsRetained (d : DataDir) (u : Upgraded) : Type 0 where
  pub retained : u.exited ≡ false
  pub agent_version : (load_state u.dir).agent_version ≡ (load_state d).agent_version
  pub manifest_version : (load_state u.dir).manifest_version ≡ (load_state d).manifest_version
  pub previous :
      ((load_state u.dir).previous_agent_version ≡ (load_state d).previous_agent_version)
      ⊎ ((load_state u.dir).previous_agent_version ≡ (load_state d).agent_version)

-- The new process runs: the version is the package's, which is above the old one.
pub record IsSwitched (pkg : AgentUpgrade) (d : DataDir) (u : Upgraded) : Type 0 where
  pub exited : u.exited ≡ true
  pub newer : (load_state d).agent_version < pkg.version
  pub agent_version : (load_state u.dir).agent_version ≡ pkg.version
  pub previous : (load_state u.dir).previous_agent_version ≡ (load_state d).agent_version
  pub manifest_version : (load_state u.dir).manifest_version ≡ (load_state d).manifest_version

module _ (crypto : Crypto) (host : UpgradeHost) where
  pub reject-IsRetained : (reason : String) (d : DataDir) → IsRetained d (reject reason d)
  reject-IsRetained reason d = record {
    retained = refl;
    agent_version = refl;
    manifest_version = refl;
    previous = inl refl;
  }

  switch_binary-outcome :
      (pkg : AgentUpgrade) (d : DataDir)
      → host.state_written ≡ true
      → (load_state d).agent_version < pkg.version
      → IsSwitched pkg d (switch_binary crypto host pkg d)
        ⊎ IsRetained d (switch_binary crypto host pkg d)
  unfolding switch_binary save_state load_state
  switch_binary-outcome pkg d w lt = elim (Bool-cases host.spawned) [
    | inl spawned ↦ rw (spawned) (
        inl (record {
          exited = refl;
          newer = lt;
          agent_version = rw (w) refl;
          previous = rw (w) refl;
          manifest_version = rw (w) refl;
        }))
    | inr failed ↦ rw (failed) (
        inr (record {
          retained = refl;
          agent_version = rw (w) refl;
          manifest_version = rw (w) refl;
          previous = inr (rw (w) refl);
        }))
  ]

  -- The same with another directory of binaries.
  switched :
      (pkg : AgentUpgrade) (d : DataDir) (binaries : Dict Bytes)
      → host.state_written ≡ true
      → (load_state d).agent_version < pkg.version
      → IsSwitched pkg d (switch_binary crypto host pkg (record d { binaries = binaries }))
        ⊎ IsRetained d (switch_binary crypto host pkg (record d { binaries = binaries }))
  unfolding load_state
  switched pkg d binaries w lt =
      elim (switch_binary-outcome pkg (record d { binaries = binaries }) w lt) [
        | inl s ↦ inl (record {
          exited = s.exited;
          newer = lt;
          agent_version = s.agent_version;
          previous = s.previous;
          manifest_version = s.manifest_version;
        })
        | inr r ↦ inr (record {
          retained = r.retained;
          agent_version = r.agent_version;
          manifest_version = r.manifest_version;
          previous = r.previous;
        })
      ]

  -- One of the two.
  abbrev pub Outcome : AgentUpgrade → DataDir → Upgraded → Type 0
  Outcome pkg d u = IsSwitched pkg d u ⊎ IsRetained d u

  write_binary-Outcome :
      (pkg : AgentUpgrade) (bytes : Bytes) (d : DataDir)
      → host.state_written ≡ true
      → (load_state d).agent_version < pkg.version
      → Outcome pkg d (write_binary crypto host pkg bytes d)
  unfolding write_binary
  write_binary-Outcome pkg bytes d w lt = elim (Bool-cases host.bin_dir_created) [
    | inr no_dir ↦ rw (no_dir) (inr (reject-IsRetained "bin dir create" d))
    | inl dir ↦ rw (dir) (elim (Bool-cases host.file_opened) [
      | inr closed ↦ rw (closed) (inr (reject-IsRetained "open error" d))
      | inl opened ↦ rw (opened) (elim (Bool-cases host.file_written) [
        | inr cut ↦ rw (cut) (inr (reject-IsRetained "write error" d))
        | inl written ↦ rw (written) (elim (Bool-cases host.file_synced) [
          | inr lost ↦ rw (lost) (inr (reject-IsRetained "fsync file" d))
          | inl synced ↦ rw (synced) (switched pkg d _ w lt)
        ])
      ])
    ])
  ]

  pub check_version-Outcome :
      (pkg : AgentUpgrade) (bytes : Bytes) (d : DataDir)
      → host.state_written ≡ true
      → Outcome pkg d (check_version crypto host pkg bytes d)
  unfolding check_version
  check_version-Outcome pkg bytes d w =
      elim (Bool-cases (leb pkg.version (load_state d).agent_version)) [
        | inl stale ↦ rw (stale, check_version) (inr (reject-IsRetained "stale" d))
        | inr newer ↦
            rw (newer, check_version) (write_binary-Outcome pkg bytes d w (ground (arith, newer)))
      ]
