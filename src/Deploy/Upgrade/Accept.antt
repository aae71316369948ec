-- ===== src/Deploy/Upgrade/Accept.antt =====
-- What `handle_upgrade` of crates/agent/src/p2p/handlers/upgrade.rs lets run, and the trusted owner
-- through it.
use peer_deploy.Prelude.{
  String, ◌≡◌, refl, ap, ◌∙◌, ◌⊎◌, inl, inr, Bool, true, false, Option, none, some, arith, str_eq,
  eq_iff, Bool-cases, Option-cases,
}
use peer_deploy.Prelude.Outcome.{Result, ok, err, Result-cases}
use peer_deploy.Common.Signed.{AgentUpgrade}
use peer_deploy.Storage.Store.{Bytes}
use peer_deploy.Binary.Host.{Target, TargetError, binary_target_matches_host}
use peer_deploy.Binary.Safety.{binary_target_matches_host-ne-none}
use peer_deploy.Deploy.Crypto.{Crypto}
use peer_deploy.Deploy.State.{DataDir, load_trusted_owner, save_trusted_owner, load_state}
use peer_deploy.Deploy.Upgrade.{
  UpgradeHost, Upgraded, reject, platform_differs, check_version, check_target, check_digest,
  upgrade_signed, trust_upgrade, handle_upgrade,
}
use peer_deploy.Deploy.Upgrade.Steps.{
  IsRetained, IsSwitched, reject-IsRetained, check_version-Outcome,
}

-- The call returns, and what it returns is an outcome.
abbrev pub Ends : (Upgraded → Type 0) → Option Upgraded → Type 0
Ends P none = ⊥
Ends P (some u) = P u

module _ (crypto : Crypto) (host : UpgradeHost) where
  -- What was checked before the new process was started.
  pub record IsVetted (pkg : AgentUpgrade) (d : DataDir) : Type 0 where
    pub sig : Bytes
    pub bin : Bytes
    pub decoded :
        (crypto.decode pkg.signature_b64 ≡ ok sig) × (crypto.decode pkg.binary_b64 ≡ ok bin)
    pub verified : crypto.verify_bytes_ed25519 pkg.owner_pub_bs58 bin sig ≡ ok true
    pub owner : (load_trusted_owner d ≡ none) ⊎ (load_trusted_owner d ≡ some pkg.owner_pub_bs58)
    pub digest : crypto.sha256_hex bin ≡ pkg.binary_sha256_hex
    pub target : Target
    pub fits : binary_target_matches_host host.os host.arch bin ≡ some (ok target)
    pub platform : platform_differs host pkg.target_platform ≡ false

  abbrev pub Vetted : AgentUpgrade → DataDir → Upgraded → Type 0
  Vetted pkg d u = (IsVetted pkg d × IsSwitched pkg d u) ⊎ IsRetained d u

  -- The checks from the digest on.
  record IsChecked (pkg : AgentUpgrade) (bin : Bytes) : Type 0 where
    digest : crypto.sha256_hex bin ≡ pkg.binary_sha256_hex
    target : Target
    fits : binary_target_matches_host host.os host.arch bin ≡ some (ok target)
    platform : platform_differs host pkg.target_platform ≡ false

  abbrev Checked : AgentUpgrade → Bytes → DataDir → Upgraded → Type 0
  Checked pkg bin d u = (IsChecked pkg bin × IsSwitched pkg d u) ⊎ IsRetained d u

  rejected :
      (pkg : AgentUpgrade) (bin : Bytes) (d : DataDir) (reason : String)
      → Checked pkg bin d (reject reason d)
  rejected pkg bin d reason = inr (reject-IsRetained crypto host reason d)

  check_version-Checked :
      (pkg : AgentUpgrade) (bin : Bytes) (d : DataDir)
      → host.state_written ≡ true
      → IsChecked pkg bin
      → Checked pkg bin d (check_version crypto host pkg bin d)
  check_version-Checked pkg bin d w c = elim (check_version-Outcome crypto host pkg bin d w) [
    | inl s ↦ inl (c, s)
    | inr r ↦ inr r
  ]

  check_target-outcome :
      (pkg : AgentUpgrade) (bin : Bytes) (d : DataDir)
      → host.state_written ≡ true
      → crypto.sha256_hex bin ≡ pkg.binary_sha256_hex
      → (v : Option (Result Target TargetError))
      → binary_target_matches_host host.os host.arch bin ≡ v
      → Ends (Checked pkg bin d) (check_target crypto host pkg bin d)
  unfolding check_target
  check_target-outcome pkg bin d w g none e =
      absurd (binary_target_matches_host-ne-none host.os host.arch bin e)
  check_target-outcome pkg bin d w g (some (err t)) e =
      rw (e, check_target, Ends) (rejected pkg bin d "target mismatch")
  check_target-outcome pkg bin d w g (some (ok t)) e =
      elim (Bool-cases (platform_differs host pkg.target_platform)) [
        | inl other ↦ rw (e, check_target, other, Ends) (rejected pkg bin d "platform")
        | inr same ↦
            rw (e, check_target, same, Ends)
              (check_version-Checked pkg bin d w
                (record { digest = g; target = t; fits = e; platform = same }))
      ]

  check_digest-outcome :
      (pkg : AgentUpgrade) (bin : Bytes) (d : DataDir)
      → host.state_written ≡ true
      → Ends (Checked pkg bin d) (check_digest crypto host pkg bin d)
  unfolding check_digest
  check_digest-outcome pkg bin d w =
      elim (Bool-cases (str_eq (crypto.sha256_hex bin) pkg.binary_sha256_hex)) [
        | inr other ↦ rw (other, check_digest, Ends) (rejected pkg bin d "digest mismatch")
        | inl same ↦
            rw (same, check_digest)
              (check_target-outcome pkg bin d w
                ((eq_iff (crypto.sha256_hex bin) pkg.binary_sha256_hex).0 same) _ refl)
      ]

  -- The record of the first owner does not touch the versions.
  first_owner :
      (pkg : AgentUpgrade) (bin : Bytes) (d : DataDir) (written : Bool) (u : Option Upgraded)
      → Ends (Checked pkg bin (save_trusted_owner written pkg.owner_pub_bs58 d)) u
      → Ends (Checked pkg bin d) u
  unfolding save_trusted_owner load_state
  first_owner pkg bin d written none h = absurd h
  first_owner pkg bin d false (some u) h = h
  first_owner pkg bin d true (some u) (inl (c, s)) = inl (
    c,
    record {
      exited = s.exited;
      newer = s.newer;
      agent_version = s.agent_version;
      previous = s.previous;
      manifest_version = s.manifest_version;
    },
  )
  first_owner pkg bin d true (some u) (inr r) = inr (record {
    retained = r.retained;
    agent_version = r.agent_version;
    manifest_version = r.manifest_version;
    previous = r.previous;
  })

  record IsTrusted (pkg : AgentUpgrade) (bin : Bytes) (d : DataDir) (u : Upgraded) : Type 0 where
    owner : (load_trusted_owner d ≡ none) ⊎ (load_trusted_owner d ≡ some pkg.owner_pub_bs58)
    checked : IsChecked pkg bin
    switched : IsSwitched pkg d u

  abbrev Trusted : AgentUpgrade → Bytes → DataDir → Upgraded → Type 0
  Trusted pkg bin d u = IsTrusted pkg bin d u ⊎ IsRetained d u

  with_owner :
      (pkg : AgentUpgrade) (bin : Bytes) (d : DataDir) (u : Option Upgraded)
      → (load_trusted_owner d ≡ none) ⊎ (load_trusted_owner d ≡ some pkg.owner_pub_bs58)
      → Ends (Checked pkg bin d) u
      → Ends (Trusted pkg bin d) u
  with_owner pkg bin d none o h = absurd h
  with_owner pkg bin d (some u) o (inl (c, s)) =
      inl (record { owner = o; checked = c; switched = s })
  with_owner pkg bin d (some u) o (inr r) = inr r

  trust_upgrade-outcome :
      (pkg : AgentUpgrade) (bin : Bytes) (d : DataDir)
      → host.state_written ≡ true
      → Ends (Trusted pkg bin d) (trust_upgrade crypto host pkg bin d)
  unfolding trust_upgrade
  trust_upgrade-outcome pkg bin d w = elim (Option-cases (load_trusted_owner d)) [
    | inl absent ↦
        let d' = save_trusted_owner host.owner_written pkg.owner_pub_bs58 d in
        rw (absent, trust_upgrade)
          (with_owner pkg bin d (check_digest crypto host pkg bin d') (inl absent) (
            first_owner pkg bin d host.owner_written (check_digest crypto host pkg bin d')
              (check_digest-outcome pkg bin d' w)))
    | inr (o, known) ↦ elim (Bool-cases (str_eq o pkg.owner_pub_bs58)) [
      | inr foreign ↦
          rw (known, trust_upgrade, foreign, Ends)
            (inr (reject-IsRetained crypto host "owner mismatch" d))
      | inl same ↦
          rw (known, trust_upgrade, same)
            (with_owner pkg bin d (check_digest crypto host pkg bin d)
              (inr (known ∙ ap some ((eq_iff o pkg.owner_pub_bs58).0 same)))
              (check_digest-outcome pkg bin d w))
    ]
  ]

  vetted :
      (pkg : AgentUpgrade) (sig bin : Bytes) (d : DataDir) (u : Option Upgraded)
      → (crypto.decode pkg.signature_b64 ≡ ok sig) × (crypto.decode pkg.binary_b64 ≡ ok bin)
      → crypto.verify_bytes_ed25519 pkg.owner_pub_bs58 bin sig ≡ ok true
      → Ends (Trusted pkg bin d) u
      → Ends (Vetted pkg d) u
  vetted pkg sig bin d none g v h = absurd h
  vetted pkg sig bin d (some u) g v (inl t) = inl (
    record {
      sig = sig;
      bin = bin;
      decoded = g;
      verified = v;
      owner = t.owner;
      digest = t.checked.digest;
      target = t.checked.target;
      fits = t.checked.fits;
      platform = t.checked.platform;
    },
    t.switched,
  )
  vetted pkg sig bin d (some u) g v (inr r) = inr r

  upgrade_signed_verified :
      (pkg : AgentUpgrade) (bin sig : Bytes)
      → upgrade_signed crypto host pkg bin sig ≡ true
      → crypto.verify_bytes_ed25519 pkg.owner_pub_bs58 bin sig ≡ ok true
  unfolding upgrade_signed
  upgrade_signed_verified pkg bin sig h = ground (arith, h)

  -- When the state is written, an upgrade ends, on a host with 64-bit addresses, in one of two ways.
  -- Either the old process stays, the agent's and the manifest's versions are as before, and the
  -- previous version is as before or is overwritten with the agent's version. Or the new process
  -- runs, and then its binary has a valid signature of the package's owner, who was trusted or the
  -- first, the declared digest, and a format and platform that fit the host, and the version is the
  -- package's and above the old one, which is kept as the previous one.
  pub handle_upgrade-outcome :
      (pkg : AgentUpgrade) (d : DataDir)
      → host.state_written ≡ true
      → Ends (Vetted pkg d) (handle_upgrade crypto host pkg d)
  unfolding handle_upgrade
  handle_upgrade-outcome pkg d w = elim (Result-cases (crypto.decode pkg.signature_b64)) [
    | inr (e, bad) ↦
        rw (bad, handle_upgrade, Ends) (inr (reject-IsRetained crypto host "bad signature_b64" d))
    | inl (sig, good) ↦ elim (Result-cases (crypto.decode pkg.binary_b64)) [
      | inr (e, bad) ↦
          rw (good, handle_upgrade, bad, Ends)
            (inr (reject-IsRetained crypto host "bad binary_b64" d))
      | inl (bin, fine) ↦ elim (Bool-cases (upgrade_signed crypto host pkg bin sig)) [
        | inr forged ↦
            rw (good, handle_upgrade, fine, forged, Ends)
              (inr (reject-IsRetained crypto host "sig" d))
        | inl valid ↦
            rw (good, handle_upgrade, fine, valid)
              (vetted pkg sig bin d (trust_upgrade crypto host pkg bin d) (good, fine)
                (upgrade_signed_verified pkg bin sig valid) (trust_upgrade-outcome pkg bin d w))
      ]
    ]
  ]
