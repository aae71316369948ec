-- ===== src/Deploy/Push/Trust.antt =====
-- What `handle_push_package` of crates/agent/src/p2p/handlers/push.rs accepts, and the trusted owner
-- through it.
use peer_deploy.Prelude.{
  String, ◌≡◌, refl, ap, ◌∙◌, ◌⊎◌, inl, inr, Bool, true, false, none, some, arith, str_eq, eq_iff,
  Bool-cases, Option-cases,
}
use peer_deploy.Prelude.Outcome.{Result, ok, Result-cases}
use peer_deploy.Common.Component.{ComponentSpec}
use peer_deploy.Common.Signed.{PushUnsigned, PushPackage}
use peer_deploy.Storage.Store.{Bytes}
use peer_deploy.Deploy.Crypto.{Crypto, artifact_path}
use peer_deploy.Deploy.State.{
  DataDir, load_trusted_owner, save_desired_manifest, update_persistent_manifest_with_component,
}
use peer_deploy.Deploy.Push.{
  Node, PushFiles, PushAcceptanceError, schedule_push, stage_artifact, stage_push, trust_push,
  check_push_digest, check_push_signature, handle_push_package,
}

module _ (crypto : Crypto) (files : PushFiles) where
  update_persistent_manifest-owner :
      (written : Bool) (name : String) (spec : ComponentSpec) (d : DataDir)
      → (update_persistent_manifest_with_component crypto written name spec d).owner_pub
        ≡ d.owner_pub
  unfolding update_persistent_manifest_with_component save_desired_manifest
  update_persistent_manifest-owner written name spec d = ground arith

  schedule_push-owner :
      (u : PushUnsigned) (path : String) (n : Node)
      → (schedule_push crypto files u path n).dir.owner_pub ≡ n.dir.owner_pub
  unfolding schedule_push
  schedule_push-owner u path n = elim (Bool-cases u.start) [
    | inl start ↦
        rw (start)
          (update_persistent_manifest-owner files.manifest_written u.component_name _ n.dir)
    | inr staged ↦ rw (staged) refl
  ]

  stage_artifact-owner :
      (path : String) (bytes : Bytes) (d e : DataDir)
      → stage_artifact crypto files path bytes d ≡ some e
      → e.owner_pub ≡ d.owner_pub
  unfolding stage_artifact
  stage_artifact-owner path bytes d e h = ground (arith, h)

  stage_push-owner :
      (u : PushUnsigned) (bytes : Bytes) (n : Node)
      → (stage_push crypto files u bytes n).1.dir.owner_pub ≡ n.dir.owner_pub
  unfolding stage_push
  stage_push-owner u bytes n =
      let path = artifact_path u.component_name (crypto.sha256_hex bytes) in
      elim (Bool-cases files.stage_dir_created) [
        | inl created ↦
            rw (created) (elim (Option-cases (stage_artifact crypto files path bytes n.dir)) [
              | inl failed ↦ rw (failed) refl
              | inr (d, staged) ↦ rw (staged) (
                  schedule_push-owner u path (record n { dir = d })
                  ∙ stage_artifact-owner path bytes n.dir d staged)
            ])
        | inr failed ↦ rw (failed) refl
      ]

  -- A push package that is accepted.
  pub record IsAuthentic (pkg : PushPackage) (n : Node) : Type 0 where
    sig : Bytes
    bin : Bytes
    decoded : (crypto.decode pkg.signature_b64 ≡ ok sig) × (crypto.decode pkg.binary_b64 ≡ ok bin)
    verified :
        crypto.verify_bytes_ed25519 pkg.unsigned.owner_pub_bs58
          (crypto.unsigned_bytes pkg.unsigned)
          sig
        ≡ ok true
    digest : crypto.sha256_hex bin ≡ pkg.unsigned.binary_sha256_hex
    owner :
        (load_trusted_owner n.dir ≡ none)
        ⊎ (load_trusted_owner n.dir ≡ some pkg.unsigned.owner_pub_bs58)

  trust_push-owner :
      (u : PushUnsigned) (bytes : Bytes) (n : Node)
      → (trust_push crypto files u bytes n).0 ≡ ok tt
      → (load_trusted_owner n.dir ≡ none) ⊎ (load_trusted_owner n.dir ≡ some u.owner_pub_bs58)
  unfolding trust_push
  trust_push-owner u bytes n h = elim (Option-cases (load_trusted_owner n.dir)) [
    | inl absent ↦ inl absent
    | inr (trusted, known) ↦ elim (Bool-cases (str_eq trusted u.owner_pub_bs58)) [
      | inl same ↦ inr (known ∙ ap some ((eq_iff trusted u.owner_pub_bs58).0 same))
      | inr other ↦ absurd (ground (arith, rw (known, other, trust_push) at h))
    ]
  ]

  check_push_digest-IsAuthentic :
      (pkg : PushPackage) (sig : Bytes) (n : Node)
      → crypto.decode pkg.signature_b64 ≡ ok sig
      → crypto.verify_bytes_ed25519 pkg.unsigned.owner_pub_bs58
          (crypto.unsigned_bytes pkg.unsigned)
          sig
        ≡ ok true
      → (check_push_digest crypto files pkg n).0 ≡ ok tt
      → IsAuthentic pkg n
  unfolding check_push_digest
  check_push_digest-IsAuthentic pkg sig n d v h =
      elim (Result-cases (crypto.decode pkg.binary_b64)) [
        | inr (e, bad) ↦ absurd (ground (arith, rw (bad, check_push_digest) at h))
        | inl (bin, good) ↦
            elim (Bool-cases (str_eq (crypto.sha256_hex bin) pkg.unsigned.binary_sha256_hex)) [
              | inr other ↦ absurd (ground (arith, rw (good, other, check_push_digest) at h))
              | inl same ↦ record {
                sig = sig;
                bin = bin;
                decoded = (d, good);
                verified = v;
                digest = (eq_iff (crypto.sha256_hex bin) pkg.unsigned.binary_sha256_hex).0 same;
                owner =
                    trust_push-owner pkg.unsigned bin n (rw (good, same, check_push_digest) at h);
              }
            ]
      ]

  check_push_signature-IsAuthentic :
      (pkg : PushPackage) (sig : Bytes) (n : Node)
      → crypto.decode pkg.signature_b64 ≡ ok sig
      → (check_push_signature crypto files pkg sig n).0 ≡ ok tt
      → IsAuthentic pkg n
  unfolding check_push_signature
  check_push_signature-IsAuthentic pkg sig n d h =
      elim (Result-cases (
        crypto.verify_bytes_ed25519 pkg.unsigned.owner_pub_bs58 (crypto.unsigned_bytes pkg.unsigned)
          sig)) [
            | inr (e, bad) ↦ absurd (ground (arith, rw (bad, check_push_signature) at h))
            | inl (false, bad) ↦ absurd (ground (arith, rw (bad, check_push_signature) at h))
            | inl (true, good) ↦
                check_push_digest-IsAuthentic pkg sig n d good
                  (rw (good, check_push_signature) at h)
          ]

  -- A push package that the handler accepts has a signature of its owner over the package, and a
  -- binary whose digest is the declared one; and its owner was the trusted one, or none was recorded
  -- before.
  pub handle_push_package-IsAuthentic :
      (pkg : PushPackage) (n : Node)
      → (handle_push_package crypto files pkg n).0 ≡ ok tt
      → IsAuthentic pkg n
  unfolding handle_push_package
  handle_push_package-IsAuthentic pkg n h = elim (Result-cases (crypto.decode pkg.signature_b64)) [
    | inr (e, bad) ↦ absurd (ground (arith, rw (bad, handle_push_package) at h))
    | inl (sig, good) ↦
        check_push_signature-IsAuthentic pkg sig n good (rw (good, handle_push_package) at h)
  ]

  -- A node whose owner file is as before.
  abbrev KeepsOwner : Node → Result Unit PushAcceptanceError × Node → Type 0
  KeepsOwner n r = r.1.dir.owner_pub ≡ n.dir.owner_pub

  check_push_digest-keeps :
      (pkg : PushPackage) (o : String) (n : Node)
      → load_trusted_owner n.dir ≡ some o
      → KeepsOwner n (check_push_digest crypto files pkg n)
  unfolding check_push_digest trust_push
  check_push_digest-keeps pkg o n h = elim (Result-cases (crypto.decode pkg.binary_b64)) [
    | inr (e, bad) ↦ rw (bad, check_push_digest) refl
    | inl (bin, good) ↦
        rw (good, check_push_digest)
          (elim (Bool-cases (str_eq (crypto.sha256_hex bin) pkg.unsigned.binary_sha256_hex)) [
            | inr other ↦ rw (other) refl
            | inl same ↦
                rw (same, h, trust_push)
                  (elim (Bool-cases (str_eq o pkg.unsigned.owner_pub_bs58)) [
                    | inr foreign ↦ rw (foreign) refl
                    | inl trusted ↦ rw (trusted) (stage_push-owner pkg.unsigned bin n)
                  ])
          ])
  ]

  pub handle_push_package-owner :
      (pkg : PushPackage) (o : String) (n : Node)
      → load_trusted_owner n.dir ≡ some o
      → KeepsOwner n (handle_push_package crypto files pkg n)
  unfolding handle_push_package check_push_signature
  handle_push_package-owner pkg o n h = elim (Result-cases (crypto.decode pkg.signature_b64)) [
    | inr (e, bad) ↦ rw (bad, handle_push_package) refl
    | inl (sig, good) ↦
        rw (good, handle_push_package)
          (elim (Result-cases (
            crypto.verify_bytes_ed25519 pkg.unsigned.owner_pub_bs58
              (crypto.unsigned_bytes pkg.unsigned) sig)) [
                | inr (e, bad) ↦ rw (bad, check_push_signature) refl
                | inl (false, bad) ↦ rw (bad, check_push_signature) refl
                | inl (true, valid) ↦
                    rw (valid, check_push_signature) (check_push_digest-keeps pkg o n h)
              ])
  ]
