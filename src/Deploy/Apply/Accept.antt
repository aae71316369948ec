-- ===== src/Deploy/Apply/Accept.antt =====
-- What `handle_apply_manifest` of crates/agent/src/p2p/handlers/apply.rs accepts and rejects, and the
-- trusted owner through it.
use peer_deploy.Prelude.{
  ◌<◌, String, ◌≡◌, refl, ap, ◌∙◌, ◌⊎◌, inl, inr, Bool, true, false, none, some, List, arith,
  str_eq, eq_iff, Bool-cases, Option-cases,
}
use peer_deploy.Prelude.Outcome.{ok, err, Result-cases}
use peer_deploy.Common.Signed.{SignedManifest}
use peer_deploy.Storage.Store.{Bytes}
use peer_deploy.Deploy.Crypto.{Crypto}
use peer_deploy.Deploy.State.{DataDir, load_trusted_owner, save_trusted_owner, load_state}
use peer_deploy.Deploy.Push.{Node}
use peer_deploy.Deploy.Apply.{
  ApplyFiles, Answer, accept_manifest, trust_manifest, signature_holds, handle_apply_manifest,
}
use peer_deploy.Deploy.Apply.Steps.{
  IsRejected, IsInstalled, accept_manifest-outcome, accept_manifest-owner,
}

module _ (crypto : Crypto) (files : ApplyFiles) (id : String) (roles : List String) where
  -- An acceptance: the signature holds over the manifest, the owner was the trusted one or the first,
  -- the version is newer than the node's, and the state is as before but for the new version.
  pub record IsAccepted (signed : SignedManifest) (n : Node) (r : Answer) : Type 0 where
    pub sig : Bytes
    pub decoded : crypto.decode signed.signature_b64 ≡ ok sig
    pub verified :
        crypto.verify_bytes_ed25519 signed.owner_pub_bs58
          (crypto.text_bytes signed.manifest_toml)
          sig
        ≡ ok true
    pub owner :
        (load_trusted_owner n.dir ≡ none) ⊎ (load_trusted_owner n.dir ≡ some signed.owner_pub_bs58)
    pub newer : (load_state n.dir).manifest_version < signed.version
    pub installed : IsInstalled signed n r

  save_trusted_owner-state :
      (w : Bool) (o : String) (d : DataDir) → (save_trusted_owner w o d).state_json ≡ d.state_json
  unfolding save_trusted_owner
  save_trusted_owner-state true o d = refl
  save_trusted_owner-state false o d = refl

  -- What follows the check of the signature when the manifest is installed.
  record IsTrusted (signed : SignedManifest) (n : Node) (r : Answer) : Type 0 where
    trusted :
        (load_trusted_owner n.dir ≡ none) ⊎ (load_trusted_owner n.dir ≡ some signed.owner_pub_bs58)
    above : (load_state n.dir).manifest_version < signed.version
    done : IsInstalled signed n r

  abbrev IsTrusting : SignedManifest → Node → Answer → Type 0
  IsTrusting signed n r = IsTrusted signed n r ⊎ IsRejected n r

  trust_first :
      (signed : SignedManifest) (n : Node)
      → files.state_written ≡ true
      → load_trusted_owner n.dir ≡ none
      → (w : Bool)
      → IsTrusting signed n (
          accept_manifest crypto files id roles signed
            (record n { dir = save_trusted_owner w signed.owner_pub_bs58 n.dir }))
  unfolding save_trusted_owner load_state
  trust_first signed n sw absent true =
      elim (accept_manifest-outcome crypto files id roles signed
        (record n { dir = save_trusted_owner true signed.owner_pub_bs58 n.dir }) sw) [
          | inl (newer, i) ↦ inl (record {
            trusted = inl absent;
            above = newer;
            done = record { message = i.message; accepted = i.accepted; state = i.state };
          })
          | inr r ↦ inr (record {
            reason = r.reason;
            rejected = r.rejected;
            supervisor = r.supervisor;
            state_json = r.state_json;
            desired_manifest = r.desired_manifest;
          })
        ]
  trust_first signed n sw absent false =
      elim (accept_manifest-outcome crypto files id roles signed n sw) [
        | inl (newer, i) ↦ inl (record { trusted = inl absent; above = newer; done = i })
        | inr r ↦ inr r
      ]

  reject_early : (reason : String) (n : Node) → IsRejected n (err reason, n)
  reject_early reason n = record {
    reason = reason;
    rejected = refl;
    supervisor = refl;
    state_json = refl;
    desired_manifest = refl;
  }

  trust_manifest-outcome :
      (signed : SignedManifest) (n : Node)
      → files.state_written ≡ true
      → IsTrusting signed n (trust_manifest crypto files id roles signed n)
  unfolding trust_manifest
  trust_manifest-outcome signed n w = elim (Option-cases (load_trusted_owner n.dir)) [
    | inl absent ↦ rw (absent, trust_manifest) (trust_first signed n w absent files.owner_written)
    | inr (o, known) ↦ elim (Bool-cases (str_eq o signed.owner_pub_bs58)) [
      | inr foreign ↦
          rw (known, trust_manifest, foreign)
            (inr (reject_early "manifest rejected (owner mismatch)" n))
      | inl same ↦
          rw (known, trust_manifest, same)
            (elim (accept_manifest-outcome crypto files id roles signed n w) [
              | inl (newer, i) ↦ inl (record {
                trusted = inr (known ∙ ap some ((eq_iff o signed.owner_pub_bs58).0 same));
                above = newer;
                done = i;
              })
              | inr r ↦ inr r
            ])
    ]
  ]

  signature_holds_verified :
      (signed : SignedManifest) (sig : Bytes)
      → signature_holds crypto files id roles signed sig ≡ true
      → crypto.verify_bytes_ed25519 signed.owner_pub_bs58
          (crypto.text_bytes signed.manifest_toml)
          sig
        ≡ ok true
  unfolding signature_holds
  signature_holds_verified signed sig h = ground (arith, h)

  -- When the state is written, the handler either accepts a manifest, which it does only if the
  -- signature holds, the owner was the trusted one or none was recorded, and the version is above
  -- the node's, which it then is; or it rejects it, and then the supervisor, the state and the
  -- desired manifest are as before.
  pub handle_apply_manifest-outcome :
      (signed : SignedManifest) (n : Node)
      → files.state_written ≡ true
      → IsAccepted signed n (handle_apply_manifest crypto files id roles signed n)
        ⊎ IsRejected n (handle_apply_manifest crypto files id roles signed n)
  unfolding handle_apply_manifest
  handle_apply_manifest-outcome signed n w =
      elim (Result-cases (crypto.decode signed.signature_b64)) [
        | inr (e, bad) ↦ rw (bad, handle_apply_manifest) (inr (reject_early _ n))
        | inl (sig, good) ↦ elim (Bool-cases (signature_holds crypto files id roles signed sig)) [
          | inr bad ↦
              rw (good, handle_apply_manifest, bad) (inr (reject_early "manifest rejected (sig)" n))
          | inl valid ↦
              rw (good, handle_apply_manifest, valid)
                (elim (trust_manifest-outcome signed n w) [
                  | inl t ↦ inl (record {
                    sig = sig;
                    decoded = good;
                    verified = signature_holds_verified signed sig valid;
                    owner = t.trusted;
                    newer = t.above;
                    installed = t.done;
                  })
                  | inr r ↦ inr r
                ])
        ]
      ]

  trust_manifest-keeps :
      (signed : SignedManifest) (o : String) (n : Node)
      → load_trusted_owner n.dir ≡ some o
      → (trust_manifest crypto files id roles signed n).1.dir.owner_pub ≡ n.dir.owner_pub
  unfolding trust_manifest
  trust_manifest-keeps signed o n known = elim (Bool-cases (str_eq o signed.owner_pub_bs58)) [
    | inr foreign ↦ rw (known, trust_manifest, foreign) refl
    | inl same ↦
        rw (known, trust_manifest, same) (accept_manifest-owner crypto files id roles signed n)
  ]

  pub handle_apply_manifest-owner :
      (signed : SignedManifest) (o : String) (n : Node)
      → load_trusted_owner n.dir ≡ some o
      → (handle_apply_manifest crypto files id roles signed n).1.dir.owner_pub ≡ n.dir.owner_pub
  unfolding handle_apply_manifest
  handle_apply_manifest-owner signed o n known =
      elim (Result-cases (crypto.decode signed.signature_b64)) [
        | inr (e, bad) ↦ rw (bad, handle_apply_manifest) refl
        | inl (sig, good) ↦ elim (Bool-cases (signature_holds crypto files id roles signed sig)) [
          | inr bad ↦ rw (good, handle_apply_manifest, bad) refl
          | inl valid ↦
              rw (good, handle_apply_manifest, valid) (trust_manifest-keeps signed o n known)
        ]
      ]
