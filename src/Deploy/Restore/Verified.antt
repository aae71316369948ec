-- ===== src/Deploy/Restore/Verified.antt =====
-- What `Supervisor::restore_from_disk` of crates/agent/src/supervisor.rs lets run after a restart.
use peer_deploy.Prelude.{
  String, ◌≡◌, refl, sym, ap, inl, inr, true, Option, none, some, List, [], ◌∷◌, arith, ltb, eq_iff,
  Bool-cases, Option-cases,
}
use Prim.Native.String.{len}
use mathlib.Core.Path.{subst}
use peer_deploy.Prelude.Dict
use peer_deploy.Prelude.Dict.{Dict}
use peer_deploy.Prelude.Entries.{Entries}
use peer_deploy.Prelude.Outcome.{Result-cases}
use peer_deploy.Common.Component.{ComponentSpec, matches_target}
use peer_deploy.Storage.Store.{Bytes}
use peer_deploy.Supervisor.{Supervisor, DesiredComponent, set_desired}
use peer_deploy.Deploy.Crypto.{Crypto, artifact_path}
use peer_deploy.Deploy.State.{DataDir, load_desired_manifest}
use peer_deploy.Deploy.Restore.{
  with_component, is_cached, restore_components, set_restored, restore_from_disk,
}

pub some-inj : (s t : Supervisor) → some s ≡ some t → s ≡ t
some-inj s t h = ap (λ o. elim o [ none ↦ s | some u ↦ u ]) h

module _ (crypto : Crypto) (dir : DataDir) (peer_id : Option String)
    (roles : Option (List String)) where
  -- A component that may run on this node: it is meant for it and to be started, and the bytes at its
  -- path have its digest.
  pub record IsVerified (name : String) (c : DesiredComponent) : Type 0 where
    pub named : c.name ≡ name
    pub targeted : matches_target c.spec peer_id roles ≡ true
    pub starts : c.spec.start ≡ true
    pub bytes : Bytes
    pub stored : Dict.get dir.artifacts c.path ≡ some bytes
    pub digest : crypto.sha256_hex bytes ≡ c.spec.sha256_hex

  is_cached-found :
      (name : String) (spec : ComponentSpec)
      → is_cached crypto dir peer_id roles name spec ≡ true
      → (bytes : Bytes) × (Dict.get dir.artifacts (artifact_path name spec.sha256_hex) ≡ some bytes)
        × (crypto.sha256_hex bytes ≡ spec.sha256_hex)
  unfolding is_cached
  is_cached-found name spec h =
      elim (Option-cases (Dict.get dir.artifacts (artifact_path name spec.sha256_hex))) [
        | inl missing ↦ absurd (ground (arith, rw (missing, is_cached) at h))
        | inr (bytes, found) ↦ (
          bytes,
          found,
          (eq_iff (crypto.sha256_hex bytes) spec.sha256_hex).0 (rw (found, is_cached) at h),
        )
      ]

  -- Every entry is verified; nothing is said of a panic.
  abbrev pub AllVerified : Option (Dict DesiredComponent) → Type 0
  AllVerified none = Unit
  AllVerified (some desired) = Entries IsVerified desired

  with_component-AllVerified :
      (name : String) (spec : ComponentSpec) (rest : Option (Dict DesiredComponent))
      → IsVerified name
          (record { name = name; path = artifact_path name spec.sha256_hex; spec = spec })
      → AllVerified rest
      → AllVerified (with_component name spec rest)
  with_component-AllVerified name spec none v h = tt
  with_component-AllVerified name spec (some rest) v h = (v, h)

  restore_components-AllVerified :
      (components : Dict ComponentSpec)
      → AllVerified (restore_components crypto dir peer_id roles components)
  unfolding restore_components
  restore_components-AllVerified [] = tt
  restore_components-AllVerified ((name, spec) ∷ components) =
      let rest = restore_components-AllVerified components in
      elim (Bool-cases (matches_target spec peer_id roles)) [
        | inr elsewhere ↦ rw (elsewhere) rest
        | inl here ↦ rw (here) (elim (Bool-cases spec.start) [
          | inr staged ↦ rw (staged) rest
          | inl starts ↦ simp (starts) (elim (Bool-cases (ltb (len spec.sha256_hex) 16)) [
            | inl short ↦ rw (short, AllVerified) tt
            | inr long ↦
                rw (long) (elim (Bool-cases (is_cached crypto dir peer_id roles name spec)) [
                  | inr missing ↦ rw (missing) rest
                  | inl cached ↦
                      let (bytes, found, same) = is_cached-found name spec cached in
                      rw (cached) (
                        with_component-AllVerified name spec
                          (restore_components crypto dir peer_id roles components)
                          (record {
                            named = refl;
                            targeted = here;
                            starts = starts;
                            bytes = bytes;
                            stored = found;
                            digest = same;
                          })
                          rest)
                ])
          ])
        ])
      ]

  set_restored-IsVerified :
      (r : Option (Dict DesiredComponent)) (s s' : Supervisor)
      → AllVerified r
      → Entries IsVerified s.desired
      → set_restored crypto dir peer_id roles r s ≡ some s'
      → Entries IsVerified s'.desired
  unfolding set_desired
  set_restored-IsVerified none s s' v e h = absurd (ground (arith, h))
  set_restored-IsVerified (some []) s s' v e h =
      subst (λ t. Entries IsVerified t.desired) (some-inj s s' h) e
  set_restored-IsVerified (some (c ∷ desired)) s s' v e h =
      subst (λ t. Entries IsVerified t.desired) (some-inj (set_desired (c ∷ desired) s) s' h) v

  -- After a restart, every desired component is meant for this node and is to be started, and the
  -- bytes at its path have the digest that the manifest declares, unless the restoration panics. This
  -- is so for a supervisor that has no desired component before.
  pub restore_from_disk-IsVerified :
      (s s' : Supervisor)
      → s.desired ≡ []
      → restore_from_disk crypto dir peer_id roles s ≡ some s'
      → Entries IsVerified s'.desired
  unfolding restore_from_disk
  restore_from_disk-IsVerified s s' empty h =
      let nothing = subst (Entries IsVerified) (sym empty) tt in
      let unchanged = λ (e : some s ≡ some s').
        subst (λ (t : Supervisor). Entries IsVerified t.desired) (some-inj s s' e) nothing in
      elim (Option-cases (load_desired_manifest dir)) [
        | inl absent ↦ unchanged (rw (absent, restore_from_disk) at h)
        | inr (toml, found) ↦ elim (Result-cases (crypto.parse_manifest toml)) [
          | inr (e, bad) ↦ unchanged (rw (found, restore_from_disk, bad) at h)
          | inl (manifest, good) ↦
              set_restored-IsVerified
                (restore_components crypto dir peer_id roles manifest.components) s s'
                (restore_components-AllVerified manifest.components) nothing
                (rw (found, restore_from_disk, good) at h)
        ]
      ]
