-- ===== src/Web/Components/Removed.antt =====
-- The manifest after the removal of a component (crates/agent/src/web/handlers.rs), and what `restore_from_disk` of
-- crates/agent/src/supervisor.rs makes of it.
use peer_deploy.Prelude.{
  String, ◌≡◌, refl, sym, ap, ◌∙◌, inl, inr, true, false, Option, none, some, List, [], ◌∷◌, arith,
  str_eq, eq_refl, Bool-cases, Option-cases, ltb, if◌then◌else◌,
}
use Prim.Native.String.{len}
use mathlib.Core.Path.{subst}
use peer_deploy.Prelude.Dict
use peer_deploy.Prelude.Dict.{Dict, is_some}
use peer_deploy.Prelude.Outcome.{ok, Result-cases}
use peer_deploy.Common.Component.{Manifest, ComponentSpec, matches_target}
use peer_deploy.Supervisor.{Supervisor, DesiredComponent, set_desired}
use peer_deploy.Deploy.Crypto.{Crypto}
use peer_deploy.Deploy.State.{DataDir, load_desired_manifest, save_desired_manifest}
use peer_deploy.Deploy.Restore.Verified.{some-inj}
use peer_deploy.Deploy.Restore.{
  with_component, is_cached, restore_components, set_restored, restore_from_disk,
}
use peer_deploy.Web.Components.{without, save_without, remove_component_from_persistent_manifest}

-- toml reads back what it writes.
abbrev pub ReadsBack : Crypto → Type 0
ReadsBack crypto =
    (m : Manifest) (toml : String)
    → crypto.print_manifest m ≡ some toml
    → crypto.parse_manifest toml ≡ ok m

-- The manifest on disk is one without the component.
pub record IsRemoved (crypto : Crypto) (name : String) (d : DataDir) : Type 0 where
  pub toml : String
  pub manifest : Manifest
  pub loaded : load_desired_manifest d ≡ some toml
  pub parsed : crypto.parse_manifest toml ≡ ok manifest
  pub absent : Dict.get manifest.components name ≡ none

module _ (crypto : Crypto) (reads : ReadsBack crypto) where
  save_without-IsRemoved :
      (name : String) (m : Manifest) (d : DataDir)
      → (save_without crypto true name m d).0 ≡ ok tt
      → IsRemoved crypto name (save_without crypto true name m d).1
  unfolding save_without save_desired_manifest load_desired_manifest
  save_without-IsRemoved name m d h = elim (Bool-cases (is_some (Dict.get m.components name))) [
    | inr missing ↦ absurd (ground (arith, rw (missing) at h))
    | inl there ↦ elim (Option-cases (crypto.print_manifest (without name m))) [
      | inl failed ↦ absurd (ground (arith, rw (there, failed) at h))
      | inr (toml, printed) ↦
          rw (there, printed)
            (record {
              toml = toml;
              manifest = without name m;
              loaded = refl;
              parsed = reads (without name m) toml printed;
              absent =
                  Dict.get-remove name name m.components
                  ∙ ap (λ b. if b then none else Dict.get m.components name) (eq_refl name);
            })
    ]
  ]

  pub remove-IsRemoved :
      (name : String) (d : DataDir)
      → (remove_component_from_persistent_manifest crypto true name d).0 ≡ ok tt
      → IsRemoved crypto name (remove_component_from_persistent_manifest crypto true name d).1
  unfolding remove_component_from_persistent_manifest
  remove-IsRemoved name d h = elim (Option-cases (load_desired_manifest d)) [
    | inl missing ↦
        absurd (ground (arith, rw (missing, remove_component_from_persistent_manifest) at h))
    | inr (toml, loaded) ↦ elim (Result-cases (crypto.parse_manifest toml)) [
      | inr (e, bad) ↦
          absurd (ground (arith, rw (loaded, remove_component_from_persistent_manifest, bad) at h))
      | inl (m, good) ↦
          rw (loaded, remove_component_from_persistent_manifest, good)
            (save_without-IsRemoved name m d
              (rw (loaded, remove_component_from_persistent_manifest, good) at h))
    ]
  ]

-- A component that the manifest has not is not restored.
abbrev Lacks : String → Option (Dict DesiredComponent) → Type 0
Lacks name none = Unit
Lacks name (some desired) = Dict.get desired name ≡ none

with_component-Lacks :
    (name k : String) (spec : ComponentSpec) (rest : Option (Dict DesiredComponent))
    → str_eq k name ≡ false
    → Lacks name rest
    → Lacks name (with_component k spec rest)
unfolding Dict.get
with_component-Lacks name k spec none other h = tt
with_component-Lacks name k spec (some rest) other h = ground (arith, other, h)

module _ (crypto : Crypto) (d : DataDir) (peer_id : Option String)
    (roles : Option (List String)) where
  restore_components-Lacks :
      (name : String) (components : Dict ComponentSpec)
      → Dict.get components name ≡ none
      → Lacks name (restore_components crypto d peer_id roles components)
  unfolding restore_components Dict.get
  restore_components-Lacks name [] h = refl
  restore_components-Lacks name ((k, spec) ∷ components) h =
      let other : str_eq k name ≡ false = ground (arith, h) in
      let rest = restore_components-Lacks name components (ground (arith, h, other)) in
      elim (Bool-cases (matches_target spec peer_id roles)) [
        | inr elsewhere ↦ rw (elsewhere) rest
        | inl here ↦ rw (here) (elim (Bool-cases spec.start) [
          | inr staged ↦ rw (staged) rest
          | inl starts ↦ simp (starts) (elim (Bool-cases (ltb (len spec.sha256_hex) 16)) [
            | inl short ↦ rw (short, Lacks) tt
            | inr long ↦ rw (long) (elim (Bool-cases (is_cached crypto d peer_id roles k spec)) [
              | inr stale ↦ rw (stale) rest
              | inl cached ↦ rw (cached) (
                  with_component-Lacks name k spec
                    (restore_components crypto d peer_id roles components) other rest)
            ])
          ])
        ])
      ]

  set_restored-Lacks :
      (name : String) (r : Option (Dict DesiredComponent)) (s s' : Supervisor)
      → Lacks name r
      → s.desired ≡ []
      → set_restored crypto d peer_id roles r s ≡ some s'
      → Dict.get s'.desired name ≡ none
  unfolding set_desired Dict.get
  set_restored-Lacks name none s s' l e h = absurd (ground (arith, h))
  set_restored-Lacks name (some []) s s' l e h =
      subst (λ (t : Supervisor). Dict.get t.desired name ≡ none) (some-inj s s' h)
        (subst (λ m. Dict.get m name ≡ none) (sym e) refl)
  set_restored-Lacks name (some (c ∷ desired)) s s' l e h =
      subst (λ (t : Supervisor). Dict.get t.desired name ≡ none)
        (some-inj (set_desired (c ∷ desired) s) s' h) l

  pub restore_from_disk-absent :
      (name : String) (s s' : Supervisor)
      → IsRemoved crypto name d
      → s.desired ≡ []
      → restore_from_disk crypto d peer_id roles s ≡ some s'
      → Dict.get s'.desired name ≡ none
  unfolding restore_from_disk
  restore_from_disk-absent name s s' r e h =
      set_restored-Lacks name (restore_components crypto d peer_id roles r.manifest.components) s s'
        (restore_components-Lacks name r.manifest.components r.absent) e
        (rw (r.loaded, restore_from_disk, r.parsed) at h)
