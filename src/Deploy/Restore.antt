-- ===== src/Deploy/Restore.antt =====
-- `Supervisor::restore_from_disk` of crates/agent/src/supervisor.rs: the desired set at startup, from
-- the manifest and the artifacts on the disk. An artifact that cannot be read counts as missing; log
-- lines are left out.
pub mod Verified
use Prim.Native.String.{len}
use peer_deploy.Prelude.{
  String, Bool, true, false, not, Option, none, some, List, [], ◌∷◌, ltb, str_eq, if◌then◌else◌,
}
use peer_deploy.Prelude.Dict
use peer_deploy.Prelude.Dict.{Dict}
use peer_deploy.Prelude.Outcome.{ok, err}
use peer_deploy.Common.Component.{ComponentSpec, matches_target}
use peer_deploy.Storage.Store.{Bytes}
use peer_deploy.Supervisor.{Supervisor, DesiredComponent, set_desired}
use peer_deploy.Deploy.Crypto.{Crypto, artifact_path}
use peer_deploy.Deploy.State.{DataDir, load_desired_manifest}

-- One component of the manifest that is restored.
abbrev pub with_component :
    String → ComponentSpec → Option (Dict DesiredComponent) → Option (Dict DesiredComponent)
with_component name spec none = none
with_component name spec (some rest) =
    some (
      (name, record { name = name; path = artifact_path name spec.sha256_hex; spec = spec }) ∷ rest)

module _ (crypto : Crypto) (dir : DataDir) (peer_id : Option String)
    (roles : Option (List String)) where
  -- The cached artifact has the declared digest.
  unfoldable pub is_cached : String → ComponentSpec → Bool
  is_cached name spec = elim (Dict.get dir.artifacts (artifact_path name spec.sha256_hex)) [
    | none ↦ false
    | some bytes ↦ str_eq (crypto.sha256_hex bytes) spec.sha256_hex
  ]

  -- The loop over the components. They come in the order of their names, so that the desired set is
  -- built in its own order. `none` is the panic of `&spec.sha256_hex[..16]`.
  unfoldable pub restore_components : Dict ComponentSpec → Option (Dict DesiredComponent)
  unfolding is_cached
  restore_components [] = some []
  restore_components ((name, spec) ∷ components) =
      let rest = restore_components components in
      if not (matches_target spec peer_id roles)
      then rest
      else if not spec.start
      then rest
      else if ltb (len spec.sha256_hex) 16
      then none
      else if is_cached name spec
      then with_component name spec rest
      else rest

  -- `if !desired.is_empty()`
  abbrev pub set_restored : Option (Dict DesiredComponent) → Supervisor → Option Supervisor
  set_restored none s = none
  set_restored (some []) s = some s
  set_restored (some (c ∷ desired)) s = some (set_desired (c ∷ desired) s)

  unfoldable pub restore_from_disk : Supervisor → Option Supervisor
  unfolding restore_components
  restore_from_disk s = elim (load_desired_manifest dir) [
    | none ↦ some s
    | some manifest_toml ↦ elim (crypto.parse_manifest manifest_toml) [
      | err e ↦ some s
      | ok manifest ↦ set_restored (restore_components manifest.components) s
    ]
  ]
