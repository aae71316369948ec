-- ===== src/Web/Components.antt =====
-- The stop of a component by the web interface (`api_component_stop` of crates/agent/src/web/handlers.rs). Log lines are left out; an
-- answer is its status code. `written` tells whether the write of the manifest succeeds.
pub mod Removed
pub mod Stopped
use peer_deploy.Prelude.{
  ℕ, String, Bool, not, Option, none, some, List, [], ◌∷◌, str_eq, if◌then◌else◌,
}
use peer_deploy.Prelude.Dict
use peer_deploy.Prelude.Dict.{is_some}
use peer_deploy.Prelude.Outcome.{Result, ok, err}
use peer_deploy.Prelude.Text.{concat}
use peer_deploy.Common.Component.{Manifest}
use peer_deploy.Metrics.{dec_components_running}
use peer_deploy.Supervisor.{Supervisor, cleanup_component}
use peer_deploy.Deploy.Crypto.{Crypto}
use peer_deploy.Deploy.State.{DataDir, load_desired_manifest, save_desired_manifest}
use peer_deploy.Deploy.Push.{Node}

-- `manifest.components.remove(component_name)`
abbrev pub without : String → Manifest → Manifest
without component_name m = record { components = Dict.remove component_name m.components }

module _ (crypto : Crypto) (written : Bool) where
  -- From the removal to the save.
  unfoldable pub save_without : String → Manifest → DataDir → Result Unit String × DataDir
  save_without component_name manifest d =
      if not (is_some (Dict.get manifest.components component_name))
      then (err (concat ("Component '" ∷ component_name ∷ "' not found in manifest" ∷ [])), d)
      else elim (crypto.print_manifest (without component_name manifest)) [
        | none ↦ (err "Failed to serialize manifest", d)
        | some updated_toml ↦ (ok tt, save_desired_manifest written updated_toml d)
      ]

  unfoldable pub remove_component_from_persistent_manifest :
      String → DataDir → Result Unit String × DataDir
  unfolding save_without
  remove_component_from_persistent_manifest component_name d = elim (load_desired_manifest d) [
    | none ↦ (err "No persistent manifest found", d)
    | some manifest_toml ↦ elim (crypto.parse_manifest manifest_toml) [
      | err e ↦ (err (concat ("Failed to parse manifest: " ∷ e ∷ [])), d)
      | ok manifest ↦ save_without component_name manifest d
    ]
  ]

  -- The `?` on the removal, and what follows.
  unfoldable pub end_stop : Result Unit String → DataDir → Supervisor → Result Unit String × Node
  unfolding dec_components_running
  end_stop (err e) d s = (err e, record { dir = d; supervisor = s })
  end_stop (ok _) d s = (
    ok tt,
    record { dir = d; supervisor = record s { metrics = dec_components_running s.metrics } },
  )

  unfoldable pub stop_component : String → Node → Result Unit String × Node
  unfolding remove_component_from_persistent_manifest cleanup_component end_stop
  stop_component component_name n =
      let s = cleanup_component component_name n.supervisor in
      let removed = remove_component_from_persistent_manifest component_name n.dir in
      end_stop removed.0 removed.1 s

  -- `match stop_component(..)`
  abbrev pub status_of : Result Unit String → ℕ
  status_of (ok _) = 200
  status_of (err e) = 500

  unfoldable pub api_component_stop : String → Node → ℕ × Node
  unfolding stop_component
  api_component_stop component_name n =
      if str_eq component_name ""
      then (400, n)
      else if not (is_some (Dict.get n.supervisor.desired component_name))
      then (404, n)
      else (status_of (stop_component component_name n).0, (stop_component component_name n).1)
