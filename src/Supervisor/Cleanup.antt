-- ===== src/Supervisor/Cleanup.antt =====
-- The turns of `reconcile_once` after `cleanup_component`, in crates/agent/src/supervisor.rs.
use peer_deploy.Prelude.{ℕ, String, ◌≡◌, Bool, none, zero, suc}
use peer_deploy.Prelude.Dict
use peer_deploy.Prelude.Dict.{Dict}
use peer_deploy.Prelude.Entries.{Entries}
use peer_deploy.Supervisor.{DesiredComponent, Supervisor, reconcile_once}
use peer_deploy.Supervisor.Replicas.{count}

module _ (is_http : String → Bool) where
  -- Any number of turns of the loop.
  unfoldable pub reconcile_times : ℕ → Supervisor → Supervisor
  reconcile_times zero s = s
  reconcile_times (suc n) s = reconcile_times n (reconcile_once is_http s)

  -- Nothing runs for the component, and no replica of it is missing.
  record IsIdle (name : String) (n : ℕ) (desired : Dict DesiredComponent) (s : Supervisor)
      : Type 0 where
    same : s.desired ≡ desired
    counted : count name s ≡ n
    no_tasks : Dict.get s.tasks name ≡ none
