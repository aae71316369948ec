-- ===== src/Supervisor.antt =====
-- `Supervisor` of crates/agent/src/supervisor.rs: the desired components, the counts of replicas and
-- the tasks that run them. A task is a number; a task that has ended stays in `tasks` until a
-- cleanup. The log lines, the work directories and the WebAssembly run itself are left out; whether
-- an artifact is an HTTP component, which reads the file, is a parameter.
mod Cleanup
mod Reconcile
pub mod Replicas
mod Tests
use peer_deploy.Prelude.{
  ℕ, ◌+◌, ◌-◌, String, Bool, true, false, not, Option, none, some, List, [], ◌∷◌, ◌++◌, zero, suc,
  length, ltb, any, keep, ◌==◌, str_eq, if◌then◌else◌,
}
use peer_deploy.Prelude.Dict
use peer_deploy.Prelude.Dict.{Dict}
use peer_deploy.Common.Component.{ComponentSpec}
use peer_deploy.Metrics.{
  Metrics, new_metrics, increment, decrement, set_components_desired, inc_components_running,
  dec_components_running, inc_restarts_total,
}

pub record DesiredComponent : Type 0 where
  pub name : String
  pub path : String
  pub spec : ComponentSpec

-- `running`: the tasks that have not ended, with the count each one decrements at its end.
-- `next_task` numbers the tasks.
pub record Supervisor : Type 0 where
  pub desired : Dict DesiredComponent
  pub counts : Dict ℕ
  pub tasks : Dict (List ℕ)
  pub metrics : Metrics
  pub running : List (ℕ × String)
  pub next_task : ℕ

abbrev pub new_supervisor : Metrics → Supervisor
new_supervisor m = record {
  desired = [];
  counts = [];
  tasks = [];
  metrics = m;
  running = [];
  next_task = 0;
}

abbrev pub value_or : ℕ → Option ℕ → ℕ
value_or n none = n
value_or n (some m) = m

-- `counts.entry(name).or_insert_with(0)`
unfoldable pub ensure_counter : String → Dict ℕ → Dict ℕ
ensure_counter name counts = Dict.insert name (value_or 0 (Dict.get counts name)) counts

unfoldable pub ensure_counters : List String → Dict ℕ → Dict ℕ
unfolding ensure_counter
ensure_counters [] counts = counts
ensure_counters (name ∷ names) counts = ensure_counters names (ensure_counter name counts)

unfoldable pub set_desired : Dict DesiredComponent → Supervisor → Supervisor
unfolding set_components_desired ensure_counters
set_desired desired s = record s {
  desired = desired;
  metrics = set_components_desired (length desired) s.metrics;
  counts = ensure_counters (Dict.keys desired) s.counts;
}

unfoldable pub upsert_component : DesiredComponent → Supervisor → Supervisor
unfolding set_components_desired ensure_counter
upsert_component desired s =
    let d = Dict.insert_sorted desired.name desired s.desired in
    record s {
      desired = d;
      metrics = set_components_desired (length d) s.metrics;
      counts = ensure_counter desired.name s.counts;
    }

-- `get_component`
unfoldable pub get_component : String → Supervisor → Option DesiredComponent
get_component name s = Dict.get s.desired name

-- The list of handles under a name.
abbrev pub handles_or_new : Option (List ℕ) → List ℕ
handles_or_new none = []
handles_or_new (some handles) = handles

-- `replicas.unwrap_or(1).max(1)`
unfoldable pub want : ComponentSpec → ℕ
want spec = let replicas = value_or 1 spec.replicas in if ltb replicas 1 then 1 else replicas

module _ (is_http : String → Bool) where
  -- `launch_replica` with the counter that stands under `counter`.
  unfoldable pub launch_replica : DesiredComponent → String → Supervisor → Supervisor
  unfolding increment inc_components_running
  launch_replica desired counter s =
      let counted = record s {
        metrics = inc_components_running s.metrics;
        counts = Dict.modify counter increment s.counts;
      } in
      if is_http desired.path then counted else record counted {
        tasks =
            Dict.insert desired.name
              (handles_or_new (Dict.get s.tasks desired.name) ++ s.next_task ∷ []) s.tasks;
        running = (s.next_task, counter) ∷ s.running;
        next_task = s.next_task + 1;
      }

  -- `for _ in 0..to_add`
  unfoldable pub launch_replicas : ℕ → DesiredComponent → String → Supervisor → Supervisor
  unfolding launch_replica
  launch_replicas zero desired counter s = s
  launch_replicas (suc n) desired counter s =
      launch_replicas n desired counter (launch_replica desired counter s)

  -- One turn of the loop of `reconcile_once`.
  unfoldable pub reconcile_component : String → DesiredComponent → Supervisor → Supervisor
  unfolding launch_replicas want ensure_counter
  reconcile_component name desired s =
      let running = value_or 0 (Dict.get s.counts name) in
      let s' = record s { counts = ensure_counter name s.counts } in
      if ltb running (want desired.spec)
      then launch_replicas (want desired.spec - running) desired name s'
      else s'

  unfoldable pub reconcile_each : Dict DesiredComponent → Supervisor → Supervisor
  unfolding reconcile_component
  reconcile_each [] s = s
  reconcile_each ((name, desired) ∷ items) s =
      reconcile_each items (reconcile_component name desired s)

  unfoldable pub reconcile_once : Supervisor → Supervisor
  unfolding reconcile_each
  reconcile_once s = reconcile_each s.desired s

-- The count that a task holds, and the end of the task: `task_handle` after its run.
unfoldable pub task_counter : ℕ → List (ℕ × String) → Option String
task_counter task [] = none
task_counter task ((t, counter) ∷ running) =
    if t == task then some counter else task_counter task running

unfoldable pub drop_tasks : List ℕ → List (ℕ × String) → List (ℕ × String)
drop_tasks handles running = keep (λ (r : ℕ × String). not (any (λ t. t == r.0) handles)) running

unfoldable pub finish_task : ℕ → Supervisor → Supervisor
unfolding task_counter drop_tasks decrement inc_restarts_total dec_components_running
finish_task task s = elim (task_counter task s.running) [
  | none ↦ s
  | some counter ↦ record s {
    running = drop_tasks (task ∷ []) s.running;
    metrics = inc_restarts_total (dec_components_running s.metrics);
    counts = Dict.modify counter decrement s.counts;
  }
]

-- `cleanup_component`: the aborted tasks do not reach their last lines.
unfoldable pub cleanup_component : String → Supervisor → Supervisor
unfolding drop_tasks
cleanup_component component_name s = elim (Dict.get s.tasks component_name) [
  | none ↦ s
  | some handles ↦ record s {
    tasks = Dict.remove component_name s.tasks;
    running = drop_tasks handles s.running;
  }
]

-- `cleanup_all`
unfoldable pub abort_each : Dict (List ℕ) → List (ℕ × String) → List (ℕ × String)
unfolding drop_tasks
abort_each [] running = running
abort_each ((name, handles) ∷ tasks) running = abort_each tasks (drop_tasks handles running)

unfoldable pub cleanup_all : Supervisor → Supervisor
unfolding abort_each
cleanup_all s = record s { tasks = []; running = abort_each s.tasks s.running }
