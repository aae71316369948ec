-- ===== src/P2p/Submit.antt =====
-- The handler of `Command::SubmitJob` in `run_agent` of crates/agent/src/p2p/mod.rs. Log lines are left
-- out; what the handler broadcasts and spawns is a list of effects.
use peer_deploy.Prelude.{
  ℕ, ◌+◌, ◌%◌, String, Bool, true, false, not, ◌&&◌, Option, none, some, List, [], ◌∷◌, ltb, any,
  str_eq, if◌then◌else◌,
}
use peer_deploy.Prelude.Dict.{is_some}
use peer_deploy.Common.Component.{is_empty, contains}
use peer_deploy.Common.Job.{
  JobSpec, JobInstance, JobTargeting, JobRuntime, JobType, Clock, wasm, native, qemu, one_shot,
  recurring, service,
}
use peer_deploy.JobManager.State.{JobManager, Codec, RunningJob}
use peer_deploy.JobManager.Operations.{
  submit_job, assign_job, start_job, add_job_log, get_job, register_running_job,
}
use peer_deploy.Storage.Store.{ContentStore, has}

-- What a node brings to the handler: its id, roles and platform, its store, how many peers have
-- announced a blob, the number that the first four hexadecimal digits of the hash of its id are, the
-- handles of a service task, and, for the i-th call of the job manager, the clock and the success of
-- the write. The handler is a task of its own, which waits for every call of the job manager:
-- `meanwhile i` is what other tasks do to the job manager between its i-th call and the next, with the
-- look for an acceptance as the second call.
pub record Host : Type 0 where
  pub node_id : String
  pub roles : List String
  pub platform : String
  pub store : ContentStore
  pub peers_with : String → ℕ
  pub nib : ℕ
  pub task : RunningJob
  pub now : ℕ → Clock
  pub writable : ℕ → Bool
  pub meanwhile : ℕ → JobManager → JobManager

pub data Effect : Type 0 where
  -- the broadcasts, with the job's and the node's id
  job_accepted job_started : String → String → Effect
  -- a spawned run, with the job's id and the delay in milliseconds
  run_oneshot run_service : String → ℕ → Effect

-- `if let Some(p) = &t.platform`
unfoldable pub platform_fits : String → Option String → Bool
platform_fits host none = true
platform_fits host (some p) = str_eq host p

unfoldable pub eligible : Host → Option JobTargeting → Bool
unfolding platform_fits contains
eligible host none = true
eligible host (some t) =
    let on_platform = platform_fits host.platform t.platform in
    let tagged =
      if on_platform && not (is_empty t.tags)
      then any (λ tag. contains host.roles tag) t.tags
      else on_platform in
    if tagged && not (is_empty t.node_ids)
    then any (λ id. str_eq id host.node_id) t.node_ids
    else tagged

unfoldable pub job_digest : JobRuntime → Option String
job_digest (wasm source sha256_hex memory_mb fuel epoch_ms mounts) = sha256_hex
job_digest (native binary sha256_hex args env) = sha256_hex
job_digest (qemu binary sha256_hex args env target_platform qemu_binary) = sha256_hex

-- `locality_delay_ms`; `none` is the panic of `has`.
unfoldable pub locality_delay : Host → Option String → Option ℕ
locality_delay host none = some 0
locality_delay host (some d) = elim (has d host.store) [
  | none ↦ none
  | some true ↦ some 0
  | some false ↦ some (if ltb 0 (host.peers_with d) then 500 + host.nib % 1500 else 0)
]

-- The match on the job type.
unfoldable pub dispatch : Host → String → JobType → ℕ → JobManager → List Effect × JobManager
dispatch host job_id one_shot delay m = (run_oneshot job_id delay ∷ [], m)
dispatch host job_id recurring delay m = (run_oneshot job_id delay ∷ [], m)
dispatch host job_id service delay m =
    (run_service job_id delay ∷ [], register_running_job job_id host.task m)

module _ (json : Codec) (host : Host) where
  -- From `if selected` on.
  unfoldable pub begin_job : String → JobSpec → ℕ → JobManager → List Effect × JobManager
  unfolding dispatch
  begin_job job_id job delay m =
      let m' = host.meanwhile 3 (start_job json (host.writable 2) (host.now 2) job_id m) in
      let logged =
        host.meanwhile 4
          (add_job_log (host.now 3) job_id "info" "Job execution started on this node" m') in
      let (effects, done) = dispatch host job_id job.job_type delay logged in
      (job_started job_id host.node_id ∷ effects, done)

  -- From the acceptance on.
  unfoldable pub accept_job : String → JobSpec → JobManager → List Effect × JobManager
  unfolding begin_job locality_delay job_digest
  accept_job job_id job m =
      let m' =
        host.meanwhile 2 (
          assign_job json (host.writable 1) (host.now 1) job_id host.node_id
            (host.meanwhile 1 m)) in
      elim (locality_delay host (job_digest job.runtime)) [
        | none ↦ (job_accepted job_id host.node_id ∷ [], m')
        | some delay ↦
            let (effects, done) = begin_job job_id job delay m' in
            (job_accepted job_id host.node_id ∷ effects, done)
      ]

  -- `existing.assigned_node.is_some()`
  unfoldable pub already_accepted : Option JobInstance → Bool
  already_accepted none = false
  already_accepted (some existing) = is_some existing.assigned_node

  unfoldable pub handle_submit_job :
      String → String → JobSpec → JobManager → List Effect × JobManager
  unfolding accept_job eligible already_accepted
  handle_submit_job origin_node_id job_id job m =
      let (id, m') =
        submit_job json (host.writable 0) (host.now 0) job (some origin_node_id) (some job_id) m in
      if not (eligible host job.targeting)
      then ([], m')
      else if already_accepted (get_job job_id (host.meanwhile 0 m'))
      then ([], host.meanwhile 0 m')
      else accept_job job_id job (host.meanwhile 0 m')
