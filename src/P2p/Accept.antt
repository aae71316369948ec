-- ===== src/P2p/Accept.antt =====
-- What a node does with a submitted job (`Command::SubmitJob` in crates/agent/src/p2p/mod.rs), on
-- every branch.
use peer_deploy.Prelude.{ℕ, suc, String, ◌≡◌, ◌⊎◌, true, Option, none, some, List, [], ◌∷◌}
use peer_deploy.Prelude.Dict
use peer_deploy.Prelude.Dict.{is_some}
use peer_deploy.Common.Job
use peer_deploy.Common.Job.{
  JobSpec, JobInstance, JobStatus, JobType, pending, running, one_shot, recurring, service,
}
use peer_deploy.JobManager.State.{JobManager, Codec}
use peer_deploy.JobManager.Operations.{submit_job, assign_job, get_job}
use peer_deploy.P2p.Submit.{
  Host, Effect, job_accepted, job_started, run_oneshot, run_service, job_digest, locality_delay,
}

-- What the node starts for a job type.
abbrev pub run_of : String → ℕ → JobType → List Effect
run_of id delay one_shot = run_oneshot id delay ∷ []
run_of id delay recurring = run_oneshot id delay ∷ []
run_of id delay service = run_service id delay ∷ []

-- What is under the id afterwards, and the effects, by whether the node is eligible and by the delay
-- that its store gives.
pub record IsIgnored (id : String) (r : List Effect × JobManager) : Type 0 where
  pub job : JobInstance
  pub known : get_job id r.1 ≡ some job
  pub waiting : job.status ≡ pending
  pub free : job.assigned_node ≡ none
  pub silent : r.0 ≡ []

-- `found` is the job that the look for an acceptance finds.
pub record IsTaken (host : Host) (id : String) (spec : JobSpec) (found : JobInstance)
    (r : List Effect × JobManager) : Type 0 where
  pub job : JobInstance
  pub known : get_job id r.1 ≡ some job
  pub mine : job.assigned_node ≡ some host.node_id
  pub outcome :
      ((delay : ℕ) × (locality_delay host (job_digest spec.runtime) ≡ some delay)
        × (job.status ≡ running)
        × (r.0
            ≡ job_accepted id host.node_id
              ∷ job_started id host.node_id
              ∷ run_of id delay spec.job_type))
      ⊎ ((locality_delay host (job_digest spec.runtime) ≡ none)
          × (job.status ≡ found.status)
          × (r.0 ≡ job_accepted id host.node_id ∷ []))

-- The manager after the job is inserted, and what the handler finds of the job.
abbrev pub inserted : Codec → Host → String → String → JobSpec → JobManager → JobManager
inserted json host origin id spec m =
    (submit_job json (host.writable 0) (host.now 0) spec (some origin) (some id) m).1

abbrev pub found_job : Codec → Host → String → String → JobSpec → JobManager → Option JobInstance
found_job json host origin id spec m =
    get_job id (host.meanwhile 0 (inserted json host origin id spec m))

-- No task forgets a job, and after the look no other task changes the job.
pub record IsQuiet (host : Host) (id : String) : Type 0 where
  pub stays :
      (m : JobManager)
      → is_some (get_job id m) ≡ true
      → is_some (get_job id (host.meanwhile 0 m)) ≡ true
  pub unchanged : (i : ℕ) (m : JobManager) → get_job id (host.meanwhile (suc i) m) ≡ get_job id m

module _ (json : Codec) (host : Host) (id : String) (spec : JobSpec) (quiet : IsQuiet host id)
    (m : JobManager) (found : JobInstance) (here : get_job id m ≡ some found) where
  -- The manager and the job after the acceptance.
  abbrev taken : JobManager
  taken =
      host.meanwhile 2
        (assign_job json (host.writable 1) (host.now 1) id host.node_id (host.meanwhile 1 m))
