-- ===== src/P2p/Sync/Tests.antt =====
-- A node that has run a job with logs, and another that knows of the job by its messages.
use Prim.Native.Nat.{min}
use peer_deploy.Prelude.{ℕ, ◌≡◌, ◌⊎◌, ◌*◌, ◌^◌, true, false, none, some, List, [], ◌∷◌, length}
use peer_deploy.Prelude.Dict
use peer_deploy.Common.Job.{JobInstance, new, running}
use peer_deploy.JobManager.State.{JobManager, new_manager}
use peer_deploy.P2p.Sync.{SyncNode, Hashed, start_sync, job_sync_tick, deliver_jobs}
use peer_deploy.P2p.Sync.Quiet.{ticks, paced, ticks-job_sync_tick}
use peer_deploy.P2p.Sync.Erasure.{later, newest_sent, IsReplaced, deliver_jobs-job_sync_tick}
use peer_deploy.P2p.Samples.{no_codec, edge_job}

-- The job where it ran, and where its start was heard of a second later.
abbrev ran : JobInstance
ran = record (new (λ i. 100) "j" "n1" edge_job) {
  status = running;
  logs = record { timestamp = 100; level = "info"; message = "started" } ∷ [];
}

abbrev heard : JobInstance
heard = record (new (λ i. 101) "j" "n1" edge_job) { status = running }

abbrev runner : JobManager
runner = record (new_manager none "n1" 100) {
  state = record { jobs = ("j", ran) ∷ []; next_id = 1 };
}

abbrev listener : JobManager
listener = record (new_manager none "n2" 101) {
  state = record { jobs = ("j", heard) ∷ []; next_id = 1 };
}

abbrev hash : List Hashed → ℕ
hash jobs = length jobs

abbrev listening : SyncNode
listening = start_sync listener

ticks-job_sync_tick_example :
    let m = job_sync_tick hash listening in
    ticks hash 7 m ≡ paced hash (min (m.job_sync_interval * 2 ^ 7) 300) m
ticks-job_sync_tick_example = ticks-job_sync_tick hash 7 listening

deliver_jobs-job_sync_tick_example :
    let messages = (job_sync_tick hash listening).published in
    let after = Dict.get (deliver_jobs no_codec true messages runner).state.jobs "j" in
    ((later (some 100) (newest_sent "j" messages) ≡ false) × (after ≡ some ran))
    ⊎ ((later (some 100) (newest_sent "j" messages) ≡ true)
        × IsReplaced (newest_sent "j" messages) after)
unfolding new start_sync Dict.get
deliver_jobs-job_sync_tick_example =
    deliver_jobs-job_sync_tick hash no_codec true listening runner "j" tt
