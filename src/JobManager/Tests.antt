-- ===== src/JobManager/Tests.antt =====
-- Witnesses of the theorems on the job manager, on a small table of jobs.
use peer_deploy.Prelude.{
  ℕ, ◌+◌, ◌≤◌, String, ◌≡◌, ◌≢◌, refl, true, false, Option, none, some, List, [], ◌∷◌, arith, ◌==◌,
  str_eq, ◌*◌, eq_iff, eq_refl, if◌then◌else◌,
}
use peer_deploy.Prelude.Dict
use peer_deploy.Prelude.Dict.{Dict}
use peer_deploy.Common.Job.{JobSpec, JobInstance, recurring, wasm, new, start}
use peer_deploy.JobManager.State.{JobManager, JobManagerState, Codec, default, new_manager}
use peer_deploy.JobManager.Operations.{get_job, submit_job, cancel_job}
use peer_deploy.JobManager.Listing.{filter_jobs, list_jobs}
use peer_deploy.JobManager.Listing.Order.{Listed, list_jobs-Listed}
use peer_deploy.JobManager.Schedule.{Cron, evaluate_schedules}
use peer_deploy.JobManager.Schedule.Due.{evaluate_schedules_never_due}
use peer_deploy.JobManager.Sync.{sync_jobs}
use peer_deploy.JobManager.Sync.Merge.{stamp}
use peer_deploy.JobManager.Sync.Merge.Converge.{sync_jobs_converge}
use peer_deploy.JobManager.Coherence.{
  IsValid, Call, submit, start as start_call, cancel, sync, load, run,
}
use peer_deploy.JobManager.Coherence.Runs.{run-IsValid}
use peer_deploy.JobManager.Cancel.{Cancels, cancel_job_lem}
use peer_deploy.JobManager.Ids.{submit_job_fresh}

-- A codec that writes the empty table with its first id, and refuses all else.
abbrev encode_table : Dict JobInstance → ℕ → Option String
encode_table [] n = if n == 1 then some "{}" else none
encode_table (j ∷ jobs) n = none

abbrev decode_table : String → Option JobManagerState
decode_table content = if str_eq content "{}" then some default else none

decode-encode_table :
    (jobs : Dict JobInstance) (n : ℕ) (content : String)
    → encode_table jobs n ≡ some content
    → decode_table content ≡ some (record { jobs = jobs; next_id = n })
decode-encode_table [] n content h = ground (arith, h, eq_iff content "{}", eq_refl "{}")
decode-encode_table (j ∷ jobs) n content h = absurd (ground (arith, h))

abbrev json : Codec
json = record {
  encode = λ s. encode_table s.jobs s.next_id;
  decode = decode_table;
  torn = λ file content. none;
  decode-encode = λ s content h. decode-encode_table s.jobs s.next_id content h;
}

at_once : (t next : ℕ) → some t ≡ some next → t ≤ next
at_once t next h = ground (arith, h)

-- A schedule that is due at every moment.
abbrev cron : Cron
cron = record {
  Plan = Unit;
  from_str = λ expr. some tt;
  upcoming = λ p t. some t;
  not_before = λ p t next h. at_once t next h;
  from_timestamp = λ ts. some (ts * 1000000000);
}

abbrev nightly : JobSpec
nightly = record {
  name = "nightly";
  job_type = recurring;
  schedule = some "0 0 * * * *";
  runtime = wasm "cached:ab" none 64 0 100 none;
  execution = record {
    working_dir = none;
    timeout_minutes = none;
    artifacts = none;
    pre_stage = [];
  };
  targeting = none;
}

abbrev clock : ℕ → ℕ
clock i = 100 + i

abbrev waiting : JobInstance
waiting = new clock "n1-1" "n1" nightly

abbrev busy : JobInstance
busy = start clock "n1" (new clock "n1-2" "n1" nightly)

abbrev empty : JobManager
empty = new_manager none "n1" 100

abbrev two_jobs : JobManager
two_jobs = record empty {
  state = record { jobs = ("n1-1", waiting) ∷ ("n1-2", busy) ∷ []; next_id = 3 };
  running_jobs = ("n1-2", record { handle = 7; cancel_tx = 8 }) ∷ [];
}

abbrev other : JobManager
other = record (new_manager none "n2" 100) {
  state = record { jobs = ("n1-2", record busy { updated_at = 500 }) ∷ []; next_id = 1 };
}

two_jobs-IsValid : IsValid two_jobs
unfolding new start Dict.get
two_jobs-IsValid = record {
  coherent = ((refl, (refl, refl, refl)), ((refl, (refl, refl)), tt));
  nodup = ground arith;
}

other-IsValid : IsValid other
unfolding new start Dict.get
other-IsValid = record { coherent = ((refl, (refl, refl)), tt); nodup = ground arith }

abbrev calls : List Call
calls =
    submit true clock nightly none none
    ∷ start_call true clock "n1-1"
    ∷ cancel true clock "n1-2"
    ∷ sync true (busy ∷ [])
    ∷ []

run-IsValid_example : IsValid (run json cron (load true (some "{}") ∷ calls) two_jobs)
unfolding new start
run-IsValid_example =
    run-IsValid json cron (load true (some "{}") ∷ calls) two_jobs
      ((tt, tt), (tt, (tt, (tt, (((refl, (refl, refl)), tt), tt))))) two_jobs-IsValid

cancel_job_lem_example :
    Cancels two_jobs "n1-2" (get_job "n1-2" two_jobs) (cancel_job json true clock "n1-2" two_jobs)
cancel_job_lem_example = cancel_job_lem json true clock "n1-2" two_jobs

submit_job_fresh_example :
    let (id, m') = submit_job json true clock nightly none none two_jobs in
    id ≢ (submit_job json true clock nightly none none (run json cron calls m')).0
submit_job_fresh_example =
    submit_job_fresh json cron true true clock clock nightly nightly calls two_jobs
      (tt, (tt, (tt, (tt, tt)))) (ground arith)

list_jobs-Listed_example :
    Listed
      (filter_jobs (some "RUNNING") (waiting ∷ busy ∷ []))
      1
      (list_jobs (some "RUNNING") 1 two_jobs)
unfolding Dict.values
list_jobs-Listed_example = list_jobs-Listed (some "RUNNING") 1 two_jobs

evaluate_schedules_never_due_example :
    evaluate_schedules cron 100 (λ i. 101 + i) 100 two_jobs ≡ ([], two_jobs)
evaluate_schedules_never_due_example =
    evaluate_schedules_never_due cron 100 (λ i. 101 + i) 100 two_jobs (λ i. omega arith)

sync_jobs_converge_example :
    stamp (sync_jobs json true (Dict.values other.state.jobs) two_jobs).state.jobs "n1-2"
    ≡ stamp (sync_jobs json false (Dict.values two_jobs.state.jobs) other).state.jobs "n1-2"
sync_jobs_converge_example =
    sync_jobs_converge json true false two_jobs other "n1-2" two_jobs-IsValid other-IsValid
