-- ===== src/Execution/Tests.antt =====
-- Runs of jobs on small inputs, and the witnesses of the theorems on them.
use peer_deploy.Prelude.{◌+◌, ◌≡◌, refl, String, true, false, Option, none, some, [], ◌∷◌, map, inl}
use peer_deploy.Prelude.Dict
use peer_deploy.Prelude.Dict.{Dict, is_some}
use peer_deploy.Prelude.Int.{pos}
use peer_deploy.Prelude.Outcome.{Result, ok, err}
use peer_deploy.Common.Job.{JobSpec, JobInstance, ArtifactSpec, one_shot, native, new, running}
use peer_deploy.JobManager.State.{JobManager, new_manager}
use peer_deploy.JobManager.Operations.{get_job, cancel_job}
use peer_deploy.JobManager.Artifacts.{stage_artifacts}
use peer_deploy.P2p.Submit.{job_digest}
use peer_deploy.Storage.Store.{Bytes, put_bytes, get_path}
use peer_deploy.Prelude.Text.{concat}
use peer_deploy.Execution.Policy.{load_policy}
use peer_deploy.Execution.Site.{Worker, Site, stored, native_process, exited, put, lookup}
use peer_deploy.Execution.Runs.{artifact_of}
use peer_deploy.Execution.Runs.Verified.{execute-IsVerified}
use peer_deploy.Execution.Runs.Started.{IsVerified}
use peer_deploy.Execution.Runs.Erased.{stage_artifacts-erased}
use peer_deploy.Execution.Jobs.{Help, execute, execute_oneshot_job_with_broadcast}
use peer_deploy.Execution.Jobs.Outcome.{IsEnded, execute_oneshot-IsEnded}
use peer_deploy.Execution.Jobs.Revival.{IsRevived, execute_oneshot-IsRevived}
use peer_deploy.Execution.Jobs.Refused.{IsRefused, execute_oneshot-IsRefused}
use peer_deploy.P2p.Samples.{no_codec}

abbrev worker : Worker
worker = record {
  node_id = "n1";
  sha256_hex = λ bytes. "d123";
  read_source = λ path. ok (1 ∷ 2 ∷ 3 ∷ []);
  http_get = λ url. err "offline";
  storage = none;
  read_fails = λ path. none;
  write_fails = λ path. none;
  blob_at = λ path. none;
  policy = record { allow_native_execution = true; allow_emulation = false };
  which = λ name. none;
  run_module = λ l. ok tt;
  run_process = λ l. exited (some (pos 0));
  artifacts_root = "/var/artifacts/jobs";
  dir_made = λ path. true;
  copy_works = λ path. true;
  json = no_codec;
  clock = λ i j. 200 + i + j;
  writable = λ i. true;
  disk = λ i. record { blob_written = true; blob_left = none; index_written = true };
  time = λ i. 300 + i;
}

abbrev help : Help
help = record { enable = "ask the owner"; missing = λ platform. "no qemu" }

abbrev tool_job : JobSpec
tool_job = record {
  name = "tool";
  job_type = one_shot;
  schedule = none;
  runtime = native "file:/srv/tool" (some "d123") ("-v" ∷ []) [];
  execution = record {
    working_dir = none;
    timeout_minutes = none;
    artifacts = none;
    pre_stage = record { source = "cas:d123"; dest = "/work/tool" } ∷ [];
  };
  targeting = none;
}

abbrev listed : JobManager
listed = record (new_manager none "n1" 100) {
  state = record {
    jobs = ("n1-1", record (new (λ i. 90 + i) "n1-1" "n1" tool_job) { status = running }) ∷ [];
    next_id = 2;
  };
}

abbrev site : Site
site = record {
  manager = listed;
  store = record { blobs = []; entries = [] };
  files = [];
  launched = [];
  broadcasts = [];
  reports = [];
}

-- What a run leaves behind.
abbrev site_of : {A : Type 0} → Option (A × Site) → Site
site_of none = site
site_of (some (a, s)) = s

abbrev executed : Option (Result String String × Site)
executed = execute worker help "n1-1" tool_job none tool_job.runtime site

run_tool : executed ≡ some (ok "job ok: tool", site_of executed)
unfolding execute put put_bytes Dict.get lookup get_path Dict.insert concat Dict.insert_sorted
    Dict.modify
run_tool = refl

run_tool_starts :
    (site_of executed).launched ≡ native_process (stored "d123") ("-v" ∷ []) [] none ∷ []
unfolding execute put put_bytes Dict.get lookup get_path Dict.insert Dict.insert_sorted Dict.modify
run_tool_starts = refl

execute-IsVerified_example : IsVerified worker tool_job.runtime "d123" (site_of executed)
unfolding job_digest
execute-IsVerified_example =
    execute-IsVerified worker help "n1-1" tool_job none "d123" site (site_of executed)
      (ok "job ok: tool") refl tt refl (λ i. refl) (refl, tt) run_tool

abbrev or_site : Option Site → Site
or_site none = site
or_site (some s) = s

abbrev ended : Option Site
ended = execute_oneshot_job_with_broadcast worker help "n1-1" tool_job "m1" site

ended_lem : ended ≡ some (or_site ended)
unfolding execute_oneshot_job_with_broadcast put put_bytes Dict.get lookup get_path Dict.insert
    Dict.insert_sorted Dict.modify
ended_lem = refl

listed_lem : is_some (get_job "n1-1" listed) ≡ true
unfolding get_job Dict.get
listed_lem = refl

execute_oneshot-IsEnded_example : IsEnded worker "n1-1" help tool_job "m1" site (or_site ended)
execute_oneshot-IsEnded_example =
    execute_oneshot-IsEnded worker "n1-1" help tool_job "m1" site (or_site ended) listed_lem
      ended_lem

-- The same run, after the job is cancelled.
abbrev cancelled_site : Site
cancelled_site = record site { manager = (cancel_job no_codec true (λ i. 150 + i) "n1-1" listed).1 }

abbrev ended_cancelled : Option Site
ended_cancelled = execute_oneshot_job_with_broadcast worker help "n1-1" tool_job "m1" cancelled_site

ended_cancelled_lem : ended_cancelled ≡ some (or_site ended_cancelled)
unfolding execute_oneshot_job_with_broadcast put put_bytes Dict.get lookup get_path Dict.insert
    Dict.insert_sorted Dict.modify cancel_job
ended_cancelled_lem = refl

abbrev listed_job : JobInstance
listed_job = record (new (λ i. 90 + i) "n1-1" "n1" tool_job) { status = running }

listed_job_lem : get_job "n1-1" listed ≡ some listed_job
unfolding get_job Dict.get
listed_job_lem = refl

execute_oneshot-IsRevived_example :
    IsRevived "n1-1" cancelled_site.manager (or_site ended_cancelled).manager
execute_oneshot-IsRevived_example =
    execute_oneshot-IsRevived worker help "n1-1" tool_job no_codec true (λ i. 150 + i) "m1" listed
      listed_job cancelled_site (or_site ended_cancelled) listed_job_lem refl refl
      ended_cancelled_lem

abbrev strict : Worker
strict = record worker {
  policy =
      load_policy
        (record { realm_allow_native_execution = some "no"; realm_allow_emulation = none })
        (some (record { allow_native_execution = true; allow_emulation = true }));
}

strict_lem : strict.policy.allow_native_execution ≡ false
unfolding load_policy
strict_lem = refl

execute_oneshot-IsRefused_example :
    (s' : Site) × (execute_oneshot_job_with_broadcast strict help "n1-1" tool_job "m1" site
      ≡ some s')
    × IsRefused strict "n1-1" "m1" site s'
execute_oneshot-IsRefused_example =
    execute_oneshot-IsRefused strict help "n1-1" tool_job "m1" site strict_lem listed_lem

abbrev report : ArtifactSpec
report = record { path = "/srv/out/report.txt"; name = none }

abbrev report_files : Dict Bytes
report_files = ("/srv/out/report.txt", 7 ∷ 8 ∷ []) ∷ []

stage_artifacts-erased_example :
    Dict.get
      (stage_artifacts
        (λ bytes. "d123")
        (λ path. true)
        "/var/artifacts/jobs"
        (λ i. 400 + i)
        "n1-1"
        true
        500
        (map (artifact_of report_files) (report ∷ []))
        (report_files, listed)).0
      "/srv/out/report.txt"
    ≡ some []
unfolding Dict.get
stage_artifacts-erased_example =
    stage_artifacts-erased (λ bytes. "d123") (λ path. true) "/var/artifacts/jobs" (λ i. 400 + i)
      "n1-1" report_files 500 (report ∷ []) "/srv/out/report.txt" (7 ∷ 8 ∷ []) report_files listed
      (record { unnamed = refl; absolute = refl; writable = refl }, tt) (inl refl) refl
