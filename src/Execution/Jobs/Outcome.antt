-- ===== src/Execution/Jobs/Outcome.antt =====
-- How a one-shot run of crates/agent/src/p2p/jobs.rs ends, for the table of jobs and for what is sent.
use mathlib.Core.Path.{subst}
use peer_deploy.Prelude.{
  String, ◌≡◌, refl, ap, ◌∙◌, ◌⊎◌, inl, inr, Bool, true, false, Option, none, some, [], ◌∷◌, ◌++◌,
  arith, str_eq, eq_refl,
}
use peer_deploy.Prelude.Dict
use peer_deploy.Prelude.Dict.{Dict, is_some, get-modify}
use peer_deploy.Prelude.Int.{pos}
use peer_deploy.Prelude.Outcome.{Result, ok, err}
use peer_deploy.Common.Job
use peer_deploy.Common.Job.{JobSpec, JobInstance, JobStatus, completed, failed, Clock}
use peer_deploy.JobManager.State.{JobManager, mark_update, state-try_save}
use peer_deploy.JobManager.Operations.{
  update_job, get_job, complete_job, fail_job, finished, broken,
}
use peer_deploy.JobManager.Others.{
  IsOnly, add_job_log-IsOnly, add_job_artifact-IsOnly, stage_artifacts-IsOnly, complete_job-IsOnly,
  fail_job-IsOnly,
}
use peer_deploy.P2p.Status.{job_completed, job_failed}
use peer_deploy.Execution.Site.{Worker, Site}
use peer_deploy.Execution.Runs.{stage_known}
use peer_deploy.Execution.Runs.Keeps.{execute-keeps}
use peer_deploy.Execution.Logic.{After}
use peer_deploy.Execution.Jobs.{Help, execute, finish_oneshot, execute_oneshot_job_with_broadcast}

module _ (w : Worker) (job_id : String) where
  -- The run went well.
  pub record IsCompleted (uuid : String) (s s' : Site) : Type 0 where
    pub msg : String
    pub reported : s'.reports ≡ s.reports ++ ok msg ∷ []
    pub sent : s'.broadcasts ≡ s.broadcasts ++ job_completed job_id w.node_id (pos 0) uuid ∷ []
    pub job : JobInstance
    pub listed : get_job job_id s'.manager ≡ some job
    pub status : job.status ≡ completed
    pub exit_code : job.exit_code ≡ some (pos 0)

  -- It did not.
  pub record HasFailed (uuid : String) (s s' : Site) : Type 0 where
    pub error : String
    pub reported : s'.reports ≡ s.reports ++ err error ∷ []
    pub sent : s'.broadcasts ≡ s.broadcasts ++ job_failed job_id w.node_id error uuid ∷ []
    pub job : JobInstance
    pub listed : get_job job_id s'.manager ≡ some job
    pub status : job.status ≡ failed
    pub message : job.error_message ≡ some error

  -- What a run leaves alone.
  pub record IsRunOf (s s' : Site) : Type 0 where
    pub manager : IsOnly job_id s.manager s'.manager.state
    pub broadcasts : s'.broadcasts ≡ s.broadcasts
    pub reports : s'.reports ≡ s.reports

  with_manager :
      (s s' : Site) (m : JobManager)
      → IsRunOf s s'
      → IsOnly job_id s.manager m.state
      → IsRunOf s (record s' { manager = m })
  with_manager s s' m h o = record { manager = o; broadcasts = h.broadcasts; reports = h.reports }

  module _ (help : Help) (job : JobSpec) where
    stage_known-IsRunOf :
        (s s' : Site) (j : JobInstance)
        → IsRunOf s s'
        → IsRunOf s (stage_known w job_id job (some j) s')
    unfolding stage_known
    stage_known-IsRunOf s s' j h = record {
      manager =
          stage_artifacts-IsOnly job_id s.manager w.sha256_hex w.copy_works w.artifacts_root _ _ _
            j.artifacts s'.files s'.manager h.manager;
      broadcasts = h.broadcasts;
      reports = h.reports;
    }

    execute-IsRunOf :
        (cancel_rx : Option Bool) (s : Site)
        → After
            (IsRunOf s)
            (λ a s'. IsRunOf s s')
            (execute w help job_id job cancel_rx job.runtime s)
    execute-IsRunOf cancel_rx s =
        execute-keeps w job_id job (IsRunOf s)
          (λ s' store h. record {
            manager = h.manager;
            broadcasts = h.broadcasts;
            reports = h.reports;
          })
          (λ s' files h. record {
            manager = h.manager;
            broadcasts = h.broadcasts;
            reports = h.reports;
          })
          (λ s' launched h. record {
            manager = h.manager;
            broadcasts = h.broadcasts;
            reports = h.reports;
          })
          (λ s' k level message h.
            with_manager s s' _ h
              (add_job_log-IsOnly job_id s.manager (w.clock k) level message s'.manager h.manager))
          (λ s' k a h. with_manager s s' _ h (
            add_job_artifact-IsOnly job_id s.manager w.json (w.writable k) (w.clock k) a s'.manager
              h.manager))
          (λ s' j h. stage_known-IsRunOf s s' j h) help cancel_rx job.runtime s
          (record {
            manager = record { others = λ key ne. refl; known = refl };
            broadcasts = refl;
            reports = refl;
          })

    get_job-complete_job :
        (m : JobManager)
        → get_job job_id (complete_job w.json (w.writable 0) (w.clock 0) job_id (pos 0) m)
          ≡ Dict.map_some (finished (w.clock 0) (pos 0)) (get_job job_id m)
    unfolding complete_job get_job update_job mark_update
    get_job-complete_job m =
        ap (λ st. Dict.get st.jobs job_id) (state-try_save w.json (w.writable 0) _)
        ∙ get-modify job_id job_id _ m.state.jobs
        ∙ rw (eq_refl job_id) refl

    get_job-fail_job :
        (error : String) (m : JobManager)
        → get_job job_id (fail_job w.json (w.writable 0) (w.clock 0) job_id error m)
          ≡ Dict.map_some (broken (w.clock 0) error) (get_job job_id m)
    unfolding fail_job get_job update_job mark_update
    get_job-fail_job error m =
        ap (λ st. Dict.get st.jobs job_id) (state-try_save w.json (w.writable 0) _)
        ∙ get-modify job_id job_id _ m.state.jobs
        ∙ rw (eq_refl job_id) refl

    -- The job ends as completed or as failed, and no other job changes.
    pub record IsEnded (uuid : String) (s s' : Site) : Type 0 where
      pub ended : IsCompleted uuid s s' ⊎ HasFailed uuid s s'
      pub others :
          (key : String)
          → str_eq job_id key ≡ false
          → get_job key s'.manager ≡ get_job key s.manager

    found : (o : Option JobInstance) → is_some o ≡ true → (j : JobInstance) × (o ≡ some j)
    found none e = absurd (ground (arith, e))
    found (some j) e = (j, refl)

    pub finish_oneshot-HasFailed :
        (uuid error : String) (s s1 : Site)
        → is_some (get_job job_id s.manager) ≡ true
        → IsRunOf s s1
        → HasFailed uuid s (finish_oneshot w help job_id job uuid (err error) s1)
    unfolding finish_oneshot get_job Job.fail Job.add_log broken fail_job mark_update
    finish_oneshot-HasFailed uuid error s s1 known h =
        let j = found (get_job job_id s1.manager) (h.manager.known ∙ known) in
        record {
          error = error;
          reported = ap (λ l. l ++ err error ∷ []) h.reports;
          sent = ap (λ l. l ++ job_failed job_id w.node_id error uuid ∷ []) h.broadcasts;
          job = broken (w.clock 0) error j.0;
          listed =
              get_job-fail_job error s1.manager ∙ ap (Dict.map_some (broken (w.clock 0) error)) j.1;
          status = refl;
          message = refl;
        }

    finish_oneshot-IsEnded :
        (uuid : String) (r : Result String String) (s s1 : Site)
        → is_some (get_job job_id s.manager) ≡ true
        → IsRunOf s s1
        → IsEnded uuid s (finish_oneshot w help job_id job uuid r s1)
    unfolding finish_oneshot get_job Job.complete Job.add_log finished complete_job fail_job
        mark_update
    finish_oneshot-IsEnded uuid (ok msg) s s1 known h =
        let j = found (get_job job_id s1.manager) (h.manager.known ∙ known) in
        record {
          ended = inl (record {
            msg = msg;
            reported = ap (λ l. l ++ ok msg ∷ []) h.reports;
            sent = ap (λ l. l ++ job_completed job_id w.node_id (pos 0) uuid ∷ []) h.broadcasts;
            job = finished (w.clock 0) (pos 0) j.0;
            listed =
                get_job-complete_job s1.manager
                ∙ ap (Dict.map_some (finished (w.clock 0) (pos 0))) j.1;
            status = refl;
            exit_code = refl;
          });
          others =
              (complete_job-IsOnly job_id s.manager w.json (w.writable 0) (w.clock 0) (pos 0)
                s1.manager h.manager).others;
        }
    finish_oneshot-IsEnded uuid (err error) s s1 known h = record {
      ended = inr (finish_oneshot-HasFailed uuid error s s1 known h);
      others =
          (fail_job-IsOnly job_id s.manager w.json (w.writable 0) (w.clock 0) error s1.manager
            h.manager).others;
    }

    executed-IsEnded :
        (uuid : String) (s s' : Site) (o : Option (Result String String × Site))
        → is_some (get_job job_id s.manager) ≡ true
        → After (IsRunOf s) (λ a s1. IsRunOf s s1) o
        → (elim o [
          | none ↦ none
          | some (r, s1) ↦ some (finish_oneshot w help job_id job uuid r s1)
        ])
          ≡ some s'
        → IsEnded uuid s s'
    executed-IsEnded uuid s s' none known h e = absurd (ground (arith, e))
    executed-IsEnded uuid s s' (some (ok a, s1)) known h e =
        subst (IsEnded uuid s) (ground (arith, e)) (finish_oneshot-IsEnded uuid (ok a) s s1 known h)
    executed-IsEnded uuid s s' (some (err a, s1)) known h e =
        subst (IsEnded uuid s) (ground (arith, e))
          (finish_oneshot-IsEnded uuid (err a) s s1 known h)

    -- A one-shot run of a known job that does not panic ends in one of two ways: the job is completed
    -- with exit code 0, and one `JobCompleted` and one success are sent; or the job has failed with
    -- an error, and one `JobFailed` and this error are sent. No other job changes, and nothing else
    -- is sent.
    pub execute_oneshot-IsEnded :
        (uuid : String) (s s' : Site)
        → is_some (get_job job_id s.manager) ≡ true
        → execute_oneshot_job_with_broadcast w help job_id job uuid s ≡ some s'
        → IsEnded uuid s s'
    unfolding execute_oneshot_job_with_broadcast
    execute_oneshot-IsEnded uuid s s' known ran =
        executed-IsEnded uuid s s' (execute w help job_id job none job.runtime s) known
          (execute-IsRunOf none s) ran
