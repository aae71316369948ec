-- ===== src/JobManager/Ids.antt =====
-- The ids that `submit_job` of crates/agent/src/job_manager.rs makes up.
use peer_deploy.Prelude.{
  ℕ, ◌+◌, ◌≤◌, ◌<◌, ◌≡◌, ◌≢◌, refl, ap, suc, String, Bool, true, false, Option, none, some, List,
  [], ◌∷◌, All, inl, inr, Option-cases, arith, length, ◌∙◌, sym,
}
use text.Mathlib.TextLemmas.{append_cancel_left, append_cancel_right}
use peer_deploy.Prelude.Text.{concat, format_u64, format_u64_inj}
use peer_deploy.Common.Job.{Clock, JobSpec, JobInstance, JobArtifact}
use peer_deploy.JobManager.State.{JobManager, Codec, save_to_disk, try_save}
use peer_deploy.JobManager.Operations.{choose_id, submit_job, u64_mod, unwrap_or}
use peer_deploy.JobManager.Operations
use peer_deploy.JobManager.Artifacts
use peer_deploy.Storage.Store.{Bytes}
use peer_deploy.Prelude.Dict
use peer_deploy.Prelude.Dict.{Dict}
use peer_deploy.JobManager.Sync.{sync_job, sync_each, sync_jobs}
use peer_deploy.JobManager.Schedule.{Cron, evaluate_schedules}
use peer_deploy.JobManager.Coherence.{
  Call, submit, assign, start, complete, fail, cancel, log, artifact, register, unregister, sync,
  schedules, load, stage, call, run,
}

-- The id for a counter value.
abbrev pub made_id : String → ℕ → String
made_id origin n = concat (origin ∷ "-" ∷ format_u64 n ∷ [])

made_id_inj : (origin : String) (a b : ℕ) → made_id origin a ≡ made_id origin b → a ≡ b
unfolding concat
made_id_inj origin a b e = format_u64_inj a b (
    append_cancel_right (format_u64 a) (format_u64 b) ""
      (append_cancel_left "-" _ _ (append_cancel_left origin _ _ e)))

module _ (json : Codec) (cron : Cron) where
  node_id-try_save : (w : Bool) (n : JobManager) → (try_save json w n).node_id ≡ n.node_id
  unfolding save_to_disk
  node_id-try_save w n = ground arith

  sync_each_keeps :
      (js : List JobInstance) (m : JobManager)
      → ((sync_each js m).node_id ≡ m.node_id) × ((sync_each js m).state.next_id ≡ m.state.next_id)
  unfolding sync_each sync_job
  sync_each_keeps [] m = (refl, refl)
  sync_each_keeps (j ∷ js) m = sync_each_keeps js (sync_job j m)

  note_copied_keeps :
      (sha256_hex : Bytes → String) (works : String → Bool) (root : String) (now : Clock)
      (id : String) (i : ℕ) (a : JobArtifact) (copied : Option (Dict Bytes))
      (s : Dict Bytes × JobManager)
      → let m = (Artifacts.note_copied sha256_hex works root now id i a copied s).1 in
        (m.node_id ≡ s.1.node_id) × (m.state.next_id ≡ s.1.state.next_id)
  unfolding Artifacts.note_copied Operations.update_job
  note_copied_keeps sha256_hex works root now id i a none s = (refl, refl)
  note_copied_keeps sha256_hex works root now id i a (some files') s =
      elim (Option-cases (Dict.get files' a.stored_path)) [
        | inl gone ↦ rw (gone, Artifacts.note_copied) (refl, refl)
        | inr (bytes, read) ↦ rw (read, Artifacts.note_copied) (refl, refl)
      ]

  stage_each_keeps :
      (sha256_hex : Bytes → String) (works : String → Bool) (root : String) (now : Clock)
      (id : String) (i : ℕ) (artifacts : List JobArtifact) (s : Dict Bytes × JobManager)
      → let m = (Artifacts.stage_each sha256_hex works root now id i artifacts s).1 in
        (m.node_id ≡ s.1.node_id) × (m.state.next_id ≡ s.1.state.next_id)
  unfolding Artifacts.stage_each
  stage_each_keeps sha256_hex works root now id i [] s = (refl, refl)
  stage_each_keeps sha256_hex works root now id i (a ∷ artifacts) s =
      let copied =
        Artifacts.copy works a.stored_path (Artifacts.get_artifact_path root id a.name) s.0 in
      let s' = Artifacts.note_copied sha256_hex works root now id i a copied s in
      let k = note_copied_keeps sha256_hex works root now id i a copied s in
      let ih = stage_each_keeps sha256_hex works root now id (suc i) artifacts s' in
      (ih.0 ∙ k.0, ih.1 ∙ k.1)

  stage_artifacts_keeps :
      (sha256_hex : Bytes → String) (works : String → Bool) (root : String) (now : Clock)
      (id : String) (made : Bool) (marked : ℕ) (artifacts : List JobArtifact)
      (s : Dict Bytes × JobManager)
      → let m =
          (Artifacts.stage_artifacts sha256_hex works root now id made marked artifacts s).1 in
        (m.node_id ≡ s.1.node_id) × (m.state.next_id ≡ s.1.state.next_id)
  unfolding Artifacts.stage_artifacts
  stage_artifacts_keeps sha256_hex works root now id false marked artifacts s = (refl, refl)
  stage_artifacts_keeps sha256_hex works root now id true marked artifacts s =
      stage_each_keeps sha256_hex works root now id 0 artifacts s

  -- The call does not read the file, whose counter may be lower.
  abbrev pub IsLive : Call → Type 0
  IsLive (load readable file) = ⊥
  IsLive _ = Unit

  -- A call keeps the node's name and counts up by at most one.
  record Counts (m m' : JobManager) : Type 0 where
    node_id : m'.node_id ≡ m.node_id
    at_least : m.state.next_id ≤ m'.state.next_id
    at_most : m'.state.next_id ≤ m.state.next_id + 1

  call-Counts :
      (c : Call) (m : JobManager)
      → IsLive c
      → m.state.next_id + 1 < u64_mod
      → Counts m (call json cron c m)
  unfolding call
  call-Counts (submit w now spec origin id) m l h =
      unfold Operations.submit_job save_to_disk in ground arith
  call-Counts (assign w now id n) m l h = unfold Operations.assign_job save_to_disk in ground arith
  call-Counts (start w now id) m l h = unfold Operations.start_job save_to_disk in ground arith
  call-Counts (complete w now id code) m l h =
      unfold Operations.complete_job save_to_disk in ground arith
  call-Counts (fail w now id error) m l h = unfold Operations.fail_job save_to_disk in ground arith
  call-Counts (cancel w now id) m l h = unfold Operations.cancel_job save_to_disk in ground arith
  call-Counts (log now id level message) m l h = unfold Operations.add_job_log in ground arith
  call-Counts (artifact w now id a) m l h =
      unfold Operations.add_job_artifact save_to_disk in ground arith
  call-Counts (register id r) m l h = unfold Operations.register_running_job in ground arith
  call-Counts (unregister id) m l h = unfold Operations.unregister_running_job in ground arith
  call-Counts (sync w jobs) m l h =
      unfold sync_jobs save_to_disk in ground (arith, sync_each_keeps jobs m)
  call-Counts (schedules now called stamp) m l h = unfold evaluate_schedules in ground arith
  call-Counts (load readable file) m l h = absurd l
  call-Counts (stage sha256_hex works root made now marked id artifacts files) m l h =
      let k = stage_artifacts_keeps sha256_hex works root now id made marked artifacts (files, m) in
      ground (arith, k.0, k.1)

  run-Counts :
      (cs : List Call) (m : JobManager)
      → All IsLive cs
      → m.state.next_id + length cs < u64_mod
      → ((run json cron cs m).node_id ≡ m.node_id)
        × (m.state.next_id ≤ (run json cron cs m).state.next_id)
  unfolding run
  run-Counts [] m l h = (refl, omega arith)
  run-Counts (c ∷ cs) m l h =
      let k = call-Counts c m l.0 (omega arith) in
      let ih = run-Counts cs (call json cron c m) l.1 (omega (arith, k.at_most)) in
      (ih.0 ∙ k.node_id, omega (arith, ih.1, k.at_least))

  -- The id that a node makes up for a job without one.
  id-submit_job :
      (w : Bool) (now : Clock) (spec : JobSpec) (m : JobManager)
      → (submit_job json w now spec none none m).0 ≡ made_id m.node_id m.state.next_id
  unfolding submit_job
  id-submit_job w now spec m = refl

  next_id-submit_job :
      (w : Bool) (now : Clock) (spec : JobSpec) (m : JobManager)
      → m.state.next_id + 1 < u64_mod
      → ((submit_job json w now spec none none m).1.state.next_id ≡ m.state.next_id + 1)
        × ((submit_job json w now spec none none m).1.node_id ≡ m.node_id)
  unfolding submit_job save_to_disk
  next_id-submit_job w now spec m h = ground arith

  -- Two jobs that a node submits without an id get different ids, whatever calls come in between that
  -- do not read the file, as long as the 64-bit counter does not run out.
  pub submit_job_fresh :
      (w v : Bool) (now next : Clock) (spec spec' : JobSpec) (cs : List Call) (m : JobManager)
      → All IsLive cs
      → m.state.next_id + 1 + length cs < u64_mod
      → let (id, m') = submit_job json w now spec none none m in
        id ≢ (submit_job json v next spec' none none (run json cron cs m')).0
  submit_job_fresh w v now next spec spec' cs m l h e =
      let m' = (submit_job json w now spec none none m).1 in
      let s = next_id-submit_job w now spec m (omega arith) in
      let r = run-Counts cs m' l (omega (arith, s.0)) in
      let same =
        sym (id-submit_job w now spec m) ∙ e ∙ id-submit_job v next spec' (run json cron cs m') in
      let counted =
        made_id_inj m.node_id m.state.next_id (run json cron cs m').state.next_id
          (same ∙ ap (λ o. made_id o (run json cron cs m').state.next_id) (r.0 ∙ s.1)) in
      omega (arith, s.0, r.1, counted)
