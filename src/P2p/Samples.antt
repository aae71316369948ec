-- ===== src/P2p/Samples.antt =====
-- A codec and a job that the theorems on crates/agent/src/p2p/mod.rs are tried on.
use peer_deploy.Prelude.{String, ◌≡◌, arith, none, some, [], ◌∷◌}
use peer_deploy.Common.Job.{JobSpec, one_shot, wasm}
use peer_deploy.JobManager.State.{JobManagerState, Codec}

pub no_text : (s : JobManagerState) (content : String) → none ≡ some content → none ≡ some s
no_text s content h = absurd (ground (arith, h))

-- A codec that refuses every table, so that nothing is saved.
abbrev pub no_codec : Codec
no_codec = record {
  encode = λ s. none;
  decode = λ content. none;
  torn = λ file content. none;
  decode-encode = no_text;
}

abbrev pub edge_job : JobSpec
edge_job = record {
  name = "sweep";
  job_type = one_shot;
  schedule = none;
  runtime = wasm "cached:abcd" (some "abcd") 64 0 100 none;
  execution = record {
    working_dir = none;
    timeout_minutes = none;
    artifacts = none;
    pre_stage = [];
  };
  targeting = some (record { platform = none; tags = "edge" ∷ []; node_ids = [] });
}
