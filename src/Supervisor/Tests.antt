-- ===== src/Supervisor/Tests.antt =====
-- Witnesses of the theorems on the supervisor, on one component with three replicas.
use peer_deploy.Prelude.{◌≡◌, refl, true, false, none, some, [], ◌∷◌, arith}
use peer_deploy.Prelude.Dict
use peer_deploy.Common.Component.{ComponentSpec}
use peer_deploy.Metrics.{new_metrics}
use peer_deploy.Supervisor.{DesiredComponent, Supervisor, new_supervisor, reconcile_once, want}
use peer_deploy.Supervisor.Replicas.{count, topped_up, reconcile_once-count}
use peer_deploy.Supervisor.Reconcile.{reconcile_once_idem}

abbrev spec : ComponentSpec
spec = record {
  source = "cached:ab";
  sha256_hex = "ab";
  memory_max_mb = none;
  fuel = none;
  epoch_ms = none;
  replicas = some 3;
  mounts = none;
  ports = none;
  visibility = none;
  target_peer_ids = [];
  target_tags = [];
  start = true;
}

abbrev web : DesiredComponent
web = record { name = "web"; path = "web-ab.wasm"; spec = spec }

-- One replica runs.
abbrev one_running : Supervisor
one_running = record (new_supervisor new_metrics) {
  desired = ("web", web) ∷ [];
  counts = ("web", 1) ∷ [];
  tasks = ("web", 0 ∷ []) ∷ [];
  running = (0, "web") ∷ [];
  next_task = 1;
}

-- All of them run.
abbrev all_running : Supervisor
all_running = record one_running { counts = ("web", 3) ∷ [] }

reconcile_once-count_example :
    Dict.get (reconcile_once (λ path. false) one_running).counts "web"
    ≡ some (topped_up web (count "web" one_running))
unfolding Dict.get want
reconcile_once-count_example =
    reconcile_once-count (λ path. false) "web" web one_running (refl, tt) refl (omega arith)

reconcile_once_idem_example :
    reconcile_once (λ path. false) (reconcile_once (λ path. false) one_running)
    ≡ reconcile_once (λ path. false) one_running
unfolding Dict.get want
reconcile_once_idem_example =
    reconcile_once_idem (λ path. false) one_running (refl, tt) (omega arith, tt)
