-- ===== src/Metrics.antt =====
-- The counters of `Metrics` in crates/agent/src/p2p/metrics.rs. Atomic additions wrap at 64 bits.
use peer_deploy.Prelude.{ℕ, ◌+◌, ◌-◌, ◌%◌, ltb, if◌then◌else◌}

pub record Metrics : Type 0 where
  pub status_published_total : ℕ
  pub status_publish_errors_total : ℕ
  pub commands_received_total : ℕ
  pub run_ok_total : ℕ
  pub run_error_total : ℕ
  pub manifest_accepted_total : ℕ
  pub manifest_rejected_total : ℕ
  pub upgrade_accepted_total : ℕ
  pub upgrade_rejected_total : ℕ
  pub agent_version : ℕ
  pub manifest_version : ℕ
  pub components_running : ℕ
  pub components_desired : ℕ
  pub restarts_total : ℕ
  pub fuel_used_total : ℕ
  pub mem_current_bytes : ℕ
  pub mem_peak_bytes : ℕ
  pub msgs_per_sec : ℕ
  pub gateway_requests_total : ℕ
  pub gateway_errors_total : ℕ
  pub gateway_last_latency_ms : ℕ

-- `Metrics::new`
abbrev pub new_metrics : Metrics
new_metrics = record {
  status_published_total = 0;
  status_publish_errors_total = 0;
  commands_received_total = 0;
  run_ok_total = 0;
  run_error_total = 0;
  manifest_accepted_total = 0;
  manifest_rejected_total = 0;
  upgrade_accepted_total = 0;
  upgrade_rejected_total = 0;
  agent_version = 0;
  manifest_version = 0;
  components_running = 0;
  components_desired = 0;
  restarts_total = 0;
  fuel_used_total = 0;
  mem_current_bytes = 0;
  mem_peak_bytes = 0;
  msgs_per_sec = 0;
  gateway_requests_total = 0;
  gateway_errors_total = 0;
  gateway_last_latency_ms = 0;
}

-- `fetch_add(1)` on 64 bits.
unfoldable pub increment : ℕ → ℕ
increment n = (n + 1) % 18446744073709551616

-- `fetch_sub(1)` on 64 bits.
unfoldable pub decrement : ℕ → ℕ
decrement n = (n + 18446744073709551615) % 18446744073709551616

unfoldable pub set_components_desired : ℕ → Metrics → Metrics
set_components_desired v m = record m { components_desired = v }

unfoldable pub inc_components_running : Metrics → Metrics
inc_components_running m = record m { components_running = increment m.components_running }

-- `saturating_sub(1)`
unfoldable pub dec_components_running : Metrics → Metrics
dec_components_running m = record m { components_running = m.components_running - 1 }

unfoldable pub inc_restarts_total : Metrics → Metrics
inc_restarts_total m = record m { restarts_total = increment m.restarts_total }

unfoldable pub set_mem_current_bytes : ℕ → Metrics → Metrics
set_mem_current_bytes current m =
    let stored = record m { mem_current_bytes = current } in
    if ltb m.mem_peak_bytes current then record stored { mem_peak_bytes = current } else stored
