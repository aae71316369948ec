-- ===== src/Common/Tests.antt =====
-- The witness of the theorem on targets: a component for one peer and two tags.
use peer_deploy.Prelude.{true, none, [], ◌∷◌}
use peer_deploy.Common.Component.{ComponentSpec}

abbrev edge_only : ComponentSpec
edge_only = record {
  source = "cached:ab";
  sha256_hex = "ab";
  memory_max_mb = none;
  fuel = none;
  epoch_ms = none;
  replicas = none;
  mounts = none;
  ports = none;
  visibility = none;
  target_peer_ids = "peer-1" ∷ [];
  target_tags = "edge" ∷ "gpu" ∷ [];
  start = true;
}
