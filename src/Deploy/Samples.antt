-- ===== src/Deploy/Samples.antt =====
-- Messages and nodes that the theorems on deployments are tried on, with a stand-in for the cryptography.
use peer_deploy.Prelude.{true, none, some, [], ◌∷◌, ◌++◌, replicate}
use peer_deploy.Prelude.Outcome.{ok}
use peer_deploy.Metrics.{new_metrics}
use peer_deploy.Storage.Store.{Bytes}
use peer_deploy.Supervisor.{new_supervisor}
use peer_deploy.Common.Component.{ComponentSpec}
use peer_deploy.Common.Signed.{SignedManifest, AgentUpgrade, PushPackage}
use peer_deploy.Deploy.Crypto.{Crypto}
use peer_deploy.Deploy.State.{default_state, DataDir, empty_manifest}
use peer_deploy.Deploy.Push.{Node, PushFiles}
use peer_deploy.Deploy.Apply.{ApplyFiles}
use peer_deploy.Deploy.Upgrade.{UpgradeHost}

-- An ELF header for x86_64.
abbrev pub elf : Bytes
elf = 0x7F ∷ 0x45 ∷ 0x4C ∷ 0x46 ∷ 2 ∷ 1 ∷ replicate 12 0 ++ 62 ∷ 0 ∷ 1 ∷ []

-- Every text decodes to the header, every signature is valid, and every digest is the same.
abbrev pub crypto : Crypto
crypto = record {
  decode = λ text. ok elf;
  verify_bytes_ed25519 = λ owner bytes sig. ok true;
  sha256_hex = λ bytes. "0123456789abcdef";
  unsigned_bytes = λ u. [];
  text_bytes = λ text. [];
  parse_manifest = λ text. ok empty_manifest;
  print_manifest = λ manifest. some "";
  fetch_bytes = λ url. ok elf;
}

abbrev pub dir : DataDir
dir = record {
  owner_pub = some "alice";
  state_json = some (record default_state { manifest_version = 3; agent_version = 5 });
  desired_manifest = none;
  peers = none;
  artifacts = [];
  binaries = [];
}

abbrev pub node_a : Node
node_a = record { dir = dir; supervisor = new_supervisor new_metrics }

abbrev pub push_files : PushFiles
push_files = record {
  owner_written = true;
  stage_dir_created = true;
  artifact_written = true;
  manifest_written = true;
}

abbrev pub pushed : PushPackage
pushed = record {
  unsigned = record {
    alg = "ed25519";
    owner_pub_bs58 = "alice";
    component_name = "web";
    target_peer_ids = [];
    target_tags = [];
    memory_max_mb = none;
    fuel = none;
    epoch_ms = none;
    replicas = 2;
    start = true;
    binary_sha256_hex = "0123456789abcdef";
    mounts = none;
    ports = none;
    visibility = none;
  };
  binary_b64 = "AAAA";
  signature_b64 = "AAAA";
}

abbrev pub apply_files : ApplyFiles
apply_files = record {
  owner_written = true;
  artifact_written = λ path. true;
  manifest_written = true;
  state_written = true;
}

abbrev pub manifest : SignedManifest
manifest = record {
  alg = "ed25519";
  owner_pub_bs58 = "alice";
  version = 4;
  manifest_toml = "[components]";
  signature_b64 = "AAAA";
}

abbrev pub host : UpgradeHost
host = record {
  os = "linux";
  arch = "x86_64";
  owner_written = true;
  bin_dir_created = true;
  file_opened = true;
  file_written = true;
  file_synced = true;
  state_written = true;
  spawned = true;
}

abbrev pub upgrade : AgentUpgrade
upgrade = record {
  alg = "ed25519";
  owner_pub_bs58 = "alice";
  version = 6;
  target_platform = some "linux/x86_64";
  target_peer_ids = [];
  target_tags = [];
  binary_sha256_hex = "0123456789abcdef";
  binary_b64 = "AAAA";
  signature_b64 = "AAAA";
}

abbrev pub web_spec : ComponentSpec
web_spec = record {
  source = "cached:0123456789abcdef";
  sha256_hex = "0123456789abcdef";
  memory_max_mb = none;
  fuel = none;
  epoch_ms = none;
  replicas = none;
  mounts = none;
  ports = none;
  visibility = none;
  target_peer_ids = [];
  target_tags = [];
  start = true;
}
