-- ===== src/Deploy/Upgrade.antt =====
-- `handle_upgrade` of crates/agent/src/p2p/handlers/upgrade.rs. Log lines, the mode of the file and
-- the link `current` are left out; so is the exit of the process, which `exited` notes.
pub mod Accept
pub mod Owner
pub mod Steps
pub mod Replay
use peer_deploy.Prelude.{
  ℕ, String, Bool, true, false, not, Option, none, some, List, [], ◌∷◌, leb, str_eq, if◌then◌else◌,
}
use peer_deploy.Prelude.Dict
use peer_deploy.Prelude.Outcome.{Result, ok, err}
use peer_deploy.Prelude.Text.{concat, format_u64}
use peer_deploy.Common.Signed.{AgentUpgrade}
use peer_deploy.Storage.Store.{Bytes}
use peer_deploy.Binary.Host.{binary_target_matches_host}
use peer_deploy.Deploy.Crypto.{Crypto}
use peer_deploy.Deploy.State.{
  DataDir, load_trusted_owner, save_trusted_owner, load_state, save_state,
}

-- What the environment does during an upgrade: the system and the architecture, and which of the
-- operations succeed. A file that could not be written to its end is left out of `binaries`.
pub record UpgradeHost : Type 0 where
  pub os : String
  pub arch : String
  pub owner_written : Bool
  pub bin_dir_created : Bool
  pub file_opened : Bool
  pub file_written : Bool
  pub file_synced : Bool
  pub state_written : Bool
  pub spawned : Bool

-- The messages sent, the files after them, and whether the process has exited.
pub record Upgraded : Type 0 where
  pub messages : List (Result String String)
  pub dir : DataDir
  pub exited : Bool

-- The details that follow the reason in the message (the text of an error, versions, platforms) are left out.
abbrev pub reject : String → DataDir → Upgraded
reject reason d = record {
  messages = err (concat ("upgrade rejected (" ∷ reason ∷ ")" ∷ [])) ∷ [];
  dir = d;
  exited = false;
}

-- `host_platform_string`
unfoldable pub host_platform_string : UpgradeHost → String
host_platform_string host = concat (host.os ∷ "/" ∷ host.arch ∷ [])

-- `if let Some(ref plat)`: the platform differs.
unfoldable pub platform_differs : UpgradeHost → Option String → Bool
unfolding host_platform_string
platform_differs host none = false
platform_differs host (some plat) = not (str_eq (host_platform_string host) plat)

module _ (crypto : Crypto) (host : UpgradeHost) where
  unfoldable pub accepted_message : ℕ → ℕ → String
  accepted_message version previous =
      concat
        ("upgrade accepted v" ∷ format_u64 version ∷ " (prev v" ∷ format_u64 previous ∷ ")" ∷ [])

  -- From `let previous` to the end.
  unfoldable pub switch_binary : AgentUpgrade → DataDir → Upgraded
  unfolding accepted_message
  switch_binary pkg d =
      let previous = (load_state d).agent_version in
      let d' =
        save_state host.state_written
          (record (load_state d) { previous_agent_version = previous; agent_version = pkg.version })
          d in
      let accepted : Result String String = ok (accepted_message pkg.version previous) in
      if host.spawned
      then record { messages = accepted ∷ []; dir = d'; exited = true }
      else record {
        messages = accepted ∷ err "upgrade rejected (spawn failed)" ∷ [];
        dir =
            save_state host.state_written (record (load_state d') { agent_version = previous }) d';
        exited = false;
      }

  -- From the creation of the directory to the closing of the file.
  unfoldable pub write_binary : AgentUpgrade → Bytes → DataDir → Upgraded
  unfolding switch_binary
  write_binary pkg bin_bytes d =
      let versioned_path = concat ("realm-agent-v" ∷ format_u64 pkg.version ∷ []) in
      if not host.bin_dir_created
      then reject "bin dir create" d
      else if not host.file_opened
      then reject "open error" d
      else if not host.file_written
      then reject "write error" d
      else if not host.file_synced
      then reject "fsync file" d
      else switch_binary pkg
          (record d { binaries = Dict.insert versioned_path bin_bytes d.binaries })

  unfoldable pub check_version : AgentUpgrade → Bytes → DataDir → Upgraded
  unfolding write_binary
  check_version pkg bin_bytes d =
      if leb pkg.version (load_state d).agent_version
      then reject "stale" d
      else write_binary pkg bin_bytes d

  -- The two checks of the target; `none` is a panic of the sniffer.
  unfoldable pub check_target : AgentUpgrade → Bytes → DataDir → Option Upgraded
  unfolding check_version platform_differs
  check_target pkg bin_bytes d = elim (binary_target_matches_host host.os host.arch bin_bytes) [
    | none ↦ none
    | some (err e) ↦ some (reject "target mismatch" d)
    | some (ok desc) ↦
        if platform_differs host pkg.target_platform
        then some (reject "platform" d)
        else some (check_version pkg bin_bytes d)
  ]

  unfoldable pub check_digest : AgentUpgrade → Bytes → DataDir → Option Upgraded
  unfolding check_target
  check_digest pkg bin_bytes d =
      if not (str_eq (crypto.sha256_hex bin_bytes) pkg.binary_sha256_hex)
      then some (reject "digest mismatch" d)
      else check_target pkg bin_bytes d

  -- `unwrap_or(false)`
  unfoldable pub upgrade_signed : AgentUpgrade → Bytes → Bytes → Bool
  upgrade_signed pkg bin_bytes sig =
      elim (crypto.verify_bytes_ed25519 pkg.owner_pub_bs58 bin_bytes sig) [
        | err e ↦ false
        | ok valid ↦ valid
      ]

  unfoldable pub trust_upgrade : AgentUpgrade → Bytes → DataDir → Option Upgraded
  unfolding check_digest
  trust_upgrade pkg bin_bytes d = elim (load_trusted_owner d) [
    | none ↦ check_digest pkg bin_bytes (save_trusted_owner host.owner_written pkg.owner_pub_bs58 d)
    | some trusted ↦
        if not (str_eq trusted pkg.owner_pub_bs58)
        then some (reject "owner mismatch" d)
        else check_digest pkg bin_bytes d
  ]

  unfoldable pub handle_upgrade : AgentUpgrade → DataDir → Option Upgraded
  unfolding trust_upgrade upgrade_signed
  handle_upgrade pkg d = elim (crypto.decode pkg.signature_b64) [
    | err e ↦ some (reject "bad signature_b64" d)
    | ok sig ↦ elim (crypto.decode pkg.binary_b64) [
      | err e ↦ some (reject "bad binary_b64" d)
      | ok bin_bytes ↦
          if upgrade_signed pkg bin_bytes sig
          then trust_upgrade pkg bin_bytes d
          else some (reject "sig" d)
    ]
  ]
