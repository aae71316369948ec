-- ===== src/Execution/Policy.antt =====
-- `ExecutionPolicy` of crates/agent/src/policy.rs, which tells whether a node runs native binaries and
-- emulated ones. policy.json is held as its value: `none` is a file that is missing or unreadable.
use peer_deploy.Prelude.{String, Bool, false, ◌||◌, Option, none, some, str_eq}
use peer_deploy.JobManager.Listing.{lower, codes_eq}

pub record ExecutionPolicy : Type 0 where
  pub allow_native_execution : Bool
  pub allow_emulation : Bool

-- `ExecutionPolicy::default`
abbrev pub default_policy : ExecutionPolicy
default_policy = record { allow_native_execution = false; allow_emulation = false }

-- The two environment variables.
pub record PolicyEnv : Type 0 where
  pub realm_allow_native_execution : Option String
  pub realm_allow_emulation : Option String

unfoldable pub eq_ignore_ascii_case : String → String → Bool
unfolding lower codes_eq
eq_ignore_ascii_case a b = codes_eq (lower a) (lower b)

-- `if let Some(v) = env`
unfoldable pub override : Option String → Bool → Bool
unfolding eq_ignore_ascii_case
override none old = old
override (some v) old = str_eq v "1" || eq_ignore_ascii_case v "true"

-- `read_policy_file().unwrap_or_default()`
abbrev pub or_default_policy : Option ExecutionPolicy → ExecutionPolicy
or_default_policy none = default_policy
or_default_policy (some p) = p

unfoldable pub load_policy : PolicyEnv → Option ExecutionPolicy → ExecutionPolicy
unfolding override
load_policy env file =
    let policy = or_default_policy file in
    record {
      allow_native_execution =
          override env.realm_allow_native_execution policy.allow_native_execution;
      allow_emulation = override env.realm_allow_emulation policy.allow_emulation;
    }
