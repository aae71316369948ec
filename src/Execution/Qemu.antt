-- ===== src/Execution/Qemu.antt =====
-- `resolve_qemu_binary` of crates/agent/src/p2p/jobs_qemu.rs. `which` is the search of the path.
use peer_deploy.Prelude.{String, Option, none, some, str_eq, if◌then◌else◌}
use peer_deploy.JobManager.Operations.{unwrap_or}

-- `resolve_qemu_binary`, on the second part of the platform.
unfoldable pub qemu_name : String → Option String
qemu_name arch =
    if str_eq arch "x86_64"
    then some "qemu-x86_64"
    else if str_eq arch "amd64"
    then some "qemu-x86_64"
    else if str_eq arch "aarch64"
    then some "qemu-aarch64"
    else if str_eq arch "arm64"
    then some "qemu-aarch64"
    else if str_eq arch "arm"
    then some "qemu-arm"
    else if str_eq arch "armv7"
    then some "qemu-arm"
    else if str_eq arch "riscv64"
    then some "qemu-riscv64"
    else none

-- What stands between the first and the second `/`, if there is a first.
unfoldable pub up_to_slash : String → String
up_to_slash String.[] = String.[]
up_to_slash (String.◌∷◌ c s) =
    let rest = up_to_slash s in
    if str_eq (String.◌∷◌ c String.[]) "/" then String.[] else String.◌∷◌ c rest

unfoldable pub second_part : String → Option String
unfolding up_to_slash
second_part String.[] = none
second_part (String.◌∷◌ c s) =
    let rest = second_part s in
    if str_eq (String.◌∷◌ c String.[]) "/" then some (up_to_slash s) else rest

-- `target_platform.as_deref().and_then(|p| p.split('/').nth(1)).unwrap_or(arch_hint())`
unfoldable pub target_arch : Option String → String
unfolding second_part
target_arch none = "x86_64"
target_arch (some platform) = unwrap_or (second_part platform) "x86_64"

unfoldable pub resolve_qemu_binary : (String → Option String) → Option String → Option String
unfolding qemu_name target_arch
resolve_qemu_binary which target_platform = elim (qemu_name (target_arch target_platform)) [
  | none ↦ none
  | some name ↦ which name
]
