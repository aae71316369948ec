-- ===== src/Deploy/State.antt =====
-- The files of crates/agent/src/p2p/state.rs that deployments read and write. A file is its value;
-- a Boolean tells whether a write succeeds, since the code passes over its failure.
use Prim.Native.Char.{code}
use peer_deploy.Prelude.{
  ℕ, String, Bool, ◌&&◌, ◌||◌, Option, none, some, List, [], ◌∷◌, ◌++◌, leb, ◌==◌, str_eq, any,
  if◌then◌else◌,
}
use peer_deploy.Prelude.Dict
use peer_deploy.Prelude.Dict.{Dict}
use peer_deploy.Prelude.Outcome.{ok, err}
use peer_deploy.Common.Component.{Manifest, ComponentSpec}
use peer_deploy.Storage.Store.{Bytes}
use peer_deploy.Deploy.Crypto.{Crypto}

pub record NodeAnnotation : Type 0 where
  pub alias : Option String
  pub notes : Option String

pub record AgentState : Type 0 where
  pub manifest_version : ℕ
  pub agent_version : ℕ
  pub previous_agent_version : ℕ
  pub roles : List String
  pub node_annotations : Dict NodeAnnotation

-- `AgentState::default`
abbrev pub default_state : AgentState
default_state = record {
  manifest_version = 0;
  agent_version = 0;
  previous_agent_version = 0;
  roles = [];
  node_annotations = [];
}

-- The data directory: owner.pub, state.json, desired_manifest.toml, peers.json, and the files of
-- artifacts and bin by their names.
pub record DataDir : Type 0 where
  pub owner_pub : Option String
  pub state_json : Option AgentState
  pub desired_manifest : Option String
  pub peers : Option (List String)
  pub artifacts : Dict Bytes
  pub binaries : Dict Bytes

-- `char::is_whitespace`
unfoldable pub is_whitespace : ℕ → Bool
is_whitespace c =
    (leb 9 c && leb c 13)
    || (leb 0x2000 c && leb c 0x200A)
    || any (λ w. w == c)
        (32 ∷ 0x85 ∷ 0xA0 ∷ 0x1680 ∷ 0x2028 ∷ 0x2029 ∷ 0x202F ∷ 0x205F ∷ 0x3000 ∷ [])

unfoldable pub trim_start : String → String
unfolding is_whitespace
trim_start String.[] = ""
trim_start (String.◌∷◌ c s) =
    let rest = trim_start s in if is_whitespace (code c) then rest else String.◌∷◌ c s

unfoldable pub trim_end : String → String
unfolding is_whitespace
trim_end String.[] = ""
trim_end (String.◌∷◌ c s) =
    let rest = trim_end s in
    if str_eq rest "" && is_whitespace (code c) then "" else String.◌∷◌ c rest

-- `str::trim`
unfoldable pub trim : String → String
unfolding trim_start trim_end
trim s = trim_end (trim_start s)

unfoldable pub load_trusted_owner : DataDir → Option String
unfolding trim
load_trusted_owner d = elim d.owner_pub [
  | none ↦ none
  | some s ↦ if str_eq (trim s) "" then none else some (trim s)
]

unfoldable pub save_trusted_owner : Bool → String → DataDir → DataDir
save_trusted_owner written pub_bs58 d =
    if written then record d { owner_pub = some pub_bs58 } else d

-- `load_state`: a missing or unreadable file is the default.
unfoldable pub load_state : DataDir → AgentState
load_state d = elim d.state_json [ none ↦ default_state | some s ↦ s ]

unfoldable pub save_state : Bool → AgentState → DataDir → DataDir
save_state written state d = if written then record d { state_json = some state } else d

unfoldable pub load_roles : DataDir → List String
unfolding load_state
load_roles d = (load_state d).roles

unfoldable pub save_roles : Bool → List String → DataDir → DataDir
unfolding load_state save_state
save_roles written roles d = save_state written (record (load_state d) { roles = roles }) d

unfoldable pub load_desired_manifest : DataDir → Option String
load_desired_manifest d = d.desired_manifest

unfoldable pub save_desired_manifest : Bool → String → DataDir → DataDir
save_desired_manifest written toml d =
    if written then record d { desired_manifest = some toml } else d

abbrev pub empty_manifest : Manifest
empty_manifest = record { components = [] }

-- The manifest on disk, or an empty one when it is missing or does not parse.
unfoldable pub current_manifest : Crypto → DataDir → Manifest
unfolding load_desired_manifest
current_manifest crypto d = elim (load_desired_manifest d) [
  | none ↦ empty_manifest
  | some toml_str ↦ elim (crypto.parse_manifest toml_str) [ ok m ↦ m | err e ↦ empty_manifest ]
]

unfoldable pub update_persistent_manifest_with_component :
    Crypto → Bool → String → ComponentSpec → DataDir → DataDir
unfolding current_manifest save_desired_manifest
update_persistent_manifest_with_component crypto written component_name spec d =
    let manifest : Manifest = record {
      components = Dict.insert_sorted component_name spec (current_manifest crypto d).components;
    } in
    elim (crypto.print_manifest manifest) [
      | none ↦ d
      | some toml_str ↦ save_desired_manifest written toml_str d
    ]

unfoldable pub load_known_peers : DataDir → List String
load_known_peers d = elim d.peers [ none ↦ [] | some peers ↦ peers ]

unfoldable pub save_known_peers : Bool → List String → DataDir → DataDir
save_known_peers written peers d = if written then record d { peers = some peers } else d

unfoldable pub add_known_peer : Bool → String → DataDir → DataDir
unfolding load_known_peers save_known_peers
add_known_peer written addr d =
    let peers = load_known_peers d in
    if any (λ p. str_eq p addr) peers then d else save_known_peers written (peers ++ addr ∷ []) d
