-- ===== src/Cli/Push.antt =====
-- `push` of crates/agent/src/cmd/push.rs: the options and the package. The network and the key file are left out.
pub mod Taken
use Prim.Native.Char.{code}
use peer_deploy.Prelude.{
  ℕ, ◌+◌, ◌-◌, ◌*◌, String, Bool, true, false, ◌&&◌, ◌||◌, Option, none, some, List, [], ◌∷◌, ◌++◌,
  leb, ltb, ◌==◌, str_eq, if◌then◌else◌,
}
use peer_deploy.Prelude.Outcome.{◌>>=◌}
use peer_deploy.Common.Component.{
  MountSpec, ServicePort, Protocol, tcp, udp, Visibility, local, public,
}
use peer_deploy.Common.Signed.{PushUnsigned, PushPackage}
use peer_deploy.JobManager.Listing.{lower, codes, codes_eq}
use peer_deploy.Storage.Store.{Bytes}
use peer_deploy.Deploy.Crypto.{Crypto}
use peer_deploy.Deploy.State.{trim}
use peer_deploy.Cli.Keys.{OwnerKeypair, Signer}
use peer_deploy.Cli.Text.{split_once, split}

-- `eq_ignore_ascii_case`
unfoldable pub same_word : String → String → Bool
unfolding lower codes_eq
same_word s word = codes_eq (lower s) (codes word)

-- The variables of the loop over the parts of a mount.
pub record MountParts : Type 0 where
  pub host : Option String
  pub guest : Option String
  pub ro : Bool

unfoldable pub set_part : String → String → MountParts → MountParts
unfolding trim same_word
set_part k v parts =
    let key = trim k in
    if str_eq key "host"
    then record parts { host = some (trim v) }
    else if str_eq key "guest"
    then record parts { guest = some (trim v) }
    else if str_eq key "ro"
    then record parts { ro = same_word (trim v) "true" }
    else parts

-- `for part in m.split(',')`
unfoldable pub read_parts : List String → MountParts → MountParts
unfolding split_once set_part
read_parts [] parts = parts
read_parts (part ∷ rest) parts = elim (split_once b'=' part) [
  | none ↦ read_parts rest parts
  | some (k, v) ↦ read_parts rest (set_part k v parts)
]

-- `if let (Some(h), Some(g)) = (host, guest)`
unfoldable pub mount_of : MountParts → List MountSpec
mount_of parts = elim parts.host [
  | none ↦ []
  | some h ↦ elim parts.guest [
    | none ↦ []
    | some g ↦ record { host = h; guest = g; ro = parts.ro } ∷ []
  ]
]

unfoldable pub mount_list : List String → List MountSpec
unfolding read_parts split mount_of
mount_list [] = []
mount_list (m ∷ mounts_cli) =
    mount_of (read_parts (split b',' m) (record { host = none; guest = none; ro = false }))
    ++ mount_list mounts_cli

-- `if list.is_empty() { None } else { Some(list) }`
abbrev pub none_if_empty {ℓ} : {A : Type ℓ} → List A → Option (List A)
none_if_empty [] = none
none_if_empty (x ∷ xs) = some (x ∷ xs)

-- The digits of a number and what they are worth; `none` at any other character.
unfoldable pub parse_digits : ℕ → String → Option ℕ
parse_digits acc String.[] = some acc
parse_digits acc (String.◌∷◌ c s) =
    let rest = parse_digits (acc * 10 + (code c - b'0')) s in
    if leb b'0' (code c) && leb (code c) b'9' then rest else none

unfoldable pub without_plus : String → String
without_plus String.[] = ""
without_plus (String.◌∷◌ c s) = if code c == b'+' then s else String.◌∷◌ c s

-- `u16::from_str`: a plus sign may stand in front, and an empty number or one above 65535 is refused.
unfoldable pub parse_u16 : String → Option ℕ
unfolding without_plus parse_digits
parse_u16 s =
    let digits = without_plus s in
    if str_eq digits "" then none else elim (parse_digits 0 digits) [
      | none ↦ none
      | some n ↦ if leb n 65535 then some n else none
    ]

unfoldable pub port_of : List String → List ServicePort
unfolding parse_u16 same_word
port_of (num ∷ proto ∷ rest) = elim (parse_u16 num) [
  | none ↦ []
  | some port ↦
      record { name = none; port = port; protocol = if same_word proto "udp" then udp else tcp }
      ∷ []
]
port_of _ = []

unfoldable pub port_list : List String → List ServicePort
unfolding port_of split
port_list [] = []
port_list (p ∷ ports_cli) = port_of (split b'/' p) ++ port_list ports_cli

unfoldable pub visibility_of : String → Option Visibility
visibility_of v =
    if str_eq v "local" || str_eq v "Local"
    then some local
    else if str_eq v "public" || str_eq v "Public"
    then some public
    else none

-- The options of the command.
pub record PushOptions : Type 0 where
  pub name : String
  pub replicas : ℕ
  pub memory_max_mb : ℕ
  pub fuel : ℕ
  pub epoch_ms : ℕ
  pub mounts_cli : List String
  pub ports_cli : List String
  pub visibility_cli : Option String
  pub target_peers : List String
  pub target_tags : List String
  pub start : Bool

module _ (crypto : Crypto) (signer : Signer crypto) (kp : OwnerKeypair) where
  unfoldable pub unsigned : PushOptions → Bytes → PushUnsigned
  unfolding mount_list port_list visibility_of
  unsigned o bin = record {
    alg = "ed25519";
    owner_pub_bs58 = kp.public_bs58;
    component_name = o.name;
    target_peer_ids = o.target_peers;
    target_tags = o.target_tags;
    memory_max_mb = some o.memory_max_mb;
    fuel = if ltb 0 o.fuel then some o.fuel else none;
    epoch_ms = some o.epoch_ms;
    replicas = o.replicas;
    start = o.start;
    binary_sha256_hex = crypto.sha256_hex bin;
    mounts = none_if_empty (mount_list o.mounts_cli);
    ports = none_if_empty (port_list o.ports_cli);
    visibility = elim o.visibility_cli [ none ↦ none | some v ↦ visibility_of v ];
  }

  -- The package that is published; `none` where the command ends before.
  unfoldable pub push : PushOptions → Option Bytes → Option PushPackage
  unfolding unsigned
  push o file = do
    bin ← file
    sig ← signer.sign_bytes_ed25519 kp.private_hex (crypto.unsigned_bytes (unsigned o bin))
    some (record {
      unsigned = unsigned o bin;
      binary_b64 = signer.encode bin;
      signature_b64 = signer.encode sig;
    })
