-- ===== src/Binary/Pe.antt =====
-- `detect_pe_arch` of crates/agent/src/p2p/handlers/util.rs.
use peer_deploy.Prelude.{
  ℕ, ◌+◌, String, false, not, Option, none, some, List, length, ltb, ◌==◌, if◌then◌else◌,
}
use peer_deploy.Prelude.Outcome.{◌>>=◌}
use peer_deploy.Binary.Bytes.{index, slice, bytes_eq, read32, from_le16, mz_magic, pe_magic}

-- The `match machine`.
unfoldable pub pe_machine : ℕ → Option String
pe_machine machine =
    if machine == 0x8664
    then some "x86_64"
    else if machine == 0x014c
    then some "x86"
    else if machine == 0xAA64
    then some "aarch64"
    else if machine == 0x01c0
    then some "arm"
    else none

-- The part that reads the PE header at `pe_off`. `pe_off` is below 2 ^ 32, so that `pe_off + 6`
-- does not overflow a 64-bit `usize`.
unfoldable pub pe_header : List ℕ → ℕ → Option (Option String)
pe_header bin pe_off = if ltb (length bin) (pe_off + 6) then some none else (do
  sig ← slice bin pe_off (pe_off + 4)
  if not (bytes_eq sig pe_magic) then some none else do
    b0 ← index bin (pe_off + 4)
    b1 ← index bin (pe_off + 5)
    some (pe_machine (from_le16 b0 b1)))

unfoldable pub detect_pe_arch : List ℕ → Option (Option String)
detect_pe_arch bin = if ltb (length bin) 0x40 then some none else (do
  m2 ← slice bin 0 2
  if not (bytes_eq m2 mz_magic)
      then some none
      else do pe_off ← read32 false bin 0x3C; pe_header bin pe_off)
