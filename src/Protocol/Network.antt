-- ===== src/Protocol/Network.antt =====
-- pkg/protocol/network.go, checkpoints.go and protocol.go: the networks, their first blocks, and the
-- services that a peer announces.
use Prim.Native.Nat.{bit_and}
use neutrino_elements.Prelude.{
  ℕ, Bool, List, [], ◌∷◌, Result, ok, err, Error, ◌==◌, bytes_eq, codes, some_of, if◌then◌else◌,
}

-- [4]byte.
abbrev pub Magic : Type 0
Magic = List ℕ

abbrev pub magic_liquid : Magic
magic_liquid = 0xfa ∷ 0xbf ∷ 0xb5 ∷ 0xda ∷ []

abbrev pub magic_regtest : Magic
magic_regtest = 0x12 ∷ 0x34 ∷ 0x56 ∷ 0x78 ∷ []

abbrev pub magic_liquid_testnet : Magic
magic_liquid_testnet = 0x41 ∷ 0x0e ∷ 0xdd ∷ 0x62 ∷ []

-- The map `Networks`; `New` of pkg/node refuses any other name.
unfoldable pub network_magic : List ℕ → Result Magic
network_magic name =
    if bytes_eq name (codes "liquid")
    then ok magic_liquid
    else if bytes_eq name (codes "testnet")
    then ok magic_liquid_testnet
    else if bytes_eq name (codes "regtest")
    then ok magic_regtest
    else err Error.invalid

-- `HasValidMagic`.
unfoldable pub has_valid_magic : Magic → Bool
has_valid_magic m = some_of (bytes_eq m) (magic_liquid ∷ magic_liquid_testnet ∷ magic_regtest ∷ [])

-- Each network's checkpoint 0, the hash of its first block in hexadecimal.
unfoldable pub genesis_checkpoint : Magic → List ℕ
genesis_checkpoint m =
    if bytes_eq m magic_liquid
    then codes "1466275836220db2944ca059a3a10ef6fd2ea684b0688d2c379296888a206003"
    else if bytes_eq m magic_liquid_testnet
    then codes "a771da8e52ee6ad581ed1e9a99825e5b3b7992225534eaa2ae23244fe26ab1c1"
    else codes "00902a6b70c2ca83b5d9c815d96a0e2f4202179316970d14ea1847dae5b1ca21"

abbrev pub sf_node_network : ℕ
sf_node_network = 1

-- The seventh flag of the iota, 1 << 6.
abbrev pub sf_node_cf : ℕ
sf_node_cf = 64

abbrev pub protocol_version : ℕ
protocol_version = 70016

-- `MsgVersion.HasService`, on the field `Services`.
unfoldable pub has_service : ℕ → ℕ → Bool
has_service services flag = bit_and services flag == flag
