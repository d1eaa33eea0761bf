-- ===== src/Node/Service/Syncing.antt =====
-- `syncWithPeer` of pkg/node/chainsync.go, whole, and NewMsgGetHeaders of pkg/protocol.
use neutrino_elements.Prelude.{
  ℕ, List, none, some, Result, ok, err, Error, codes, replicate, lookup, ◌>>=◌,
}
use neutrino_elements.Binary.Marshaler.{Value, marshal}
use neutrino_elements.Store.Interface.{BlockHeaderRepository}
use neutrino_elements.Protocol.Network.{Magic, genesis_checkpoint}
use neutrino_elements.Protocol.Message.{Message, message_value, new_message}
use neutrino_elements.Protocol.Payloads.Chain.{get_headers_value, get_headers_payload}
use neutrino_elements.Node.Peers.{PeersState}
use neutrino_elements.Node.Sync.{sync_locator}

abbrev pub zero_hash : List ℕ
zero_hash = replicate 32 0

module _ (sha256 : List ℕ → List ℕ) (network : Magic) where
  unfoldable pub new_msg_get_headers : List ℕ → List ℕ → Result Message
  new_msg_get_headers hash_stop locator = get_headers_payload hash_stop locator >>= λ payload.
      new_message sha256 (codes "getheaders") network (Value.pointer (get_headers_value payload))

  -- `getGenesisBlockHash`, over chainhash.NewHashFromStr.
  unfoldable pub get_genesis_block_hash : (List ℕ → Result ℕ) → Result ℕ
  get_genesis_block_hash new_hash_from_str = new_hash_from_str (genesis_checkpoint network)

  -- The bytes that are written to the peer's connection.
  unfoldable pub sync_with_peer :
      {S : Type 0}
      → BlockHeaderRepository S
      → (List ℕ → Result ℕ)
      → (List ℕ → Result (Unit {0}))
      → ℕ
      → PeersState
      → S
      → Result (List ℕ)
  unfolding new_msg_get_headers get_genesis_block_hash
  sync_with_peer db new_hash_from_str write id n store = elim (lookup id n.peers) [
    | none ↦ err Error.peer_not_found
    | some tip ↦
        sync_locator db (get_genesis_block_hash new_hash_from_str) (db.latest_block_locator store)
        >>= λ locator. new_msg_get_headers zero_hash locator >>= λ msg.
            marshal (message_value msg) >>= λ bytes. write bytes >>= λ _. ok bytes
  ]
