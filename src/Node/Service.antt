-- ===== src/Node/Service.antt =====
-- The rest of pkg/node/node.go, the interface NodeService, and `monitorPeer` of handle_ping.go, a
-- peer's pings; and the constructor of version messages of pkg/protocol/msg_version.go.
pub mod Monitoring
pub mod Syncing
use neutrino_elements.Prelude.{
  ℕ, Bool, true, false, List, [], ◌∷◌, ◌++◌, Option, none, some, Result, ok, err, Error, codes,
  lookup, ◌==◌, ltb, if◌then◌else◌, ◌>>=◌ as and_then,
}
use neutrino_elements.Ledger.{Header}
use neutrino_elements.Binary.Marshaler.{Value, marshal}
use neutrino_elements.Store.Interface.{BlockHeaderRepository}
use neutrino_elements.Protocol.Network.{Magic, network_magic, sf_node_cf}
use neutrino_elements.Protocol.Message.{Message, message_value, new_message}
use neutrino_elements.Protocol.Payloads.Version.{new_version, version_value}
use neutrino_elements.Node.Peers.{PeersState, PeerEvent, Monitor, disconnect_peer, monitor_step}

-- `New`: the magic of the configured network, and no peers. An unknown name is an error.
unfoldable pub new_node : List ℕ → Result (Magic × PeersState)
unfolding network_magic
new_node network =
    and_then (network_magic network) λ magic. ok (magic, record { peers = []; peers_pong_ch = [] })

abbrev pub get_services_flag : ℕ
get_services_flag = sf_node_cf

module _ (sha256 : List ℕ → List ℕ) (network : Magic) where
  -- `NewVersionMsg`; the clock and the random nonce are arguments.
  unfoldable pub new_version_msg : ℕ → ℕ → List ℕ → List ℕ → ℕ → ℕ → Result Message
  unfolding new_version
  new_version_msg now nonce user_agent ip port services =
      new_message sha256 (codes "version") network
        (version_value (new_version now nonce user_agent ip port services))

  unfoldable pub create_node_version_msg : ℕ → ℕ → List ℕ → List ℕ → ℕ → Result Message
  unfolding new_version_msg
  create_node_version_msg now nonce user_agent ip port =
      new_version_msg now nonce user_agent ip port get_services_flag

  -- `AddOutboundPeer`, with what the connection's Write returns: the bytes of the version message,
  -- after which the peer's messages are handled.
  unfoldable pub add_outbound_peer :
      (List ℕ → Result (Unit {0})) → ℕ → ℕ → List ℕ → List ℕ → ℕ → ℕ → PeersState → Result (List ℕ)
  unfolding create_node_version_msg
  add_outbound_peer write now nonce user_agent ip port id n = elim (lookup id n.peers) [
    | some old ↦ err Error.peer_known
    | none ↦
        and_then (create_node_version_msg now nonce user_agent ip port) λ msg.
          and_then (marshal (message_value msg)) λ bytes. and_then (write bytes) λ _. ok bytes
  ]

  -- The loop of `SendTransaction`: the peers that the bytes went to. The first error ends it.
  unfoldable pub send_to_peers :
      (ℕ → List ℕ → Result (Unit {0})) → List ℕ → List (ℕ × ℕ) → Result (Unit {0}) × List ℕ
  send_to_peers write bytes [] = (ok tt, [])
  send_to_peers write bytes ((id, tip) ∷ peers) =
      let rest = send_to_peers write bytes peers in
      elim (write id bytes) [ err e ↦ (err e, []) | ok _ ↦ (rest.0, id ∷ rest.1) ]

  -- `SendTransaction`, with the result of NewMsgTxFromHex and what the transaction serializes to. Without
  -- peers the message is not encoded.
  unfoldable pub send_transaction :
      (ℕ → List ℕ → Result (Unit {0}))
      → Result (Result (List ℕ))
      → PeersState
      → Result (Unit {0}) × List ℕ
  unfolding send_to_peers
  send_transaction write (err e) n = (err e, [])
  send_transaction write (ok tx) n =
      elim (new_message sha256 (codes "tx") network (Value.pointer (Value.marshaler tx))) [
        | err e ↦ (err e, [])
        | ok msg ↦ elim (marshal (message_value msg)) [
          | err e ↦ elim n.peers [ [] ↦ (ok tt, []) | p ∷ ps ↦ (err e, []) ]
          | ok bytes ↦ send_to_peers write bytes n.peers
        ]
      ]

unfoldable pub get_chain_tip : {S : Type 0} → BlockHeaderRepository S → S → Result Header
get_chain_tip db store = db.chain_tip store

-- A tick of `monitorPeer`: the random nonce of the ping, whether it is written, and the nonce that
-- comes over the peer's channel before the timer fires.
pub record Tick : Type 0 where
  pub nonce : ℕ
  pub written : Bool
  pub reply : Option ℕ

-- What `monitorPeer` does to the node: `lost` is its own call of `disconnectPeer`, and the others are
-- received by `monitorPeers`.
pub data Deed : Type 0 where
  lost : (peer : ℕ) → Deed
  event : PeerEvent → Deed

unfoldable pub is_answered : Tick → Bool
is_answered t = elim t.reply [ none ↦ false | some n ↦ n == t.nonce ]

-- The loop of `monitorPeer`, which ends with a wrong nonce or a timeout.
unfoldable pub monitor_peer : ℕ → List Tick → List Deed
unfolding is_answered
monitor_peer id [] = []
monitor_peer id (t ∷ ts) =
    let later = monitor_peer id ts in
    (if t.written then [] else Deed.lost id ∷ [])
    ++ (Deed.event (PeerEvent.ping t.nonce id)
        ∷ (if is_answered t then later else Deed.event (PeerEvent.disconnected id) ∷ []))

unfoldable pub apply_deed : Deed → Monitor → Monitor
unfolding disconnect_peer monitor_step
apply_deed (Deed.lost id) m = record {
  peer_pings = m.peer_pings;
  state = disconnect_peer id m.state;
}
apply_deed (Deed.event e) m = (monitor_step e m).0

unfoldable pub apply_deeds : List Deed → Monitor → Monitor
unfolding apply_deed
apply_deeds [] m = m
apply_deeds (d ∷ ds) m = apply_deeds ds (apply_deed d m)
