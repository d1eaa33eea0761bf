-- ===== src/Node/Peers.antt =====
-- pkg/node/handle_ping.go, and `disconnectPeer` of node.go: the peers, and the pings that are out.
pub mod Pongs
pub mod Sent
use neutrino_elements.Prelude.{
  ℕ, Bool, true, false, List, [], ◌∷◌, ◌++◌, Option, none, some, Result, ok, err, Error, ◌==◌,
  lookup, insert, delete, length, if◌then◌else◌,
}

-- Of a peer there is its tip. A peer's id is a number, where 0 is the empty string; `peers_pong_ch`
-- has the ids that a channel was made for.
pub record PeersState : Type 0 where
  pub peers : List (ℕ × ℕ)
  pub peers_pong_ch : List ℕ

-- `addPeer`: the state, and whether the first sync starts.
unfoldable pub add_peer : ℕ → ℕ → PeersState → Result (PeersState × Bool)
add_peer id tip n = elim (lookup id n.peers) [
  | some old ↦ err Error.peer_known
  | none ↦
      let peers' = insert id tip n.peers in
      ok (record { peers = peers'; peers_pong_ch = id ∷ n.peers_pong_ch }, length peers' == 1)
]

unfoldable pub disconnect_peer : ℕ → PeersState → PeersState
disconnect_peer id n = elim (lookup id n.peers) [
  | none ↦ n
  | some p ↦ record { peers = delete id n.peers; peers_pong_ch = n.peers_pong_ch }
]

-- The loop of `monitorPeers` that ends at the first ping of the peer.
unfoldable pub delete_ping_of : ℕ → List (ℕ × ℕ) → List (ℕ × ℕ)
delete_ping_of id [] = []
delete_ping_of id ((nonce, peer) ∷ pings) =
    if peer == id then pings else (nonce, peer) ∷ delete_ping_of id pings

-- What `monitorPeers` receives.
pub data PeerEvent : Type 0 where
  pong : (nonce : ℕ) → PeerEvent
  ping : (nonce peer : ℕ) → PeerEvent
  disconnected : (peer : ℕ) → PeerEvent

-- The pings that are out, by nonce, and the peers.
pub record Monitor : Type 0 where
  pub peer_pings : List (ℕ × ℕ)
  pub state : PeersState

-- The end of a pong: nothing, or the peer whose channel takes the nonce.
unfoldable pub take_pong : ℕ → ℕ → Monitor → Monitor × Option (ℕ × ℕ)
take_pong nonce peer m = if peer == 0 then (m, none) else elim (lookup peer m.state.peers) [
  | none ↦ (m, none)
  | some p ↦
      (record { peer_pings = delete nonce m.peer_pings; state = m.state }, some (peer, nonce))
]

-- A round of `monitorPeers`. A nonce that the map does not have gives the empty id.
unfoldable pub monitor_step : PeerEvent → Monitor → Monitor × Option (ℕ × ℕ)
unfolding take_pong
monitor_step (pong nonce) m = elim (lookup nonce m.peer_pings) [
  | none ↦ (m, none)
  | some peer ↦ take_pong nonce peer m
]
monitor_step (ping nonce peer) m =
    (record { peer_pings = insert nonce peer m.peer_pings; state = m.state }, none)
monitor_step (disconnected peer) m = (
  record { peer_pings = delete_ping_of peer m.peer_pings; state = disconnect_peer peer m.state },
  none,
)

-- The events one after the other, and what went to the peers' channels.
unfoldable pub monitor_run : List PeerEvent → Monitor → Monitor × List (ℕ × ℕ)
monitor_run [] m = (m, [])
monitor_run (e ∷ es) m =
    let (m', out) = monitor_step e m in
    let (m'', later) = monitor_run es m' in (m'', elim out [ none ↦ later | some d ↦ d ∷ later ])
