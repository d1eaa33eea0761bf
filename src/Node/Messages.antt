-- ===== src/Node/Messages.antt =====
-- What the handlers of pkg/node/cmd_*.go do: they send messages over the connection of the peer, hand
-- values to the node's channels, and change the peers. An `Action` is one such deed, in the order of
-- the code; the `Session` is what they change.
pub mod Handlers
pub mod Loop
pub mod Commands
pub mod Reading
pub mod Termination
pub mod Arrivals
pub mod Pings
pub mod Inventories
pub mod Handshake
use neutrino_elements.Prelude.{
  ℕ, ◌≡◌, refl, Bool, List, [], ◌∷◌, ◌++◌, append-nil, append_assoc, Option, none, some, Result, ok,
  err, Error, codes, lookup, insert, if◌then◌else◌, ◌>>=◌ as and_then,
}
use neutrino_elements.Ledger.{Header, Transaction, Block}
use neutrino_elements.Binary.Marshaler.{marshal}
use neutrino_elements.Binary.Reader.{Reader, limit}
use neutrino_elements.Protocol.Message.{Message, MessageHeader, message_value}
use neutrino_elements.Protocol.Payloads.Delivery.{MsgCFilter}
use neutrino_elements.Node.Sync.{Effect}
use neutrino_elements.Node.Peers.{PeersState}

-- `Filter` is the type gcs.Filter.
pub data Action (Filter : Type 0) : Type 0 where
  -- bytes are written to the connection
  send : List ℕ → Action Filter
  -- a nonce goes to `pongsCh`
  pong : ℕ → Action Filter
  -- `AddTx` of the mempool
  add_tx : Transaction → Action Filter
  -- a filter goes to `compactFiltersCh`
  cfilter : MsgCFilter Filter → Action Filter
  -- what the handlers of blocks and headers do, and the start of `sync` in `addPeer`
  effect : Effect → Action Filter
  -- `monitorPeer` is started
  monitor_peer : Action Filter
  -- the peer's id goes to `DisconCh`
  disconnect : Action Filter

-- The peers of the node, and the tip of the peer at hand.
pub record Session : Type 0 where
  pub node : PeersState
  pub peers_tip : ℕ

pub record Outcome (Filter : Type 0) : Type 0 where
  pub result : Result (Unit {0})
  pub actions : List (Action Filter)
  pub session : Session

-- `SetPeersTip`: the node's map has a pointer to the peer at hand.
unfoldable pub set_peers_tip : ℕ → ℕ → Session → Session
set_peers_tip id tip s = record {
  node = elim (lookup id s.node.peers) [
    | none ↦ s.node
    | some old ↦ record s.node { peers = insert id tip s.node.peers }
  ];
  peers_tip = tip;
}

module _ {Filter : Type 0} where
  abbrev pub failed : Error → Session → Outcome Filter
  failed e s = record { result = err e; actions = []; session = s }

  abbrev pub done : List (Action Filter) → Session → Outcome Filter
  done actions s = record { result = ok tt; actions = actions; session = s }

  abbrev pub preceded : List (Action Filter) → Outcome Filter → Outcome Filter
  preceded before o = record {
    result = o.result;
    actions = before ++ o.actions;
    session = o.session;
  }

  -- The next statements, which an error leaves out.
  unfoldable pub then_do : Outcome Filter → (Session → Outcome Filter) → Outcome Filter
  then_do o next =
      preceded o.actions (elim o.result [ err e ↦ failed e o.session | ok _ ↦ next o.session ])

-- A handler that reads its payload from a LimitReader of the message's length.
unfoldable pub receive :
    {Filter A : Type 0}
    → Reader A
    → (A → Session → Outcome Filter)
    → MessageHeader
    → Session
    → List ℕ
    → Outcome Filter × List ℕ
receive m handle header s bs =
    let (message, rest) = limit header.size m bs in
    (elim message [ err e ↦ failed e s | ok a ↦ handle a s ], rest)

-- `write` is what the connection's Write returns for these bytes.
module _ {Filter : Type 0} (write : List ℕ → Result (Unit {0})) where
  -- `sendMessage`.
  unfoldable pub send_message : Message → Session → Outcome Filter
  send_message msg s = elim (marshal (message_value msg)) [
    | err e ↦ failed e s
    | ok bytes ↦ elim (write bytes) [ err e ↦ failed e s | ok _ ↦ done (Action.send bytes ∷ []) s ]
  ]

  -- A message is made and then sent.
  unfoldable pub send_new : Result Message → Session → Outcome Filter
  unfolding send_message
  send_new message s = elim message [ err e ↦ failed e s | ok msg ↦ send_message msg s ]

  -- The loop of `handleGetCFilters`: an error is logged.
  unfoldable pub send_each : List Message → Session → List (Action Filter)
  unfolding send_message
  send_each [] s = []
  send_each (msg ∷ msgs) s = (send_message msg s).actions ++ send_each msgs s
