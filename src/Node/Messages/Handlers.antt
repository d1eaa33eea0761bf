-- ===== src/Node/Messages/Handlers.antt =====
-- pkg/node/cmd_*.go, the message handlers, each over the length of its message; and the constructors of
-- the messages that they answer with, of pkg/protocol.
use neutrino_elements.Prelude.{
  ℕ, not, List, [], ◌∷◌, map, Result, ok, err, Error, codes, if◌then◌else◌,
}
use neutrino_elements.Ledger.{Header, Transaction, Block}
use neutrino_elements.Binary.Marshaler.{Value}
use neutrino_elements.Binary.Reader.{Reader}
use neutrino_elements.Binary.Unmarshaler.{read_until_eof}
use neutrino_elements.Store.Interface.{BlockHeaderRepository, FilterRepository}
use neutrino_elements.Protocol.Network.{Magic, has_service, sf_node_cf}
use neutrino_elements.Protocol.Message.{Message, MessageHeader, new_message}
use neutrino_elements.Protocol.Payloads.Version.{MsgVersion, decode_version}
use neutrino_elements.Protocol.Payloads.Inventory.{
  ping_value, decode_ping, decode_send_cmpct, MsgInv, unmarshal_inv, marshal_get_data,
}
use neutrino_elements.Protocol.Payloads.Chain.{
  decode_get_headers, decode_get_cfilters, unmarshal_headers,
}
use neutrino_elements.Protocol.Payloads.Delivery.{unmarshal_cfilter, unmarshal_block, unmarshal_tx}
use neutrino_elements.Node.Sync.{Effect, handle_headers, handle_block, tip_or_zero}
use neutrino_elements.Node.Serving.{handle_get_cfilters}
use neutrino_elements.Node.Peers.{add_peer}
use neutrino_elements.Node.Messages.{
  Action, Session, Outcome, set_peers_tip, failed, done, then_do, receive, send_new, send_each,
}

-- SHA-256 is a parameter.
module _ (sha256 : List ℕ → List ℕ) (network : Magic) where
  unfoldable pub new_verack_msg : Result Message
  new_verack_msg = new_message sha256 (codes "verack") network (Value.bytes [])

  unfoldable pub new_send_headers_message : Result Message
  new_send_headers_message = new_message sha256 (codes "sendheaders") network (Value.bytes [])

  unfoldable pub new_ping_msg : ℕ → Result Message
  new_ping_msg nonce = new_message sha256 (codes "ping") network (ping_value nonce)

  unfoldable pub new_pong_msg : ℕ → Result Message
  new_pong_msg nonce = new_message sha256 (codes "pong") network (ping_value nonce)

-- What the handlers use of other libraries: SHA-256, the parsers of go-elements, gcs.FromNBytes and the
-- method GcsFilter, and the connection's Write.
pub record Externals (Filter : Type 0) : Type 0 where
  pub sha256 : List ℕ → List ℕ
  pub block_from_buffer : List ℕ → Result Block
  pub tx_from_buffer : List ℕ → Result Transaction
  pub deserialize_header : Reader Header
  pub from_n_bytes : List ℕ → Result Filter
  pub gcs_filter : List ℕ → Result Filter
  pub write : List ℕ → Result (Unit {0})

-- `p.SetPeersTip` among the effects of a handler.
unfoldable pub after_effects : ℕ → List Effect → Session → Session
unfolding set_peers_tip
after_effects id [] s = s
after_effects id (Effect.set_peers_tip tip ∷ es) s = after_effects id es (set_peers_tip id tip s)
after_effects id (Effect.forward h ∷ es) s = after_effects id es s
after_effects id (Effect.sync ∷ es) s = after_effects id es s
after_effects id (Effect.check_tx_confirmed b ∷ es) s = after_effects id es s

-- `id` is the peer's.
module _ {Filter : Type 0} (lib : Externals Filter) (network : Magic) (id : ℕ) where
  abbrev Handler : Type 0
  Handler = MessageHeader → Session → List ℕ → Outcome Filter × List ℕ

  -- The last statements of `handleVersion`.
  unfoldable pub join : Session → Outcome Filter
  join s = elim (add_peer id s.peers_tip s.node) [
    | err e ↦ failed e s
    | ok added ↦
        done
          (if added.1
            then Action.effect Effect.sync ∷ Action.monitor_peer ∷ []
            else Action.monitor_peer ∷ [])
          (record { node = added.0; peers_tip = s.peers_tip })
  ]

  -- `handleVersion` behind the decoding.
  unfoldable pub answer_version : MsgVersion → Session → Outcome Filter
  unfolding join send_new set_peers_tip new_verack_msg new_send_headers_message then_do
  answer_version version s =
      if not (has_service version.services sf_node_cf)
      then failed Error.no_filter_service s
      else then_do (send_new lib.write (new_verack_msg lib.sha256 network) s) λ s'.
        then_do (send_new lib.write (new_send_headers_message lib.sha256 network) s')
          λ s''. join (set_peers_tip id version.start_height s'')

  unfoldable pub handle_version : Handler
  unfolding receive answer_version
  handle_version = receive decode_version answer_version

  -- Nothing of the payload is read.
  unfoldable pub handle_verack : Handler
  handle_verack header s bs = (done [] s, bs)

  unfoldable pub answer_ping : ℕ → Session → Outcome Filter
  unfolding send_new new_pong_msg
  answer_ping nonce s = send_new lib.write (new_pong_msg lib.sha256 network nonce) s

  unfoldable pub handle_ping : Handler
  unfolding receive answer_ping
  handle_ping = receive decode_ping answer_ping

  unfoldable pub handle_pong : Handler
  unfolding receive
  handle_pong = receive decode_ping (λ nonce s. done (Action.pong nonce ∷ []) s)

  unfoldable pub answer_inv : MsgInv → Session → Outcome Filter
  unfolding send_new
  answer_inv inv s =
      send_new lib.write
        (new_message lib.sha256 (codes "getdata") network (Value.marshaler (marshal_get_data inv)))
        s

  unfoldable pub handle_inv : Handler
  unfolding receive answer_inv
  handle_inv = receive unmarshal_inv answer_inv

  unfoldable pub handle_tx : Handler
  unfolding receive
  handle_tx =
      receive (unmarshal_tx lib.block_from_buffer lib.tx_from_buffer)
        (λ tx s. done (Action.add_tx tx ∷ []) s)

  unfoldable pub handle_cfilter : Handler
  unfolding receive
  handle_cfilter =
      receive (unmarshal_cfilter lib.from_n_bytes) (λ msg s. done (Action.cfilter msg ∷ []) s)

  unfoldable pub handle_send_cmpct : Handler
  unfolding receive
  handle_send_cmpct = receive decode_send_cmpct (λ msg s. done [] s)

  unfoldable pub handle_get_headers : Handler
  unfolding receive
  handle_get_headers = receive decode_get_headers (λ msg s. done [] s)

  -- `skipMessage`.
  unfoldable pub skip_message : Handler
  unfolding receive
  skip_message = receive read_until_eof (λ bytes s. done [] s)

  unfoldable pub with_effects : Result (List Effect) → Session → Outcome Filter
  unfolding after_effects
  with_effects effects s = elim effects [
    | err e ↦ failed e s
    | ok es ↦ done (map (λ e. Action.effect e) es) (after_effects id es s)
  ]

  -- The handlers that read the stores, as they are at that moment.
  module _ {S F : Type 0} (db : BlockHeaderRepository S) (filters_db : FilterRepository F) where
    unfoldable pub answer_headers : S → Handler
    unfolding receive with_effects
    answer_headers store =
        receive (unmarshal_headers lib.deserialize_header)
          (λ headers s. with_effects (handle_headers db (ok headers) store) s)

    -- An error of the first reading of the tip comes before the payload is read.
    unfoldable pub answer_block : S → Handler
    unfolding receive with_effects
    answer_block store header s bs = elim (tip_or_zero (db.chain_tip store)) [
      | err e ↦ (failed e s, bs)
      | ok tip ↦
          receive (unmarshal_block lib.block_from_buffer lib.tx_from_buffer)
            (λ block s'. with_effects (handle_block db (ok block) s'.peers_tip store) s') header s
            bs
    ]

    unfoldable pub answer_get_cfilters : S → F → Handler
    unfolding receive send_each
    answer_get_cfilters store filters = receive decode_get_cfilters (λ request s.
        elim (handle_get_cfilters db filters_db lib.gcs_filter lib.sha256 network (ok request) store
          filters) [ err e ↦ failed e s | ok msgs ↦ done (send_each lib.write msgs s) s ])
