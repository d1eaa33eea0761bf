-- ===== src/Node/Messages/Loop.antt =====
-- `handlePeerMessages` of pkg/node/node.go: up to 24 bytes are read, decoded as a header and validated,
-- and the handler of its command reads the payload, until the connection ends. What a handler leaves of
-- the payload is read as the next header. A panic starts the method again, which goes on with the next
-- round as an error does.
use neutrino_elements.Prelude.{
  ℕ, zero, suc, List, [], ◌∷◌, ◌++◌, length, Option, none, some, ok, err, codes, bytes_eq,
  if◌then◌else◌,
}
use neutrino_elements.Binary.Reader.{conn_read}
use neutrino_elements.Store.Interface.{BlockHeaderRepository, FilterRepository}
use neutrino_elements.Protocol.Network.{Magic}
use neutrino_elements.Protocol.Message.{MessageHeader, command_string, validate, decode_header}
use neutrino_elements.Node.Messages.{Action, Session, Outcome, failed}
use neutrino_elements.Node.Messages.Handlers.{
  Externals, handle_version, handle_verack, handle_ping, handle_pong, handle_inv, handle_tx,
  handle_cfilter, handle_send_cmpct, handle_get_headers, skip_message, answer_headers, answer_block,
  answer_get_cfilters,
}

-- Other goroutines write to the stores meanwhile: `headers_at n` and `filters_at n` are the stores
-- when `n` bytes of the connection are left behind a header.
module _ {Filter S F : Type 0} (lib : Externals Filter) (network : Magic) (id : ℕ)
    (db : BlockHeaderRepository S) (filters_db : FilterRepository F) (headers_at : ℕ → S)
    (filters_at : ℕ → F) where
  -- The switch over the command.
  unfoldable pub dispatch : List ℕ → MessageHeader → Session → List ℕ → Outcome Filter × List ℕ
  unfolding handle_version handle_verack handle_ping handle_pong handle_inv handle_tx handle_cfilter
      handle_send_cmpct handle_get_headers skip_message answer_headers answer_block
      answer_get_cfilters
  dispatch command header s bs =
      if bytes_eq command (codes "version")
      then handle_version lib network id header s bs
      else if bytes_eq command (codes "verack")
      then handle_verack lib network id header s bs
      else if bytes_eq command (codes "ping")
      then handle_ping lib network id header s bs
      else if bytes_eq command (codes "pong")
      then handle_pong lib network id header s bs
      else if bytes_eq command (codes "inv")
      then handle_inv lib network id header s bs
      else if bytes_eq command (codes "tx")
      then handle_tx lib network id header s bs
      else if bytes_eq command (codes "block")
      then answer_block lib network id db filters_db (headers_at (length bs)) header s bs
      else if bytes_eq command (codes "sendcmpct")
      then handle_send_cmpct lib network id header s bs
      else if bytes_eq command (codes "getheaders")
      then handle_get_headers lib network id header s bs
      else if bytes_eq command (codes "headers")
      then answer_headers lib network id db filters_db (headers_at (length bs)) header s bs
      else if bytes_eq command (codes "cfilter")
      then handle_cfilter lib network id header s bs
      else if bytes_eq command (codes "getcfilters")
      then answer_get_cfilters lib network id db filters_db (headers_at (length bs))
          (filters_at (length bs)) header s bs
      else skip_message lib network id header s bs

  -- A round, behind the Read of the header, with the bytes that it gave.
  unfoldable pub handle_message : List ℕ → Session → List ℕ → Outcome Filter × List ℕ
  unfolding dispatch
  handle_message bytes s bs = elim (decode_header bytes).0 [
    | err e ↦ (failed e s, bs)
    | ok header ↦ elim (validate header) [
      | err e ↦ (failed e s, bs)
      | ok _ ↦ dispatch (command_string header) header s bs
    ]
  ]

  -- The loop, where `none` is a run out of fuel. Its `Read` of a header takes what has come of the
  -- stream: `arrived n` bytes beside the first, where `n` bytes are left in all.
  unfoldable pub handle_peer_messages :
      (ℕ → ℕ) → ℕ → Session → List ℕ → Option (List (Action Filter) × Session)
  unfolding handle_message conn_read
  handle_peer_messages arrived zero s bs = none
  handle_peer_messages arrived (suc fuel) s bs =
      let (header, rest) = conn_read (arrived (length bs)) 24 bs in
      elim header [
        | err e ↦ some (Action.disconnect ∷ [], s)
        | ok bytes ↦
            let (o, rest') = handle_message bytes s rest in
            elim (handle_peer_messages arrived fuel o.session rest') [
              | none ↦ none
              | some (later, s') ↦ some (o.actions ++ later, s')
            ]
      ]
