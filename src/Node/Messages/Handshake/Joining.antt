-- ===== src/Node/Messages/Handshake/Joining.antt =====
-- The rounds of `handlePeerMessages`, and the peers of the node.
use neutrino_elements.Prelude.{
  ℕ, ◌≡◌, ◌⊎◌, inl, inr, true, List, ◌∷◌, length, none, ok, arith, Result-cases, codes, bytes_eq,
  lookup,
}
use neutrino_elements.Binary.Reader.{Reader, limit}
use neutrino_elements.Store.Interface.{BlockHeaderRepository, FilterRepository}
use neutrino_elements.Protocol.Network.{Magic, has_service, sf_node_cf}
use neutrino_elements.Protocol.Message.{MessageHeader, command_string, validate, decode_header}
use neutrino_elements.Protocol.Payloads.Version.{MsgVersion, decode_version}
use neutrino_elements.Protocol.Payloads.Delivery.{unmarshal_block}
use neutrino_elements.Protocol.Payloads.Chain.{unmarshal_headers}
use neutrino_elements.Node.Sync.{handle_headers, handle_block}
use neutrino_elements.Node.Messages.{Action, Session, Outcome, receive}
use neutrino_elements.Node.Messages.Handlers.{
  Externals, with_effects, answer_version, handle_version, handle_verack, answer_ping, handle_ping,
  handle_pong, answer_inv, handle_inv, handle_tx, handle_cfilter, handle_send_cmpct,
  handle_get_headers, skip_message, answer_headers, answer_block, answer_get_cfilters,
}
use neutrino_elements.Node.Messages.Commands.{dispatch-All}
use neutrino_elements.Node.Messages.Loop.{dispatch, handle_message}
use neutrino_elements.Node.Messages.Handshake.{
  Outside, receive-All, send_new-Outside, with_effects-Outside, Greeted, answer_version_joins,
}

module _ {Filter : Type 0} (lib : Externals Filter) (network : Magic) (id : ℕ) (h : MessageHeader)
    (s : Session) (bs : List ℕ) (out : lookup id s.node.peers ≡ none) where
  reads-Outside :
      {A : Type 0} (m : Reader A) (handle : A → Session → Outcome Filter)
      → ((a : A) → Outside id (handle a s))
      → Outside id (receive m handle h s bs).0
  reads-Outside m handle f = receive-All (Outside id) m handle h s bs (λ e. out) (λ a e. f a)

  handle_version_joins :
      let o : Outcome Filter = (handle_version lib network id h s bs).0 in
      Outside id o
      ⊎ ((v : MsgVersion) × ((limit h.size decode_version bs).0 ≡ ok v)
          × Greeted lib network id v o)
  unfolding handle_version
  handle_version_joins =
      receive-All
        (λ o.
          Outside id o
          ⊎ ((v : MsgVersion) × ((limit h.size decode_version bs).0 ≡ ok v)
              × Greeted lib network id v o))
        decode_version (answer_version lib network id) h s bs (λ e. inl out)
        (λ v e. elim (answer_version_joins lib network id v s out) [
          | inl o ↦ inl o
          | inr g ↦ inr (v, e, g)
        ])

  handle_verack-Outside : Outside id (handle_verack lib network id h s bs).0
  unfolding handle_verack
  handle_verack-Outside = out

  handle_ping-Outside : Outside id (handle_ping lib network id h s bs).0
  unfolding handle_ping answer_ping
  handle_ping-Outside =
      reads-Outside _ (answer_ping lib network id) (λ n. send_new-Outside lib network id _ s out)

  handle_pong-Outside : Outside id (handle_pong lib network id h s bs).0
  unfolding handle_pong receive
  handle_pong-Outside = ground arith

  handle_inv-Outside : Outside id (handle_inv lib network id h s bs).0
  unfolding handle_inv answer_inv
  handle_inv-Outside =
      reads-Outside _ (answer_inv lib network id) (λ inv. send_new-Outside lib network id _ s out)

  handle_tx-Outside : Outside id (handle_tx lib network id h s bs).0
  unfolding handle_tx receive
  handle_tx-Outside = ground arith

  handle_cfilter-Outside : Outside id (handle_cfilter lib network id h s bs).0
  unfolding handle_cfilter receive
  handle_cfilter-Outside = ground arith

  handle_send_cmpct-Outside : Outside id (handle_send_cmpct lib network id h s bs).0
  unfolding handle_send_cmpct receive
  handle_send_cmpct-Outside = ground arith

  handle_get_headers-Outside : Outside id (handle_get_headers lib network id h s bs).0
  unfolding handle_get_headers receive
  handle_get_headers-Outside = ground arith

  skip_message-Outside : Outside id (skip_message lib network id h s bs).0
  unfolding skip_message receive
  skip_message-Outside = ground arith

  module _ {S F : Type 0} (db : BlockHeaderRepository S) (filters_db : FilterRepository F)
      (store : S) where
    answer_headers-Outside : Outside id (answer_headers lib network id db filters_db store h s bs).0
    unfolding answer_headers
    answer_headers-Outside =
        reads-Outside (unmarshal_headers lib.deserialize_header)
          (λ headers s'. with_effects lib network id (handle_headers db (ok headers) store) s')
          (λ headers.
            with_effects-Outside lib network id (handle_headers db (ok headers) store) s out)

    answer_block-Outside : Outside id (answer_block lib network id db filters_db store h s bs).0
    unfolding answer_block
    answer_block-Outside = ground (
      arith,
      reads-Outside (unmarshal_block lib.block_from_buffer lib.tx_from_buffer)
          (λ block s'.
            with_effects lib network id (handle_block db (ok block) s'.peers_tip store) s')
          (λ block.
            with_effects-Outside lib network id (handle_block db (ok block) s.peers_tip store) s
              out),
    )

    answer_get_cfilters-Outside :
        (filters : F)
        → Outside id (answer_get_cfilters lib network id db filters_db store filters h s bs).0
    unfolding answer_get_cfilters receive
    answer_get_cfilters-Outside filters = ground arith

module _ {Filter S F : Type 0} (lib : Externals Filter) (network : Magic) (id : ℕ)
    (db : BlockHeaderRepository S) (filters_db : FilterRepository F) (headers_at : ℕ → S)
    (filters_at : ℕ → F) where
  -- A version message, whose payload decodes and names the service of compact filters, and two
  -- messages that were sent before anything else was done.
  abbrev pub Admits : List ℕ → List ℕ → Outcome Filter → Type 0
  Admits header bs o =
      (mh : MessageHeader) × (v : MsgVersion) × (verack send_headers : List ℕ) × (later : List
        (Action Filter))
      × ((decode_header header).0 ≡ ok mh)
      × (bytes_eq (command_string mh) (codes "version") ≡ true)
      × ((limit mh.size decode_version bs).0 ≡ ok v)
      × (has_service v.services sf_node_cf ≡ true)
      × (o.actions ≡ Action.send verack ∷ Action.send send_headers ∷ later)

  dispatch_joins :
      (header : List ℕ) (mh : MessageHeader) (s : Session) (bs : List ℕ)
      → (decode_header header).0 ≡ ok mh
      → lookup id s.node.peers ≡ none
      → let o : Outcome Filter =
          (dispatch lib network id db filters_db headers_at filters_at
            (command_string mh)
            mh
            s
            bs).0 in
        Outside id o ⊎ Admits header bs o
  dispatch_joins header mh s bs d out =
      dispatch-All lib network id db filters_db headers_at filters_at (command_string mh) mh s bs
        (λ p. Outside id p.0 ⊎ Admits header bs p.0)
        (λ e. admitted e (handle_version_joins lib network id mh s bs out))
        (inl (handle_verack-Outside lib network id mh s bs out))
        (inl (handle_ping-Outside lib network id mh s bs out))
        (inl (handle_pong-Outside lib network id mh s bs out))
        (inl (handle_inv-Outside lib network id mh s bs out))
        (inl (handle_tx-Outside lib network id mh s bs out))
        (inl
          (answer_block-Outside lib network id mh s bs out db filters_db (headers_at (length bs))))
        (inl (handle_send_cmpct-Outside lib network id mh s bs out))
        (inl (handle_get_headers-Outside lib network id mh s bs out))
        (inl (
          answer_headers-Outside lib network id mh s bs out db filters_db (headers_at (length bs))))
        (inl (handle_cfilter-Outside lib network id mh s bs out))
        (inl (
          answer_get_cfilters-Outside lib network id mh s bs out db filters_db
            (headers_at (length bs)) (filters_at (length bs))))
        (inl (skip_message-Outside lib network id mh s bs out))
    where
      admitted :
          bytes_eq (command_string mh) (codes "version") ≡ true
          → (let o : Outcome Filter = (handle_version lib network id mh s bs).0 in
              Outside id o
              ⊎ ((v : MsgVersion) × ((limit mh.size decode_version bs).0 ≡ ok v)
                  × Greeted lib network id v o))
          → Outside id (handle_version lib network id mh s bs).0
            ⊎ Admits header bs (handle_version lib network id mh s bs).0
      admitted e (inl o) = inl o
      admitted e (inr (v, q, (c, a, b, later, f))) = inr (mh, v, a, b, later, d, e, q, c, f)

  -- A peer that is not among the node's peers is among them after a round only if the message is a
  -- version message, whose payload decodes and names the service of compact filters, and two
  -- messages were sent to the peer before anything else was done.
  pub handle_message_joins :
      (header : List ℕ) (s : Session) (bs : List ℕ)
      → lookup id s.node.peers ≡ none
      → let o : Outcome Filter =
          (handle_message lib network id db filters_db headers_at filters_at header s bs).0 in
        (lookup id o.session.node.peers ≡ none) ⊎ Admits header bs o
  unfolding handle_message
  handle_message_joins header s bs out = elim (Result-cases (decode_header header).0) [
    | inr (x, e) ↦ inl (ground arith)
    | inl (mh, e) ↦ elim (Result-cases (validate mh)) [
      | inr (x, f) ↦ inl (ground arith)
      | inl (u, f) ↦ elim (dispatch_joins header mh s bs e out) [
        | inl o ↦ inl (ground arith)
        | inr (mh', v, a, b, later, d, c, q, g, k) ↦
            inr (mh', v, a, b, later, d, c, q, g, ground arith)
      ]
    ]
  ]
