-- ===== src/Node/Messages/Termination.antt =====
-- What the handlers of `handlePeerMessages` leave of the connection, and the end of its loop.
use neutrino_elements.Prelude.{
  ℕ, zero, suc, ◌≤◌, ◌<◌, ◌≡◌, refl, List, [], ◌∷◌, ◌++◌, append_assoc, length, some, arith,
  length-drop, drop, take, ◌+◌, ltb, if◌then◌else◌,
}
use neutrino_elements.Binary.Reader.{read, conn_read}
use neutrino_elements.Binary.Shrinking.{limit-Shrinks, read_until_eof-Shrinks}
use neutrino_elements.Store.Interface.{BlockHeaderRepository, FilterRepository}
use neutrino_elements.Protocol.Network.{Magic}
use neutrino_elements.Protocol.Message.{MessageHeader}
use neutrino_elements.Protocol.Payloads.Delivery.{unmarshal_block}
use neutrino_elements.Node.Messages.{Action, Session, Outcome}
use neutrino_elements.Node.Messages.Handlers.{
  Externals, handle_version, handle_verack, handle_ping, handle_pong, handle_inv, handle_tx,
  handle_cfilter, handle_send_cmpct, handle_get_headers, skip_message, answer_headers, answer_block,
  answer_get_cfilters,
}
use neutrino_elements.Node.Messages.Commands.{dispatch-All}
use neutrino_elements.Node.Messages.Loop.{dispatch, handle_message, handle_peer_messages}
use neutrino_elements.Node.Messages.Reading.{
  decode_version-Shrinks, decode_ping-Shrinks, decode_send_cmpct-Shrinks, unmarshal_inv-Shrinks,
  decode_get_headers-Shrinks, decode_get_cfilters-Shrinks, unmarshal_headers-Shrinks,
  unmarshal_cfilter-Shrinks, unmarshal_block-Shrinks, unmarshal_tx-Shrinks,
}

module _ {Filter : Type 0} (lib : Externals Filter) (network : Magic) (id : ℕ) (h : MessageHeader)
    (s : Session) (bs : List ℕ) where
  handle_version_le : length (handle_version lib network id h s bs).1 ≤ length bs
  unfolding handle_version
  handle_version_le = limit-Shrinks h.size _ decode_version-Shrinks bs

  handle_verack_le : length (handle_verack lib network id h s bs).1 ≤ length bs
  unfolding handle_verack
  handle_verack_le = omega arith

  handle_ping_le : length (handle_ping lib network id h s bs).1 ≤ length bs
  unfolding handle_ping
  handle_ping_le = limit-Shrinks h.size _ decode_ping-Shrinks bs

  handle_pong_le : length (handle_pong lib network id h s bs).1 ≤ length bs
  unfolding handle_pong
  handle_pong_le = limit-Shrinks h.size _ decode_ping-Shrinks bs

  handle_inv_le : length (handle_inv lib network id h s bs).1 ≤ length bs
  unfolding handle_inv
  handle_inv_le = limit-Shrinks h.size _ unmarshal_inv-Shrinks bs

  handle_tx_le : length (handle_tx lib network id h s bs).1 ≤ length bs
  unfolding handle_tx
  handle_tx_le = limit-Shrinks h.size _ (unmarshal_tx-Shrinks _ _) bs

  handle_cfilter_le : length (handle_cfilter lib network id h s bs).1 ≤ length bs
  unfolding handle_cfilter
  handle_cfilter_le = limit-Shrinks h.size _ (unmarshal_cfilter-Shrinks _) bs

  handle_send_cmpct_le : length (handle_send_cmpct lib network id h s bs).1 ≤ length bs
  unfolding handle_send_cmpct
  handle_send_cmpct_le = limit-Shrinks h.size _ decode_send_cmpct-Shrinks bs

  handle_get_headers_le : length (handle_get_headers lib network id h s bs).1 ≤ length bs
  unfolding handle_get_headers
  handle_get_headers_le = limit-Shrinks h.size _ decode_get_headers-Shrinks bs

  skip_message_le : length (skip_message lib network id h s bs).1 ≤ length bs
  unfolding skip_message
  skip_message_le = limit-Shrinks h.size _ read_until_eof-Shrinks bs

  module _ {S F : Type 0} (db : BlockHeaderRepository S) (filters_db : FilterRepository F)
      (store : S) where
    answer_headers_le :
        length (answer_headers lib network id db filters_db store h s bs).1 ≤ length bs
    unfolding answer_headers
    answer_headers_le = limit-Shrinks h.size _ (unmarshal_headers-Shrinks _) bs

    answer_block_le : length (answer_block lib network id db filters_db store h s bs).1 ≤ length bs
    unfolding answer_block
    answer_block_le = ground (
      arith,
      limit-Shrinks h.size (unmarshal_block lib.block_from_buffer lib.tx_from_buffer)
          (unmarshal_block-Shrinks _ _) bs,
    )

    answer_get_cfilters_le :
        (filters : F)
        → length (answer_get_cfilters lib network id db filters_db store filters h s bs).1
          ≤ length bs
    unfolding answer_get_cfilters
    answer_get_cfilters_le filters = limit-Shrinks h.size _ decode_get_cfilters-Shrinks bs

module _ {Filter S F : Type 0} (lib : Externals Filter) (network : Magic) (id : ℕ)
    (db : BlockHeaderRepository S) (filters_db : FilterRepository F) (headers_at : ℕ → S)
    (filters_at : ℕ → F) where
  dispatch_le :
      (c : List ℕ) (h : MessageHeader) (s : Session) (bs : List ℕ)
      → length (dispatch lib network id db filters_db headers_at filters_at c h s bs).1 ≤ length bs
  dispatch_le c h s bs =
      dispatch-All lib network id db filters_db headers_at filters_at c h s bs
        (λ p. length p.1 ≤ length bs) (λ e. handle_version_le lib network id h s bs)
        (handle_verack_le lib network id h s bs) (handle_ping_le lib network id h s bs)
        (handle_pong_le lib network id h s bs) (handle_inv_le lib network id h s bs)
        (handle_tx_le lib network id h s bs)
        (answer_block_le lib network id h s bs db filters_db (headers_at (length bs)))
        (handle_send_cmpct_le lib network id h s bs) (handle_get_headers_le lib network id h s bs)
        (answer_headers_le lib network id h s bs db filters_db (headers_at (length bs)))
        (handle_cfilter_le lib network id h s bs)
        (answer_get_cfilters_le lib network id h s bs db filters_db (headers_at (length bs))
          (filters_at (length bs)))
        (skip_message_le lib network id h s bs)

  handle_message_le :
      (bytes : List ℕ) (s : Session) (bs : List ℕ)
      → length (handle_message lib network id db filters_db headers_at filters_at bytes s bs).1
        ≤ length bs
  unfolding handle_message
  handle_message_le bytes s bs = grind (arith, dispatch_le)

  -- The loop of `handlePeerMessages` ends, however many bytes each `Read` of a header gives: with more
  -- fuel than the connection has bytes it does not run out, and the last that it does is to report the
  -- peer as disconnected.
  pub handle_peer_messages_total :
      (arrived : ℕ → ℕ) (fuel : ℕ) (s : Session) (bs : List ℕ)
      → length bs < fuel
      → (actions : List (Action Filter)) × (s' : Session) × (handle_peer_messages lib network id db
            filters_db headers_at filters_at arrived fuel s bs
          ≡ some (actions ++ (Action.disconnect ∷ []), s'))
  unfolding handle_peer_messages conn_read read
  handle_peer_messages_total arrived zero s bs l = absurd (omega arith)
  handle_peer_messages_total arrived (suc fuel) s [] l = ([], s, refl)
  handle_peer_messages_total arrived (suc fuel) s (b ∷ bs) l =
      let more : ℕ = arrived (length (b ∷ bs)) in
      let given : ℕ = if ltb more 24 then more + 1 else 24 in
      let header : List ℕ = take given (b ∷ bs) in
      let rest : List ℕ = drop given (b ∷ bs) in
      let some_given : 0 < given = ground arith in
      let round : Outcome Filter × List ℕ =
        handle_message lib network id db filters_db headers_at filters_at header s rest in
      let (actions, s', e) =
        handle_peer_messages_total arrived fuel round.0.session round.1
          (omega (arith, handle_message_le header s rest, length-drop given (b ∷ bs))) in
      (
        round.0.actions ++ actions,
        s',
        rw e (rw (append_assoc round.0.actions actions (Action.disconnect ∷ [])) refl),
      )
