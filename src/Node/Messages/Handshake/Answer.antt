-- ===== src/Node/Messages/Handshake/Answer.antt =====
-- `handleVersion` on a version message that is decoded.
use neutrino_elements.Prelude.{
  ℕ, ◌≡◌, refl, List, [], ◌∷◌, length, ◌==◌, none, Result, ok, err, Error, arith, bytes_eq, lookup,
  insert, ◌>>=◌ as and_then, if◌then◌else◌,
}
use neutrino_elements.Binary.Marshaler.{marshal}
use neutrino_elements.Protocol.Network.{Magic, has_service, sf_node_cf}
use neutrino_elements.Protocol.Message.{
  Message, message_value, new_message, lookup_command, is_command,
}
use neutrino_elements.Protocol.Payloads.Version.{MsgVersion}
use neutrino_elements.Node.Peers.{add_peer}
use neutrino_elements.Node.Sync.{Effect}
use neutrino_elements.Node.Messages.{
  Action, Session, Outcome, set_peers_tip, failed, done, then_do, send_message, send_new,
}
use neutrino_elements.Node.Messages.Handlers.{
  Externals, new_verack_msg, new_send_headers_message, join, answer_version,
}

module _ {Filter : Type 0} (lib : Externals Filter) (network : Magic) (id : ℕ) where
  send_new_lem :
      (message : Result Message) (s : Session) {bytes : List ℕ}
      → and_then message (λ m. marshal (message_value m)) ≡ ok bytes
      → lib.write bytes ≡ ok tt
      → send_new {Filter = Filter} lib.write message s ≡ done (Action.send bytes ∷ []) s
  unfolding send_new send_message
  send_new_lem (err e) s h w = absurd (ground arith)
  send_new_lem (ok m) s h w = ground arith

  join_lem :
      (tip : ℕ) (s : Session)
      → lookup id s.node.peers ≡ none
      → join lib network id (set_peers_tip id tip s)
        ≡ done
            (if length (insert id tip s.node.peers) == 1
              then Action.effect Effect.sync ∷ Action.monitor_peer ∷ []
              else Action.monitor_peer ∷ [])
            (record {
              node = record {
                peers = insert id tip s.node.peers;
                peers_pong_ch = id ∷ s.node.peers_pong_ch;
              };
              peers_tip = tip;
            })
  unfolding join set_peers_tip add_peer
  join_lem tip s out = ground arith

  verack_made :
      (bytes : List ℕ) × (and_then
          (new_verack_msg lib.sha256 network)
          (λ m. marshal (message_value m))
        ≡ ok bytes)
  unfolding new_verack_msg new_message marshal lookup_command is_command bytes_eq
  verack_made = (_, refl)

  send_headers_made :
      (bytes : List ℕ) × (and_then
          (new_send_headers_message lib.sha256 network)
          (λ m. marshal (message_value m))
        ≡ ok bytes)
  unfolding new_send_headers_message new_message marshal lookup_command is_command bytes_eq
  send_headers_made = (_, refl)

  -- The outcome for a peer that joins.
  abbrev pub answered : List ℕ → List ℕ → MsgVersion → Session → Outcome Filter
  answered verack send_headers v s = record {
    result = ok tt;
    actions =
        Action.send verack
        ∷ Action.send send_headers
        ∷ (if length (insert id v.start_height s.node.peers) == 1
            then Action.effect Effect.sync ∷ Action.monitor_peer ∷ []
            else Action.monitor_peer ∷ []);
    session = record {
      node = record {
        peers = insert id v.start_height s.node.peers;
        peers_pong_ch = id ∷ s.node.peers_pong_ch;
      };
      peers_tip = v.start_height;
    };
  }

  -- While the connection takes what is written: of a peer that is not among the node's peers and
  -- names the service of compact filters, the version message is answered with a verack and a
  -- sendheaders message, and the peer is among the peers with the height that it named, has a
  -- channel for its pongs and is monitored, and synchronisation starts if it is the only one. Without
  -- that service the handler ends with an error, sends nothing and changes nothing.
  pub answer_version_lem :
      ((bytes : List ℕ) → lib.write bytes ≡ ok tt)
      → (v : MsgVersion) (s : Session) → lookup id s.node.peers ≡ none
      → (verack send_headers : List ℕ) × (and_then
            (new_verack_msg lib.sha256 network)
            (λ m. marshal (message_value m))
          ≡ ok verack)
        × (and_then (new_send_headers_message lib.sha256 network) (λ m. marshal (message_value m))
            ≡ ok send_headers)
        × (answer_version lib network id v s ≡ (
            if has_service v.services sf_node_cf
            then answered verack send_headers v s
            else failed Error.no_filter_service s))
  unfolding answer_version then_do
  answer_version_lem w v s out =
      let (verack, e) = verack_made in
      let (send_headers, f) = send_headers_made in
      (verack, send_headers, e, f, go verack send_headers e f)
    where
      go :
          (verack send_headers : List ℕ)
          → (and_then (new_verack_msg lib.sha256 network) (λ m. marshal (message_value m))
              ≡ ok verack)
          → (and_then (new_send_headers_message lib.sha256 network) (λ m. marshal (message_value m))
              ≡ ok send_headers)
          → answer_version lib network id v s ≡ (
              if has_service v.services sf_node_cf
              then answered verack send_headers v s
              else failed Error.no_filter_service s)
      go a b e f = ground (
        arith,
        send_new_lem (new_verack_msg lib.sha256 network) s e (w a),
        send_new_lem (new_send_headers_message lib.sha256 network) s f (w b),
        join_lem v.start_height s out,
      )
