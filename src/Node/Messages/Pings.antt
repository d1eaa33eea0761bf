-- ===== src/Node/Messages/Pings.antt =====
-- Pings in the loop of `handlePeerMessages`, which `handlePing` answers, over a connection whose reads
-- of headers do not cut them.
use neutrino_elements.Prelude.{
  ℕ, suc, ◌≤◌, length-append, ◌<◌, ◌^◌, ◌≡◌, refl, sym, ap, subst, ◌∙◌, true, List, [], ◌∷◌, ◌++◌,
  map, append-nil, append_assoc, length, All, some, Result, ok, arith, ok-injective, codes,
  bytes_eq, ◌>>=◌ as and_then,
}
use neutrino_elements.Binary.Words.{le_bytes, length-le_bytes}
use neutrino_elements.Binary.Marshaler.{marshal}
use neutrino_elements.Binary.Reader.{read, conn_read, conn_read-read, limit, limit-prefix}
use neutrino_elements.Binary.Unmarshaler.{decode_uint64}
use neutrino_elements.Binary.RoundTrip.{decode_le-le_bytes}
use neutrino_elements.Store.Interface.{BlockHeaderRepository, FilterRepository}
use neutrino_elements.Protocol.Network.{Magic, has_valid_magic}
use neutrino_elements.Protocol.Message.{
  Message, MessageHeader, message_value, new_message, is_command, lookup_command,
}
use neutrino_elements.Protocol.Message.Header.{new_message_lem}
use neutrino_elements.Protocol.Payloads.Inventory.{ping_value, decode_ping}
use neutrino_elements.Node.Messages.{Action, Session, receive, send_message, send_new, done}
use neutrino_elements.Node.Messages.Handlers.{
  Externals, new_ping_msg, new_pong_msg, answer_ping, handle_ping,
}
use neutrino_elements.Node.Messages.Loop.{dispatch, handle_message, handle_peer_messages}
use neutrino_elements.Node.Messages.Arrivals.{new_message-Arrives}

-- The encodings of the messages that `make` makes.
unfoldable pub encodings : (ℕ → Result Message) → List ℕ → Result (List (List ℕ))
encodings make [] = ok []
encodings make (n ∷ ns) =
    and_then (and_then (make n) (λ m. marshal (message_value m)))
      λ bytes. and_then (encodings make ns) λ rest. ok (bytes ∷ rest)

unfoldable pub joined : List (List ℕ) → List ℕ
joined [] = []
joined (bs ∷ bss) = bs ++ joined bss

module _ (sha256 : List ℕ → List ℕ) (network : Magic) (nonce : ℕ) where
  ping_made :
      (m : Message) × (new_ping_msg sha256 network nonce ≡ ok m)
      × (new_message sha256 (codes "ping") network (ping_value nonce) ≡ ok m)
  unfolding new_ping_msg new_message marshal lookup_command is_command bytes_eq
  ping_made = (_, refl, refl)

  pong_made :
      (m : Message) × (new_pong_msg sha256 network nonce ≡ ok m)
      × (new_message sha256 (codes "pong") network (ping_value nonce) ≡ ok m)
  unfolding new_pong_msg new_message marshal lookup_command is_command bytes_eq
  pong_made = (_, refl, refl)

marshal-ping_value : (nonce : ℕ) → marshal (ping_value nonce) ≡ ok (le_bytes 8 nonce)
unfolding marshal
marshal-ping_value nonce = rw (append-nil (le_bytes 8 nonce)) refl

module _ {Filter : Type 0} (lib : Externals Filter) (network : Magic) (id : ℕ) where
  handle_ping_lem :
      (h : MessageHeader) (s : Session) (nonce : ℕ) (rest : List ℕ)
      → nonce < 256 ^ 8
      → h.size ≡ 8
      → handle_ping lib network id h s (le_bytes 8 nonce ++ rest)
        ≡ (answer_ping lib network id nonce s, rest)
  unfolding handle_ping receive decode_ping decode_uint64
  handle_ping_lem h s nonce rest l e = rw (handle_ping, e, read) refl
    where
      read : limit 8 decode_ping (le_bytes 8 nonce ++ rest) ≡ (ok nonce, rest)
      read =
          limit-prefix decode_ping (le_bytes 8 nonce) rest (length-le_bytes 8 nonce)
            (rw (append-nil (le_bytes 8 nonce)) at (decode_le-le_bytes 8 nonce [] l))

  answer_ping_lem :
      (s : Session) (nonce : ℕ) {m : Message} {bytes : List ℕ}
      → new_pong_msg lib.sha256 network nonce ≡ ok m
      → marshal (message_value m) ≡ ok bytes
      → lib.write bytes ≡ ok tt
      → answer_ping lib network id nonce s ≡ done (Action.send bytes ∷ []) s
  unfolding answer_ping send_new send_message
  answer_ping_lem s nonce e f g = ground arith

module _ {Filter S F : Type 0} (lib : Externals Filter) (network : Magic) (id : ℕ)
    (db : BlockHeaderRepository S) (filters_db : FilterRepository F) (headers_at : ℕ → S)
    (filters_at : ℕ → F) where
  dispatch-ping :
      (h : MessageHeader) (s : Session) (bs : List ℕ)
      → dispatch lib network id db filters_db headers_at filters_at (codes "ping") h s bs
        ≡ handle_ping lib network id h s bs
  unfolding dispatch bytes_eq
  dispatch-ping h s bs = refl

  module _ (sha256_length : (bs : List ℕ) → length (lib.sha256 bs) ≡ 32)
      (valid : has_valid_magic network ≡ true) (arrived : ℕ → ℕ)
      (all_come : (n : ℕ) → 24 ≤ n → 23 ≤ arrived n) where
    -- A round over the bytes of a header and what they bring.
    round_lem :
        (header bs rest : List ℕ) (fuel : ℕ) (s : Session) (actions later : List (Action Filter))
        → length header ≡ 24
        → read 24 (header ++ bs) ≡ (ok header, bs)
        → handle_message lib network id db filters_db headers_at filters_at header s bs
          ≡ (done actions s, rest)
        → handle_peer_messages lib network id db filters_db headers_at filters_at arrived fuel s
            rest
          ≡ some (later, s)
        → handle_peer_messages lib network id db filters_db headers_at filters_at arrived
            (suc fuel)
            s
            (header ++ bs)
          ≡ some (actions ++ later, s)
    unfolding handle_peer_messages
    round_lem header bs rest fuel s actions later n r h l =
        let c =
          conn_read-read (arrived (length (header ++ bs))) 24 (header ++ bs) (
            let g = all_come (length (header ++ bs)) (omega (arith, length-append header bs)) in
            omega arith)
          ∙ r in
        ground arith

    ping_round :
        ((bytes : List ℕ) → lib.write bytes ≡ ok tt)
        → (nonce : ℕ) → nonce < 2 ^ 64
        → (ping pong : List ℕ) × (and_then
              (new_ping_msg lib.sha256 network nonce)
              (λ m. marshal (message_value m))
            ≡ ok ping)
          × (and_then (new_pong_msg lib.sha256 network nonce) (λ m. marshal (message_value m))
              ≡ ok pong)
          × ((fuel : ℕ) (s : Session) (later : List (Action Filter)) (rest : List ℕ)
              → handle_peer_messages lib network id db filters_db headers_at filters_at arrived fuel
                  s rest
                ≡ some (later, s)
              → handle_peer_messages lib network id db filters_db headers_at filters_at arrived
                  (suc fuel)
                  s
                  (ping ++ rest)
                ≡ some (Action.send pong ∷ later, s))
    ping_round w nonce l =
        let (pm, pe, pn) = ping_made lib.sha256 network nonce in
        let (qm, qe, qn) = pong_made lib.sha256 network nonce in
        let (is, _, _, payload, _) =
          new_message_lem lib.sha256 sha256_length (codes "ping") network (ping_value nonce) pn
            valid in
        let (header, n, e, r, h) =
          new_message-Arrives lib sha256_length network id db filters_db headers_at filters_at valid
            (codes "ping") (ping_value nonce) pm pn in
        let (pong_header, _, f, _, _) =
          new_message-Arrives lib sha256_length network id db filters_db headers_at filters_at valid
            (codes "pong") (ping_value nonce) qm qn in
        let same : le_bytes 8 nonce ≡ pm.payload =
          ok-injective (sym (marshal-ping_value nonce) ∙ payload) in
        (
          header ++ pm.payload,
          pong_header ++ qm.payload,
          rw pe e,
          rw qe f,
          λ fuel s later rest k.
              let bs : List ℕ = pm.payload ++ rest in
              subst
                (λ x.
                  handle_peer_messages lib network id db filters_db headers_at filters_at arrived
                    (suc fuel) s x
                  ≡ some (Action.send (pong_header ++ qm.payload) ∷ later, s))
                (sym (append_assoc header pm.payload rest))
                (round_lem header bs rest fuel s (Action.send (pong_header ++ qm.payload) ∷ [])
                  later n (r bs)
                  (h s bs
                    ∙ dispatch-ping pm.header s bs
                    ∙ ap (λ p. handle_ping lib network id pm.header s (p ++ rest)) (sym same)
                    ∙ handle_ping_lem lib network id pm.header s nonce rest (omega arith)
                        (omega (arith, is.size_eq, ap length same, length-le_bytes 8 nonce))
                    ∙ ap (λ o. (o, rest)) (answer_ping_lem lib network id s nonce qe f (w _)))
                  k),
        )

    -- While the connection takes what is written, each `Read` of a header finds its 24 bytes arrived
    -- where so many are still to come, and with a hash of 32 bytes and a magic that the node knows: to a peer that sends one ping after the other, with nonces of 64 bits, and then
    -- closes the connection, the loop writes the pong of each ping's nonce, in their order and
    -- nothing else, reports the peer as disconnected, and changes nothing of the session.
    pub handle_peer_messages-pings :
        ((bytes : List ℕ) → lib.write bytes ≡ ok tt)
        → (s : Session) (nonces : List ℕ) → All (λ n. n < 2 ^ 64) nonces
        → (pings pongs : List (List ℕ)) × (encodings (new_ping_msg lib.sha256 network) nonces
            ≡ ok pings)
          × (encodings (new_pong_msg lib.sha256 network) nonces ≡ ok pongs)
          × (handle_peer_messages lib network id db filters_db headers_at filters_at arrived
                (suc (length nonces))
                s
                (joined pings)
              ≡ some (map (λ bytes. Action.send bytes) pongs ++ (Action.disconnect ∷ []), s))
    unfolding encodings joined handle_peer_messages conn_read read
    handle_peer_messages-pings w s [] r = ([], [], refl, refl, refl)
    handle_peer_messages-pings w s (n ∷ ns) (l, r) =
        let (pings, pongs, e, f, h) = handle_peer_messages-pings w s ns r in
        let (ping, pong, pe, pf, round) = ping_round w n l in
        (
          ping ∷ pings,
          pong ∷ pongs,
          rw (pe, e) refl,
          rw (pf, f) refl,
          round (suc (length ns)) s
              (map (λ bytes. Action.send bytes) pongs ++ (Action.disconnect ∷ [])) (joined pings) h,
        )
