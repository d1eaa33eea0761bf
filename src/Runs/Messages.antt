-- ===== src/Runs/Messages.antt =====
-- Runs of the node's message loop.
use neutrino_elements.Prelude.{
  ℕ, ◌-◌, ◌≡◌, refl, ◌⊎◌, true, List, [], ◌∷◌, ◌++◌, map, replicate, none, some, ok, err, Error,
  codes, bytes_eq, lookup, arith, if◌then◌else◌, ◌>>=◌ as and_then,
}
use neutrino_elements.Protocol.Payloads.Inventory.{MsgInv, marshal_get_data, unmarshal_inv}
use neutrino_elements.Node.Messages.Inventories.{answer_inv-requests}
use neutrino_elements.Binary.Marshaler.{Value, marshal}
use neutrino_elements.Binary.Reader.{conn_read, read, read_full, limit}
use neutrino_elements.Binary.Unmarshaler.{decode_struct}
use neutrino_elements.Protocol.Network.{magic_regtest, has_valid_magic, has_service, sf_node_cf}
use neutrino_elements.Protocol.Message.{decode_header, Message, message_value, new_message}
use neutrino_elements.Protocol.Payloads.Version.{MsgVersion}
use neutrino_elements.Store.Headers.{Headers, header_inmemory}
use neutrino_elements.Store.Interface.{FilterKey}
use neutrino_elements.Store.Filters.{filter_inmemory}
use neutrino_elements.Node.Peers.{Monitor}
use neutrino_elements.Node.Messages.{Action, Session, done, failed}
use neutrino_elements.Node.Messages.Handlers.{
  Externals, new_ping_msg, new_pong_msg, new_verack_msg, new_send_headers_message, answer_version,
  answer_inv,
}
use neutrino_elements.Node.Messages.Loop.{handle_message, handle_peer_messages}
use neutrino_elements.Node.Messages.Termination.{handle_peer_messages_total}
use neutrino_elements.Node.Messages.Pings.{encodings, joined, handle_peer_messages-pings}
use neutrino_elements.Node.Messages.Handshake.Answer.{answered, answer_version_lem}
use neutrino_elements.Node.Messages.Handshake.Joining.{Admits, handle_message_joins}
use neutrino_elements.Node.Service.{Tick}

-- A filter is its bytes.
abbrev lib : Externals (List ℕ)
lib = record {
  sha256 = λ bs. replicate 32 7;
  block_from_buffer = λ bs. err Error.external;
  tx_from_buffer = λ bs. err Error.external;
  deserialize_header = λ bs. (err Error.eof, bs);
  from_n_bytes = λ bs. ok bs;
  gcs_filter = λ bs. ok bs;
  write = λ bs. ok tt;
}

abbrev no_headers : ℕ → Headers
no_headers n = []

abbrev no_filters : ℕ → List (ℕ × List ℕ)
no_filters n = []

abbrev key : FilterKey → ℕ
key k = k.block_hash

abbrev session : Session
session = record { node = record { peers = []; peers_pong_ch = [] }; peers_tip = 0 }

-- Each byte comes alone, or all that is left has come.
abbrev one_by_one : ℕ → ℕ
one_by_one n = 0

abbrev at_once : ℕ → ℕ
at_once n = n - 1

handle_peer_messages_total_example :
    (actions : List (Action (List ℕ))) × (s' : Session) × (handle_peer_messages lib magic_regtest 1
        (header_inmemory 10 10)
        (filter_inmemory key)
        no_headers
        no_filters
        one_by_one
        4
        session
        (1 ∷ 2 ∷ 3 ∷ [])
      ≡ some (actions ++ (Action.disconnect ∷ []), s'))
handle_peer_messages_total_example =
    handle_peer_messages_total lib magic_regtest 1 (header_inmemory 10 10) (filter_inmemory key)
      no_headers no_filters one_by_one 4 session (1 ∷ 2 ∷ 3 ∷ []) (omega arith)

handle_peer_messages-pings_example :
    (pings pongs : List (List ℕ)) × (encodings (new_ping_msg lib.sha256 magic_regtest) (5 ∷ 6 ∷ [])
      ≡ ok pings)
    × (encodings (new_pong_msg lib.sha256 magic_regtest) (5 ∷ 6 ∷ []) ≡ ok pongs)
    × (handle_peer_messages lib magic_regtest 1
          (header_inmemory 10 10)
          (filter_inmemory key)
          no_headers
          no_filters
          at_once
          3
          session
          (joined pings)
        ≡ some (map (λ bytes. Action.send bytes) pongs ++ (Action.disconnect ∷ []), session))
handle_peer_messages-pings_example =
    handle_peer_messages-pings lib magic_regtest 1 (header_inmemory 10 10) (filter_inmemory key)
      no_headers no_filters (λ bs. refl) (unfold has_valid_magic bytes_eq in refl) at_once
      (λ n l. omega arith) (λ bs. refl) session (5 ∷ 6 ∷ []) (omega arith, (omega arith, tt))

-- A ping whose bytes come one by one is not answered.
abbrev ping_bytes : List ℕ
ping_bytes =
    magic_regtest
    ++ (codes "ping"
        ++ (replicate 8 0 ++ ((8 ∷ 0 ∷ 0 ∷ 0 ∷ []) ++ (replicate 4 0 ++ (5 ∷ replicate 7 0)))))

split_ping :
    handle_peer_messages lib magic_regtest 1
      (header_inmemory 10 10)
      (filter_inmemory key)
      no_headers
      no_filters
      one_by_one
      33
      session
      ping_bytes
    ≡ some (Action.disconnect ∷ [], session)
unfolding handle_peer_messages handle_message decode_header conn_read read read_full decode_struct
    limit
split_ping = refl

-- A version message that names the service, with 86 bytes of payload.
abbrev version_header : List ℕ
version_header =
    magic_regtest
    ++ (codes "version" ++ (replicate 5 0 ++ ((86 ∷ 0 ∷ 0 ∷ 0 ∷ []) ++ replicate 4 0)))

abbrev version_payload : List ℕ
version_payload = replicate 4 0 ++ (64 ∷ replicate 81 0)

handle_message_joins_example :
    (lookup 1
        (handle_message lib magic_regtest 1
          (header_inmemory 10 10)
          (filter_inmemory key)
          no_headers
          no_filters
          version_header
          session
          version_payload).0.session.node.peers
      ≡ none)
    ⊎ Admits lib magic_regtest 1
        (header_inmemory 10 10)
        (filter_inmemory key)
        no_headers
        no_filters
        version_header
        version_payload
        (handle_message lib magic_regtest 1
          (header_inmemory 10 10)
          (filter_inmemory key)
          no_headers
          no_filters
          version_header
          session
          version_payload).0
handle_message_joins_example =
    handle_message_joins lib magic_regtest 1 (header_inmemory 10 10) (filter_inmemory key)
      no_headers no_filters version_header session version_payload (unfold lookup in refl)

abbrev version : MsgVersion
version = record {
  version = 70016;
  services = 64;
  timestamp = 0;
  addr_recv = record { services = 0; ip = replicate 4 0; port = 0 };
  addr_from = record { services = 0; ip = replicate 4 0; port = 0 };
  nonce = 9;
  user_agent = record { size = 0; string = [] };
  start_height = 77;
  relay = true;
}

answer_version_lem_example :
    (verack send_headers : List ℕ) × (and_then
        (new_verack_msg lib.sha256 magic_regtest)
        (λ m. marshal (message_value m))
      ≡ ok verack)
    × (and_then (new_send_headers_message lib.sha256 magic_regtest) (λ m. marshal (message_value m))
        ≡ ok send_headers)
    × (answer_version lib magic_regtest 1 version session ≡ (
        if has_service 64 sf_node_cf
        then answered lib magic_regtest 1 verack send_headers version session
        else failed Error.no_filter_service session))
answer_version_lem_example =
    answer_version_lem lib magic_regtest 1 (λ bs. refl) version session (unfold lookup in refl)

-- A ping that is answered, one whose answer has another nonce, and one that is not sent any more.
abbrev answered_tick : Tick
answered_tick = record { nonce = 4; written = true; reply = some 4 }

abbrev wrong_tick : Tick
wrong_tick = record { nonce = 5; written = true; reply = some 4 }

abbrev late_tick : Tick
late_tick = record { nonce = 6; written = true; reply = some 6 }

abbrev monitor : Monitor
monitor = record {
  peer_pings = [];
  state = record { peers = (1, 10) ∷ []; peers_pong_ch = 1 ∷ [] };
}

abbrev inv : MsgInv
inv = record { count = 1; inventory = record { kind = 1; hash = replicate 32 3 } ∷ [] }

answer_inv-requests_example :
    (m : Message) × (bytes : List ℕ) × (new_message lib.sha256
        (codes "getdata")
        magic_regtest
        (Value.marshaler (marshal_get_data inv))
      ≡ ok m)
    × (marshal (message_value m) ≡ ok bytes)
    × (answer_inv lib magic_regtest 1 inv session ≡ done (Action.send bytes ∷ []) session)
    × (unmarshal_inv m.payload ≡ (ok inv, []))
answer_inv-requests_example =
    answer_inv-requests lib magic_regtest 1 (λ bs. refl) inv refl (omega arith)
      (record { kind_range = omega arith; hash_length = refl }, tt) session
