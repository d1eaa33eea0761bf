-- ===== src/Protocol/Payloads/Chain.antt =====
-- msg_getheaders.go, msg_getcfilters.go and msg_headers.go.
pub mod Limits
use neutrino_elements.Prelude.{
  ℕ, zero, suc, ◌+◌, ◌-◌, List, [], ◌∷◌, ◌++◌, length, map, Result, ok, err, Error, ltb, leb,
  replicate, or_error, if◌then◌else◌, ◌>>=◌ as and_then,
}
use neutrino_elements.Ledger.{Header, hash_bytes, hash_of_bytes}
use neutrino_elements.Binary.Marshaler.{Value, Fields}
use neutrino_elements.Binary.Reader.{Reader, pure, lift, ◌>>=◌, ◌>>◌, then_read}
use neutrino_elements.Binary.Unmarshaler.{decode_uint8, decode_uint32, decode_array, read_until_eof}
use neutrino_elements.Protocol.Network.{Magic, protocol_version}
use neutrino_elements.Protocol.VarInt.{
  int_of, unmarshal_binary, marshal_locators, unmarshal_locators,
}
use neutrino_elements.Protocol.Message.{Message, new_message}
use neutrino_elements.Prelude.{codes}

pub record MsgGetHeaders : Type 0 where
  pub version : ℕ
  pub block_locator_hashes : List (List ℕ)
  pub hash_stop : List ℕ

abbrev pub max_block_locators_per_msg : ℕ
max_block_locators_per_msg = 500

-- `addBlockLocatorHash`.
unfoldable pub add_block_locator_hash : ℕ → MsgGetHeaders → Result MsgGetHeaders
add_block_locator_hash h msg =
    if ltb max_block_locators_per_msg (length msg.block_locator_hashes + 1)
    then err Error.too_many_locators
    else ok (record msg { block_locator_hashes = msg.block_locator_hashes ++ (hash_bytes h ∷ []) })

unfoldable pub add_block_locator_hashes : List ℕ → MsgGetHeaders → Result MsgGetHeaders
add_block_locator_hashes [] msg = ok msg
add_block_locator_hashes (h ∷ hs) msg =
    and_then (add_block_locator_hash h msg) (λ msg'. add_block_locator_hashes hs msg')

-- The payload that `NewMsgGetHeaders` builds.
unfoldable pub get_headers_payload : List ℕ → List ℕ → Result MsgGetHeaders
unfolding add_block_locator_hashes
get_headers_payload hash_stop locator =
    add_block_locator_hashes locator
      (record { version = protocol_version; block_locator_hashes = []; hash_stop = hash_stop })

abbrev pub get_headers_value : MsgGetHeaders → Value
get_headers_value m = Value.struct (
    Fields.field (Value.uint32 m.version) (
      Fields.field (Value.marshaler (marshal_locators m.block_locator_hashes))
        (Fields.field (Value.array 32 m.hash_stop) Fields.end)))

unfoldable pub decode_get_headers : Reader MsgGetHeaders
decode_get_headers = do
  version ← decode_uint32
  locators ← unmarshal_locators []
  stop ← decode_array 32 (replicate 32 0)
  pure (record { version = version; block_locator_hashes = locators; hash_stop = stop })

pub record MsgGetCFilters : Type 0 where
  pub filter_type : ℕ
  pub start_height : ℕ
  pub stop_hash : List ℕ

abbrev pub get_cfilters_value : MsgGetCFilters → Value
get_cfilters_value m = Value.struct (
    Fields.field (Value.uint8 m.filter_type) (
      Fields.field (Value.uint32 m.start_height)
        (Fields.field (Value.array 32 m.stop_hash) Fields.end)))

unfoldable pub decode_get_cfilters : Reader MsgGetCFilters
decode_get_cfilters = do
  filter_type ← decode_uint8
  start ← decode_uint32
  stop ← decode_array 32 (replicate 32 0)
  pure (record { filter_type = filter_type; start_height = start; stop_hash = stop })

abbrev pub bip157_max_height_diff : ℕ
bip157_max_height_diff = 1000

-- The payload that `NewGetCFilters` builds. The subtraction is reached only where it is exact.
unfoldable pub get_cfilters_payload : Header → Header → Result MsgGetCFilters
get_cfilters_payload start stop = and_then (or_error Error.external stop.hash) λ stop_hash.
    if ltb stop.height start.height
    then err Error.bad_range
    else if leb bip157_max_height_diff (stop.height - start.height)
    then err Error.too_far
    else ok
        (record { filter_type = 0; start_height = start.height; stop_hash = hash_bytes stop_hash })

-- `MsgHeaders.UnmarshalBinary`, over block.DeserializeHeader. The headers are read from a buffer that
-- took everything behind the count, each with the count of no transactions behind it.
module _ (deserialize_header : Reader Header) where
  unfoldable pub read_headers : ℕ → Reader (List Header)
  read_headers zero = pure []
  read_headers (suc n) =
      deserialize_header >>= λ h. unmarshal_binary >>= λ _. read_headers n >>= λ hs. pure (h ∷ hs)

  unfoldable pub unmarshal_headers : Reader (List Header)
  unfolding read_headers
  unmarshal_headers = do
    count ← unmarshal_binary
    n ← lift (int_of count)
    buffer ← read_until_eof
    lift (read_headers n buffer).0
