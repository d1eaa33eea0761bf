-- ===== src/Protocol/Payloads/Delivery.antt =====
-- msg_cfilter.go, msg_block.go and msg_tx.go.
pub mod Filters
use neutrino_elements.Prelude.{
  ℕ, zero, suc, ◌-◌, List, [], ◌∷◌, ◌++◌, length, Result, ok, err, Error, replicate, not, ◌==◌,
  if◌then◌else◌, codes, ◌>>=◌ as and_then,
}
use neutrino_elements.Ledger.{Block, Transaction, hash_of_bytes}
use neutrino_elements.Binary.Marshaler.{Value, Fields, marshal}
use neutrino_elements.Binary.Reader.{Reader, pure, fail, lift, ◌>>=◌, then_read}
use neutrino_elements.Binary.Unmarshaler.{decode_uint8, decode_array, decode_bytes, read_until_eof}
use neutrino_elements.Protocol.Network.{Magic}
use neutrino_elements.Protocol.VarInt.{pos, int_of, unmarshal_binary, new_from_int, varint_value}
use neutrino_elements.Protocol.Message.{Message, new_message}

-- `Filter` is the type gcs.Filter, of which the program uses `NBytes` and gcs.FromNBytes.
pub record MsgCFilter (Filter : Type 0) : Type 0 where
  pub filter_type : ℕ
  pub block_hash : ℕ
  pub filter : Filter

-- The field BlockHash points to a chainhash.Hash and the field Filter to a struct with fields that
-- are not exported. The first is a named array type without `MarshalBinary`, which no case of the
-- switch over types lists.
abbrev pub named_array : Value
named_array = Value.other

module _ {Filter : Type 0} (n_bytes : Filter → Result (List ℕ)) where
  -- `MsgCFilter.MarshalBinary`, whose receiver is a pointer.
  unfoldable pub marshal_cfilter : MsgCFilter Filter → Result (List ℕ)
  marshal_cfilter msg = and_then (marshal (Value.pointer named_array)) λ hash.
      and_then (n_bytes msg.filter) λ filter.
        and_then (marshal (varint_value (new_from_int (pos (length filter)))))
          λ count. ok ((msg.filter_type ∷ hash) ++ (count ++ filter))

module _ {Filter : Type 0} where
  -- The pointer that `NewMsgCFilter` hands to `NewMessage`: `Marshal` follows it, so what it switches
  -- over is the struct.
  unfoldable pub cfilter_value : MsgCFilter Filter → Value
  cfilter_value msg = Value.pointer (
      Value.struct (
        Fields.field (Value.uint8 msg.filter_type) (
          Fields.field (Value.pointer named_array)
            (Fields.field (Value.pointer Value.other) Fields.end))))

  unfoldable pub new_msg_cfilter : (List ℕ → List ℕ) → Magic → ℕ → Filter → Result Message
  unfolding cfilter_value
  new_msg_cfilter sha256 network hash filter =
      new_message sha256 (codes "cfilter") network
        (cfilter_value (record { filter_type = 0; block_hash = hash; filter = filter }))

module _ {Filter : Type 0} (from_n_bytes : List ℕ → Result Filter) where
  -- `MsgCFilter.UnmarshalBinary`.
  unfoldable pub unmarshal_cfilter : Reader (MsgCFilter Filter)
  unmarshal_cfilter = do
    filter_type ← decode_uint8
    _ ← (if filter_type == 0 then pure filter_type else fail Error.invalid_filter_type)
    hash ← decode_array 32 (replicate 32 0)
    count ← unmarshal_binary
    n ← lift (int_of count)
    bytes ← decode_bytes n
    filter ← lift (from_n_bytes bytes)
    pure (record { filter_type = filter_type; block_hash = hash_of_bytes hash; filter = filter })

-- `MsgBlock.UnmarshalBinary` and `MsgTx.UnmarshalBinary`, over the parsers of go-elements.
module _ (block_from_buffer : List ℕ → Result Block)
    (tx_from_buffer : List ℕ → Result Transaction) where
  unfoldable pub unmarshal_block : Reader Block
  unmarshal_block = read_until_eof >>= λ bytes. lift (block_from_buffer bytes)

  unfoldable pub unmarshal_tx : Reader Transaction
  unmarshal_tx = read_until_eof >>= λ bytes. lift (tx_from_buffer bytes)
