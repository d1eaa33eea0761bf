-- ===== src/Protocol/Payloads/Delivery/Filters.antt =====
-- The cfilter message: what is received, and what sending comes to.
use neutrino_elements.Prelude.{
  ℕ, suc, ◌<◌, ◌^◌, ◌≡◌, refl, List, [], ◌∷◌, ◌++◌, length, Result, ok, err, Error, arith,
}
use neutrino_elements.Ledger.{hash_bytes}
use neutrino_elements.Binary.Words.{le_bytes, length-le_bytes, le_value-le_bytes}
use neutrino_elements.Binary.Marshaler.{marshal}
use neutrino_elements.Binary.Unmarshaler.{decode_uint8, decode_bytes}
use neutrino_elements.Binary.RoundTrip.{decode_le-le_bytes, read-array}
use neutrino_elements.Protocol.Network.{Magic}
use neutrino_elements.Protocol.VarInt.{pos, new_from_int, marshal_binary}
use neutrino_elements.Protocol.VarInt.RoundTrip.{
  new_from_int-IsWellFormed, int_of-new_from_int, counted,
}
use neutrino_elements.Protocol.Message.{new_message}
use neutrino_elements.Protocol.Payloads.Delivery.{new_msg_cfilter, unmarshal_cfilter}

decode_bytes-prefix :
    (bs rest : List ℕ) → 1 < length bs → decode_bytes (length bs) (bs ++ rest) ≡ (ok bs, rest)
unfolding decode_bytes
decode_bytes-prefix [] rest h = absurd (omega arith)
decode_bytes-prefix (b ∷ []) rest h = absurd (omega arith)
decode_bytes-prefix (b ∷ (c ∷ bs)) rest h =
    ground (arith, read-array (b ∷ (c ∷ bs)) rest {n = suc (length bs)} refl)

-- `NewMsgCFilter` fails for every network, hash and filter: the value it hands to `NewMessage` is of
-- an unsupported type.
pub new_msg_cfilter_fails :
    {Filter : Type 0} (sha256 : List ℕ → List ℕ) (network : Magic) (hash : ℕ) (filter : Filter)
    → new_msg_cfilter sha256 network hash filter ≡ err Error.unsupported_type
unfolding new_msg_cfilter new_message marshal
new_msg_cfilter_fails sha256 network hash filter = refl

decode_zero : (rest : List ℕ) → decode_uint8 (0 ∷ rest) ≡ (ok 0, rest)
unfolding decode_uint8 le_bytes
decode_zero rest = decode_le-le_bytes 1 0 rest (omega arith)

module _ {Filter : Type 0} (from_n_bytes : List ℕ → Result Filter) where
  -- A cfilter payload laid out as BIP 157 says, with a filter of two bytes at least, is decoded to its
  -- hash and to the filter that the library makes of exactly those bytes.
  pub unmarshal_cfilter_lem :
      (hash : ℕ) (bytes count rest : List ℕ) (filter : Filter)
      → hash < 256 ^ 32
      → 1 < length bytes
      → length bytes < 2 ^ 63
      → marshal_binary (new_from_int (pos (length bytes))) ≡ ok count
      → from_n_bytes bytes ≡ ok filter
      → unmarshal_cfilter from_n_bytes (0 ∷ (hash_bytes hash ++ (count ++ (bytes ++ rest))))
        ≡ (ok (record { filter_type = 0; block_hash = hash; filter = filter }), rest)
  unfolding unmarshal_cfilter
  unmarshal_cfilter_lem hash bytes count rest filter h l m e f = rw (
    decode_zero (hash_bytes hash ++ (count ++ (bytes ++ rest))),
    read-array (hash_bytes hash) (count ++ (bytes ++ rest)) (length-le_bytes 32 hash),
    counted (new_from_int (pos (length bytes))) count (bytes ++ rest)
        (new_from_int-IsWellFormed (length bytes) m) e,
    int_of-new_from_int (length bytes) m,
    decode_bytes-prefix bytes rest l,
    f,
    le_value-le_bytes 32 hash h,
  )
