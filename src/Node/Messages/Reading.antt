-- ===== src/Node/Messages/Reading.antt =====
-- What the payload readers of pkg/protocol leave of the connection.
use neutrino_elements.Prelude.{ℕ, zero, suc, List, Result, arith, Bool-cases, inl, inr, ltb, ◌==◌}
use neutrino_elements.Ledger.{Header, Transaction, Block}
use neutrino_elements.Binary.Reader.{Reader, pure, limit}
use neutrino_elements.Binary.Unmarshaler.{
  decode_uint8, decode_uint32, decode_uint64, decode_uint16_for_varint,
}
use neutrino_elements.Binary.Shrinking.{
  Shrinks, then_read_le, limit-Shrinks, read-Shrinks, decode_uint8-Shrinks, decode_uint16-Shrinks,
  decode_uint32-Shrinks, decode_uint64-Shrinks, decode_int32-Shrinks, decode_int64-Shrinks,
  decode_uint16_for_varint-Shrinks, decode_bool-Shrinks, decode_array-Shrinks,
  read_until_eof-Shrinks, decode_bytes-Shrinks,
}
use neutrino_elements.Protocol.VarInt.{
  VarInt, varint_body, unmarshal_binary, read_hashes, read_locators, unmarshal_locators,
}
use neutrino_elements.Protocol.Payloads.Version.{
  read_into, unmarshal_var_str, unmarshal_ipv4, decode_net_addr, decode_version,
}
use neutrino_elements.Protocol.Payloads.Inventory.{
  decode_ping, decode_send_cmpct, decode_inv_vector, decode_inv_vectors, unmarshal_inv,
}
use neutrino_elements.Protocol.Payloads.Chain.{
  decode_get_headers, decode_get_cfilters, unmarshal_headers,
}
use neutrino_elements.Protocol.Payloads.Delivery.{unmarshal_cfilter, unmarshal_block, unmarshal_tx}

varint_body-Shrinks : (b : ℕ) → Shrinks (varint_body b)
unfolding varint_body
varint_body-Shrinks b bs = elim (Bool-cases (ltb b 0xfd)) [
  | inl e ↦ rw e (omega arith)
  | inr e ↦ elim (Bool-cases (b == 0xfd)) [
    | inl f ↦
        rw (e, f)
          (then_read_le (limit 2 decode_uint16_for_varint bs) (λ v. pure (VarInt.uint16 v))
            (limit-Shrinks 2 _ decode_uint16_for_varint-Shrinks bs) (λ v rest. omega arith))
    | inr f ↦ elim (Bool-cases (b == 0xfe)) [
      | inl g ↦
          rw (e, f, g)
            (then_read_le (limit 4 decode_uint32 bs) (λ v. pure (VarInt.uint32 v))
              (limit-Shrinks 4 _ decode_uint32-Shrinks bs) (λ v rest. omega arith))
      | inr g ↦ elim (Bool-cases (b == 0xff)) [
        | inl h ↦
            rw (e, f, g, h)
              (then_read_le (limit 8 decode_uint64 bs) (λ v. pure (VarInt.uint64 v))
                (limit-Shrinks 8 _ decode_uint64-Shrinks bs) (λ v rest. omega arith))
        | inr h ↦ rw (e, f, g, h) (omega arith)
      ]
    ]
  ]
]

unmarshal_binary-Shrinks : Shrinks unmarshal_binary
unfolding unmarshal_binary
unmarshal_binary-Shrinks bs =
    grind (arith, limit-Shrinks 1 decode_uint8 decode_uint8-Shrinks bs, varint_body-Shrinks)

read_hashes-Shrinks : (n : ℕ) → Shrinks (read_hashes n)
unfolding read_hashes
read_hashes-Shrinks zero bs = omega arith
read_hashes-Shrinks (suc n) bs = grind (arith, decode_array-Shrinks, read_hashes-Shrinks n)

read_locators-Shrinks : Shrinks read_locators
unfolding read_locators
read_locators-Shrinks bs = grind (arith, unmarshal_binary-Shrinks, read_hashes-Shrinks)

unmarshal_locators-Shrinks : (old : List (List ℕ)) → Shrinks (unmarshal_locators old)
unfolding unmarshal_locators
unmarshal_locators-Shrinks old bs = grind (arith, read_locators-Shrinks)

read_into-Shrinks : (n : ℕ) → Shrinks (read_into n)
unfolding read_into
read_into-Shrinks n bs = grind (arith, read-Shrinks)

unmarshal_var_str-Shrinks : Shrinks unmarshal_var_str
unfolding unmarshal_var_str
unmarshal_var_str-Shrinks bs = grind (arith, read_into-Shrinks)

unmarshal_ipv4-Shrinks : (old : List ℕ) → Shrinks (unmarshal_ipv4 old)
unfolding unmarshal_ipv4
unmarshal_ipv4-Shrinks old bs = grind (arith, read_into-Shrinks)

decode_net_addr-Shrinks : Shrinks decode_net_addr
unfolding decode_net_addr
decode_net_addr-Shrinks bs =
    grind (arith, decode_uint64-Shrinks, unmarshal_ipv4-Shrinks, decode_uint16-Shrinks)

pub decode_version-Shrinks : Shrinks decode_version
unfolding decode_version
decode_version-Shrinks bs = grind (
  arith, decode_int32-Shrinks, decode_uint64-Shrinks, decode_int64-Shrinks, decode_net_addr-Shrinks,
  unmarshal_var_str-Shrinks, decode_bool-Shrinks,
)

pub decode_ping-Shrinks : Shrinks decode_ping
unfolding decode_ping
decode_ping-Shrinks = decode_uint64-Shrinks

pub decode_send_cmpct-Shrinks : Shrinks decode_send_cmpct
unfolding decode_send_cmpct
decode_send_cmpct-Shrinks bs = grind (arith, decode_bool-Shrinks, decode_uint64-Shrinks)

decode_inv_vector-Shrinks : Shrinks decode_inv_vector
unfolding decode_inv_vector
decode_inv_vector-Shrinks bs = grind (arith, decode_uint32-Shrinks, decode_array-Shrinks)

decode_inv_vectors-Shrinks : (n : ℕ) → Shrinks (decode_inv_vectors n)
unfolding decode_inv_vectors
decode_inv_vectors-Shrinks zero bs = omega arith
decode_inv_vectors-Shrinks (suc n) bs =
    grind (arith, decode_inv_vector-Shrinks, decode_inv_vectors-Shrinks n)

pub unmarshal_inv-Shrinks : Shrinks unmarshal_inv
unfolding unmarshal_inv
unmarshal_inv-Shrinks bs = grind (arith, decode_uint8-Shrinks, decode_inv_vectors-Shrinks)

pub decode_get_headers-Shrinks : Shrinks decode_get_headers
unfolding decode_get_headers
decode_get_headers-Shrinks bs =
    grind (arith, decode_uint32-Shrinks, unmarshal_locators-Shrinks, decode_array-Shrinks)

pub decode_get_cfilters-Shrinks : Shrinks decode_get_cfilters
unfolding decode_get_cfilters
decode_get_cfilters-Shrinks bs =
    grind (arith, decode_uint8-Shrinks, decode_uint32-Shrinks, decode_array-Shrinks)

pub unmarshal_headers-Shrinks :
    (deserialize_header : Reader Header) → Shrinks (unmarshal_headers deserialize_header)
unfolding unmarshal_headers
unmarshal_headers-Shrinks deserialize_header bs =
    grind (arith, unmarshal_binary-Shrinks, read_until_eof-Shrinks)

pub unmarshal_cfilter-Shrinks :
    {Filter : Type 0} (from_n_bytes : List ℕ → Result Filter)
    → Shrinks (unmarshal_cfilter from_n_bytes)
unfolding unmarshal_cfilter
unmarshal_cfilter-Shrinks from_n_bytes bs = grind (
  arith, decode_uint8-Shrinks, decode_array-Shrinks, unmarshal_binary-Shrinks, decode_bytes-Shrinks,
)

module _ (block_from_buffer : List ℕ → Result Block)
    (tx_from_buffer : List ℕ → Result Transaction) where
  pub unmarshal_block-Shrinks : Shrinks (unmarshal_block block_from_buffer tx_from_buffer)
  unfolding unmarshal_block
  unmarshal_block-Shrinks bs = grind (arith, read_until_eof-Shrinks)

  pub unmarshal_tx-Shrinks : Shrinks (unmarshal_tx block_from_buffer tx_from_buffer)
  unfolding unmarshal_tx
  unmarshal_tx-Shrinks bs = grind (arith, read_until_eof-Shrinks)
