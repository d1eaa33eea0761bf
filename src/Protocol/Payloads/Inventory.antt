-- ===== src/Protocol/Payloads/Inventory.antt =====
-- msg_pingpong.go, msg_inv.go, msg_getdata.go and msg_sendcmpct.go.
use neutrino_elements.Prelude.{
  ℕ, zero, suc, ◌<◌, ◌^◌, ◌≡◌, refl, List, [], ◌∷◌, ◌++◌, append-nil, append_assoc, length, All,
  Bool, Result, ok, arith, replicate, ◌>>=◌ as and_then,
}
use neutrino_elements.Binary.Words.{le_bytes}
use neutrino_elements.Binary.Marshaler.{Value, Fields, marshal}
use neutrino_elements.Binary.Reader.{Reader, pure, ◌>>=◌}
use neutrino_elements.Binary.Unmarshaler.{
  decode_uint8, decode_uint32, decode_uint64, decode_bool, decode_array,
}
use neutrino_elements.Binary.RoundTrip.{decode_le-le_bytes, ReadsBack, read-array}

-- MsgPing and MsgPong hold a nonce and nothing else.
abbrev pub ping_value : ℕ → Value
ping_value nonce = Value.struct (Fields.field (Value.uint64 nonce) Fields.end)

unfoldable pub decode_ping : Reader ℕ
decode_ping = decode_uint64

-- MsgSendCmpct, as its struct is decoded.
unfoldable pub decode_send_cmpct : Reader (Bool × ℕ)
decode_send_cmpct = do
  low_bandwidth ← decode_bool
  version ← decode_uint64
  pure (low_bandwidth, version)

pub record InvVector : Type 0 where
  pub kind : ℕ  -- Type
  pub hash : List ℕ

pub record MsgInv : Type 0 where
  pub count : ℕ
  pub inventory : List InvVector

abbrev pub inv_vector_value : InvVector → Value
inv_vector_value v =
    Value.struct
      (Fields.field (Value.uint32 v.kind) (Fields.field (Value.array 32 v.hash) Fields.end))

unfoldable pub decode_inv_vector : Reader InvVector
decode_inv_vector = do
  kind ← decode_uint32
  hash ← decode_array 32 (replicate 32 0)
  pure (record { kind = kind; hash = hash })

unfoldable pub decode_inv_vectors : ℕ → Reader (List InvVector)
decode_inv_vectors zero = pure []
decode_inv_vectors (suc n) = decode_inv_vector >>= λ v. decode_inv_vectors n >>= λ vs. pure (v ∷ vs)

-- `MsgInv.UnmarshalBinary`: the count is one byte.
unfoldable pub unmarshal_inv : Reader MsgInv
unmarshal_inv = do
  count ← decode_uint8
  vs ← decode_inv_vectors count
  pure (record { count = count; inventory = vs })

unfoldable pub marshal_inv_vectors : List InvVector → Result (List ℕ)
marshal_inv_vectors [] = ok []
marshal_inv_vectors (v ∷ vs) =
    and_then (marshal (inv_vector_value v))
      (λ b. and_then (marshal_inv_vectors vs) (λ rest. ok (b ++ rest)))

-- `MsgGetData.MarshalBinary`; MsgGetData has the fields of MsgInv.
unfoldable pub marshal_get_data : MsgInv → Result (List ℕ)
marshal_get_data gd =
    and_then (marshal (Value.uint8 gd.count))
      (λ b. and_then (marshal_inv_vectors gd.inventory) (λ rest. ok (b ++ rest)))

-- A uint32 and a hash of 32 bytes.
pub record IsInvVector (v : InvVector) : Type 0 where
  pub kind_range : v.kind < 256 ^ 4
  pub hash_length : length v.hash ≡ 32

read-inv_vector :
    (v : InvVector) (rest : List ℕ)
    → IsInvVector v
    → ReadsBack (marshal (inv_vector_value v)) decode_inv_vector v rest
unfolding marshal decode_inv_vector decode_uint32
read-inv_vector v rest h = (
  le_bytes 4 v.kind ++ v.hash,
  simp append-nil,
  rw (
    append_assoc (le_bytes 4 v.kind) v.hash rest,
    decode_le-le_bytes 4 v.kind (v.hash ++ rest) h.kind_range,
    read-array v.hash rest h.hash_length,
  ),
)

read-inv_vectors :
    (vs : List InvVector) (rest : List ℕ)
    → All IsInvVector vs
    → ReadsBack (marshal_inv_vectors vs) (decode_inv_vectors (length vs)) vs rest
unfolding marshal_inv_vectors decode_inv_vectors
read-inv_vectors [] rest h = ([], refl, refl)
read-inv_vectors (v ∷ vs) rest (h, hs) =
    let (b2, e2, d2) = read-inv_vectors vs rest hs in
    let (b1, e1, d1) = read-inv_vector v (b2 ++ rest) h in
    (b1 ++ b2, rw (e1, e2), rw (append_assoc b1 b2 rest, d1, d2))

-- A getdata message whose count byte is the number of its entries, which are in range, is read back
-- as the inv message with the same entries, and what follows is left.
pub read-marshal_get_data :
    (gd : MsgInv) (rest : List ℕ)
    → gd.count ≡ length gd.inventory
    → gd.count < 256
    → All IsInvVector gd.inventory
    → ReadsBack (marshal_get_data gd) unmarshal_inv gd rest
unfolding marshal marshal_get_data unmarshal_inv decode_uint8
read-marshal_get_data gd rest e c h =
    let (bs, m, d) = read-inv_vectors gd.inventory rest h in
    (
      le_bytes 1 gd.count ++ bs,
      rw m,
      rw (
        append_assoc (le_bytes 1 gd.count) bs rest,
        decode_le-le_bytes 1 gd.count (bs ++ rest) (omega arith),
        counted _ d,
      ),
    )
  where
    counted :
        (bs : List ℕ)
        → decode_inv_vectors (length gd.inventory) bs ≡ (ok gd.inventory, rest)
        → decode_inv_vectors gd.count bs ≡ (ok gd.inventory, rest)
    counted bs d = rw e d
