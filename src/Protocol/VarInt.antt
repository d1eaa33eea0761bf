-- ===== src/Protocol/VarInt.antt =====
-- pkg/protocol/varint.go: integers in 1, 3, 5 or 9 bytes, and pkg/protocol/blocklocator.go, a list
-- of hashes behind such an integer.
pub mod RoundTrip
pub mod Locators
use neutrino_elements.Prelude.{
  ℕ, zero, suc, ◌+◌, ◌-◌, ◌^◌, List, [], ◌∷◌, ◌++◌, Result, ok, err, Error, ltb, leb, ◌==◌,
  replicate, length, if◌then◌else◌, ◌>>=◌ as and_then,
}
use neutrino_elements.Binary.Marshaler.{Value, Fields, marshal, marshal_for_varint}
use neutrino_elements.Binary.Reader.{Reader, pure, fail, lift, limit, ◌>>=◌, then_read}
use neutrino_elements.Binary.Unmarshaler.{
  decode_uint8, decode_uint32, decode_uint64, decode_uint16_for_varint, decode_array,
}

-- Go's `int`: `negsuc n` is -(n + 1).
pub data ℤ : Type 0 where
  pos : ℕ → ℤ
  negsuc : ℕ → ℤ

-- What the interface field `Value` of the struct VarInt holds: `unset` is anything but an unsigned
-- integer.
pub data VarInt : Type 0 where
  uint8 uint16 uint32 uint64 : ℕ → VarInt
  unset : VarInt

abbrev pub max_int64 : ℕ
max_int64 = 2 ^ 63 - 1

-- The conversions of `newFromInt` are exact where it makes them.
unfoldable pub new_from_int : ℤ → VarInt
new_from_int (negsuc n) = uint8 0
new_from_int (pos i) =
    if leb i 0xfc
    then uint8 i
    else if leb i 0xffff
    then uint16 i
    else if leb i 0xffff_ffff
    then uint32 i
    else uint64 i

-- The argument of `NewVarint`, by its dynamic type.
pub data Number : Type 0 where
  int : ℤ → Number
  uint8 uint16 uint32 uint64 : ℕ → Number
  other : Number

unfoldable pub new_varint : Number → Result VarInt
unfolding new_from_int
new_varint (int i) = ok (new_from_int i)
new_varint (Number.uint8 v) = ok (VarInt.uint8 v)
new_varint (Number.uint16 v) = ok (VarInt.uint16 v)
new_varint (Number.uint32 v) = ok (VarInt.uint32 v)
new_varint (Number.uint64 v) = ok (VarInt.uint64 (if ltb max_int64 v then max_int64 else v))
new_varint other = err Error.invalid_varint

-- The method `Int`.
unfoldable pub int_of : VarInt → Result ℕ
int_of (VarInt.uint8 v) = ok v
int_of (VarInt.uint16 v) = ok v
int_of (VarInt.uint32 v) = ok v
int_of (VarInt.uint64 v) = ok (if ltb max_int64 v then max_int64 else v)
int_of unset = err Error.invalid_varint

-- The field `Value` as reflection and type switches see it.
abbrev pub dynamic : VarInt → Value
dynamic (VarInt.uint8 v) = Value.uint8 v
dynamic (VarInt.uint16 v) = Value.uint16 v
dynamic (VarInt.uint32 v) = Value.uint32 v
dynamic (VarInt.uint64 v) = Value.uint64 v
dynamic unset = Value.other

abbrev pub prefix : VarInt → List ℕ
prefix (VarInt.uint8 v) = []
prefix (VarInt.uint16 v) = 0xfd ∷ []
prefix (VarInt.uint32 v) = 0xfe ∷ []
prefix (VarInt.uint64 v) = 0xff ∷ []
prefix unset = []

-- The method `MarshalBinary`, which has a pointer for its receiver.
unfoldable pub marshal_binary : VarInt → Result (List ℕ)
unfolding marshal_for_varint
marshal_binary v = and_then (marshal_for_varint (dynamic v)) (λ b. ok (prefix v ++ b))

-- A VarInt handed to `binary.Marshal` as a value, or by a pointer, which `Marshal` follows: the method
-- is not in the method set of a VarInt, so the switch falls through to the struct with one field.
unfoldable pub varint_value : VarInt → Value
varint_value v = Value.struct (Fields.field (dynamic v) Fields.end)

-- What `UnmarshalBinary` does after its first byte.
unfoldable pub varint_body : ℕ → Reader VarInt
varint_body b =
    if ltb b 0xfd
    then pure (VarInt.uint8 b)
    else if b == 0xfd
    then (limit 2 decode_uint16_for_varint >>= λ v. pure (VarInt.uint16 v))
    else if b == 0xfe
    then (limit 4 decode_uint32 >>= λ v. pure (VarInt.uint32 v))
    else if b == 0xff
    then (limit 8 decode_uint64 >>= λ v. pure (VarInt.uint64 v))
    else pure unset

unfoldable pub unmarshal_binary : Reader VarInt
unfolding varint_body
unmarshal_binary = do b ← limit 1 decode_uint8; varint_body b

-- `BlockLocators.MarshalBinary`: the count goes through `binary.Marshal`.
unfoldable pub marshal_hashes : List (List ℕ) → Result (List ℕ)
marshal_hashes [] = ok []
marshal_hashes (h ∷ hs) =
    and_then (marshal (Value.array 32 h))
      (λ b. and_then (marshal_hashes hs) (λ rest. ok (b ++ rest)))

unfoldable pub marshal_locators : List (List ℕ) → Result (List ℕ)
unfolding marshal_hashes varint_value new_from_int
marshal_locators hs =
    and_then (marshal (varint_value (new_from_int (pos (length hs)))))
      (λ b. and_then (marshal_hashes hs) (λ rest. ok (b ++ rest)))

-- The loop of `BlockLocators.UnmarshalBinary`.
unfoldable pub read_hashes : ℕ → Reader (List (List ℕ))
read_hashes zero = pure []
read_hashes (suc n) =
    decode_array 32 (replicate 32 0) >>= λ h. read_hashes n >>= λ hs. pure (h ∷ hs)

-- The hashes that `BlockLocators.UnmarshalBinary` reads.
unfoldable pub read_locators : Reader (List (List ℕ))
unfolding read_hashes
read_locators = do count ← unmarshal_binary; n ← lift (int_of count); read_hashes n

-- The method has its receiver by value, so what it assigns is gone when it returns: the decoded
-- value stays `old`.
unfoldable pub unmarshal_locators : List (List ℕ) → Reader (List (List ℕ))
unfolding read_locators
unmarshal_locators old = read_locators >>= λ _. pure old
