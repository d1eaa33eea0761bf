-- ===== src/Binary/Unmarshaler.antt =====
-- pkg/binary/unmarshaler.go. `Shape` is the type behind the pointer that `Decode` is given, as its
-- type switch and the reflection of `decodeStruct` see it; what is written there is a `Value`.
use neutrino_elements.Prelude.{
  ℕ, Bool, true, not, List, [], ◌∷◌, ◌++◌, ok, Error, drop, length, replicate, ◌==◌, if◌then◌else◌,
}
use neutrino_elements.Binary.Words.{le_value, be_value}
use neutrino_elements.Binary.Reader.{Reader, pure, fail, ◌>>=◌, then_read, read, read_full, limit}
use neutrino_elements.Binary.Marshaler.{Value, Fields}

-- `slice old` is a []byte that holds `old`. `unmarshaler m` is a type whose pointer has
-- `UnmarshalBinary`, with what that does and the value that it leaves.
mutual
  pub data Shape : Type 0 where
    uint8 int32 uint32 int64 uint64 uint16 bool : Shape
    array : ℕ → Shape
    slice : List ℕ → Shape
    unmarshaler : Reader Value → Shape
    struct : Shapes → Shape
    other : Shape

  pub data Shapes : Type 0 where
    end : Shapes
    field : Shape → Shapes → Shapes

-- A binary.Read of `w` bytes behind a LimitReader of as many.
unfoldable pub decode_le : ℕ → Reader ℕ
decode_le w = limit w (read_full w) >>= λ bs. pure (le_value bs)

-- `decodeUint8`, `decodeUint32`, `decodeInt32`, `decodeUint64` and `decodeInt64`.
unfoldable pub decode_uint8 : Reader ℕ
unfolding decode_le
decode_uint8 = decode_le 1

unfoldable pub decode_uint32 : Reader ℕ
unfolding decode_le
decode_uint32 = decode_le 4

unfoldable pub decode_int32 : Reader ℕ
unfolding decode_le
decode_int32 = decode_le 4

unfoldable pub decode_uint64 : Reader ℕ
unfolding decode_le
decode_uint64 = decode_le 8

unfoldable pub decode_int64 : Reader ℕ
unfolding decode_le
decode_int64 = decode_le 8

-- `decodeUint16` is the big-endian one.
unfoldable pub decode_uint16 : Reader ℕ
decode_uint16 = limit 2 (read_full 2) >>= λ bs. pure (be_value bs 0)

unfoldable pub decode_uint16_for_varint : Reader ℕ
unfolding decode_le
decode_uint16_for_varint = limit 2 (decode_le 2)

unfoldable pub decode_bool : Reader Bool
unfolding decode_le
decode_bool = decode_le 1 >>= λ b. pure (not (b == 0))

-- `decodeArray`: one Read into a buffer that holds `old`. What the Read does not reach stays, and a
-- short Read is no error.
unfoldable pub decode_array : ℕ → List ℕ → Reader (List ℕ)
decode_array len old = limit len (read (length old)) >>= λ bs. pure (bs ++ drop (length bs) old)

unfoldable pub read_until_eof : Reader (List ℕ)
read_until_eof [] = (ok [], [])
read_until_eof (b ∷ bs) = then_read (read_until_eof bs) (λ more. pure (b ∷ more))

-- `DecodeBytes`; its argument is never negative where the source calls it.
unfoldable pub decode_bytes : ℕ → Reader (List ℕ)
unfolding decode_uint8 decode_array
decode_bytes len =
    if len == 0
    then fail Error.invalid_length
    else if len == 1
    then (decode_uint8 >>= λ b. pure (b ∷ []))
    else decode_array len (replicate len 0)

-- The array types that the switch lists.
abbrev pub listed : ℕ → Bool
listed n = if n == 4 then true else if n == 12 then true else n == 32

unfoldable mutual
  unfolding decode_uint8 decode_uint16 decode_uint32 decode_int32 decode_uint64 decode_int64
      decode_bool decode_array

  pub decode : Shape → Reader Value
  decode Shape.uint8 = decode_uint8 >>= λ v. pure (Value.uint8 v)
  decode Shape.int32 = decode_int32 >>= λ v. pure (Value.int32 v)
  decode Shape.uint32 = decode_uint32 >>= λ v. pure (Value.uint32 v)
  decode Shape.int64 = decode_int64 >>= λ v. pure (Value.int64 v)
  decode Shape.uint64 = decode_uint64 >>= λ v. pure (Value.uint64 v)
  decode Shape.uint16 = decode_uint16 >>= λ v. pure (Value.uint16 v)
  decode Shape.bool = decode_bool >>= λ b. pure (Value.bool b)
  decode (Shape.array n) =
      if listed n
      then (decode_array n (replicate n 0) >>= λ bs. pure (Value.array n bs))
      else fail Error.unsupported_type
  decode (Shape.slice old) = decode_array 32 old >>= λ bs. pure (Value.bytes bs)
  decode (Shape.unmarshaler m) = m
  decode (Shape.struct ss) = decode_struct ss >>= λ fs. pure (Value.struct fs)
  decode Shape.other = fail Error.unsupported_type

  pub decode_struct : Shapes → Reader Fields
  decode_struct Shapes.end = pure Fields.end
  decode_struct (Shapes.field s ss) = do
    v ← decode s
    fs ← decode_struct ss
    pure (Fields.field v fs)
