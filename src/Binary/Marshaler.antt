-- ===== src/Binary/Marshaler.antt =====
-- pkg/binary/marshaler.go. `Value` is a Go value as the type switch of `Marshal` and the reflection
-- of `marshalStruct` see it.
use neutrino_elements.Prelude.{
  ℕ, zero, suc, Bool, true, false, List, [], ◌∷◌, ◌++◌, Result, ok, err, Error, ◌>>=◌, ◌==◌,
  if◌then◌else◌,
}
use neutrino_elements.Binary.Words.{le_bytes, be_bytes16}

-- `array n bs` is a value of the unnamed type [n]byte. `marshaler r` is a value whose method set has
-- `MarshalBinary`, with what that returns. `other` is any type that the switch does not list.
mutual
  pub data Value : Type 0 where
    uint8 int32 uint32 int64 uint64 uint16 : ℕ → Value
    bool : Bool → Value
    array : ℕ → List ℕ → Value
    bytes : List ℕ → Value
    string : List ℕ → Value
    marshaler : Result (List ℕ) → Value
    struct : Fields → Value
    pointer : Value → Value
    other : Value

  pub data Fields : Type 0 where
    end : Fields
    field : Value → Fields → Fields

unfoldable pub bool_byte : Bool → ℕ
bool_byte true = 1
bool_byte false = 0

-- The cases of the switch over array types: only the three lengths that it lists.
unfoldable pub marshal_array : ℕ → List ℕ → Result (List ℕ)
marshal_array n bs =
    if n == 4
    then ok bs
    else if n == 12
    then ok bs
    else if n == 32
    then ok bs
    else err Error.unsupported_type

-- `Marshal`, where `n` pointers may still be followed, and `marshalStruct`, which stops at the first
-- field that fails. A field is dereferenced once by `reflect.Indirect` and once by `Marshal`.
unfoldable mutual
  unfolding le_bytes be_bytes16 bool_byte marshal_array

  pub marshal_at : ℕ → Value → Result (List ℕ)
  marshal_at n (uint8 v) = ok (le_bytes 1 v)
  marshal_at n (int32 v) = ok (le_bytes 4 v)
  marshal_at n (uint32 v) = ok (le_bytes 4 v)
  marshal_at n (int64 v) = ok (le_bytes 8 v)
  marshal_at n (uint64 v) = ok (le_bytes 8 v)
  marshal_at n (uint16 v) = ok (be_bytes16 v)
  marshal_at n (bool b) = ok (bool_byte b ∷ [])
  marshal_at n (array k bs) = marshal_array k bs
  marshal_at n (bytes bs) = ok bs
  marshal_at n (string bs) = ok bs
  marshal_at n (marshaler r) = r
  marshal_at n (struct fs) = marshal_struct fs
  marshal_at zero (pointer v) = err Error.unsupported_type
  marshal_at (suc n) (pointer v) = marshal_at n v
  marshal_at n other = err Error.unsupported_type

  pub marshal_struct : Fields → Result (List ℕ)
  marshal_struct end = ok []
  marshal_struct (field v fs) = do b ← marshal_at 2 v; rest ← marshal_struct fs; ok (b ++ rest)

unfoldable pub marshal : Value → Result (List ℕ)
unfolding marshal_at
marshal v = marshal_at 1 v

-- `MarshalForVarint`: every width is little-endian here.
unfoldable pub marshal_for_varint : Value → Result (List ℕ)
unfolding le_bytes
marshal_for_varint (uint8 v) = ok (le_bytes 1 v)
marshal_for_varint (uint16 v) = ok (le_bytes 2 v)
marshal_for_varint (uint32 v) = ok (le_bytes 4 v)
marshal_for_varint (uint64 v) = ok (le_bytes 8 v)
marshal_for_varint _ = err Error.unsupported_type
