-- ===== src/Protocol/VarInt/Locators.antt =====
-- blocklocator.go: a list of hashes and its count, which goes through `binary.Marshal`.
use neutrino_elements.Prelude.{
  ℕ, ◌/◌, ◌%◌, ◌≤◌, ◌<◌, ◌≡◌, refl, ◌∙◌, List, [], ◌∷◌, ◌++◌, append_assoc, length, All, ok, arith,
  lt→ltb,
}
use neutrino_elements.Binary.Words.{le_bytes, be_bytes16}
use neutrino_elements.Binary.Marshaler.{Value, marshal}
use neutrino_elements.Binary.RoundTrip.{ReadsBack, read-array}
use neutrino_elements.Protocol.VarInt.{
  pos, VarInt, new_from_int, marshal_binary, unmarshal_binary, varint_body, varint_value,
  marshal_hashes, marshal_locators, read_hashes, read_locators, unmarshal_locators,
}
use neutrino_elements.Protocol.VarInt.RoundTrip.{
  first_byte, unmarshal-marshal_binary, new_from_int-IsWellFormed, int_of-new_from_int,
}

-- A count up to 252 is written as `MarshalBinary` would write it.
pub marshal-varint_value :
    (n : ℕ)
    → n ≤ 0xfc
    → marshal (varint_value (new_from_int (pos n))) ≡ marshal_binary (new_from_int (pos n))
unfolding marshal varint_value marshal_binary new_from_int
marshal-varint_value n h = ground arith

-- A count from 253 to 64767 is written as two bytes, highest first and with no prefix, so a decoder
-- reads the high byte as the whole count and leaves the low byte in the reader.
pub count_misread :
    (n : ℕ) (rest : List ℕ)
    → 0xfc < n
    → n < 0xfd00
    → (marshal (varint_value (new_from_int (pos n))) ≡ ok (be_bytes16 n))
      × (unmarshal_binary (be_bytes16 n ++ rest) ≡ (ok (VarInt.uint8 (n / 256)), (n % 256) ∷ rest))
unfolding marshal varint_value new_from_int be_bytes16 le_bytes varint_body
count_misread n rest lo hi = (
  ground arith,
  first_byte (n / 256) ((n % 256) ∷ rest) (omega arith) ∙ rw (lt→ltb (n / 256) 0xfd (omega arith)),
)

-- Bytes of a hash.
abbrev pub IsHash : List ℕ → Type 0
IsHash h = length h ≡ 32

marshal-hash : (h : List ℕ) → marshal (Value.array 32 h) ≡ ok h
unfolding marshal
marshal-hash h = refl

read-marshal_hashes :
    (hs : List (List ℕ)) (rest : List ℕ)
    → All IsHash hs
    → ReadsBack (marshal_hashes hs) (read_hashes (length hs)) hs rest
unfolding marshal_hashes read_hashes
read-marshal_hashes [] rest h = ([], refl, refl)
read-marshal_hashes (h ∷ hs) rest (e, es) =
    let (b, m, d) = read-marshal_hashes hs rest es in
    (h ++ b, rw (marshal-hash h, m), rw (append_assoc h b rest, read-array h (b ++ rest) e, d))

-- A locator of up to 252 hashes is read back.
pub read-marshal_locators :
    (hs : List (List ℕ)) (rest : List ℕ)
    → All IsHash hs
    → length hs ≤ 0xfc
    → ReadsBack (marshal_locators hs) read_locators hs rest
unfolding marshal_locators read_locators
read-marshal_locators hs rest h small =
    let n = length hs in
    let count = new_from_int (pos n) in
    let (b, m, d) = read-marshal_hashes hs rest h in
    let (c, k, u) =
      unmarshal-marshal_binary count (b ++ rest) (new_from_int-IsWellFormed n (omega arith)) in
    (
      c ++ b,
      rw (marshal-varint_value n small, k, m),
      rw (append_assoc c b rest, u, int_of-new_from_int n (omega arith), d),
    )

-- `BlockLocators.UnmarshalBinary` reads all the bytes of a locator of up to 252 hashes of 32 bytes,
-- and leaves in its receiver the value that was there.
pub unmarshal_locators_keeps :
    (hs old : List (List ℕ)) (rest : List ℕ)
    → All IsHash hs
    → length hs ≤ 0xfc
    → ReadsBack (marshal_locators hs) (unmarshal_locators old) old rest
unfolding unmarshal_locators
unmarshal_locators_keeps hs old rest h small =
    let (bs, e, d) = read-marshal_locators hs rest h small in (bs, e, rw d)
