-- ===== src/Protocol/VarInt/RoundTrip.antt =====
-- varint.go: encoding, decoding and the choice of the width.
use neutrino_elements.Prelude.{
  ℕ, ◌^◌, ◌≤◌, ◌<◌, ◌≡◌, refl, sym, ◌∙◌, ◌⊎◌, inl, inr, List, [], ◌∷◌, ◌++◌, append-nil, length, ok,
  err, arith, lt→ltb, subst, ok-injective,
}
use neutrino_elements.Binary.Words.{le_bytes, length-le_bytes}
use neutrino_elements.Binary.Reader.{limit, limit-prefix}
use neutrino_elements.Binary.Unmarshaler.{
  decode_le, decode_uint8, decode_uint32, decode_uint64, decode_uint16_for_varint,
}
use neutrino_elements.Binary.RoundTrip.{decode_le-le_bytes, ReadsBack}
use neutrino_elements.Protocol.VarInt.{
  pos, VarInt, new_from_int, int_of, marshal_binary, unmarshal_binary, varint_body,
}

limit-decode_le :
    (w v : ℕ) (rest : List ℕ)
    → v < 256 ^ w
    → limit w (decode_le w) (le_bytes w v ++ rest) ≡ (ok v, rest)
limit-decode_le w v rest h =
    limit-prefix (decode_le w) (le_bytes w v) rest (length-le_bytes w v)
      (rw (append-nil (le_bytes w v)) at (decode_le-le_bytes w v [] h))

limit-limit-decode_le :
    (v : ℕ) (rest : List ℕ)
    → v < 256 ^ 2
    → limit 2 (limit 2 (decode_le 2)) (le_bytes 2 v ++ rest) ≡ (ok v, rest)
limit-limit-decode_le v rest h =
    limit-prefix (limit 2 (decode_le 2)) (le_bytes 2 v) rest (length-le_bytes 2 v)
      (rw (append-nil (le_bytes 2 v)) at (limit-decode_le 2 v [] h))

-- The integers that the four widths hold, where a single byte must not look like a prefix.
abbrev pub IsWellFormed : VarInt → Type 0
IsWellFormed (VarInt.uint8 v) = v < 0xfd
IsWellFormed (VarInt.uint16 v) = v < 256 ^ 2
IsWellFormed (VarInt.uint32 v) = v < 256 ^ 4
IsWellFormed (VarInt.uint64 v) = v < 256 ^ 8
IsWellFormed VarInt.unset = ⊥

pub first_byte :
    (b : ℕ) (rest : List ℕ) → b < 256 → unmarshal_binary (le_bytes 1 b ++ rest) ≡ varint_body b rest
unfolding unmarshal_binary decode_uint8
first_byte b rest h = rw (limit-decode_le 1 b rest (omega arith))

-- Every well-formed VarInt is read back, whatever follows it.
pub unmarshal-marshal_binary :
    (v : VarInt) (rest : List ℕ)
    → IsWellFormed v
    → ReadsBack (marshal_binary v) unmarshal_binary v rest
unfolding marshal_binary varint_body decode_uint16_for_varint decode_uint32 decode_uint64
unmarshal-marshal_binary (VarInt.uint8 v) rest h =
    (le_bytes 1 v, refl, first_byte v rest (omega arith) ∙ rw (lt→ltb v 0xfd h))
unmarshal-marshal_binary (VarInt.uint16 v) rest h = (
  0xfd ∷ le_bytes 2 v,
  refl,
  first_byte 0xfd _ (omega arith) ∙ rw (limit-limit-decode_le v rest h),
)
unmarshal-marshal_binary (VarInt.uint32 v) rest h =
    (0xfe ∷ le_bytes 4 v, refl, first_byte 0xfe _ (omega arith) ∙ rw (limit-decode_le 4 v rest h))
unmarshal-marshal_binary (VarInt.uint64 v) rest h =
    (0xff ∷ le_bytes 8 v, refl, first_byte 0xff _ (omega arith) ∙ rw (limit-decode_le 8 v rest h))
unmarshal-marshal_binary VarInt.unset rest h = absurd h

pub counted :
    (v : VarInt) (count rest : List ℕ)
    → IsWellFormed v
    → marshal_binary v ≡ ok count
    → unmarshal_binary (count ++ rest) ≡ (ok v, rest)
counted v count rest w e =
    let (bs, f, d) = unmarshal-marshal_binary v rest w in
    subst (λ b. unmarshal_binary (b ++ rest) ≡ (ok v, rest)) (ok-injective (sym f ∙ e)) d

-- The four ranges of `newFromInt`.
abbrev pub Ranges : ℕ → Type 0
Ranges i =
    ((i ≤ 0xfc) × (new_from_int (pos i) ≡ VarInt.uint8 i))
    ⊎ ((0xfc < i) × (i ≤ 0xffff) × (new_from_int (pos i) ≡ VarInt.uint16 i))
    ⊎ ((0xffff < i) × (i ≤ 0xffff_ffff) × (new_from_int (pos i) ≡ VarInt.uint32 i))
    ⊎ ((0xffff_ffff < i) × (new_from_int (pos i) ≡ VarInt.uint64 i))

pub new_from_int-Ranges : (i : ℕ) → Ranges i
unfolding new_from_int
new_from_int-Ranges i = ground arith

pub new_from_int-IsWellFormed : (i : ℕ) → i < 2 ^ 63 → IsWellFormed (new_from_int (pos i))
new_from_int-IsWellFormed i h = elim (new_from_int-Ranges i) [
  | inl (a, e) ↦ rw e (omega arith)
  | inr (inl (a, b, e)) ↦ rw e (omega arith)
  | inr (inr (inl (a, b, e))) ↦ rw e (omega arith)
  | inr (inr (inr (a, e))) ↦ rw e (omega arith)
]

pub int_of-new_from_int : (i : ℕ) → i < 2 ^ 63 → int_of (new_from_int (pos i)) ≡ ok i
unfolding int_of
int_of-new_from_int i h = elim (new_from_int-Ranges i) [
  | inl (a, e) ↦ rw e
  | inr (inl (a, b, e)) ↦ rw e
  | inr (inr (inl (a, b, e))) ↦ rw e
  | inr (inr (inr (a, e))) ↦ rw e (ground arith)
]

-- For every int that is not negative, `newFromInt` makes a VarInt that `MarshalBinary` encodes and
-- `UnmarshalBinary` reads back with whatever follows left in the reader, and `Int` gives the int.
pub read-new_from_int :
    (i : ℕ) (rest : List ℕ)
    → i < 2 ^ 63
    → ReadsBack (marshal_binary (new_from_int (pos i))) unmarshal_binary (new_from_int (pos i)) rest
      × (int_of (new_from_int (pos i)) ≡ ok i)
read-new_from_int i rest h =
    (unmarshal-marshal_binary _ rest (new_from_int-IsWellFormed i h), int_of-new_from_int i h)

-- The number of bytes that `MarshalBinary` writes, 0 where it fails.
abbrev pub width : VarInt → ℕ
width v = elim (marshal_binary v) [ ok bs ↦ length bs | err e ↦ 0 ]

-- What the choice costs in each range.
width-new_from_int :
    (i : ℕ)
    → (width (new_from_int (pos i)) ≤ 9)
      × (i ≤ 0xffff_ffff → width (new_from_int (pos i)) ≤ 5)
      × (i ≤ 0xffff → width (new_from_int (pos i)) ≤ 3)
      × (i ≤ 0xfc → width (new_from_int (pos i)) ≤ 1)
unfolding marshal_binary
width-new_from_int i = elim (new_from_int-Ranges i) [
  | inl (a, e) ↦ rw e (omega arith)
  | inr (inl (a, b, e)) ↦ rw e (omega arith)
  | inr (inr (inl (a, b, e))) ↦ rw e (omega arith)
  | inr (inr (inr (a, e))) ↦ rw e (omega arith)
]

-- No well-formed VarInt with the same `Int` is shorter than what `newFromInt` chooses.
pub new_from_int_shortest :
    (i : ℕ) (v : VarInt)
    → i < 2 ^ 63
    → IsWellFormed v
    → int_of v ≡ ok i
    → width (new_from_int (pos i)) ≤ width v
unfolding int_of marshal_binary
new_from_int_shortest i (VarInt.uint8 v) h w e = (width-new_from_int i).3 (ground arith)
new_from_int_shortest i (VarInt.uint16 v) h w e = (width-new_from_int i).2 (ground arith)
new_from_int_shortest i (VarInt.uint32 v) h w e = (width-new_from_int i).1 (ground arith)
new_from_int_shortest i (VarInt.uint64 v) h w e = (width-new_from_int i).0
new_from_int_shortest i VarInt.unset h w e = absurd w
