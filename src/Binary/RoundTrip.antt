-- ===== src/Binary/RoundTrip.antt =====
-- `Marshal` and `Decode`, the one behind the other.
use neutrino_elements.Prelude.{
  suc, ℕ, ◌<◌, ◌^◌, ◌≡◌, refl, sym, ◌∙◌, Bool, true, false, List, [], ◌∷◌, ◌++◌, append-nil,
  append_assoc, length, length-replicate, drop_all, replicate, Result, ok, arith,
}
use neutrino_elements.Binary.Words.{
  le_bytes, le_value, be_bytes16, length-le_bytes, le_value-le_bytes, be_value-be_bytes16,
}
use neutrino_elements.Binary.Reader.{Reader, read, read-prefix, limit-prefix, limit-read_full}
use neutrino_elements.Binary.Marshaler.{
  Value, Fields, marshal, marshal_at, marshal_struct, marshal_array, bool_byte,
}
use neutrino_elements.Binary.Unmarshaler.{
  Shape, Shapes, listed, decode, decode_struct, decode_le, decode_uint16, decode_bool, decode_array,
}

pub decode_le-le_bytes :
    (w v : ℕ) (rest : List ℕ) → v < 256 ^ w → decode_le w (le_bytes w v ++ rest) ≡ (ok v, rest)
unfolding decode_le
decode_le-le_bytes w v rest h =
    rw (limit-read_full (le_bytes w v) rest (length-le_bytes w v), le_value-le_bytes w v h)

pub decode_uint16-be_bytes16 :
    (v : ℕ) (rest : List ℕ) → v < 65536 → decode_uint16 (be_bytes16 v ++ rest) ≡ (ok v, rest)
unfolding decode_uint16 be_bytes16
decode_uint16-be_bytes16 v rest h =
    rw (limit-read_full (be_bytes16 v) rest refl, be_value-be_bytes16 v h)

pub decode_bool-bool_byte :
    (b : Bool) (rest : List ℕ) → decode_bool (bool_byte b ∷ rest) ≡ (ok b, rest)
unfolding decode_bool bool_byte le_value
decode_bool-bool_byte true rest = rw (limit-read_full (1 ∷ []) rest refl)
decode_bool-bool_byte false rest = rw (limit-read_full (0 ∷ []) rest refl)

-- An array of at least one byte, read whole.
decode_array-prefix :
    (b : ℕ) (bs rest : List ℕ) {n : ℕ} (old : List ℕ)
    → length (b ∷ bs) ≡ n
    → length old ≡ n
    → decode_array n old (b ∷ (bs ++ rest)) ≡ (ok (b ∷ bs), rest)
unfolding decode_array
decode_array-prefix b bs rest old e f =
    rw (limit-prefix (read (length old)) (b ∷ bs) rest e whole)
      (rw (drop_all (length (b ∷ bs)) old (omega arith), append-nil bs))
  where
    whole : read (length old) (b ∷ bs) ≡ (ok (b ∷ bs), [])
    whole = rw (append-nil bs) at (read-prefix b bs [] (e ∙ sym f))

pub read-array :
    (bs rest : List ℕ) {n : ℕ}
    → length bs ≡ suc n
    → decode_array (suc n) (replicate (suc n) 0) (bs ++ rest) ≡ (ok bs, rest)
read-array [] rest e = absurd (omega arith)
read-array (b ∷ bs) rest {n} e =
    decode_array-prefix b bs rest (replicate (suc n) 0) e (length-replicate (suc n) 0)

listed_array : (n : ℕ) (bs : List ℕ) → listed n ≡ true → marshal_array n bs ≡ ok bs
unfolding marshal_array
listed_array n bs h = ground arith

-- The values of a shape that both switches list: integers in range, arrays of a listed length, and
-- structs of those.
mutual
  pub data Fits : Shape → Value → Type 0 where
    fits_uint8 : {v : ℕ} → v < 256 → Fits Shape.uint8 (Value.uint8 v)
    fits_uint16 : {v : ℕ} → v < 65536 → Fits Shape.uint16 (Value.uint16 v)
    fits_uint32 : {v : ℕ} → v < 256 ^ 4 → Fits Shape.uint32 (Value.uint32 v)
    fits_int32 : {v : ℕ} → v < 256 ^ 4 → Fits Shape.int32 (Value.int32 v)
    fits_uint64 : {v : ℕ} → v < 256 ^ 8 → Fits Shape.uint64 (Value.uint64 v)
    fits_int64 : {v : ℕ} → v < 256 ^ 8 → Fits Shape.int64 (Value.int64 v)
    fits_bool : {b : Bool} → Fits Shape.bool (Value.bool b)
    fits_array :
        {n b : ℕ} {bs : List ℕ}
        → listed n ≡ true
        → length (b ∷ bs) ≡ n
        → Fits (Shape.array n) (Value.array n (b ∷ bs))
    fits_struct :
        {ss : Shapes} {fs : Fields} → FitAll ss fs → Fits (Shape.struct ss) (Value.struct fs)

  pub data FitAll : Shapes → Fields → Type 0 where
    fit_end : FitAll Shapes.end Fields.end
    fit_field :
        {s : Shape} {v : Value} {ss : Shapes} {fs : Fields}
        → Fits s v
        → FitAll ss fs
        → FitAll (Shapes.field s ss) (Fields.field v fs)

pub Fits-filled_array :
    (bs : List ℕ) {n : ℕ}
    → listed (suc n) ≡ true
    → length bs ≡ suc n
    → Fits (Shape.array (suc n)) (Value.array (suc n) bs)
Fits-filled_array [] l e = absurd (omega arith)
Fits-filled_array (b ∷ bs) l e = fits_array l e

-- Reads back: some bytes are written, and a reader that begins with them gives the value and leaves
-- what follows.
abbrev pub ReadsBack {ℓ} : {A : Type ℓ} → Result (List ℕ) → Reader A → A → List ℕ → Type ℓ
ReadsBack r m a rest = (bs : List ℕ) × (r ≡ ok bs) × (m (bs ++ rest) ≡ (ok a, rest))

mutual
  unfolding marshal_at decode

  Fits-ReadsBack :
      {s : Shape} {v : Value}
      → (n : ℕ) (rest : List ℕ) → Fits s v
      → ReadsBack (marshal_at n v) (decode s) v rest
  Fits-ReadsBack n rest (fits_uint8 {v} h) =
      (le_bytes 1 v, refl, rw (decode_le-le_bytes 1 v rest (omega arith)))
  Fits-ReadsBack n rest (fits_uint16 {v} h) =
      (be_bytes16 v, refl, rw (decode_uint16-be_bytes16 v rest h))
  Fits-ReadsBack n rest (fits_uint32 {v} h) =
      (le_bytes 4 v, refl, rw (decode_le-le_bytes 4 v rest h))
  Fits-ReadsBack n rest (fits_int32 {v} h) =
      (le_bytes 4 v, refl, rw (decode_le-le_bytes 4 v rest h))
  Fits-ReadsBack n rest (fits_uint64 {v} h) =
      (le_bytes 8 v, refl, rw (decode_le-le_bytes 8 v rest h))
  Fits-ReadsBack n rest (fits_int64 {v} h) =
      (le_bytes 8 v, refl, rw (decode_le-le_bytes 8 v rest h))
  Fits-ReadsBack n rest (fits_bool {b}) =
      (bool_byte b ∷ [], refl, rw (decode_bool-bool_byte b rest))
  Fits-ReadsBack n rest (fits_array {n = k} {b} {bs} l e) = (
    b ∷ bs,
    listed_array k (b ∷ bs) l,
    rw (l, decode_array-prefix b bs rest (replicate k 0) e (length-replicate k 0)),
  )
  Fits-ReadsBack n rest (fits_struct f) = let (bs, e, d) = FitAll-ReadsBack rest f in (bs, e, rw d)

  FitAll-ReadsBack :
      {ss : Shapes} {fs : Fields}
      → (rest : List ℕ) → FitAll ss fs
      → ReadsBack (marshal_struct fs) (decode_struct ss) fs rest
  FitAll-ReadsBack rest fit_end = ([], refl, refl)
  FitAll-ReadsBack rest (fit_field f g) =
      let (b2, e2, d2) = FitAll-ReadsBack rest g in
      let (b1, e1, d1) = Fits-ReadsBack 2 (b2 ++ rest) f in
      (b1 ++ b2, rw (e1, e2), rw (append_assoc b1 b2 rest, d1, d2))

-- Every value made of integers in range, bools, non-empty arrays of the listed lengths and nested
-- structs of those is encoded by `Marshal`, and `Decode`, given those bytes and anything
-- behind them, returns the value and leaves what is behind.
pub decode-marshal :
    (s : Shape) (v : Value) (rest : List ℕ) → Fits s v → ReadsBack (marshal v) (decode s) v rest
unfolding marshal
decode-marshal s v rest f = Fits-ReadsBack 1 rest f

pub decode_struct-marshal_struct :
    (ss : Shapes) (fs : Fields) (rest : List ℕ)
    → FitAll ss fs
    → ReadsBack (marshal_struct fs) (decode_struct ss) fs rest
decode_struct-marshal_struct ss fs rest f = FitAll-ReadsBack rest f
