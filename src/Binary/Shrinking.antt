-- ===== src/Binary/Shrinking.antt =====
-- What the readers of pkg/binary leave of a connection, for the loops over it.
use neutrino_elements.Prelude.{
  ℕ, ◌≤◌, List, [], ◌∷◌, ◌++◌, take, drop, length, length-append, length-take, length-drop, Result,
  ok, err, Error, arith, not, ◌==◌, Bool-cases, replicate, inl, inr,
}
use neutrino_elements.Binary.Reader.{
  Reader, pure, fail, lift, then_read, ◌>>=◌, read, read_full, limit,
}
use neutrino_elements.Binary.Words.{le_value, be_value}
use neutrino_elements.Binary.Unmarshaler.{
  decode_le, decode_uint8, decode_uint16, decode_uint32, decode_int32, decode_uint64, decode_int64,
  decode_uint16_for_varint, decode_bool, decode_array, read_until_eof, decode_bytes,
}

abbrev pub Shrinks {ℓ} : {A : Type ℓ} → Reader A → Type 0
Shrinks m = (bs : List ℕ) → length (m bs).1 ≤ length bs

pub pure-Shrinks {ℓ} : {A : Type ℓ} (a : A) → Shrinks (pure a)
pure-Shrinks a bs = omega arith

pub lift-Shrinks {ℓ} : {A : Type ℓ} (r : Result A) → Shrinks (lift r)
lift-Shrinks r bs = omega arith

pub fail-Shrinks {ℓ} : (A : Type ℓ) (e : Error) → Shrinks {A = A} (fail e)
fail-Shrinks A e bs = omega arith

-- A bind, as `do` writes it.
pub then_read_le {ℓ κ} :
    {A : Type ℓ} {B : Type κ} (p : Result A × List ℕ) (f : A → Reader B) {n : ℕ}
    → length p.1 ≤ n
    → ((a : A) → Shrinks (f a))
    → length (then_read p f).1 ≤ n
then_read_le (ok a, bs) f l s = omega (arith, s a bs)
then_read_le (err e, bs) f l s = l

pub bind-Shrinks {ℓ κ} :
    {A : Type ℓ} {B : Type κ} (m : Reader A) (f : A → Reader B)
    → Shrinks m
    → ((a : A) → Shrinks (f a))
    → Shrinks (m >>= f)
bind-Shrinks m f s t bs = then_read_le (m bs) f (s bs) t

pub limit-Shrinks {ℓ} : {A : Type ℓ} (n : ℕ) (m : Reader A) → Shrinks m → Shrinks (limit n m)
unfolding limit
limit-Shrinks n m s bs = omega (
  arith,
  s (take n bs),
  length-append (m (take n bs)).1 (drop n bs),
  length-take n bs,
  length-drop n bs,
)

pub read-Shrinks : (n : ℕ) → Shrinks (read n)
unfolding read
read-Shrinks n [] = omega arith
read-Shrinks n (b ∷ bs) = omega (arith, length-drop n (b ∷ bs))

pub read_full-Shrinks : (n : ℕ) → Shrinks (read_full n)
unfolding read_full
read_full-Shrinks n bs = ground (arith, length-drop n bs)

pub decode_le-Shrinks : (w : ℕ) → Shrinks (decode_le w)
unfolding decode_le
decode_le-Shrinks w =
    bind-Shrinks (limit w (read_full w)) (λ bs. pure (le_value bs))
      (limit-Shrinks w (read_full w) (read_full-Shrinks w)) (λ bs rest. omega arith)

pub decode_uint8-Shrinks : Shrinks decode_uint8
unfolding decode_uint8
decode_uint8-Shrinks = decode_le-Shrinks 1

pub decode_uint32-Shrinks : Shrinks decode_uint32
unfolding decode_uint32
decode_uint32-Shrinks = decode_le-Shrinks 4

pub decode_int32-Shrinks : Shrinks decode_int32
unfolding decode_int32
decode_int32-Shrinks = decode_le-Shrinks 4

pub decode_uint64-Shrinks : Shrinks decode_uint64
unfolding decode_uint64
decode_uint64-Shrinks = decode_le-Shrinks 8

pub decode_int64-Shrinks : Shrinks decode_int64
unfolding decode_int64
decode_int64-Shrinks = decode_le-Shrinks 8

pub decode_uint16_for_varint-Shrinks : Shrinks decode_uint16_for_varint
unfolding decode_uint16_for_varint
decode_uint16_for_varint-Shrinks = limit-Shrinks 2 (decode_le 2) (decode_le-Shrinks 2)

pub decode_uint16-Shrinks : Shrinks decode_uint16
unfolding decode_uint16
decode_uint16-Shrinks =
    bind-Shrinks (limit 2 (read_full 2)) (λ bs. pure (be_value bs 0))
      (limit-Shrinks 2 (read_full 2) (read_full-Shrinks 2)) (λ bs rest. omega arith)

pub decode_bool-Shrinks : Shrinks decode_bool
unfolding decode_bool
decode_bool-Shrinks =
    bind-Shrinks (decode_le 1) (λ b. pure (not (b == 0))) (decode_le-Shrinks 1)
      (λ b rest. omega arith)

pub decode_array-Shrinks : (n : ℕ) (old : List ℕ) → Shrinks (decode_array n old)
unfolding decode_array
decode_array-Shrinks n old =
    bind-Shrinks (limit n (read (length old))) (λ bs. pure (bs ++ drop (length bs) old))
      (limit-Shrinks n (read (length old)) (read-Shrinks (length old))) (λ bs rest. omega arith)

pub read_until_eof-Shrinks : Shrinks read_until_eof
unfolding read_until_eof
read_until_eof-Shrinks [] = omega arith
read_until_eof-Shrinks (b ∷ bs) =
    then_read_le (read_until_eof bs) (λ more. pure (b ∷ more))
      (omega (arith, read_until_eof-Shrinks bs)) (λ more rest. omega arith)

pub decode_bytes-Shrinks : (n : ℕ) → Shrinks (decode_bytes n)
unfolding decode_bytes
decode_bytes-Shrinks n bs = elim (Bool-cases (n == 0)) [
  | inl e ↦ rw e (omega arith)
  | inr e ↦ elim (Bool-cases (n == 1)) [
    | inl f ↦
        rw (e, f)
          (bind-Shrinks decode_uint8 (λ b. pure (b ∷ [])) decode_uint8-Shrinks
            (λ b rest. omega arith) bs)
    | inr f ↦ rw (e, f) (decode_array-Shrinks n (replicate n 0) bs)
  ]
]
