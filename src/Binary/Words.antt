-- ===== src/Binary/Words.antt =====
-- The byte layouts that encoding/binary gives to fixed-width integers, which pkg/binary relies on.
-- A byte is a number below 256, and a signed integer stands for its two's complement pattern.
use neutrino_elements.Prelude.{
  ℕ, zero, suc, ◌+◌, ◌*◌, ◌/◌, ◌%◌, ◌^◌, ◌<◌, ◌≡◌, refl, ap, List, [], ◌∷◌, arith, length,
}
use native.Mathlib.Nat.{pow-suc}

-- `w` bytes, lowest first.
unfoldable pub le_bytes : ℕ → ℕ → List ℕ
le_bytes zero v = []
le_bytes (suc w) v = (v % 256) ∷ le_bytes w (v / 256)

unfoldable pub le_value : List ℕ → ℕ
le_value [] = 0
le_value (b ∷ bs) = b + 256 * le_value bs

-- Two bytes, highest first.
unfoldable pub be_bytes16 : ℕ → List ℕ
be_bytes16 v = (v / 256 % 256) ∷ (v % 256) ∷ []

unfoldable pub be_value : List ℕ → ℕ → ℕ
be_value [] acc = acc
be_value (b ∷ bs) acc = be_value bs (acc * 256 + b)

pub length-le_bytes : (w v : ℕ) → length (le_bytes w v) ≡ w
unfolding le_bytes
length-le_bytes zero v = refl
length-le_bytes (suc w) v = ap suc (length-le_bytes w (v / 256))

pub le_value-le_bytes : (w v : ℕ) → v < 256 ^ w → le_value (le_bytes w v) ≡ v
unfolding le_bytes le_value
le_value-le_bytes zero v h = omega arith
le_value-le_bytes (suc w) v h =
    omega (arith, le_value-le_bytes w (v / 256) (omega (arith, pow-suc 256 w)))

pub be_value-be_bytes16 : (v : ℕ) → v < 65536 → be_value (be_bytes16 v) 0 ≡ v
unfolding be_bytes16 be_value
be_value-be_bytes16 v h = omega arith
