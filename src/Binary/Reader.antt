-- ===== src/Binary/Reader.antt =====
-- io.Reader as pkg/binary and pkg/protocol use it: a reader is the bytes that it still holds, and
-- each read returns what was read and the reader after it, also where it fails. `read` gives as many
-- bytes as asked for if there are so many, as a bytes.Reader does; a connection may give fewer, as
-- `conn_read` does.
use neutrino_elements.Prelude.{
  ℕ, ◌+◌, ◌≤◌, ◌≡◌, List, [], ◌∷◌, ◌++◌, append-nil, take, drop, length, length-append, take-append,
  drop-append, Result, ok, err, Error, leb, ltb, arith, if◌then◌else◌, Bool-cases, inl, inr, refl,
}

abbrev pub Reader {ℓ} : Type ℓ → Type ℓ
Reader A = List ℕ → Result A × List ℕ

abbrev pub pure {ℓ} : {A : Type ℓ} → A → Reader A
pure a bs = (ok a, bs)

abbrev pub fail {ℓ} : {A : Type ℓ} → Error → Reader A
fail e bs = (err e, bs)

abbrev pub lift {ℓ} : {A : Type ℓ} → Result A → Reader A
lift r bs = (r, bs)

abbrev pub then_read {ℓ κ} :
    {A : Type ℓ} {B : Type κ} → Result A × List ℕ → (A → Reader B) → Result B × List ℕ
then_read (ok a, bs) f = f a bs
then_read (err e, bs) f = (err e, bs)

infixl 5 ◌>>=◌ ◌>>◌
abbrev pub ◌>>=◌ {ℓ κ} : {A : Type ℓ} {B : Type κ} → Reader A → (A → Reader B) → Reader B
◌>>=◌ m f bs = then_read (m bs) f

abbrev pub ◌>>◌ {κ} : {B : Type κ} → Reader (Unit {0}) → Reader B → Reader B
m >> k = m >>= λ _. k

-- One call of `Read` with a buffer of `n` bytes.
unfoldable pub read : ℕ → Reader (List ℕ)
read n [] = (err Error.eof, [])
read n (b ∷ bs) = (ok (take n (b ∷ bs)), drop n (b ∷ bs))

-- One call of a connection's `Read`, when `more` bytes have come beside the first: it waits for one
-- byte, and then gives those that are there, up to `n`.
unfoldable pub conn_read : ℕ → ℕ → Reader (List ℕ)
unfolding read
conn_read more n bs = read (if ltb more n then more + 1 else n) bs

-- io.ReadFull, by which binary.Read fills its buffer.
unfoldable pub read_full : ℕ → Reader (List ℕ)
read_full n bs =
    if leb n (length bs)
    then (ok (take n bs), drop n bs)
    else if leb (length bs) 0
    then (err Error.eof, [])
    else (err Error.unexpected_eof, [])

-- io.LimitReader: what `m` leaves of the first `n` bytes stays in the reader.
unfoldable pub limit {ℓ} : {A : Type ℓ} → ℕ → Reader A → Reader A
limit n m bs = let (r, rest) = m (take n bs) in (r, rest ++ drop n bs)

module _ (xs rest : List ℕ) {n : ℕ} (e : length xs ≡ n) where
  pub take-prefix : take n (xs ++ rest) ≡ xs
  take-prefix = rw (← e) (take-append xs rest)

  pub drop-prefix : drop n (xs ++ rest) ≡ rest
  drop-prefix = rw (← e) (drop-append xs rest)

  pub read_full-prefix : read_full n (xs ++ rest) ≡ (ok xs, rest)
  unfolding read_full
  read_full-prefix = ground (arith, take-prefix, drop-prefix, length-append xs rest)

pub read-prefix :
    (x : ℕ) (xs rest : List ℕ) {n : ℕ}
    → length (x ∷ xs) ≡ n
    → read n (x ∷ (xs ++ rest)) ≡ (ok (x ∷ xs), rest)
unfolding read
read-prefix x xs rest e = ground (arith, take-prefix (x ∷ xs) rest e, drop-prefix (x ∷ xs) rest e)

-- Where all that is asked for has come, a connection gives what a bytes.Reader does.
pub conn_read-read : (more n : ℕ) (bs : List ℕ) → n ≤ more + 1 → conn_read more n bs ≡ read n bs
unfolding conn_read
conn_read-read more n bs l = elim (Bool-cases (ltb more n)) [
  | inr e ↦ rw (conn_read, e) refl
  | inl e ↦ let f : more + 1 ≡ n = ground arith in rw (conn_read, e, f) refl
]

-- A reader that takes exactly the first `n` bytes gives the same under a limit of `n`.
pub limit-prefix {ℓ} :
    {A : Type ℓ} (m : Reader A) (xs rest : List ℕ) {n : ℕ} {r : Result A}
    → length xs ≡ n
    → m xs ≡ (r, [])
    → limit n m (xs ++ rest) ≡ (r, rest)
unfolding limit
limit-prefix m xs rest e h = ground (arith, take-prefix xs rest e, drop-prefix xs rest e)

pub limit-read_full :
    (xs rest : List ℕ) {n : ℕ} → length xs ≡ n → limit n (read_full n) (xs ++ rest) ≡ (ok xs, rest)
limit-read_full xs rest {n} e =
    limit-prefix (read_full n) xs rest e (rw (append-nil xs) at (read_full-prefix xs [] e))
