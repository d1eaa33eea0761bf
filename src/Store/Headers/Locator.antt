-- ===== src/Store/Headers/Locator.antt =====
-- The block locator of the in-memory store: its hashes and its loop.
use neutrino_elements.Prelude.{
  ℕ, zero, suc, ◌+◌, ◌-◌, ◌^◌, ◌≤◌, ◌<◌, ◌≡◌, ◌≢◌, refl, ap, sym, ◌∙◌, ◌⊎◌, inl, inr, true, false,
  List, [], ◌∷◌, ◌++◌, append-nil, append_assoc, length, length-append, some, ok, err, Error, arith,
  ltb→lt, ◌==◌, Bool-cases, Option-cases, Result-cases,
}
use neutrino_elements.Ledger.{Header}
use neutrino_elements.Store.Headers.{
  Headers, get_block_hash_by_height, get_block_header_by_height, next_decrement, next_height,
  goes_on, locator_loop, block_locator_from_hash,
}

-- Hashes of stored headers, at positive heights up to `n` that fall strictly.
pub data Visits (m : Headers) : ℕ → List ℕ → Type 0 where
  done : {n : ℕ} → Visits m n []
  visit :
      {n : ℕ} {ks : List ℕ} (height below k : ℕ)
      → suc below ≡ height
      → height ≤ n
      → get_block_hash_by_height height m ≡ ok k
      → Visits m below ks
      → Visits m n (k ∷ ks)

Visits-mono : {m : Headers} {i j : ℕ} {ks : List ℕ} → i ≤ j → Visits m i ks → Visits m j ks
Visits-mono h done = done
Visits-mono h (visit height below k e l r v) = visit height below k e (omega arith) r v

header-ne-stuck : (height : ℕ) (m : Headers) → get_block_header_by_height height m ≢ err Error.stuck
unfolding get_block_header_by_height
header-ne-stuck height [] = λ e. cc
header-ne-stuck height ((k, h) ∷ m) = ground (arith, header-ne-stuck height m)

hash-ne-stuck : (height : ℕ) (m : Headers) → get_block_hash_by_height height m ≢ err Error.stuck
unfolding get_block_hash_by_height
hash-ne-stuck height m = elim (Result-cases (get_block_header_by_height height m)) [
  | inl (h, e) ↦ ground arith
  | inr (x, e) ↦ λ q. header-ne-stuck height m (e ∙ ground arith)
]

-- While blocks are left the decrement is positive, and with the height it stays within a uint32; so
-- doubling it wraps only where the height has come to 0.
abbrev Steady : ℕ → ℕ → Type 0
Steady height decrement = (height ≡ 0) ⊎ ((0 < decrement) × (height + decrement ≤ 2 ^ 32))

Steady-next :
    (height decrement count : ℕ)
    → 0 < height
    → Steady height decrement
    → Steady (next_height height decrement) (next_decrement count decrement)
      × (suc (next_height height decrement) ≤ height)
unfolding next_decrement next_height
Steady-next height decrement count p s = ground arith

module _ (max_locators : ℕ) where
  locator_loop_stop :
      (fuel : ℕ) (m : Headers) (height decrement : ℕ) (locator : List ℕ)
      → goes_on max_locators height locator ≡ false
      → locator_loop max_locators fuel m height decrement locator ≡ ok locator
  unfolding locator_loop
  locator_loop_stop zero m height decrement locator e = rw e
  locator_loop_stop (suc fuel) m height decrement locator e = rw e

  locator_loop_step :
      (fuel : ℕ) (m : Headers) (height decrement : ℕ) (locator : List ℕ) (k : ℕ)
      → goes_on max_locators height locator ≡ true
      → get_block_hash_by_height height m ≡ ok k
      → locator_loop max_locators (suc fuel) m height decrement locator
        ≡ locator_loop max_locators fuel m
            (next_height height decrement)
            (next_decrement (length (locator ++ (k ∷ []))) decrement)
            (locator ++ (k ∷ []))
  unfolding locator_loop
  locator_loop_step fuel m height decrement locator k e g = rw (e, g)

  locator_loop_fail :
      (fuel : ℕ) (m : Headers) (height decrement : ℕ) (locator : List ℕ) (x : Error)
      → goes_on max_locators height locator ≡ true
      → get_block_hash_by_height height m ≡ err x
      → locator_loop max_locators (suc fuel) m height decrement locator ≡ err x
  unfolding locator_loop
  locator_loop_fail fuel m height decrement locator x e g = rw (e, g)

  -- What the loop adds to a locator.
  abbrev Adds : Headers → ℕ → List ℕ → List ℕ → Type 0
  Adds m height locator l =
      (ks : List ℕ) × (l ≡ locator ++ ks)
      × Visits m height ks
      × ((length l ≤ max_locators) ⊎ (ks ≡ []))

  nothing_added :
      (m : Headers) (height : ℕ) (locator l : List ℕ) → l ≡ locator → Adds m height locator l
  nothing_added m height locator l e = ([], e ∙ sym (append-nil locator), done, inr refl)

  add_first :
      (m : Headers) (height decrement k : ℕ) (locator l : List ℕ)
      → goes_on max_locators height locator ≡ true
      → get_block_hash_by_height height m ≡ ok k
      → suc (next_height height decrement) ≤ height
      → Adds m (next_height height decrement) (locator ++ (k ∷ [])) l
      → Adds m height locator l
  add_first m height decrement k locator l e g d (ks, q, v, b) = (
    k ∷ ks,
    q ∙ append_assoc locator (k ∷ []) ks,
    visit height (height - 1) k (ground arith) (omega arith) g (Visits-mono (omega arith) v),
    inl (elim b [ inl c ↦ c | inr c ↦ fits c ]),
  )
    where
      fits : ks ≡ [] → length l ≤ max_locators
      fits c =
          let h : length l ≡ length ((locator ++ (k ∷ [])) ++ []) = rw (q, c) in
          omega (
            arith,
            h,
            ap length (append-nil (locator ++ (k ∷ []))),
            length-append locator (k ∷ []),
            ltb→lt (length locator) max_locators (ground arith),
          )

  locator_loop-Adds :
      (fuel : ℕ) (m : Headers) (height decrement : ℕ) (locator l : List ℕ)
      → Steady height decrement
      → locator_loop max_locators fuel m height decrement locator ≡ ok l
      → Adds m height locator l
  locator_loop-Adds zero m height decrement locator l s e =
      nothing_added m height locator l (unfold locator_loop in ground arith)
  locator_loop-Adds (suc fuel) m height decrement locator l s e =
      elim (Bool-cases (goes_on max_locators height locator)) [
        | inr over ↦
            nothing_added m height locator l
              (cc (locator_loop_stop (suc fuel) m height decrement locator over))
        | inl more ↦ elim (Result-cases (get_block_hash_by_height height m)) [
          | inr (x, g) ↦ absurd (cc (locator_loop_fail fuel m height decrement locator x more g))
          | inl (k, g) ↦
              let next =
                Steady-next height decrement (length (locator ++ (k ∷ []))) (ground arith) s in
              add_first m height decrement k locator l more g next.1 (
                locator_loop-Adds fuel m (next_height height decrement)
                  (next_decrement (length (locator ++ (k ∷ []))) decrement) (locator ++ (k ∷ [])) l
                  next.0 (cc (locator_loop_step fuel m height decrement locator k more g)))
        ]
      ]

  locator_loop-ne-stuck :
      (fuel : ℕ) (m : Headers) (height decrement : ℕ) (locator : List ℕ)
      → max_locators ≤ fuel + length locator
      → locator_loop max_locators fuel m height decrement locator ≢ err Error.stuck
  locator_loop-ne-stuck zero m height decrement locator h = unfold locator_loop in ground arith
  locator_loop-ne-stuck (suc fuel) m height decrement locator h =
      elim (Bool-cases (goes_on max_locators height locator)) [
        | inr over ↦ rw (locator_loop_stop (suc fuel) m height decrement locator over) (λ e. cc)
        | inl more ↦ elim (Result-cases (get_block_hash_by_height height m)) [
          | inr (x, g) ↦
              rw (locator_loop_fail fuel m height decrement locator x more g)
                (λ e. hash-ne-stuck height m (let q : x ≡ Error.stuck = cc in g ∙ ap err q))
          | inl (k, g) ↦ rw (locator_loop_step fuel m height decrement locator k more g) (
              locator_loop-ne-stuck fuel m _ _ (locator ++ (k ∷ []))
                (omega (arith, length-append locator (k ∷ []))))
        ]
      ]

  -- The locator of a header begins with the header's hash and goes on with the hashes of stored
  -- headers, the first no higher than the header itself, at heights that fall strictly and never reach
  -- 0. It has no more hashes than a message may carry, where that is one at least.
  pub block_locator-Visits :
      (b : Header) (m : Headers) (l : List ℕ)
      → 0 < max_locators
      → b.height < 2 ^ 32
      → block_locator_from_hash max_locators b m ≡ ok l
      → (k : ℕ) × (ks : List ℕ) × (b.hash ≡ some k)
        × (l ≡ k ∷ ks)
        × Visits m b.height ks
        × (length l ≤ max_locators)
  unfolding block_locator_from_hash
  block_locator-Visits b m l p h e = elim (Option-cases b.hash) [
    | inl n ↦ absurd (ground arith)
    | inr (k, n) ↦ elim (Bool-cases (b.height == 0)) [
      | inl z ↦ (k, [], n, ground arith, done, ground arith)
      | inr z ↦ walked k n (
          locator_loop-Adds max_locators m b.height 1 (k ∷ []) l (inr (omega arith, omega arith))
            (ground arith))
    ]
  ]
    where
      walked :
          (k : ℕ)
          → b.hash ≡ some k
          → Adds m b.height (k ∷ []) l
          → (k : ℕ) × (ks : List ℕ) × (b.hash ≡ some k)
            × (l ≡ k ∷ ks)
            × Visits m b.height ks
            × (length l ≤ max_locators)
      walked k n (ks, q, v, inl c) = (k, ks, n, q, v, c)
      walked k n (ks, q, v, inr c) = (k, ks, n, q, v, omega (arith, ap length q, ap length c))

  -- The loop always ends within `max_locators` rounds.
  pub block_locator-ne-stuck :
      (b : Header) (m : Headers) → block_locator_from_hash max_locators b m ≢ err Error.stuck
  unfolding block_locator_from_hash
  block_locator-ne-stuck b m = elim (Option-cases b.hash) [
    | inl n ↦ ground arith
    | inr (k, n) ↦ ground (arith, locator_loop-ne-stuck max_locators m b.height 1 (k ∷ []))
  ]
