-- ===== src/Node/Mempool/Confirmed.antt =====
-- The mempool and a block that is confirmed.
use neutrino_elements.Prelude.{
  ℕ, ◌≡◌, refl, sym, subst, ◌∙◌, inl, inr, Bool, true, false, List, [], ◌∷◌, All, none, some, arith,
  ◌==◌, lookup, insert, lookup-insert, lookup-delete, some_of, Bool-cases, Option-cases,
  if◌then◌else◌,
}
use neutrino_elements.Ledger.{Transaction, Block}
use neutrino_elements.Node.Mempool.{
  add_tx, remove_tx_from_mem_pool, confirm_one, confirm_all, check_tx_confirmed,
}

-- Whether the block has a transaction of the id.
abbrev pub has_tx : ℕ → List Transaction → Bool
has_tx j block = some_of (λ tx. tx.tx_id == j) block

-- Each entry stands under its transaction's id.
abbrev pub IsKeyed : List (ℕ × Transaction) → Type 0
IsKeyed txs = All (λ e. e.1.tx_id ≡ e.0) txs

insert-IsKeyed :
    (tx : Transaction) (txs : List (ℕ × Transaction))
    → IsKeyed txs
    → IsKeyed (insert tx.tx_id tx txs)
unfolding insert
insert-IsKeyed tx [] w = (refl, tt)
insert-IsKeyed tx ((k, v) ∷ txs) (e, w) = elim (Bool-cases (k == tx.tx_id)) [
  | inl q ↦ rw q (refl, w)
  | inr q ↦ rw q (e, insert-IsKeyed tx txs w)
]

-- In a pool that holds each transaction under its id, adding one keeps this so, adds it if its id is
-- free, and changes no entry that is there.
pub add_tx_lem :
    (j : ℕ) (tx : Transaction) (txs : List (ℕ × Transaction))
    → IsKeyed txs
    → IsKeyed (add_tx tx.tx_id tx txs)
      × (lookup j (add_tx tx.tx_id tx txs) ≡ elim (lookup j txs) [
        | some old ↦ some old
        | none ↦ if tx.tx_id == j then some tx else none
      ])
unfolding add_tx
add_tx_lem j tx txs w = elim (Option-cases (lookup tx.tx_id txs)) [
  | inl e ↦
      rw (add_tx, e) (insert-IsKeyed tx txs w, ground (arith, lookup-insert j tx.tx_id tx txs))
  | inr (old, e) ↦ rw (add_tx, e) (w, ground arith)
]

remove_lem :
    (j k : ℕ) (txs : List (ℕ × Transaction))
    → lookup j (remove_tx_from_mem_pool k txs).1 ≡ (if k == j then none else lookup j txs)
unfolding remove_tx_from_mem_pool
remove_lem j k txs = elim (Option-cases (lookup k txs)) [
  | inl e ↦ rw (remove_tx_from_mem_pool, e) (ground arith)
  | inr (v, e) ↦ rw (remove_tx_from_mem_pool, e) (lookup-delete j k txs)
]

confirm_one_lem :
    (j : ℕ) (v : Transaction) (block : List Transaction) (txs : List (ℕ × Transaction))
    → lookup j (confirm_one v block txs).0 ≡ (
        if has_tx v.tx_id block
        then (if v.tx_id == j then none else lookup j txs)
        else lookup j txs)
unfolding confirm_one
confirm_one_lem j v [] txs = refl
confirm_one_lem j v (tx ∷ block) txs = elim (Bool-cases (tx.tx_id == v.tx_id)) [
  | inr e ↦ rw e (confirm_one_lem j v block txs)
  | inl e ↦ rw e (
      ground (
        arith,
        confirm_one_lem j v block (remove_tx_from_mem_pool v.tx_id txs).1,
        remove_lem j v.tx_id txs,
      ))
]

-- Whether an entry of the list is of the id and in the block.
abbrev taken : ℕ → List Transaction → List (ℕ × Transaction) → Bool
taken j block entries =
    some_of (λ e. if e.1.tx_id == j then has_tx e.1.tx_id block else false) entries

confirm_all_lem :
    (j : ℕ) (entries : List (ℕ × Transaction)) (block : List Transaction)
    (txs : List (ℕ × Transaction))
    → lookup j (confirm_all entries block txs).0
      ≡ (if taken j block entries then none else lookup j txs)
unfolding confirm_all
confirm_all_lem j [] block txs = refl
confirm_all_lem j ((k, v) ∷ entries) block txs = ground (
  arith,
  confirm_all_lem j entries block (confirm_one v block txs).0,
  confirm_one_lem j v block txs,
)

not_taken :
    (j : ℕ) (block : List Transaction) (txs : List (ℕ × Transaction))
    → has_tx j block ≡ false
    → taken j block txs ≡ false
not_taken j block [] h = refl
not_taken j block ((k, v) ∷ txs) h = elim (Bool-cases (v.tx_id == j)) [
  | inr e ↦ rw e (not_taken j block txs h)
  | inl e ↦
      let p : v.tx_id ≡ j = ground arith in
      let q : has_tx v.tx_id block ≡ false = subst (λ i. has_tx i block ≡ false) (sym p) h in
      rw (e, q) (not_taken j block txs h)
]

taken_or_absent :
    (j : ℕ) (block : List Transaction) (txs : List (ℕ × Transaction))
    → IsKeyed txs
    → (if taken j block txs then none else lookup j txs)
      ≡ (if has_tx j block then none else lookup j txs)
unfolding lookup
taken_or_absent j block txs w = elim (Bool-cases (has_tx j block)) [
  | inr h ↦ rw (h, not_taken j block txs h) refl
  | inl h ↦ rw h (gone h txs w)
]
  where
    gone :
        has_tx j block ≡ true
        → (txs : List (ℕ × Transaction)) → IsKeyed txs
        → (if taken j block txs then none else lookup j txs) ≡ none
    gone h [] w = ground arith
    gone h ((k, v) ∷ txs) (e, w) = elim (Bool-cases (v.tx_id == j)) [
      | inr f ↦ let g : (k == j) ≡ false = ground arith in rw (f, g) (gone h txs w)
      | inl f ↦
          let p : v.tx_id ≡ j = ground arith in
          let q : has_tx v.tx_id block ≡ true = subst (λ i. has_tx i block ≡ true) (sym p) h in
          rw (f, q) refl
    ]

-- In a pool that holds each transaction under its id: once a block is confirmed, the pool has none
-- of the block's transactions, and every other entry as before.
pub check_tx_confirmed_lem :
    (j : ℕ) (block : Block) (txs : List (ℕ × Transaction))
    → IsKeyed txs
    → lookup j (check_tx_confirmed block txs).0
      ≡ (if has_tx j block.transactions then none else lookup j txs)
unfolding check_tx_confirmed
check_tx_confirmed_lem j block txs w =
    confirm_all_lem j txs block.transactions txs ∙ taken_or_absent j block.transactions txs w
