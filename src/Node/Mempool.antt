-- ===== src/Node/Mempool.antt =====
-- pkg/node/mempool.go. The map of transactions is an association list by transaction id; a
-- notification is one event for each subscriber.
pub mod Confirmed
use neutrino_elements.Prelude.{
  ℕ, Bool, true, false, List, [], ◌∷◌, ◌++◌, map, Option, none, some, Result, ok, err, Error, ◌==◌,
  lookup, insert, delete, if◌then◌else◌,
}
use neutrino_elements.Ledger.{Transaction, Block}

pub data TxEvent : Type 0 where
  tx_unconfirmed : ℕ → Transaction → TxEvent
  tx_confirmed : ℕ → Transaction → TxEvent

pub record MemPool : Type 0 where
  pub txs : List (ℕ × Transaction)
  pub tx_subscribers : List ℕ

-- The copy that `GetMemPool` makes.
unfoldable pub get_mem_pool :
    List (ℕ × Transaction) → List (ℕ × Transaction) → List (ℕ × Transaction)
get_mem_pool [] tx_map = tx_map
get_mem_pool ((k, v) ∷ txs) tx_map = get_mem_pool txs (insert k v tx_map)

abbrev pub add_subscriber : ℕ → MemPool → MemPool
add_subscriber id m = record { txs = m.txs; tx_subscribers = m.tx_subscribers ++ (id ∷ []) }

-- A transaction that is known is not written again.
unfoldable pub add_tx : ℕ → Transaction → List (ℕ × Transaction) → List (ℕ × Transaction)
add_tx tx_id tx txs = elim (lookup tx_id txs) [ none ↦ insert tx_id tx txs | some old ↦ txs ]

unfoldable pub remove_tx_from_mem_pool :
    ℕ → List (ℕ × Transaction) → Result (Unit {0}) × List (ℕ × Transaction)
remove_tx_from_mem_pool tx_id txs = elim (lookup tx_id txs) [
  | none ↦ (err Error.no_match, txs)
  | some v ↦ (ok tt, delete tx_id txs)
]

abbrev pub notify_subscribers : TxEvent → List ℕ → List (ℕ × TxEvent)
notify_subscribers event subscribers = map (λ id. (id, event)) subscribers

-- A round of `listenForNewTxs`.
unfoldable pub listen : Transaction → MemPool → MemPool × List (ℕ × TxEvent)
unfolding add_tx
listen tx m = (
  record { txs = add_tx tx.tx_id tx m.txs; tx_subscribers = m.tx_subscribers },
  notify_subscribers (TxEvent.tx_unconfirmed tx.tx_id tx) m.tx_subscribers,
)

-- The inner loop of `checkTxConfirmed`, for one transaction of the pool.
unfoldable pub confirm_one :
    Transaction → List Transaction → List (ℕ × Transaction) → List (ℕ × Transaction) × List TxEvent
unfolding remove_tx_from_mem_pool
confirm_one v [] txs = (txs, [])
confirm_one v (tx ∷ block) txs =
    if tx.tx_id == v.tx_id
    then (let (txs', events) = confirm_one v block (remove_tx_from_mem_pool v.tx_id txs).1 in
        (txs', TxEvent.tx_confirmed tx.tx_id tx ∷ events))
    else confirm_one v block txs

-- The outer loop, over the entries that the map had when the loop began: only the entry at hand is
-- deleted meanwhile.
unfoldable pub confirm_all :
    List (ℕ × Transaction)
    → List Transaction
    → List (ℕ × Transaction)
    → List (ℕ × Transaction) × List TxEvent
unfolding confirm_one
confirm_all [] block txs = (txs, [])
confirm_all ((k, v) ∷ entries) block txs =
    let (txs', events) = confirm_one v block txs in
    let (txs'', later) = confirm_all entries block txs' in (txs'', events ++ later)

unfoldable pub check_tx_confirmed :
    Block → List (ℕ × Transaction) → List (ℕ × Transaction) × List TxEvent
unfolding confirm_all
check_tx_confirmed block txs = confirm_all txs block.transactions txs
