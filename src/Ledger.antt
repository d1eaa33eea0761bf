-- ===== src/Ledger.antt =====
-- Blocks, headers and transactions, which are types of go-elements: a value holds what the program
-- reads of it, the results of the library's methods included.
use neutrino_elements.Prelude.{ℕ, List, Option}
use neutrino_elements.Binary.Words.{le_bytes, le_value}

-- A chainhash.Hash is the number that its 32 bytes stand for.
abbrev pub hash_bytes : ℕ → List ℕ
hash_bytes h = le_bytes 32 h

abbrev pub hash_of_bytes : List ℕ → ℕ
hash_of_bytes bs = le_value bs

-- `hash` is what the method `Hash` returns, and `prev` what chainhash.NewHash makes of
-- PrevBlockHash; `none` stands for an error.
pub record Header : Type 0 where
  pub height : ℕ
  pub prev : Option ℕ
  pub hash : Option ℕ

-- `hash` is what chainhash.NewHash makes of the input's Hash.
pub record TxInput : Type 0 where
  pub hash : Option ℕ
  pub index : ℕ

-- `tx_id` is the TxHash, and `outputs` are the scripts of the outputs.
pub record Transaction : Type 0 where
  pub tx_id : ℕ
  pub inputs : List TxInput
  pub outputs : List (List ℕ)

pub record Block : Type 0 where
  pub header : Header
  pub transactions : List Transaction
