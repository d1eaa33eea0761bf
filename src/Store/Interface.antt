-- ===== src/Store/Interface.antt =====
-- pkg/repository: the interfaces BlockHeaderRepository and FilterRepository, over the state `S` of a
-- store. Contexts are left out.
use neutrino_elements.Prelude.{ℕ, List, Bool, Result}
use neutrino_elements.Ledger.{Header}

pub record BlockHeaderRepository (S : Type 0) : Type 0 where
  pub chain_tip : S → Result Header
  pub get_block_header : ℕ → S → Result Header
  pub get_block_hash_by_height : ℕ → S → Result ℕ
  pub write_headers : List Header → S → Result (Unit {0}) × S
  pub latest_block_locator : S → Result (List ℕ)
  pub has_all_ancestors : ℕ → S → Result Bool

pub record FilterKey : Type 0 where
  pub block_hash : ℕ
  pub filter_type : ℕ

pub record FilterEntry : Type 0 where
  pub key : FilterKey
  pub n_bytes : List ℕ

pub record FilterRepository (S : Type 0) : Type 0 where
  pub put_filter : FilterEntry → S → Result (Unit {0}) × S
  pub get_filter : FilterKey → S → Result FilterEntry
