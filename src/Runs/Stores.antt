-- ===== src/Runs/Stores.antt =====
-- Runs of the in-memory stores.
use neutrino_elements.Prelude.{
  ℕ, ◌≤◌, ◌≡◌, refl, List, [], ◌∷◌, none, some, arith, length, lookup, some_of, last_or,
  if◌then◌else◌,
}
use neutrino_elements.Ledger.{Header}
use neutrino_elements.Store.Interface.{FilterEntry}
use neutrino_elements.Store.Headers.{
  Headers, write_headers, block_locator_from_hash, has_all_ancestors, get_block_hash_by_height,
  get_block_header_by_height, next_height, next_decrement,
}
use neutrino_elements.Store.Headers.Tip.{has_hash, lookup-write_headers}
use neutrino_elements.Store.Headers.Locator.{Visits, block_locator-Visits}
use neutrino_elements.Store.Headers.Ancestors.{Chain, has_all_ancestors-Chain}

abbrev first : Header
first = record { height = 1; prev = none; hash = some 101 }

abbrev second : Header
second = record { height = 2; prev = some 101; hash = some 102 }

abbrev stored : Headers
stored = (101, first) ∷ (102, second) ∷ []

lookup-write_headers_example : lookup 101 (write_headers (first ∷ second ∷ []) []).1 ≡ (
    if some_of (has_hash 101) (first ∷ second ∷ [])
    then some (last_or first (second ∷ []))
    else lookup {V = Header} 101 [])
lookup-write_headers_example = lookup-write_headers first (second ∷ []) [] 101

block_locator-Visits_example :
    (k : ℕ) × (ks : List ℕ) × (second.hash ≡ some k)
    × ((102 ∷ 102 ∷ 101 ∷ []) ≡ k ∷ ks)
    × Visits stored second.height ks
    × (length {A = ℕ} (102 ∷ 102 ∷ 101 ∷ []) ≤ 10)
unfolding get_block_hash_by_height get_block_header_by_height next_height next_decrement
block_locator-Visits_example =
    block_locator-Visits 10 second stored (102 ∷ 102 ∷ 101 ∷ []) (omega arith) (omega arith)
      (unfold block_locator_from_hash in refl)

has_all_ancestors-Chain_example : (h : Header) × (lookup 102 stored ≡ some h) × Chain stored h
has_all_ancestors-Chain_example =
    has_all_ancestors-Chain 5 102 stored (unfold has_all_ancestors lookup in refl)

abbrev entry : FilterEntry
entry = record { key = record { block_hash = 101; filter_type = 0 }; n_bytes = 1 ∷ [] }
