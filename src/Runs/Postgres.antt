-- ===== src/Runs/Postgres.antt =====
-- Runs of the stores in the database.
use neutrino_elements.Prelude.{
  ℕ, ◌≡◌, refl, ◌⊎◌, List, [], ◌∷◌, ◌++◌, none, some, Result, ok, err, Error,
}
use neutrino_elements.Ledger.{Header}
use neutrino_elements.Store.Interface.{FilterEntry}
use neutrino_elements.Store.Headers as Memory
use neutrino_elements.Store.Postgres.Headers.{
  BlockHeader, Rows, conflicts, chain_tip, get_block_header, get_block_header_by_height, row_of,
  write_headers,
}
use neutrino_elements.Store.Postgres.Headers.Transactions.{IsUnique, AreRows, write_headers_atomic}
use neutrino_elements.Store.Postgres.Headers.Agreement.{
  Agrees, row, empty, missing, Agrees-queries, Agrees-write_headers,
}

abbrev header_at : ℕ → Header
header_at n = record { height = n; prev = none; hash = some n }

-- A header is serialized as its height.
abbrev serialized : Header → Result (List ℕ)
serialized h = ok (h.height ∷ [])

abbrev deserialized : List ℕ → Result Header
deserialized [] = err Error.external
deserialized (n ∷ bs) = ok (header_at n)

abbrev row_at : ℕ → BlockHeader
row_at n = record { hash = n; height = n; header_bytes = n ∷ [] }

abbrev table : Rows
table = row_at 3 ∷ []

abbrev stored : List (ℕ × Header)
stored = (3, header_at 3) ∷ []

write_headers_atomic_example :
    IsUnique (write_headers serialized deserialized (header_at 4 ∷ header_at 3 ∷ []) table).1
    × (((write_headers serialized deserialized (header_at 4 ∷ header_at 3 ∷ []) table).1 ≡ table)
        ⊎ (((write_headers serialized deserialized (header_at 4 ∷ header_at 3 ∷ []) table).0
              ≡ ok tt)
            × ((rows : Rows) × AreRows serialized deserialized (header_at 4 ∷ header_at 3 ∷ []) rows
                × ((write_headers serialized deserialized (header_at 4 ∷ header_at 3 ∷ []) table).1
                    ≡ table ++ rows))))
write_headers_atomic_example =
    write_headers_atomic serialized deserialized (header_at 4 ∷ header_at 3 ∷ []) table (tt, tt)

table-Agrees : Agrees serialized deserialized table stored
table-Agrees = row refl refl refl empty

Agrees-queries_example :
    (chain_tip serialized deserialized table ≡ Memory.chain_tip stored)
    × (get_block_header serialized deserialized 3 table ≡ Memory.get_block_header 3 stored)
    × (get_block_header_by_height serialized deserialized 4 table
        ≡ missing serialized deserialized (Memory.get_block_header_by_height 4 stored))
Agrees-queries_example =
    Agrees-queries serialized deserialized table stored 3 4 table-Agrees (tt, tt)

Agrees-write_headers_example :
    Agrees serialized deserialized
      (write_headers serialized deserialized (header_at 4 ∷ []) table).1
      (Memory.write_headers (header_at 4 ∷ []) stored).1
    × IsUnique (write_headers serialized deserialized (header_at 4 ∷ []) table).1
Agrees-write_headers_example =
    Agrees-write_headers serialized deserialized table stored (header_at 4) (row_at 4) table-Agrees
      (tt, tt) (unfold row_of in refl) refl (unfold conflicts in refl)

abbrev entry : FilterEntry
entry = record { key = record { block_hash = 101; filter_type = 0 }; n_bytes = 1 ∷ [] }
