-- ===== src/Scanner/Blocks.antt =====
-- pkg/scanner/scanner.go: what a block holds for a batch of requests (`blockFilterMatches` and
-- `extractBlockMatches`).
pub mod Matches
pub mod Misses
use neutrino_elements.Prelude.{
  ℕ, Bool, true, false, List, [], ◌∷◌, ◌++◌, Option, none, some, Result, ok, err, Error, some_of,
  or_error, if◌then◌else◌, ◌>>=◌,
}
use neutrino_elements.Ledger.{Transaction, Block}
use neutrino_elements.Store.Interface.{BlockHeaderRepository, FilterRepository, FilterKey}
use neutrino_elements.Scanner.Requests.{ScanRequest, item_bytes, item_match}

-- The struct `scannerService` without its queue, over the states of the two stores. `get_block` is
-- the block service, where `block_not_found` is ErrorBlockNotFound; `gcs_filter` is the method
-- GcsFilter on an entry's bytes, and `match_any` is the filter's MatchAny under the key that
-- builder.DeriveKey makes of the hash.
pub record ScannerService (S F G : Type 0) : Type 0 where
  pub header_db : BlockHeaderRepository S
  pub filter_db : FilterRepository F
  pub genesis_hash : ℕ
  pub get_block : ℕ → Result Block
  pub gcs_filter : List ℕ → Result G
  pub match_any : ℕ → List (List ℕ) → G → Result Bool

pub record Report : Type 0 where
  pub transaction : Transaction
  pub block_hash : ℕ
  pub block_height : ℕ
  pub request : ScanRequest

-- The bytes of each request's item; a nil item panics.
unfoldable pub items_bytes : List ScanRequest → Result (List (List ℕ))
items_bytes [] = ok []
items_bytes (req ∷ reqs) = or_error Error.panic req.item >>= λ item.
    items_bytes reqs >>= λ rest. ok (item_bytes item ∷ rest)

-- A nil item has made `items_bytes` panic before a request gets here.
unfoldable pub request_match : ScanRequest → Transaction → Bool
request_match req tx = elim req.item [ none ↦ false | some item ↦ item_match item tx ]

module _ {S F G : Type 0} (s : ScannerService S F G) where
  abbrev pub regular_filter_key : ℕ → FilterKey
  regular_filter_key block_hash = record { block_hash = block_hash; filter_type = 0 }

  unfoldable pub block_filter_matches : List (List ℕ) → ℕ → F → Result Bool
  block_filter_matches items block_hash filters =
      elim (s.filter_db.get_filter (regular_filter_key block_hash) filters) [
        | err Error.filter_not_found ↦ ok false
        | err e ↦ err e
        | ok filter ↦ s.gcs_filter filter.n_bytes >>= s.match_any block_hash items
      ]

  -- The inner loop: one report for each transaction that matches.
  unfoldable pub request_reports : ℕ → Block → ScanRequest → List Transaction → List Report
  request_reports block_hash block req [] = []
  request_reports block_hash block req (tx ∷ txs) =
      let rest = request_reports block_hash block req txs in
      if request_match req tx
      then record {
        transaction = tx;
        block_hash = block_hash;
        block_height = block.header.height;
        request = req;
      }
        ∷ rest
      else rest

  unfoldable pub block_reports : ℕ → Block → List ScanRequest → List Report × List ScanRequest
  block_reports block_hash block [] = ([], [])
  block_reports block_hash block (req ∷ reqs) =
      let (results, remain) = block_reports block_hash block reqs in
      (
        request_reports block_hash block req block.transactions ++ results,
        if some_of (request_match req) block.transactions then remain else req ∷ remain,
      )

  unfoldable pub extracted :
      ℕ → List ScanRequest → Result Block → Result (List Report × List ScanRequest)
  extracted block_hash requests (err Error.block_not_found) = ok ([], requests)
  extracted block_hash requests (err e) = err e
  extracted block_hash requests (ok block) = ok (block_reports block_hash block requests)

  unfoldable pub extract_block_matches :
      ℕ → List ScanRequest → Result (List Report × List ScanRequest)
  unfolding extracted
  extract_block_matches block_hash requests = extracted block_hash requests (s.get_block block_hash)
