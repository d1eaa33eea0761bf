-- ===== src/Runs/Scans.antt =====
-- Runs of pkg/scanner, over in-memory stores.
use neutrino_elements.Prelude.{
  Result, Bool, ℕ, ◌≢◌, true, List, [], ◌∷◌, All, none, some, ok, arith,
}
use neutrino_elements.Ledger.{Header, Transaction, Block}
use neutrino_elements.Store.Headers.{Headers, header_inmemory, chain_tip}
use neutrino_elements.Store.Filters.{FilterInmemory, filter_inmemory}
use neutrino_elements.Scanner.Requests.{ScanRequest, WatchItem}
use neutrino_elements.Scanner.Blocks.{ScannerService, Report}
use neutrino_elements.Scanner.Blocks.Matches.{IsReport}
use neutrino_elements.Scanner.Worker.{Moment, request_worker, worker_loop}
use neutrino_elements.Scanner.Worker.Progress.{request_worker-finishes}
use neutrino_elements.Scanner.Worker.Reports.{worker_loop-IsReport}

abbrev script : List ℕ
script = 1 ∷ 2 ∷ []

abbrev paying : Transaction
paying = record { tx_id = 77; inputs = []; outputs = script ∷ [] }

abbrev first : Header
first = record { height = 1; prev = none; hash = some 101 }

abbrev first_block : Block
first_block = record { header = first; transactions = paying ∷ [] }

abbrev scanner : ScannerService Headers FilterInmemory (List ℕ)
scanner = record {
  header_db = header_inmemory 10 10;
  filter_db = filter_inmemory (λ k. k.block_hash);
  genesis_hash = 100;
  get_block = λ hash. ok first_block;
  gcs_filter = λ bs. ok bs;
  match_any = λ hash items filter. ok true;
}

abbrev request : ScanRequest
request = record {
  client_id = 3;
  start_height = 1;
  item = some (WatchItem.unspent_watch_item script);
  is_persistent = true;
}

abbrev now : Moment Headers FilterInmemory
now = record { headers = (101, first) ∷ []; filters = (101, 9 ∷ []) ∷ []; arrived = [] }

abbrev report : Report
report = record { transaction = paying; block_hash = 101; block_height = 1; request = request }

worker_loop-IsReport_example :
    All (IsReport scanner) (worker_loop scanner (now ∷ []) 1 1 [] (request ∷ [])).reports
worker_loop-IsReport_example = worker_loop-IsReport scanner (now ∷ []) 1 1 [] (request ∷ [])

request_worker-finishes_example :
    (request_worker scanner now.headers (now ∷ []) 1 (request ∷ [])).result ≢ none
unfolding chain_tip
request_worker-finishes_example =
    request_worker-finishes scanner 1 now.headers (now ∷ []) 1 (request ∷ []) (omega arith)
      (omega arith) (omega arith, tt) (omega arith)

abbrev parse_wallet : List ℕ → Result (List ℕ)
parse_wallet desc = ok desc

abbrev two_scripts : Bool → List ℕ → Result (List (List ℕ))
two_scripts ranged wallet = ok (script ∷ (3 ∷ []) ∷ [])
