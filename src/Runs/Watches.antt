-- ===== src/Runs/Watches.antt =====
-- Runs of pkg/scanner in a chain of two blocks, whose second pays the watched script.
use neutrino_elements.Prelude.{
  ℕ, ◌+◌, ◌-◌, ◌≤◌, ◌≡◌, refl, true, List, [], ◌∷◌, here, none, some, ok, arith, ◌==◌,
  if◌then◌else◌, lookup, ok-injective, bytes_eq,
}
use neutrino_elements.Ledger.{Header, Transaction, Block}
use neutrino_elements.Store.Headers.{
  Headers, header_inmemory, chain_tip, get_block_hash_by_height, get_block_header_by_height,
}
use neutrino_elements.Store.Filters.{FilterInmemory, filter_inmemory, get_filter}
use neutrino_elements.Scanner.Requests.{ScanRequest, WatchItem, item_match, dequeue_at_height}
use neutrino_elements.Scanner.Blocks.{
  ScannerService, request_match, items_bytes, block_filter_matches, extract_block_matches,
  block_reports, request_reports,
}
use neutrino_elements.Scanner.Worker.{
  Moment, request_worker, watch_again, block_hash_at, worker_round, end_round, scan_block,
}
use neutrino_elements.Scanner.Worker.Watching.{HasBlocks}
use neutrino_elements.Notifier.{Subscriber}
use neutrino_elements.Notifier.Alerts.{Gets, alert, alerts, request_worker-alerts}
use neutrino_elements.Scanner.Worker.Complete.{request_worker-Found, Found, Sees}

abbrev script : List ℕ
script = 1 ∷ 2 ∷ []

abbrev paying : Transaction
paying = record { tx_id = 77; inputs = []; outputs = script ∷ [] }

abbrev hash_of : ℕ → ℕ
hash_of height = 100 + height

abbrev header_of : ℕ → Header
header_of height = record { height = height; prev = none; hash = some (100 + height) }

abbrev block_of : ℕ → Block
block_of height = record {
  header = header_of height;
  transactions = if height == 2 then paying ∷ [] else [];
}

abbrev scanner : ScannerService Headers FilterInmemory (List ℕ)
scanner = record {
  header_db = header_inmemory 10 10;
  filter_db = filter_inmemory (λ k. k.block_hash);
  genesis_hash = 100;
  get_block = λ hash. ok (block_of (hash - 100));
  gcs_filter = λ bs. ok bs;
  match_any = λ hash items filter. ok (hash == 102);
}

abbrev request : ScanRequest
request = record {
  client_id = 3;
  start_height = 1;
  item = some (WatchItem.unspent_watch_item script);
  is_persistent = true;
}

abbrev headers : Headers
headers = (101, header_of 1) ∷ (102, header_of 2) ∷ []

abbrev now : Moment Headers FilterInmemory
now = record { headers = headers; filters = (101, 9 ∷ []) ∷ (102, 8 ∷ []) ∷ []; arrived = [] }

world : HasBlocks scanner hash_of block_of
world height = (let e : 100 + height - 100 ≡ height = omega arith in rw e refl, refl)

hashes : (height hash : ℕ) → block_hash_at scanner height headers ≡ ok hash → hash ≡ hash_of height
unfolding get_block_hash_by_height get_block_header_by_height
hashes height hash h = ground arith

matched : request_match request paying ≡ true
unfolding request_match item_match bytes_eq
matched = refl

tips : (t : Header) → chain_tip headers ≡ ok t → 2 ≤ t.height
unfolding chain_tip
tips t h = let e : header_of 2 ≡ t = ok-injective h in rw (← e) (omega arith)

sees :
    Sees scanner hash_of block_of world request
      (WatchItem.unspent_watch_item script)
      refl
      2
      paying
      (here refl)
      matched
      2
      (omega arith)
      now
unfolding get_filter lookup
sees = ((hashes, tips), (_, refl, (_, refl, λ items m. refl)))

request_worker-Found_example :
    Found scanner hash_of block_of world request
      (WatchItem.unspent_watch_item script)
      refl
      2
      paying
      (here refl)
      matched
      (request_worker scanner headers (now ∷ now ∷ []) 1 (request ∷ [])).reports
unfolding request_match item_match bytes_eq chain_tip request_worker worker_round end_round
    scan_block items_bytes block_filter_matches get_filter get_block_hash_by_height
    get_block_header_by_height dequeue_at_height lookup extract_block_matches watch_again
request_worker-Found_example =
    request_worker-Found scanner hash_of block_of world request
      (WatchItem.unspent_watch_item script) refl 2 paying (here refl) matched 2 (omega arith)
      headers (now ∷ now ∷ []) 1 (request ∷ []) tips (sees, (sees, tt)) (here refl) (omega arith)
      (omega arith) refl

abbrev subscribers : List (ℕ × Subscriber)
subscribers = (3, Subscriber.ws_subscriber 3 50) ∷ []

request_worker-alerts_example :
    Gets (Subscriber.ws_subscriber 3 50) (alert (WatchItem.unspent_watch_item script) paying) (
      alerts subscribers (request_worker scanner headers (now ∷ now ∷ []) 1 (request ∷ [])).reports)
unfolding request_match item_match bytes_eq chain_tip request_worker worker_round end_round
    scan_block items_bytes block_filter_matches get_filter get_block_hash_by_height
    get_block_header_by_height dequeue_at_height lookup extract_block_matches watch_again
    block_reports request_reports
request_worker-alerts_example =
    request_worker-alerts scanner hash_of block_of world request
      (WatchItem.unspent_watch_item script) refl 2 paying (here refl) matched 2 (omega arith)
      subscribers (Subscriber.ws_subscriber 3 50) headers (now ∷ now ∷ []) 1 (request ∷ []) tips
      (sees, (sees, tt)) (here refl) (omega arith) (omega arith) refl refl refl ((_, refl), tt)
