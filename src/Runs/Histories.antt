-- ===== src/Runs/Histories.antt =====
-- Histories of pkg/scanner: a new scanner that is started, sleeps and is woken by requests.
use neutrino_elements.Prelude.{
  ℕ, ◌+◌, ◌≤◌, ◌<◌, ok-injective, ◌≡◌, ◌≢◌, refl, ◌⊎◌, inl, inr, Bool-cases, Option, Option-cases,
  or_error, ◌==◌, lookup, false, true, List, [], ◌∷◌, ◌++◌, Member, here, none, some, ok, err,
  Error, arith, length,
}
use neutrino_elements.Ledger.{Header}
use neutrino_elements.Store.Headers.{
  Headers, header_inmemory, chain_tip, tip_loop, get_block_header_by_height,
  get_block_hash_by_height,
}
use neutrino_elements.Store.Filters.{FilterInmemory, filter_inmemory, get_filter}
use neutrino_elements.Scanner.Requests.{
  ScanRequest, WatchItem, new_scan_request, with_start_block, dequeue_at_height,
}
use neutrino_elements.Scanner.Blocks.{ScannerService, items_bytes}
use neutrino_elements.Scanner.Blocks.Matches.{IsReported}
use neutrino_elements.Scanner.Worker.{
  Moment, request_worker, worker_loop, worker_round, end_round, scan_block,
}
use neutrino_elements.Scanner.Manager.{
  Point, Manager, System, new_scanner, start_scanner, poll, Signal, has_panicked, work, Label, Step,
  Reach, stay, step,
}
use neutrino_elements.Scanner.Manager.Orderly.{Orderly, Careful, Reach-Orderly}
use neutrino_elements.Scanner.Worker.Items.{Safely, Any, Safely-bind, NoPanics}
use neutrino_elements.Scanner.Manager.Stalls.{Reach-Idle, IsCallers, lost_wakeup}
use neutrino_elements.Scanner.Manager.Kept.{Succeeds, Reach-Kept}

abbrev scanner : ScannerService Headers FilterInmemory (List ℕ)
scanner = record {
  header_db = header_inmemory 10 10;
  filter_db = filter_inmemory (λ k. k.block_hash);
  genesis_hash = 100;
  get_block = λ hash. err Error.block_not_found;
  gcs_filter = λ bs. ok bs;
  match_any = λ hash items filter. ok false;
}

-- A request from a height that the chain does not have yet, and one from the first block.
abbrev far : ScanRequest
far = record {
  client_id = 3;
  start_height = 1000;
  item = some (WatchItem.unspent_watch_item (1 ∷ []));
  is_persistent = true;
}

abbrev near : ScanRequest
near = record {
  client_id = 4;
  start_height = 1;
  item = some (WatchItem.unspent_watch_item (2 ∷ []));
  is_persistent = true;
}

abbrev at_height : ℕ → Header
at_height n = record { height = n; prev = none; hash = some (100 + n) }

abbrev headers : Headers
headers = (101, at_height 1) ∷ []

abbrev manager : Point → Manager
manager p = record { deferred = some 1; point = p }

abbrev at : Point → List ScanRequest → System
at p queue = record (start_scanner new_scanner) { managers = manager p ∷ []; queue = queue }

-- The scanner's parts here return errors only.
or_error-Safely :
    {A : Type 0} (e : Error) (o : Option A) → e ≢ Error.panic → Safely Any (or_error e o)
or_error-Safely e none h = h
or_error-Safely e (some a) h = tt

header-Safely : (n : ℕ) (m : Headers) → Safely Any (get_block_header_by_height n m)
unfolding get_block_header_by_height
header-Safely n [] = λ h. cc
header-Safely n ((k, x) ∷ m) = elim (Bool-cases (x.height == n)) [
  | inl e ↦ rw e tt
  | inr e ↦ rw e (header-Safely n m)
]

scanner-NoPanics : NoPanics scanner
unfolding chain_tip get_block_hash_by_height get_filter
scanner-NoPanics = record {
  tips = λ m. or_error-Safely Error.no_block_headers (tip_loop none m) (λ h. cc);
  hashes = λ n m.
      Safely-bind Any Any (get_block_header_by_height n m) _ (header-Safely n m)
        (λ x u. or_error-Safely Error.external x.hash (λ h. cc));
  stored = λ k m. elim (Option-cases (lookup k.block_hash m)) [
    | inl e ↦ rw (Safely, e) (λ h. cc)
    | inr (bs, e) ↦ rw (Safely, e) tt
  ];
  blocks = λ hash h. cc;
  parsed = λ bs. tt;
  matched = λ hash items g. tt;
}

-- `Start`, the manager's first round up to its `Wait`, a request that wakes it, and the worker.
abbrev ended : System
ended = work scanner headers [] [] (manager Point.peeking) [] (at Point.peeking (near ∷ []))

asleep_history : Reach scanner Careful new_scanner (at Point.waiting [])
unfolding start_scanner
asleep_history =
    step
      (step
        (step (step stay (refl, tt) (Step.starts refl refl)) (tt, tt)
          (Step.begins_loop [] [] _ refl refl refl))
        (tt, tt) (Step.tests_queue [] [] (manager Point.testing) refl refl refl))
      (tt, tt) (Step.falls_asleep [] [] (manager Point.falling_asleep) refl refl refl)

work_history : Reach scanner Careful new_scanner ended
unfolding start_scanner poll
work_history =
    step
      (step
        (step
          (step asleep_history (tt, λ h. cc)
            (Step.watches_request {req = near}
              (Signal.wakes [] [] (manager Point.waiting) refl refl refl) refl))
          (tt, tt) (Step.polls_quit [] [] (manager Point.polling) refl refl refl))
        (tt, tt) (Step.tests_queue [] [] (manager Point.testing) refl refl refl))
      (tt, tt) (Step.works_on [] [] (manager Point.peeking) refl refl refl)

Reach-Orderly_example :
    (ended.panicked ≡ false)
    × (length ended.managers ≤ 1)
    × (ended.started ≡ true → length ended.managers ≡ 1)
Reach-Orderly_example = Reach-Orderly scanner scanner-NoPanics work_history

-- A request without an item ends the process when the worker reaches its height.
abbrev bare : ScanRequest
bare = new_scan_request (with_start_block 1 ∷ [])

abbrev now : Moment Headers FilterInmemory
now = record { headers = headers; filters = []; arrived = [] }

bare_panics :
    (work scanner headers
      (now ∷ [])
      []
      (manager Point.peeking)
      []
      (at Point.peeking (bare ∷ []))).panicked
    ≡ true
unfolding work has_panicked request_worker worker_loop worker_round end_round scan_block items_bytes
    dequeue_at_height chain_tip start_scanner
bare_panics = refl

-- Two requests are queued, and the worker runs for the first.
abbrev peeks : System
peeks = record new_scanner {
  started = true;
  queue = far ∷ near ∷ [];
  managers = manager Point.peeking ∷ [];
}

abbrev peeked : System
peeked = work scanner headers [] [] (manager Point.peeking) [] peeks

tip_is_below : (tip : Header) → chain_tip headers ≡ ok tip → tip.height < 1000
unfolding chain_tip
tip_is_below tip h = let e : at_height 1 ≡ tip = ok-injective h in rw (← e) (omega arith)

Reach-Idle_example :
    ((added : List ScanRequest) × (peeked.queue ≡ peeks.queue ++ added))
    × (peeked.reports ≡ peeks.reports)
Reach-Idle_example =
    Reach-Idle scanner far (near ∷ []) refl
      (step stay tip_is_below (Step.works_on [] [] (manager Point.peeking) refl refl refl))

succeeds : Succeeds scanner peeks (Label.works headers [])
unfolding request_worker worker_loop chain_tip
succeeds front e = let f : far ≡ front = cc in rw (← f) refl

Reach-Kept_example : Member far peeked.queue ⊎ IsReported far peeked.reports
Reach-Kept_example =
    Reach-Kept scanner far (here refl)
      (step stay succeeds (Step.works_on [] [] (manager Point.peeking) refl refl refl))

lost_wakeup_example :
    (t : System) × Reach scanner Orderly new_scanner t
    × (t.queue ≡ near ∷ [])
    × (t.started ≡ true)
    × ((u : System) (l : Label scanner) → Step scanner l t u → IsCallers scanner l)
lost_wakeup_example = lost_wakeup scanner near
