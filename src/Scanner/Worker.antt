-- ===== src/Scanner/Worker.antt =====
-- pkg/scanner/scanner.go: `requestWorker`, over what the rest of the program does meanwhile.
pub mod Items
pub mod Surviving
pub mod Progress
pub mod Requeueing
pub mod Reports
pub mod Watching
pub mod Complete
use neutrino_elements.Prelude.{
  ℕ, zero, suc, ◌+◌, ◌%◌, ◌^◌, Bool, true, false, List, [], ◌∷◌, ◌++◌, Option, none, some, Result,
  ok, err, Error, leb, ◌==◌, if◌then◌else◌, ◌>>=◌,
}
use neutrino_elements.Scanner.Requests.{
  ScanRequest, dequeue_at_height, watch, with_request_id, with_start_block, with_watch_item,
  with_persistent_watch, peek,
}
use neutrino_elements.Scanner.Blocks.{
  ScannerService, Report, items_bytes, block_filter_matches, extract_block_matches,
}

-- One round of the worker's loop sees the stores, and the requests that `Watch` has queued since the
-- round before.
pub record Moment (S F : Type 0) : Type 0 where
  pub headers : S
  pub filters : F
  pub arrived : List ScanRequest

-- `none` where the moments given have run out, and else what the worker returns.
pub record Outcome : Type 0 where
  pub result : Option (Result (Unit {0}))
  pub queue : List ScanRequest
  pub reports : List Report

-- A round either ends the worker with an error or goes on with a batch and a reading of the tip.
pub data Round : Type 0 where
  failed : Error → (queue : List ScanRequest) → (reports : List Report) → Round
  continued : (batch queue : List ScanRequest) → (reports : List Report) → (tip : ℕ) → Round

-- A persistent request is watched again, once for each of its reports.
unfoldable pub watch_again : List Report → List ScanRequest → List ScanRequest
watch_again [] queue = queue
watch_again (r ∷ reports) queue = watch_again reports (
    if r.request.is_persistent
    then watch
        (with_request_id r.request.client_id
          ∷ with_start_block ((r.block_height + 1) % 2 ^ 32)
          ∷ with_watch_item r.request.item
          ∷ with_persistent_watch
          ∷ [])
        queue
    else queue)

module _ {S F G : Type 0} (s : ScannerService S F G) where
  abbrev pub block_hash_at : ℕ → S → Result ℕ
  block_hash_at height headers =
      if height == 0 then ok s.genesis_hash else s.header_db.get_block_hash_by_height height headers

  -- The reports of a height, and the batch for the next one.
  unfoldable pub scan_block :
      Moment S F → ℕ → List ScanRequest → Result (List Report × List ScanRequest)
  scan_block now height batch = items_bytes batch >>= λ items.
      block_hash_at height now.headers >>= λ block_hash.
      block_filter_matches s items block_hash now.filters >>= λ matched.
      if matched then extract_block_matches s block_hash batch else ok ([], batch)

  -- The end of a round, with the result of `scan_block`.
  unfoldable pub end_round : S → List ScanRequest → Result (List Report × List ScanRequest) → Round
  end_round headers remain (err e) = failed e remain []
  end_round headers remain (ok (reports, next_batch)) = elim (s.header_db.chain_tip headers) [
    | err e ↦ failed e (watch_again reports remain) reports
    | ok tip ↦ continued next_batch (watch_again reports remain) reports tip.height
  ]

  unfoldable pub worker_round : Moment S F → ℕ → List ScanRequest → List ScanRequest → Round
  worker_round now height batch queue =
      let (selected, remain) = dequeue_at_height height (queue ++ now.arrived) in
      end_round now.headers remain (scan_block now height (batch ++ selected))

  unfoldable pub worker_loop :
      List (Moment S F) → (tip height : ℕ) → (batch queue : List ScanRequest) → Outcome
  worker_loop [] tip height batch queue =
      if leb height tip
      then record { result = none; queue = queue; reports = [] }
      else record { result = some (ok tt); queue = queue ++ batch; reports = [] }
  worker_loop (now ∷ later) tip height batch queue =
      let after : Outcome = elim (worker_round now height batch queue) [
        | failed e q rs ↦ record { result = some (err e); queue = q; reports = rs }
        | continued b q rs t ↦
            let rest = worker_loop later t ((height + 1) % 2 ^ 32) b q in
            record { result = rest.result; queue = rest.queue; reports = rs ++ rest.reports }
      ] in
      if leb height tip
      then after
      else record { result = some (ok tt); queue = queue ++ batch; reports = [] }

  -- `requestWorker`, which reads the tip of `first` before the loop.
  unfoldable pub request_worker : S → List (Moment S F) → ℕ → List ScanRequest → Outcome
  unfolding worker_loop
  request_worker first moments start_height queue = elim (s.header_db.chain_tip first) [
    | err e ↦ record { result = some (err e); queue = queue; reports = [] }
    | ok tip ↦ worker_loop moments tip.height start_height [] queue
  ]
