-- ===== src/Scanner/Worker/Surviving.antt =====
-- `requestWorker`: its rounds and its end, where every request has an item.
use neutrino_elements.Prelude.{
  ℕ, ◌+◌, ◌%◌, ◌^◌, ◌≢◌, inl, inr, Bool, true, false, List, [], ◌∷◌, ◌++◌, All, All-append, some,
  Result, ok, err, Error, leb, ◌==◌, Bool-cases, if◌then◌else◌,
}
use neutrino_elements.Ledger.{Header}
use neutrino_elements.Scanner.Requests.{ScanRequest}
use neutrino_elements.Scanner.Blocks.{
  ScannerService, Report, items_bytes, block_filter_matches, extract_block_matches,
}
use neutrino_elements.Scanner.Worker.{
  Moment, Outcome, Round, block_hash_at, scan_block, end_round, worker_round, watch_again,
  worker_loop, request_worker,
}
use neutrino_elements.Scanner.Worker.Progress.{Round-cases}
use neutrino_elements.Scanner.Worker.Items.{
  HasItem, Safely, Any, Safely-bind, NoPanics, Left, items_bytes-Safely, dequeue_at_height-All,
  watch_again-All, block_filter_matches-Safely, extract_block_matches-Safely,
}

-- No panic so far, and every request has an item.
abbrev Healthy : Round → Type 0
Healthy (Round.failed e q rs) = (e ≢ Error.panic) × All HasItem q
Healthy (Round.continued b q rs t) = All HasItem b × All HasItem q

abbrev pub Survived : Outcome → Type 0
Survived o = (o.result ≢ some (err Error.panic)) × All HasItem o.queue

-- The requests that `Watch` queues while the worker runs have items.
abbrev pub ItemsArrive : {S F : Type 0} → List (Moment S F) → Type 0
ItemsArrive moments = All (λ now. All HasItem now.arrived) moments

module _ {S F G : Type 0} (s : ScannerService S F G) (calm : NoPanics s) where
  block_hash_at-Safely : (height : ℕ) (headers : S) → Safely Any (block_hash_at s height headers)
  block_hash_at-Safely height headers = elim (Bool-cases (height == 0)) [
    | inl e ↦ rw e tt
    | inr e ↦ rw e (calm.hashes height headers)
  ]

  scan_block-Safely :
      (now : Moment S F) (height : ℕ) (batch : List ScanRequest)
      → All HasItem batch
      → Safely Left (scan_block s now height batch)
  unfolding scan_block
  scan_block-Safely now height batch h =
      Safely-bind Any Left (items_bytes batch) _ (items_bytes-Safely batch h) λ items _.
        Safely-bind Any Left (block_hash_at s height now.headers) _
          (block_hash_at-Safely height now.headers)
          λ hash _.
            Safely-bind Any Left (block_filter_matches s items hash now.filters) _
              (block_filter_matches-Safely s calm items hash now.filters) λ m _. branch hash m
    where
      branch :
          (hash : ℕ) (m : Bool)
          → Safely Left (if m then extract_block_matches s hash batch else ok ([], batch))
      branch hash true = extract_block_matches-Safely s calm hash batch h
      branch hash false = (tt, h)

  end_round-Healthy :
      (headers : S) (remain : List ScanRequest) (r : Result (List Report × List ScanRequest))
      → All HasItem remain
      → Safely Left r
      → Healthy (end_round s headers remain r)
  unfolding end_round
  end_round-Healthy headers remain (err e) h k = (k, h)
  end_round-Healthy headers remain (ok (reports, batch)) h (a, b) =
      tipped (s.header_db.chain_tip headers) (calm.tips headers)
    where
      tipped :
          (t : Result Header)
          → Safely Any t
          → Healthy (elim t [
            | err e ↦ Round.failed e (watch_again reports remain) reports
            | ok tip ↦ Round.continued batch (watch_again reports remain) reports tip.height
          ])
      tipped (ok tip) u = (b, watch_again-All reports remain a h)
      tipped (err e) u = (u, watch_again-All reports remain a h)

  worker_round-Healthy :
      (now : Moment S F) (height : ℕ) (batch queue : List ScanRequest)
      → All HasItem now.arrived
      → All HasItem batch
      → All HasItem queue
      → Healthy (worker_round s now height batch queue)
  unfolding worker_round
  worker_round-Healthy now height batch queue a b q =
      let (selected, remain) =
        dequeue_at_height-All height (queue ++ now.arrived) (All-append HasItem queue _ q a) in
      end_round-Healthy now.headers _ _ remain
        (scan_block-Safely now height _ (All-append HasItem batch _ b selected))

  worker_loop-Survived :
      (moments : List (Moment S F)) (tip height : ℕ) (batch queue : List ScanRequest)
      → ItemsArrive moments
      → All HasItem batch
      → All HasItem queue
      → Survived (worker_loop s moments tip height batch queue)
  unfolding worker_loop
  worker_loop-Survived [] tip height batch queue w b q = elim (Bool-cases (leb height tip)) [
    | inl e ↦ rw e ((λ x. cc), q)
    | inr e ↦ rw e ((λ x. cc), All-append HasItem queue batch q b)
  ]
  worker_loop-Survived (now ∷ later) tip height batch queue (a, w) b q =
      let h = worker_round-Healthy now height batch queue a b q in
      elim (Bool-cases (leb height tip)) [
        | inr e ↦ rw e ((λ x. cc), All-append HasItem queue batch q b)
        | inl e ↦ elim (Round-cases (worker_round s now height batch queue)) [
          | inl (x, q', rs, g) ↦ let (p, h') = rw (g, Healthy) at h in rw (e, g) ((λ y. p (cc)), h')
          | inr (b', q', rs, t, g) ↦
              let (p, h') = rw (g, Healthy) at h in
              rw (e, g) (worker_loop-Survived later t ((height + 1) % 2 ^ 32) b' q' w p h')
        ]
      ]

  -- Where every request has an item and the services do not panic, the worker does not panic, and
  -- every request that it leaves in the queue has an item.
  pub request_worker-Survived :
      (first : S) (moments : List (Moment S F)) (start_height : ℕ) (queue : List ScanRequest)
      → ItemsArrive moments
      → All HasItem queue
      → Survived (request_worker s first moments start_height queue)
  unfolding request_worker
  request_worker-Survived first moments start_height queue w q =
      started (s.header_db.chain_tip first) (calm.tips first)
    where
      started :
          (r : Result Header)
          → Safely Any r
          → Survived (elim r [
            | err e ↦ record { result = some (err e); queue = queue; reports = [] }
            | ok tip ↦ worker_loop s moments tip.height start_height [] queue
          ])
      started (ok tip) u = worker_loop-Survived moments tip.height start_height [] queue w tt q
      started (err e) u = ((λ x. u (cc)), q)
