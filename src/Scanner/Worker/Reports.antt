-- ===== src/Scanner/Worker/Reports.antt =====
-- What the worker reports, and what becomes of the requests.
use neutrino_elements.Prelude.{
  ℕ, ◌+◌, ◌%◌, ◌^◌, ◌≡◌, ◌⊎◌, inl, inr, true, false, List, [], ◌∷◌, ◌++◌, All, All-append, All_at,
  All-of_members, Member, Member-append_left, Member-append_right, some, Result, ok, err, arith,
  leb, Bool-cases, Result-cases, Returns, Returns-bind, if◌then◌else◌,
}
use neutrino_elements.Scanner.Requests.{ScanRequest, dequeue_at_height}
use neutrino_elements.Scanner.Blocks.{
  ScannerService, Report, items_bytes, block_filter_matches, extract_block_matches,
}
use neutrino_elements.Scanner.Blocks.Matches.{
  IsReport, IsReported, Scanned, nothing_found-Scanned, extract_block_matches-Scanned,
}
use neutrino_elements.Scanner.Worker.{
  Moment, Round, block_hash_at, scan_block, end_round, worker_round, worker_loop, request_worker,
}
use neutrino_elements.Scanner.Worker.Progress.{Round-cases, end_round-continued}
use neutrino_elements.Scanner.Worker.Requeueing.{watch_again-keeps, dequeue_at_height-keeps}

module _ {S F G : Type 0} (s : ScannerService S F G) where
  scan_block-Scanned :
      (now : Moment S F) (height : ℕ) (batch : List ScanRequest)
      → Returns (Scanned s batch) (scan_block s now height batch)
  unfolding scan_block
  scan_block-Scanned now height batch = Returns-bind _ (items_bytes batch) _ λ items.
      Returns-bind _ (block_hash_at s height now.headers) _ λ block_hash.
        Returns-bind _ (block_filter_matches s items block_hash now.filters) _ λ matched.
          elim matched
            as (λ m.
              Returns (Scanned s batch)
                (if m then extract_block_matches s block_hash batch else ok ([], batch))) [
                  | true ↦ extract_block_matches-Scanned s block_hash batch
                  | false ↦ nothing_found-Scanned s block_hash batch
                ]

  -- The reports of a round are sound, whichever way it ends.
  abbrev round_reports : Round → List Report
  round_reports (Round.failed e q rs) = rs
  round_reports (Round.continued b q rs t) = rs

  end_round-All :
      (headers : S) (remain batch : List ScanRequest) (r : Result (List Report × List ScanRequest))
      → Returns (Scanned s batch) r
      → All (IsReport s) (round_reports (end_round s headers remain r))
  unfolding end_round
  end_round-All headers remain batch (err e) w = tt
  end_round-All headers remain batch (ok (reports, next_batch)) (w, _) =
      elim (Result-cases (s.header_db.chain_tip headers)) [
        | inl (t, e) ↦ rw (end_round, e) w
        | inr (x, e) ↦ rw (end_round, e) w
      ]

  worker_round-All :
      (now : Moment S F) (height : ℕ) (batch queue : List ScanRequest)
      → All (IsReport s) (round_reports (worker_round s now height batch queue))
  unfolding worker_round
  worker_round-All now height batch queue =
      end_round-All now.headers _ _ _ (scan_block-Scanned now height _)

  -- Each report is of a transaction that its request matches, of a block that the block service has,
  -- with the height in the block's header. This holds also of the reports that were sent before an
  -- error.
  pub worker_loop-IsReport :
      (moments : List (Moment S F)) (tip height : ℕ) (batch queue : List ScanRequest)
      → All (IsReport s) (worker_loop s moments tip height batch queue).reports
  unfolding worker_loop
  worker_loop-IsReport [] tip height batch queue = elim (Bool-cases (leb height tip)) [
    | inl e ↦ rw e tt
    | inr e ↦ rw e tt
  ]
  worker_loop-IsReport (now ∷ later) tip height batch queue =
      let w = worker_round-All now height batch queue in
      elim (Bool-cases (leb height tip)) [
        | inr e ↦ rw e tt
        | inl e ↦ elim (Round-cases (worker_round s now height batch queue)) [
          | inl (x, q, rs, g) ↦ rw (e, g) (rw g at w)
          | inr (b, q, rs, t, g) ↦
              rw (e, g)
                (All-append (IsReport s) rs _ (rw g at w)
                  (worker_loop-IsReport later t ((height + 1) % 2 ^ 32) b q))
        ]
      ]

  pub request_worker-IsReport :
      (first : S) (moments : List (Moment S F)) (start_height : ℕ) (queue : List ScanRequest)
      → All (IsReport s) (request_worker s first moments start_height queue).reports
  unfolding request_worker
  request_worker-IsReport first moments start_height queue =
      elim (Result-cases (s.header_db.chain_tip first)) [
        | inr (x, e) ↦ rw (request_worker, e) tt
        | inl (t, e) ↦
            rw (request_worker, e) (worker_loop-IsReport moments t.height start_height [] queue)
      ]

  -- A request is in the batch or in the queue, or there is a report for it.
  abbrev Kept : ScanRequest → List ScanRequest → List ScanRequest → List Report → Type 0
  Kept req batch queue reports = (Member req batch ⊎ Member req queue) ⊎ IsReported req reports

  worker_round-Kept :
      (now : Moment S F) (height t : ℕ) (req : ScanRequest) (batch queue b q : List ScanRequest)
      (rs : List Report)
      → Member req batch ⊎ Member req (queue ++ now.arrived)
      → worker_round s now height batch queue ≡ Round.continued b q rs t
      → Kept req b q rs
  unfolding worker_round
  worker_round-Kept now height t req batch queue b q rs m h =
      let (e, f, _) = end_round-continued s now.headers _ b q rs t _ h in
      let (_, w) =
        rw (e, Returns) at
          (scan_block-Scanned now height
            (batch ++ (dequeue_at_height height (queue ++ now.arrived)).0)) in
      elim (place m) [
        | inl i ↦ elim (All_at _ req _ w i) [ inl j ↦ inl (inl j) | inr r ↦ inr r ]
        | inr i ↦ inl (inr (rw f (watch_again-keeps req rs _ i)))
      ]
    where
      place :
          Member req batch ⊎ Member req (queue ++ now.arrived)
          → Member req (batch ++ (dequeue_at_height height (queue ++ now.arrived)).0)
            ⊎ Member req (dequeue_at_height height (queue ++ now.arrived)).1
      place (inl i) = inl (Member-append_left req batch _ i)
      place (inr i) = elim (dequeue_at_height-keeps req height (queue ++ now.arrived) i) [
        | inl j ↦ inl (Member-append_right req batch _ j)
        | inr j ↦ inr j
      ]

  stops :
      (req : ScanRequest) (batch queue : List ScanRequest)
      → Member req batch ⊎ Member req queue
      → Member req (queue ++ batch)
  stops req batch queue (inl i) = Member-append_right req queue batch i
  stops req batch queue (inr i) = Member-append_left req queue batch i

  worker_loop-Kept :
      (moments : List (Moment S F)) (tip height : ℕ) (req : ScanRequest)
      (batch queue : List ScanRequest)
      → Member req batch ⊎ Member req queue
      → (worker_loop s moments tip height batch queue).result ≡ some (ok tt)
      → Member req (worker_loop s moments tip height batch queue).queue
        ⊎ IsReported req (worker_loop s moments tip height batch queue).reports
  unfolding worker_loop
  worker_loop-Kept [] tip height req batch queue m h = elim (Bool-cases (leb height tip)) [
    | inl e ↦ absurd (ground arith)
    | inr e ↦ rw e (inl (stops req batch queue m))
  ]
  worker_loop-Kept (now ∷ later) tip height req batch queue m h =
      elim (Bool-cases (leb height tip)) [
        | inr e ↦ rw e (inl (stops req batch queue m))
        | inl e ↦ elim (Round-cases (worker_round s now height batch queue)) [
          | inl (x, q, rs, g) ↦ absurd (let h' = rw (e, g) at h in cc)
          | inr (b, q, rs, t, g) ↦
              let h' = rw (e, g) at h in
              rw (e, g)
                (elim (worker_round-Kept now height t req batch queue b q rs (arrives m) g) [
                  | inl i ↦ elim (worker_loop-Kept later t ((height + 1) % 2 ^ 32) req b q i h') [
                    | inl j ↦ inl j
                    | inr (r, j, k) ↦ inr (r, Member-append_right r rs _ j, k)
                  ]
                  | inr (r, j, k) ↦ inr (r, Member-append_left r rs _ j, k)
                ])
        ]
      ]
    where
      arrives :
          Member req batch ⊎ Member req queue → Member req batch ⊎ Member req (queue ++ now.arrived)
      arrives (inl i) = inl i
      arrives (inr i) = inr (Member-append_left req queue _ i)

  -- A worker that returns without an error loses no request: each one that was queued is in the queue
  -- again, or there is a report for it.
  pub request_worker-Kept :
      (first : S) (moments : List (Moment S F)) (start_height : ℕ) (queue : List ScanRequest)
      → (request_worker s first moments start_height queue).result ≡ some (ok tt)
      → All
          (λ req.
            Member req (request_worker s first moments start_height queue).queue
            ⊎ IsReported req (request_worker s first moments start_height queue).reports)
          queue
  unfolding request_worker
  request_worker-Kept first moments start_height queue h =
      elim (Result-cases (s.header_db.chain_tip first)) [
        | inr (x, e) ↦ absurd (let h' = rw (request_worker, e) at h in cc)
        | inl (t, e) ↦
            let h' = rw (request_worker, e) at h in
            rw (request_worker, e)
              (All-of_members _ queue
                (λ req m. worker_loop-Kept moments t.height start_height req [] queue (inr m) h'))
      ]
