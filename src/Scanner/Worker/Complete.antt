-- ===== src/Scanner/Worker/Complete.antt =====
-- `requestWorker`: a transaction that a request matches, through the worker's rounds.
use neutrino_elements.Prelude.{
  ℕ, ◌+◌, ◌%◌, ◌^◌, ◌≤◌, ◌≡◌, refl, sym, ap, subst, ◌∙◌, ◌⊎◌, inl, inr, true, false, List, [], ◌∷◌,
  ◌++◌, All, All_at, Member, Member-append_left, Member-append_right, some, ok, arith, leb, ◌==◌,
  Bool-cases, Result-cases,
}
use neutrino_elements.Ledger.{Header, Transaction, Block}
use neutrino_elements.Scanner.Requests.{ScanRequest, WatchItem, dequeue_at_height}
use neutrino_elements.Scanner.Blocks.{
  ScannerService, Report, block_filter_matches, block_reports, request_match,
}
use neutrino_elements.Scanner.Blocks.Matches.{block_reports-keeps}
use neutrino_elements.Scanner.Blocks.Misses.{
  FilterHas, items_bytes-Member, block_filter_matches-FilterHas, block_reports-Reports,
  block_reports-heights,
}
use neutrino_elements.Scanner.Worker.{
  Moment, Round, worker_round, watch_again, worker_loop, request_worker,
}
use neutrino_elements.Scanner.Worker.Progress.{Round-cases, end_round-continued}
use neutrino_elements.Scanner.Worker.Requeueing.{again, watch_again-keeps, dequeue_at_height-keeps}
use neutrino_elements.Scanner.Worker.Watching.{
  SameWatch, HasBlocks, Agrees, Extracted, watch_again-Member, dequeue_at_height-selects,
  scan_block-Extracted,
}

module _ {S F G : Type 0} (s : ScannerService S F G) (hash_of : ℕ → ℕ) (block_of : ℕ → Block)
    (world : HasBlocks s hash_of block_of) where
  module _ (req : ScanRequest) (item : WatchItem) (has_item : req.item ≡ some item) (height : ℕ)
      (tx : Transaction) (in_block : Member tx (block_of height).transactions)
      (matches : request_match req tx ≡ true) where
    -- A report for the client and the item: of the transaction, or, for a request that is not
    -- persistent, of another.
    abbrev pub Found : List Report → Type 0
    Found reports =
        (r : Report) × Member r reports
        × SameWatch req r.request
        × (((r.block_hash ≡ hash_of height) × (r.transaction ≡ tx)) ⊎ (req.is_persistent ≡ false))

    -- Before the scan of the height `n`, somewhere the client's item is watched, no later than from
    -- the transaction's height on.
    abbrev Waiting : ℕ → List ScanRequest → List ScanRequest → Type 0
    Waiting n batch queue =
        (q : ScanRequest) × SameWatch req q
        × ((Member q batch × (n ≤ height))
            ⊎ (Member q queue × (n ≤ q.start_height) × (q.start_height ≤ height)))

    place :
        (n : ℕ) (batch queue : List ScanRequest)
        → Waiting n batch queue
        → Waiting n (batch ++ (dequeue_at_height n queue).0) []
          ⊎ Waiting (n + 1) [] (dequeue_at_height n queue).1
    place n batch queue (q, w, inl (m, l)) = inl (q, w, inl (Member-append_left q batch _ m, l))
    place n batch queue (q, w, inr (m, l, k)) = elim (Bool-cases (q.start_height == n)) [
      | inl e ↦
          let e' : q.start_height ≡ n = ground arith in
          let i =
            subst (λ x. Member q (dequeue_at_height x queue).0) e'
              (dequeue_at_height-selects q queue m) in
          inl (q, w, inl (Member-append_right q batch _ i, omega arith))
      | inr e ↦ elim (dequeue_at_height-keeps q n queue m) [
        | inl i ↦ inl (q, w, inl (Member-append_right q batch _ i, omega arith))
        | inr i ↦ inr (q, w, inr (i, ground arith, k))
      ]
    ]

    SameWatch-match : (q : ScanRequest) → SameWatch req q → request_match q tx ≡ true
    unfolding request_match
    SameWatch-match q (a, b, c) = rw (← b) matches

    -- The reports of the batch at a height, and the requests watched again.
    reported :
        (n : ℕ) (q : ScanRequest) (batch remain : List ScanRequest)
        → SameWatch req q
        → Member q batch
        → n ≤ height
        → Found (block_reports s (hash_of n) (block_of n) batch).0
          ⊎ Waiting
              ((n + 1) % 2 ^ 32)
              (block_reports s (hash_of n) (block_of n) batch).1
              (watch_again (block_reports s (hash_of n) (block_of n) batch).0 remain)
    reported n q batch remain (a, b, c) m l = elim (Bool-cases (n == height)) [
      | inl e ↦
          let e' : height ≡ n = ground arith in
          let (r, i, p, x, y) =
            block_reports-Reports s (hash_of n) (block_of n) q tx batch m
              (subst (λ k. Member tx (block_of k).transactions) e' in_block)
              (SameWatch-match q (a, b, c)) in
          inl (r, i, rw p (a, b, c), inl (x ∙ ap hash_of (sym e'), y))
      | inr e ↦ elim (block_reports-keeps s (hash_of n) (block_of n) q batch m) [
        | inl i ↦ inr (q, (a, b, c), inl (i, ground arith))
        | inr (r, i, p) ↦ elim (Bool-cases req.is_persistent) [
          | inr f ↦ inl (r, i, rw p (a, b, c), inr f)
          | inl f ↦
              let k : r.request.is_persistent ≡ true = rw p (sym c ∙ f) in
              let o : r.block_height ≡ n =
                All_at (λ r. r.block_height ≡ (block_of n).header.height) r _
                  (block_reports-heights s (hash_of n) (block_of n) batch) i
                ∙ (world n).1 in
              inr (
                again r,
                rw p (a, b, f),
                inr (watch_again-Member r _ remain i k, rw o (omega arith), rw o (ground arith)),
              )
        ]
      ]
    ]

    scanned :
        (n : ℕ) (filters : F) (batch remain b : List ScanRequest) (rs : List Report)
        → FilterHas s filters (hash_of height) item
        → Extracted s filters (hash_of n) (block_of n) batch b rs
        → Waiting n batch [] ⊎ Waiting (n + 1) [] remain
        → Found rs ⊎ Waiting ((n + 1) % 2 ^ 32) b (watch_again rs remain)
    scanned n filters batch remain b rs f x (inl (q, w, inr (m, l, k))) = elim m [ ]
    scanned n filters batch remain b rs f x (inr (q, w, inl (m, l))) = elim m [ ]
    scanned n filters batch remain b rs f x (inr (q, w, inr (m, l, k))) =
        inr (q, w, inr (watch_again-keeps q rs remain m, omega arith, k))
    scanned n filters batch remain b rs f (inl (p, p')) (inl (q, w, inl (m, l))) =
        rw (p, p') (reported n q batch remain w m l)
    scanned n filters batch remain b rs f (inr (p, p', (items, i, k))) (inl (q, w, inl (m, l))) =
        elim (Bool-cases (n == height)) [
          | inr e ↦ inr (q, w, inl (subst (Member q) (sym p') m, ground arith))
          | inl e ↦
              let e' : n ≡ height = ground arith in
              let j =
                block_filter_matches-FilterHas s items (hash_of height) filters item f
                  (items_bytes-Member q item batch items (sym w.1 ∙ has_item) m i) in
              let k' =
                subst (λ y. block_filter_matches s items (hash_of y) filters ≡ ok false) e' k in
              absurd cc
        ]

    starts : (n : ℕ) (batch queue : List ScanRequest) → Waiting n batch queue → n ≤ height
    starts n batch queue (q, w, inl (m, l)) = l
    starts n batch queue (q, w, inr (m, l, k)) = omega arith

    arrives :
        (now : Moment S F) (n : ℕ) (batch queue : List ScanRequest)
        → Waiting n batch queue
        → Waiting n batch (queue ++ now.arrived)
    arrives now n batch queue (q, w, inl m) = (q, w, inl m)
    arrives now n batch queue (q, w, inr (m, l, k)) =
        (q, w, inr (Member-append_left q queue _ m, l, k))

    module _ (bound : ℕ) (reached : height ≤ bound) where
      -- A moment in which the transaction's block has its filter.
      abbrev pub Sees : Moment S F → Type 0
      Sees now = Agrees s hash_of bound now × FilterHas s now.filters (hash_of height) item

      worker_round-Found :
          (now : Moment S F) (n t : ℕ) (batch queue b q : List ScanRequest) (rs : List Report)
          → Sees now
          → Waiting n batch (queue ++ now.arrived)
          → worker_round s now n batch queue ≡ Round.continued b q rs t
          → (Found rs ⊎ Waiting ((n + 1) % 2 ^ 32) b q) × (bound ≤ t)
      unfolding worker_round
      worker_round-Found now n t batch queue b q rs (a, f) w h =
          let (e, k, (tip, i, j)) = end_round-continued s now.headers _ b q rs t _ h in
          (
            subst (λ x. Found rs ⊎ Waiting ((n + 1) % 2 ^ 32) b x) (sym k)
                (scanned n now.filters _ _ b rs f
                  (scan_block-Extracted s hash_of block_of world now n bound _ b rs a e)
                  (place n batch (queue ++ now.arrived) w)),
            subst (λ x. bound ≤ x) j (a.1 tip i),
          )

      worker_loop-Found :
          (moments : List (Moment S F)) (tip n : ℕ) (batch queue : List ScanRequest)
          → All Sees moments
          → bound ≤ tip
          → Waiting n batch queue
          → (worker_loop s moments tip n batch queue).result ≡ some (ok tt)
          → Found (worker_loop s moments tip n batch queue).reports
      unfolding worker_loop
      worker_loop-Found [] tip n batch queue a l w h = elim (Bool-cases (leb n tip)) [
        | inl e ↦ absurd (ground arith)
        | inr e ↦ absurd (let k = starts n batch queue w in ground arith)
      ]
      worker_loop-Found (now ∷ later) tip n batch queue (a, c) l w h =
          elim (Bool-cases (leb n tip)) [
            | inr e ↦ absurd (let k = starts n batch queue w in ground arith)
            | inl e ↦ elim (Round-cases (worker_round s now n batch queue)) [
              | inl (x, q, rs, g) ↦ absurd (let h' = rw (e, g) at h in cc)
              | inr (b, q, rs, t, g) ↦
                  let h' = rw (e, g) at h in
                  let (found, k) =
                    worker_round-Found now n t batch queue b q rs a (arrives now n batch queue w)
                      g in
                  rw (e, g)
                    (elim found [
                      | inl (r, i, v, x) ↦ (r, Member-append_left r rs _ i, v, x)
                      | inr w' ↦
                          let (r, i, v, x) =
                            worker_loop-Found later t ((n + 1) % 2 ^ 32) b q c k w' h' in
                          (r, Member-append_right r rs _ i, v, x)
                    ])
            ]
          ]

      -- A worker that starts no later than the request and returns without an error has, for a
      -- transaction that the request matches in the block of a height between the request's start and
      -- all tips that it read, a report for the request's client and item: of this transaction in
      -- this block where the request is persistent. This is under the conditions that no block is
      -- replaced meanwhile, that the block service has every block, and that the filter of that block
      -- is stored and matches the item's bytes.
      pub request_worker-Found :
          (first : S) (moments : List (Moment S F)) (start_height : ℕ) (queue : List ScanRequest)
          → ((t : Header) → s.header_db.chain_tip first ≡ ok t → bound ≤ t.height)
          → All Sees moments
          → Member req queue
          → start_height ≤ req.start_height
          → req.start_height ≤ height
          → (request_worker s first moments start_height queue).result ≡ some (ok tt)
          → Found (request_worker s first moments start_height queue).reports
      unfolding request_worker
      request_worker-Found first moments start_height queue l a m k k' h =
          elim (Result-cases (s.header_db.chain_tip first)) [
            | inr (x, e) ↦ absurd (let h' = rw (request_worker, e) at h in cc)
            | inl (t, e) ↦
                let h' = rw (request_worker, e) at h in
                rw (request_worker, e)
                  (worker_loop-Found moments t.height start_height [] queue a (l t e)
                    (req, (refl, refl, refl), inr (m, k, k')) h')
          ]
