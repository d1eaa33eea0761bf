-- ===== src/Scanner/Blocks/Matches.antt =====
-- The reports of a block: what each stands for, and the requests that go on.
use neutrino_elements.Prelude.{
  ℕ, ◌≡◌, refl, ◌⊎◌, inl, inr, true, false, List, [], ◌∷◌, All, All-append, All-of_members, Member,
  here, there, Member-append_left, Member-append_right, Result, ok, err, Error, Returns, arith,
  some_of, Bool-cases,
}
use neutrino_elements.Ledger.{Transaction, Block}
use neutrino_elements.Scanner.Requests.{ScanRequest}
use neutrino_elements.Scanner.Blocks.{
  ScannerService, Report, request_match, request_reports, block_reports, extracted,
  extract_block_matches,
}

-- A report of a transaction that the request matches, of the block that the service has.
abbrev pub IsReport : {S F G : Type 0} → ScannerService S F G → Report → Type 0
IsReport s r =
    (b : Block) × (s.get_block r.block_hash ≡ ok b)
    × (r.block_height ≡ b.header.height)
    × Member r.transaction b.transactions
    × (request_match r.request r.transaction ≡ true)

-- A request for which there is a report.
abbrev pub IsReported : ScanRequest → List Report → Type 0
IsReported req rs = (r : Report) × Member r rs × (r.request ≡ req)

module _ {S F G : Type 0} (s : ScannerService S F G) (block_hash : ℕ) (block : Block) where
  some_of-Member :
      (req : ScanRequest) (txs : List Transaction)
      → some_of (request_match req) txs ≡ true
      → IsReported req (request_reports s block_hash block req txs)
  unfolding request_reports
  some_of-Member req [] h = absurd cc
  some_of-Member req (tx ∷ txs) h = elim (Bool-cases (request_match req tx)) [
    | inl e ↦ rw e (_, here refl, refl)
    | inr e ↦ let (r, m, q) = some_of-Member req txs (ground arith) in rw e (r, m, q)
  ]

  request_reports-All :
      (req : ScanRequest) (txs : List Transaction)
      → s.get_block block_hash ≡ ok block
      → ((tx : Transaction) → Member tx txs → Member tx block.transactions)
      → All (IsReport s) (request_reports s block_hash block req txs)
  unfolding request_reports
  request_reports-All req [] g i = tt
  request_reports-All req (tx ∷ txs) g i =
      let rest = request_reports-All req txs g (λ t m. i t (there m)) in
      elim (Bool-cases (request_match req tx)) [
        | inl e ↦ rw e ((block, g, refl, i tx (here refl), e), rest)
        | inr e ↦ rw e rest
      ]

  block_reports-All :
      (reqs : List ScanRequest)
      → s.get_block block_hash ≡ ok block
      → All (IsReport s) (block_reports s block_hash block reqs).0
  unfolding block_reports
  block_reports-All [] g = tt
  block_reports-All (req ∷ reqs) g =
      All-append (IsReport s) (request_reports s block_hash block req block.transactions)
        (block_reports s block_hash block reqs).0
        (request_reports-All req block.transactions g (λ t m. m)) (block_reports-All reqs g)

  -- Each request of a batch remains, or there is a report for it.
  pub block_reports-keeps :
      (req : ScanRequest) (reqs : List ScanRequest)
      → Member req reqs
      → Member req (block_reports s block_hash block reqs).1
        ⊎ IsReported req (block_reports s block_hash block reqs).0
  unfolding block_reports
  block_reports-keeps req [] m = elim m [ ]
  block_reports-keeps req (x ∷ reqs) (there m) = elim (block_reports-keeps req reqs m) [
    | inl k ↦ inl (elim (Bool-cases (some_of (request_match x) block.transactions)) [
      | inl e ↦ rw e k
      | inr e ↦ rw e (there k)
    ])
    | inr (r, i, q) ↦
        inr (r, Member-append_right r _ (block_reports s block_hash block reqs).0 i, q)
  ]
  block_reports-keeps req (x ∷ reqs) (here h) =
      elim (Bool-cases (some_of (request_match x) block.transactions)) [
        | inl e ↦
            let (r, i, q) = some_of-Member x block.transactions e in
            inr (r, Member-append_left r _ (block_reports s block_hash block reqs).0 i, cc)
        | inr e ↦ inl (rw e (here h))
      ]

  block_reports-unmatched :
      (reqs : List ScanRequest)
      → All
          (λ req. some_of (request_match req) block.transactions ≡ false)
          (block_reports s block_hash block reqs).1
  unfolding block_reports
  block_reports-unmatched [] = tt
  block_reports-unmatched (x ∷ reqs) =
      elim (Bool-cases (some_of (request_match x) block.transactions)) [
        | inl e ↦ rw e (block_reports-unmatched reqs)
        | inr e ↦ rw e (e, block_reports-unmatched reqs)
      ]

-- Sound reports, where each request remains or is reported.
abbrev pub Scanned :
    {S F G : Type 0}
    → ScannerService S F G
    → List ScanRequest
    → List Report × List ScanRequest
    → Type 0
Scanned s batch (reports, remain) =
    All (IsReport s) reports × All (λ req. Member req remain ⊎ IsReported req reports) batch

module _ {S F G : Type 0} (s : ScannerService S F G) (block_hash : ℕ) where
  pub nothing_found-Scanned : (batch : List ScanRequest) → Scanned s batch ([], batch)
  nothing_found-Scanned batch = (tt, All-of_members _ batch (λ req m. inl m))

  extracted-Scanned :
      (requests : List ScanRequest) (r : Result Block)
      → s.get_block block_hash ≡ r
      → Returns (Scanned s requests) (extracted s block_hash requests r)
  unfolding extracted
  extracted-Scanned requests (ok block) g = (
    block_reports-All s block_hash block requests g,
    All-of_members _ requests (λ req m. block_reports-keeps s block_hash block req requests m),
  )
  extracted-Scanned requests (err Error.block_not_found) g = nothing_found-Scanned requests
  extracted-Scanned requests (err e) g = tt

  pub extract_block_matches-Scanned :
      (requests : List ScanRequest)
      → Returns (Scanned s requests) (extract_block_matches s block_hash requests)
  unfolding extract_block_matches
  extract_block_matches-Scanned requests = extracted-Scanned requests (s.get_block block_hash) refl

  -- Where the block service has the block, a request goes on to the next block only if none of the
  -- transactions matches it, and for any other there is a report. Each report is of a transaction of
  -- the block that matches its request, with the height in the block's header.
  pub extract_block_matches_lem :
      (block : Block) (requests : List ScanRequest)
      → s.get_block block_hash ≡ ok block
      → (reports : List Report) × (remain : List ScanRequest) × (extract_block_matches s block_hash
            requests
          ≡ ok (reports, remain))
        × All (IsReport s) reports
        × All (λ req. some_of (request_match req) block.transactions ≡ false) remain
        × All (λ req. Member req remain ⊎ IsReported req reports) requests
  unfolding extract_block_matches extracted
  extract_block_matches_lem block requests g = (
    (block_reports s block_hash block requests).0,
    (block_reports s block_hash block requests).1,
    rw g,
    block_reports-All s block_hash block requests g,
    block_reports-unmatched s block_hash block requests,
    All-of_members _ requests (λ req m. block_reports-keeps s block_hash block req requests m),
  )
