-- ===== src/Scanner/Blocks/Misses.antt =====
-- `extractBlockMatches` and `blockFilterMatches`: what they give for one request of a batch.
use neutrino_elements.Prelude.{
  ℕ, ◌≡◌, refl, sym, inl, inr, true, List, [], ◌∷◌, All, All-append, Member, here, there,
  Member-append_left, Member-append_right, some, ok, Error, Bool-cases, subst, ap, >>=-eq-ok,
  or_error, ok-injective,
}
use neutrino_elements.Ledger.{Transaction, Block}
use neutrino_elements.Store.Interface.{FilterEntry}
use neutrino_elements.Scanner.Requests.{ScanRequest, WatchItem, item_bytes}
use neutrino_elements.Scanner.Blocks.{
  ScannerService, Report, items_bytes, request_match, request_reports, block_reports,
  block_filter_matches, regular_filter_key,
}

-- The store has a filter for the block, which matches each set of items that has this one.
abbrev pub FilterHas : {S F G : Type 0} → ScannerService S F G → F → ℕ → WatchItem → Type 0
FilterHas {G} s filters block_hash item =
    (entry : FilterEntry) × (s.filter_db.get_filter (regular_filter_key s block_hash) filters
      ≡ ok entry)
    × ((filter : G) × (s.gcs_filter entry.n_bytes ≡ ok filter)
        × ((items : List (List ℕ))
            → Member (item_bytes item) items
            → s.match_any block_hash items filter ≡ ok true))

-- A report of the transaction for the request.
abbrev pub Reports : ScanRequest → ℕ → Transaction → List Report → Type 0
Reports req block_hash tx reports =
    (r : Report) × Member r reports
    × (r.request ≡ req)
    × (r.block_hash ≡ block_hash)
    × (r.transaction ≡ tx)

pub items_bytes-Member :
    (req : ScanRequest) (item : WatchItem) (reqs : List ScanRequest) (items : List (List ℕ))
    → req.item ≡ some item
    → Member req reqs
    → items_bytes reqs ≡ ok items
    → Member (item_bytes item) items
unfolding items_bytes
items_bytes-Member req item [] items e m h = elim m [ ]
items_bytes-Member req item (x ∷ reqs) items e m h =
    let (i, p, h') = >>=-eq-ok (or_error Error.panic x.item) _ h in
    let (rest, q, h'') = >>=-eq-ok (items_bytes reqs) _ h' in
    subst (Member (item_bytes item)) (ok-injective h'')
      (found i rest p (λ k. items_bytes-Member req item reqs rest e k q) m)
  where
    found :
        (i : WatchItem) (rest : List (List ℕ))
        → or_error Error.panic x.item ≡ ok i
        → (Member req reqs → Member (item_bytes item) rest)
        → Member req (x ∷ reqs)
        → Member (item_bytes item) (item_bytes i ∷ rest)
    found i rest p q (here k) =
        let n : x.item ≡ some item = cc in
        let p' : item ≡ i = let p'' = rw n at p in cc in here (ap item_bytes (sym p'))
    found i rest p q (there k) = there (q k)

module _ {S F G : Type 0} (s : ScannerService S F G) where
  pub block_filter_matches-FilterHas :
      (items : List (List ℕ)) (block_hash : ℕ) (filters : F) (item : WatchItem)
      → FilterHas s filters block_hash item
      → Member (item_bytes item) items
      → block_filter_matches s items block_hash filters ≡ ok true
  unfolding block_filter_matches
  block_filter_matches-FilterHas items block_hash filters item (entry, e, (g, f, h)) m =
      rw (block_filter_matches, e, f) (h items m)

  module _ (block_hash : ℕ) (block : Block) where
    request_reports-Reports :
        (req : ScanRequest) (tx : Transaction) (txs : List Transaction)
        → Member tx txs
        → request_match req tx ≡ true
        → Reports req block_hash tx (request_reports s block_hash block req txs)
    unfolding request_reports
    request_reports-Reports req tx [] m h = elim m [ ]
    request_reports-Reports req tx (x ∷ txs) (here e) h =
        let h' : request_match req x ≡ true = cc in rw h' (_, here refl, refl, refl, e)
    request_reports-Reports req tx (x ∷ txs) (there m) h =
        let (r, i, a, b, c) = request_reports-Reports req tx txs m h in
        elim (Bool-cases (request_match req x)) [
          | inl e ↦ rw e (r, there i, a, b, c)
          | inr e ↦ rw e (r, i, a, b, c)
        ]

    -- Each transaction of the block that a request of the batch matches is reported for it.
    pub block_reports-Reports :
        (req : ScanRequest) (tx : Transaction) (reqs : List ScanRequest)
        → Member req reqs
        → Member tx block.transactions
        → request_match req tx ≡ true
        → Reports req block_hash tx (block_reports s block_hash block reqs).0
    unfolding block_reports
    block_reports-Reports req tx [] m i h = elim m [ ]
    block_reports-Reports req tx (x ∷ reqs) (here e) i h =
        let h' : request_match x tx ≡ true = cc in
        let (r, j, a, b, c) = request_reports-Reports x tx block.transactions i h' in
        (r, Member-append_left r _ (block_reports s block_hash block reqs).0 j, cc, b, c)
    block_reports-Reports req tx (x ∷ reqs) (there m) i h =
        let (r, j, a, b, c) = block_reports-Reports req tx reqs m i h in
        (r, Member-append_right r _ (block_reports s block_hash block reqs).0 j, a, b, c)

    request_reports-heights :
        (req : ScanRequest) (txs : List Transaction)
        → All
            (λ r. r.block_height ≡ block.header.height)
            (request_reports s block_hash block req txs)
    unfolding request_reports
    request_reports-heights req [] = tt
    request_reports-heights req (tx ∷ txs) = elim (Bool-cases (request_match req tx)) [
      | inl e ↦ rw e (refl, request_reports-heights req txs)
      | inr e ↦ rw e (request_reports-heights req txs)
    ]

    pub block_reports-heights :
        (reqs : List ScanRequest)
        → All (λ r. r.block_height ≡ block.header.height) (block_reports s block_hash block reqs).0
    unfolding block_reports
    block_reports-heights [] = tt
    block_reports-heights (req ∷ reqs) =
        All-append (λ r. r.block_height ≡ block.header.height)
          (request_reports s block_hash block req block.transactions)
          (block_reports s block_hash block reqs).0 (request_reports-heights req block.transactions)
          (block_reports-heights reqs)
