-- ===== src/Scanner/Worker/Watching.antt =====
-- `requestWorker`: what a scan finds, and where a request waits between scans.
use neutrino_elements.Prelude.{
  ℕ, ◌≤◌, ◌≡◌, sym, subst, ◌⊎◌, inl, inr, Bool, true, false, List, [], ◌∷◌, Member, here, there,
  Member-append_right, ok, arith, keep, map, ◌==◌, Bool-cases, if◌then◌else◌, >>=-eq-ok,
}
use neutrino_elements.Ledger.{Header, Block}
use neutrino_elements.Scanner.Requests.{ScanRequest, dequeue_at_height}
use neutrino_elements.Scanner.Blocks.{
  ScannerService, Report, items_bytes, block_filter_matches, extract_block_matches, extracted,
  block_reports,
}
use neutrino_elements.Scanner.Worker.{Moment, block_hash_at, scan_block, watch_again}
use neutrino_elements.Scanner.Worker.Requeueing.{again, watch_again_lem}

-- The same client and item, watched for good or not.
abbrev pub SameWatch : ScanRequest → ScanRequest → Type 0
SameWatch a b =
    (a.client_id ≡ b.client_id) × (a.item ≡ b.item) × (a.is_persistent ≡ b.is_persistent)

Member-map-keep :
    (r : Report) (reports : List Report)
    → Member r reports
    → r.request.is_persistent ≡ true
    → Member (again r) (map again (keep (λ x. x.request.is_persistent) reports))
Member-map-keep r [] m h = elim m [ ]
Member-map-keep r (x ∷ reports) (here e) h =
    let h' : x.request.is_persistent ≡ true = cc in rw h' (here (cc))
Member-map-keep r (x ∷ reports) (there m) h =
    let rest = Member-map-keep r reports m h in
    elim (Bool-cases x.request.is_persistent) [ inl e ↦ rw e (there rest) | inr e ↦ rw e rest ]

pub watch_again-Member :
    (r : Report) (reports : List Report) (queue : List ScanRequest)
    → Member r reports
    → r.request.is_persistent ≡ true
    → Member (again r) (watch_again reports queue)
watch_again-Member r reports queue m h =
    subst (Member (again r)) (sym (watch_again_lem reports queue))
      (Member-append_right (again r) queue _ (Member-map-keep r reports m h))

pub dequeue_at_height-selects :
    (req : ScanRequest) (queue : List ScanRequest)
    → Member req queue
    → Member req (dequeue_at_height req.start_height queue).0
unfolding dequeue_at_height
dequeue_at_height-selects req [] m = elim m [ ]
dequeue_at_height-selects req (x ∷ queue) (here e) =
    let b : (x.start_height == req.start_height) ≡ true = rw e (ground arith) in rw b (here e)
dequeue_at_height-selects req (x ∷ queue) (there m) =
    let rest = dequeue_at_height-selects req queue m in
    elim (Bool-cases (x.start_height == req.start_height)) [
      | inl b ↦ rw b (there rest)
      | inr b ↦ rw b rest
    ]

-- What the program's parts outside the scanner provide: the block service has the block of each
-- height's hash, with that height in its header.
abbrev pub HasBlocks : {S F G : Type 0} → ScannerService S F G → (ℕ → ℕ) → (ℕ → Block) → Type 0
HasBlocks s hash_of block_of =
    (height : ℕ)
    → (s.get_block (hash_of height) ≡ ok (block_of height))
      × ((block_of height).header.height ≡ height)

-- A moment where the header store has no other hashes, and where its tip, if any, is not below
-- `bound`.
abbrev pub Agrees : {S F G : Type 0} → ScannerService S F G → (ℕ → ℕ) → ℕ → Moment S F → Type 0
Agrees s hash_of bound now =
    ((height hash : ℕ) → block_hash_at s height now.headers ≡ ok hash → hash ≡ hash_of height)
    × ((t : Header) → s.header_db.chain_tip now.headers ≡ ok t → bound ≤ t.height)

-- A scan that returns has extracted the block's matches, or the filter matches none of the items.
abbrev pub Extracted :
    {S F G : Type 0}
    → ScannerService S F G
    → F
    → ℕ
    → Block
    → List ScanRequest
    → List ScanRequest
    → List Report
    → Type 0
Extracted s filters hash block batch b rs =
    ((rs ≡ (block_reports s hash block batch).0) × (b ≡ (block_reports s hash block batch).1))
    ⊎ ((rs ≡ [])
        × (b ≡ batch)
        × ((items : List (List ℕ)) × (items_bytes batch ≡ ok items)
            × (block_filter_matches s items hash filters ≡ ok false)))

module _ {S F G : Type 0} (s : ScannerService S F G) (hash_of : ℕ → ℕ) (block_of : ℕ → Block)
    (world : HasBlocks s hash_of block_of) where
  pub scan_block-Extracted :
      (now : Moment S F) (height bound : ℕ) (batch b : List ScanRequest) (rs : List Report)
      → Agrees s hash_of bound now
      → scan_block s now height batch ≡ ok (rs, b)
      → Extracted s now.filters (hash_of height) (block_of height) batch b rs
  unfolding scan_block extract_block_matches extracted
  scan_block-Extracted now height bound batch b rs (a, t) h =
      let (items, i, h1) = >>=-eq-ok (items_bytes batch) _ h in
      let (x, j, h2) = >>=-eq-ok (block_hash_at s height now.headers) _ h1 in
      let (m, k, h3) = >>=-eq-ok (block_filter_matches s items x now.filters) _ h2 in
      let e = a height x j in
      branch items m i (subst (λ y. block_filter_matches s items y now.filters ≡ ok m) e k) (
        subst (λ y. (if m then extract_block_matches s y batch else ok ([], batch)) ≡ ok (rs, b)) e
          h3)
    where
      branch :
          (items : List (List ℕ)) (m : Bool)
          → items_bytes batch ≡ ok items
          → block_filter_matches s items (hash_of height) now.filters ≡ ok m
          → (if m then extract_block_matches s (hash_of height) batch else ok ([], batch))
            ≡ ok (rs, b)
          → Extracted s now.filters (hash_of height) (block_of height) batch b rs
      branch items true i k h = let g = (world height).0 in inl (let h' = rw g at h in (cc, cc))
      branch items false i k h = inr (cc, cc, (items, i, k))
