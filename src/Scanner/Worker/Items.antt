-- ===== src/Scanner/Worker/Items.antt =====
-- `requestWorker` where every request has an item: what it puts back has one too, and it ends with a
-- panic only if a service that it calls does.
use neutrino_elements.Prelude.{
  ℕ, ◌≢◌, refl, inl, inr, false, List, [], ◌∷◌, All, All-append, Option, none, some, Result, ok,
  err, Error, or_error, ◌==◌, Bool-cases, ◌>>=◌, some_of,
}
use neutrino_elements.Ledger.{Block, Transaction}
use neutrino_elements.Store.Interface.{FilterKey, FilterEntry}
use neutrino_elements.Scanner.Requests.{ScanRequest, dequeue_at_height}
use neutrino_elements.Scanner.Blocks.{
  ScannerService, Report, items_bytes, request_match, request_reports, block_reports,
  block_filter_matches, extracted, extract_block_matches, regular_filter_key,
}
use neutrino_elements.Scanner.Worker.{watch_again}

-- The request is not one of a call of `Watch` without WithWatchItem.
abbrev pub HasItem : ScanRequest → Type 0
HasItem req = req.item ≢ none

-- No panic, and the property of what is returned where there is no error.
abbrev pub Safely : {A : Type 0} → (A → Type 0) → Result A → Type 0
Safely P (ok a) = P a
Safely P (err e) = e ≢ Error.panic

abbrev pub Any : {A : Type 0} → A → Type 0
Any a = Unit {0}

pub Safely-bind :
    {A B : Type 0} (P : A → Type 0) (Q : B → Type 0) (r : Result A) (f : A → Result B)
    → Safely P r
    → ((a : A) → P a → Safely Q (f a))
    → Safely Q (r >>= f)
Safely-bind P Q (ok a) f p h = h a p
Safely-bind P Q (err e) f p h = p

-- The stores, the block service and the filters return errors, and do not panic.
pub record NoPanics {S F G : Type 0} (s : ScannerService S F G) : Type 0 where
  pub tips : (headers : S) → Safely Any (s.header_db.chain_tip headers)
  pub hashes :
      (height : ℕ) (headers : S) → Safely Any (s.header_db.get_block_hash_by_height height headers)
  pub stored : (k : FilterKey) (filters : F) → Safely Any (s.filter_db.get_filter k filters)
  pub blocks : (hash : ℕ) → Safely Any (s.get_block hash)
  pub parsed : (bs : List ℕ) → Safely Any (s.gcs_filter bs)
  pub matched : (hash : ℕ) (items : List (List ℕ)) (g : G) → Safely Any (s.match_any hash items g)

pub items_bytes-Safely :
    (reqs : List ScanRequest) → All HasItem reqs → Safely Any (items_bytes reqs)
unfolding items_bytes
items_bytes-Safely [] h = tt
items_bytes-Safely (req ∷ reqs) (h, hs) =
    Safely-bind Any Any (or_error Error.panic req.item) _ (item req.item h)
      (λ i u. Safely-bind Any Any (items_bytes reqs) _ (items_bytes-Safely reqs hs) (λ rest v. tt))
  where
    item : {A : Type 0} (o : Option A) → o ≢ none → Safely Any (or_error Error.panic o)
    item none h = absurd (h refl)
    item (some a) h = tt

pub dequeue_at_height-All :
    (height : ℕ) (queue : List ScanRequest)
    → All HasItem queue
    → All HasItem (dequeue_at_height height queue).0
      × All HasItem (dequeue_at_height height queue).1
unfolding dequeue_at_height
dequeue_at_height-All height [] h = (tt, tt)
dequeue_at_height-All height (x ∷ queue) (h, hs) =
    let (a, b) = dequeue_at_height-All height queue hs in
    elim (Bool-cases (x.start_height == height)) [
      | inl e ↦ rw e ((h, a), b)
      | inr e ↦ rw e (a, (h, b))
    ]

abbrev pub OfItems : List Report → Type 0
OfItems reports = All (λ r. HasItem r.request) reports

pub watch_again-All :
    (reports : List Report) (queue : List ScanRequest)
    → OfItems reports
    → All HasItem queue
    → All HasItem (watch_again reports queue)
unfolding watch_again
watch_again-All [] queue h k = k
watch_again-All (r ∷ reports) queue (h, hs) k = elim (Bool-cases r.request.is_persistent) [
  | inl e ↦ rw e (watch_again-All reports _ hs (All-append HasItem queue _ k (h, tt)))
  | inr e ↦ rw e (watch_again-All reports queue hs k)
]

-- The reports of a scan and the batch that it leaves.
abbrev pub Left : List Report × List ScanRequest → Type 0
Left (reports, batch) = OfItems reports × All HasItem batch

module _ {S F G : Type 0} (s : ScannerService S F G) where
  request_reports-All :
      (hash : ℕ) (block : Block) (req : ScanRequest) (txs : List Transaction)
      → HasItem req
      → OfItems (request_reports s hash block req txs)
  unfolding request_reports
  request_reports-All hash block req [] h = tt
  request_reports-All hash block req (tx ∷ txs) h =
      let rest = request_reports-All hash block req txs h in
      elim (Bool-cases (request_match req tx)) [ inl e ↦ rw e (h, rest) | inr e ↦ rw e rest ]

  block_reports-Left :
      (hash : ℕ) (block : Block) (reqs : List ScanRequest)
      → All HasItem reqs
      → Left (block_reports s hash block reqs)
  unfolding block_reports
  block_reports-Left hash block [] h = (tt, tt)
  block_reports-Left hash block (req ∷ reqs) (h, hs) =
      let (a, b) = block_reports-Left hash block reqs hs in
      let c =
        All-append _ (request_reports s hash block req block.transactions) _
          (request_reports-All hash block req block.transactions h) a in
      elim (Bool-cases (some_of (request_match req) block.transactions)) [
        | inl e ↦ (c, rw e b)
        | inr e ↦ (c, rw e (h, b))
      ]

  module _ (calm : NoPanics s) where
    pub block_filter_matches-Safely :
        (items : List (List ℕ)) (hash : ℕ) (filters : F)
        → Safely Any (block_filter_matches s items hash filters)
    unfolding block_filter_matches
    block_filter_matches-Safely items hash filters =
        found (s.filter_db.get_filter (regular_filter_key s hash) filters)
          (calm.stored (regular_filter_key s hash) filters)
      where
        found :
            (r : Result FilterEntry)
            → Safely Any r
            → Safely Any (elim r [
              | err Error.filter_not_found ↦ ok false
              | err e ↦ err e
              | ok filter ↦ s.gcs_filter filter.n_bytes >>= s.match_any hash items
            ])
        found (ok filter) h =
            Safely-bind Any Any (s.gcs_filter filter.n_bytes) _ (calm.parsed filter.n_bytes)
              (λ g u. calm.matched hash items g)
        found (err Error.filter_not_found) h = tt
        found (err e) h = h

    pub extract_block_matches-Safely :
        (hash : ℕ) (reqs : List ScanRequest)
        → All HasItem reqs
        → Safely Left (extract_block_matches s hash reqs)
    unfolding extract_block_matches extracted
    extract_block_matches-Safely hash reqs h = found (s.get_block hash) (calm.blocks hash)
      where
        found : (r : Result Block) → Safely Any r → Safely Left (extracted s hash reqs r)
        found (ok block) k = block_reports-Left hash block reqs h
        found (err Error.block_not_found) k = (tt, h)
        found (err e) k = k
