-- ===== src/Store/Postgres/Headers.antt =====
-- internal/infrastructure/storage/db/pg/header_repository_impl.go, over the table `block_header`.
pub mod Transactions
pub mod Agreement
use neutrino_elements.Prelude.{
  ℕ, zero, suc, ◌%◌, ◌^◌, Bool, true, false, ◌||◌, List, [], ◌∷◌, ◌++◌, Option, none, some, Result,
  ok, err, Error, ltb, ◌==◌, lookup, insert, length, or_error, if◌then◌else◌, ◌>>=◌,
}
use neutrino_elements.Ledger.{Header}
use neutrino_elements.Store.Interface.{BlockHeaderRepository}
use neutrino_elements.Store.Headers.{Headers, next_decrement, next_height, goes_on, ancestors_loop}

-- A row; the hash is the number that the text stands for.
pub record BlockHeader : Type 0 where
  pub hash : ℕ
  pub height : ℕ
  pub header_bytes : List ℕ

abbrev pub Rows : Type 0
Rows = List BlockHeader

-- `Get`: the first row that the condition selects.
unfoldable pub find_row : (BlockHeader → Bool) → Rows → Option BlockHeader
find_row p [] = none
find_row p (r ∷ t) = if p r then some r else find_row p t

-- `select max(height)`.
unfoldable pub max_height : Rows → ℕ
max_height [] = 0
max_height (r ∷ t) = let below = max_height t in if ltb below r.height then r.height else below

-- The primary key is the hash, and the height is unique.
unfoldable pub conflicts : BlockHeader → Rows → Bool
conflicts r [] = false
conflicts r (x ∷ t) = if (x.hash == r.hash) || (x.height == r.height) then true else conflicts r t

-- The loop of `WriteHeaders` ends with the rows to commit, with a unique violation, or with an error.
pub data Attempt : Type 0 where
  complete : Rows → Attempt
  violation : Attempt
  failed : Error → Attempt

-- block.Header.Serialize and block.DeserializeHeader are parameters.
module _ (serialize : Header → Result (List ℕ)) (deserialize : List ℕ → Result Header) where
  unfoldable pub chain_tip : Rows → Result Header
  unfolding max_height find_row
  chain_tip t =
      or_error Error.no_block_headers (find_row (λ r. r.height == max_height t) t) >>= λ r.
      deserialize r.header_bytes

  unfoldable pub get_block_header : ℕ → Rows → Result Header
  get_block_header hash t =
      or_error Error.block_not_found (find_row (λ r. r.hash == hash) t) >>= λ r.
      deserialize r.header_bytes

  unfoldable pub get_block_header_by_height : ℕ → Rows → Result Header
  get_block_header_by_height height t =
      or_error Error.no_block_headers (find_row (λ r. r.height == height) t) >>= λ r.
      deserialize r.header_bytes

  unfoldable pub get_block_hash_by_height : ℕ → Rows → Result ℕ
  unfolding get_block_header_by_height
  get_block_hash_by_height height t =
      get_block_header_by_height height t >>= λ h. or_error Error.external h.hash

  unfoldable pub row_of : Header → Result BlockHeader
  row_of h = serialize h >>= λ bytes. or_error Error.external h.hash >>= λ hash.
      ok (record { hash = hash; height = h.height; header_bytes = bytes })

  unfoldable pub insert_loop : List Header → Rows → Attempt
  unfolding row_of
  insert_loop [] t = Attempt.complete t
  insert_loop (h ∷ hs) t = elim (row_of h) [
    | err e ↦ Attempt.failed e
    | ok r ↦
        let rest = insert_loop hs (t ++ (r ∷ [])) in
        if conflicts r t then Attempt.violation else rest
  ]

  -- Where the loop returns early, the deferred Rollback undoes what the transaction has inserted.
  unfoldable pub write_headers : List Header → Rows → Result (Unit {0}) × Rows
  unfolding insert_loop
  write_headers hs t = elim (insert_loop hs t) [
    | Attempt.complete t' ↦ (ok tt, t')
    | Attempt.violation ↦ (ok tt, t)
    | Attempt.failed e ↦ (err e, t)
  ]

  unfoldable pub get_all_block_headers : Rows → Result (List Header)
  get_all_block_headers [] = ok []
  get_all_block_headers (r ∷ t) =
      deserialize r.header_bytes >>= λ h. get_all_block_headers t >>= λ hs. ok (h ∷ hs)

  -- The map by hash, and the header of the hash asked for.
  unfoldable pub headers_by_hash : List Header → Headers → Result Headers
  headers_by_hash [] m = ok m
  headers_by_hash (h ∷ hs) m =
      or_error Error.external h.hash >>= λ k. headers_by_hash hs (insert k h m)

  unfoldable pub has_all_ancestors : ℕ → ℕ → Rows → Result Bool
  unfolding get_all_block_headers headers_by_hash
  has_all_ancestors fuel hash t = get_all_block_headers t >>= λ headers.
      headers_by_hash headers [] >>= λ m.
      or_error Error.block_not_found (lookup hash m) >>= λ h. ancestors_loop fuel m h

  unfoldable pub headers_by_height : List Header → List (ℕ × Header) → List (ℕ × Header)
  headers_by_height [] m = m
  headers_by_height (h ∷ hs) m = headers_by_height hs (insert h.height h m)

  module _ (max_locators : ℕ) where
    -- A height that the map does not have gives a nil, whose `Hash` panics.
    unfoldable pub locator_loop : ℕ → List (ℕ × Header) → ℕ → ℕ → List ℕ → Result (List ℕ)
    locator_loop zero m height decrement locator =
        if goes_on max_locators height locator then err Error.stuck else ok locator
    locator_loop (suc fuel) m height decrement locator =
        let round = or_error Error.panic (lookup height m) >>= λ h.
        or_error Error.external h.hash >>= λ k.
        let locator' = locator ++ (k ∷ []) in
        locator_loop fuel m (next_height height decrement)
          (next_decrement (length locator') decrement) locator' in
        if goes_on max_locators height locator then round else ok locator

    unfoldable pub block_locator_from_hash : Header → Rows → Result (List ℕ)
    unfolding locator_loop get_all_block_headers headers_by_height
    block_locator_from_hash block t = get_all_block_headers t >>= λ headers.
        or_error Error.external block.hash >>= λ hash.
        if block.height == 0
        then ok (hash ∷ [])
        else locator_loop max_locators (headers_by_height headers []) block.height 1 (hash ∷ [])

    unfoldable pub latest_block_locator : Rows → Result (List ℕ)
    unfolding chain_tip block_locator_from_hash
    latest_block_locator t = chain_tip t >>= λ tip. block_locator_from_hash tip t

  abbrev pub header_postgres : ℕ → ℕ → BlockHeaderRepository Rows
  header_postgres max_locators fuel = record {
    chain_tip = chain_tip;
    get_block_header = get_block_header;
    get_block_hash_by_height = get_block_hash_by_height;
    write_headers = write_headers;
    latest_block_locator = latest_block_locator max_locators;
    has_all_ancestors = has_all_ancestors fuel;
  }
