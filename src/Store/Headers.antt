-- ===== src/Store/Headers.antt =====
-- internal/infrastructure/storage/db/inmemory/header_inmemory.go. The map from hashes to pointers is
-- an association list in some iteration order; the mutex makes each call one step.
pub mod Tip
pub mod Locator
pub mod Ancestors
use neutrino_elements.Prelude.{
  ℕ, zero, suc, ◌+◌, ◌-◌, ◌*◌, ◌%◌, ◌^◌, Bool, true, false, ◌&&◌, ◌||◌, List, [], ◌∷◌, ◌++◌, Option,
  none, some, Result, ok, err, Error, ltb, leb, ◌==◌, lookup, insert, length, last_or, or_error,
  if◌then◌else◌, ◌>>=◌,
}
use neutrino_elements.Ledger.{Header}
use neutrino_elements.Store.Interface.{BlockHeaderRepository}

abbrev pub Headers : Type 0
Headers = List (ℕ × Header)

-- The loop of `ChainTip` over the map; `none` is the nil that it starts from.
unfoldable pub tip_loop : Option Header → Headers → Option Header
tip_loop tip [] = tip
tip_loop none ((k, h) ∷ m) = tip_loop (some h) m
tip_loop (some t) ((k, h) ∷ m) = tip_loop (some (if ltb t.height h.height then h else t)) m

-- The error stands for an empty map, where the loop makes no round.
unfoldable pub chain_tip : Headers → Result Header
unfolding tip_loop
chain_tip m = or_error Error.no_block_headers (tip_loop none m)

unfoldable pub get_block_header : ℕ → Headers → Result Header
get_block_header hash m = or_error Error.block_not_found (lookup hash m)

unfoldable pub get_block_header_by_height : ℕ → Headers → Result Header
get_block_header_by_height n [] = err Error.block_not_found
get_block_header_by_height n ((k, h) ∷ m) =
    if h.height == n then ok h else get_block_header_by_height n m

unfoldable pub get_block_hash_by_height : ℕ → Headers → Result ℕ
get_block_hash_by_height n m =
    get_block_header_by_height n m >>= λ h. or_error Error.external h.hash

-- `&header` is a pointer to the variable of the range loop, which the module's Go version keeps for
-- all rounds: every entry of one call points to `cell`, the header that the variable holds in the
-- end. A header without a hash is passed over.
unfoldable pub write_loop : Header → List Header → Headers → Headers
write_loop cell [] m = m
write_loop cell (h ∷ hs) m =
    write_loop cell hs (elim h.hash [ some k ↦ insert k cell m | none ↦ m ])

unfoldable pub write_headers : List Header → Headers → Result (Unit {0}) × Headers
unfolding write_loop
write_headers [] m = (ok tt, m)
write_headers (h ∷ hs) m = (ok tt, write_loop (last_or h hs) (h ∷ hs) m)

-- Heights and the decrement of `blockLocatorFromHash` are uint32.
unfoldable pub next_decrement : ℕ → ℕ → ℕ
next_decrement count decrement = if ltb 10 count then decrement * 2 % 2 ^ 32 else decrement

unfoldable pub next_height : ℕ → ℕ → ℕ
next_height height decrement = if ltb height decrement then 0 else height - decrement

-- wire.MaxBlockLocatorsPerMsg is a parameter.
module _ (max_locators : ℕ) where
  abbrev pub goes_on : ℕ → List ℕ → Bool
  goes_on height locator = ltb 0 height && ltb (length locator) max_locators

  -- The loop of `blockLocatorFromHash`. Each round adds a hash, so `max_locators` rounds are enough.
  unfoldable pub locator_loop : ℕ → Headers → ℕ → ℕ → List ℕ → Result (List ℕ)
  locator_loop zero m height decrement locator =
      if goes_on height locator then err Error.stuck else ok locator
  locator_loop (suc fuel) m height decrement locator =
      let round = get_block_hash_by_height height m >>= λ k.
      let locator' = locator ++ (k ∷ []) in
      locator_loop fuel m (next_height height decrement)
        (next_decrement (length locator') decrement) locator' in
      if goes_on height locator then round else ok locator

  unfoldable pub block_locator_from_hash : Header → Headers → Result (List ℕ)
  unfolding locator_loop
  block_locator_from_hash block m = or_error Error.external block.hash >>= λ hash.
      if block.height == 0
      then ok (hash ∷ [])
      else locator_loop max_locators m block.height 1 (hash ∷ [])

  unfoldable pub latest_block_locator : Headers → Result (List ℕ)
  latest_block_locator m = chain_tip m >>= λ tip. block_locator_from_hash tip m

-- The loop of `HasAllAncestors`: with rounds left in `fuel`, down from a header that was found.
unfoldable pub ancestors_loop : ℕ → Headers → Header → Result Bool
ancestors_loop zero m h = if ltb 1 h.height then err Error.stuck else ok true
ancestors_loop (suc fuel) m h =
    let round = or_error Error.external h.prev >>= λ k. elim (lookup k m) [
      | none ↦ ok false
      | some p ↦ ancestors_loop fuel m p
    ] in
    if ltb 1 h.height then round else ok true

-- The header of `hash` is used without a test for nil.
unfoldable pub has_all_ancestors : ℕ → ℕ → Headers → Result Bool
unfolding ancestors_loop
has_all_ancestors fuel hash [] = err Error.no_block_headers
has_all_ancestors fuel hash (e ∷ m) = elim (lookup hash (e ∷ m)) [
  | none ↦ err Error.panic
  | some h ↦ ancestors_loop fuel (e ∷ m) h
]

abbrev pub header_inmemory : ℕ → ℕ → BlockHeaderRepository Headers
header_inmemory max_locators fuel = record {
  chain_tip = chain_tip;
  get_block_header = get_block_header;
  get_block_hash_by_height = get_block_hash_by_height;
  write_headers = write_headers;
  latest_block_locator = latest_block_locator max_locators;
  has_all_ancestors = has_all_ancestors fuel;
}
