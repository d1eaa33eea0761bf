-- ===== src/Node/Sync.antt =====
-- pkg/node/cmd_headers.go, cmd_block.go, chainsync.go, and the loops of node.go that write to the
-- stores. What a handler sends to a channel or does after it is a list of effects; a handler ends with
-- them or with an error.
pub mod Forwarding
pub mod Advance
use neutrino_elements.Prelude.{
  ℕ, zero, suc, ◌+◌, ◌-◌, ◌*◌, ◌%◌, ◌^◌, Bool, true, false, ◌&&◌, List, [], ◌∷◌, ◌++◌, Option, none,
  some, Result, ok, err, Error, ltb, leb, ◌==◌, keep, last_or, not, map, or_error, if◌then◌else◌,
  ◌>>=◌,
}
use neutrino_elements.Ledger.{Header, Block}
use neutrino_elements.Store.Interface.{
  BlockHeaderRepository, FilterRepository, FilterKey, FilterEntry,
}

pub data Effect : Type 0 where
  -- a header goes to `blockHeadersCh`
  forward : Header → Effect
  -- the method `sync`, with the peer at hand
  sync : Effect
  -- the peer's tip is set
  set_peers_tip : ℕ → Effect
  -- the mempool is told of a block
  check_tx_confirmed : Block → Effect

-- Heights are uint32: one less than 0 is the greatest.
unfoldable pub check_headers_in_sequence : List Header → Bool
check_headers_in_sequence [] = true
check_headers_in_sequence (a ∷ []) = true
check_headers_in_sequence (a ∷ b ∷ hs) =
    if a.height == (b.height + (2 ^ 32 - 1)) % 2 ^ 32
    then check_headers_in_sequence (b ∷ hs)
    else false

-- The header that stands for the tip of an empty store.
abbrev pub no_tip : Header
no_tip = record { height = 0; prev = none; hash = none }

unfoldable pub tip_or_zero : Result Header → Result Header
tip_or_zero (ok tip) = ok tip
tip_or_zero (err Error.no_block_headers) = ok no_tip
tip_or_zero (err e) = err e

-- The headers above the tip where the message begins below it, and else all.
unfoldable pub new_headers : Header → Header → List Header → List Header
new_headers tip first others =
    let fresh = keep (λ h. ltb tip.height h.height) (first ∷ others) in
    if ltb first.height tip.height && ltb tip.height (last_or first others).height
    then elim fresh [ [] ↦ first ∷ others | x ∷ xs ↦ x ∷ xs ]
    else first ∷ others

-- `handleHeaders` behind the test for an empty list, with the first header and the others.
unfoldable pub forward_headers : Header → Header → List Header → List Effect
unfolding new_headers
forward_headers tip first others =
    if not (check_headers_in_sequence (first ∷ others))
    then []
    else if ltb ((tip.height + 1) % 2 ^ 32) first.height
    then sync ∷ []
    else if leb (last_or first others).height tip.height
    then []
    else map forward (new_headers tip first others) ++ (sync ∷ [])

unfoldable pub after_headers : Header → List Header → List Effect
unfolding forward_headers
after_headers tip [] = []
after_headers tip (first ∷ others) = forward_headers tip first others

module _ {S : Type 0} (db : BlockHeaderRepository S) where
  -- The message is what the payload decodes to.
  unfoldable pub handle_headers : Result (List Header) → S → Result (List Effect)
  handle_headers message store = message >>= λ headers.
      tip_or_zero (db.chain_tip store) >>= λ tip. ok (after_headers tip headers)

  -- The first reading of the tip is for its errors only.
  unfoldable pub handle_block : Result Block → ℕ → S → Result (List Effect)
  handle_block message peers_tip store = tip_or_zero (db.chain_tip store) >>= λ _.
      message >>= λ block. tip_or_zero (db.chain_tip store) >>= λ tip.
      let new_block_height = block.header.height in
      ok (
        if not (new_block_height == (tip.height + 1) % 2 ^ 32)
        then if ltb peers_tip new_block_height
          then set_peers_tip new_block_height ∷ sync ∷ []
          else []
        else forward block.header ∷ check_tx_confirmed block ∷ [])

  unfoldable pub synced : ℕ → S → Result Bool
  synced peers_tip store = db.chain_tip store >>= λ tip.
      or_error Error.external tip.hash >>= λ tip_hash.
      db.has_all_ancestors tip_hash store >>= λ all.
      if ltb tip.height peers_tip then ok false else ok all

  -- The locator that `syncWithPeer` asks with; the genesis hash is the result of NewHashFromStr.
  unfoldable pub sync_locator : Result ℕ → Result (List ℕ) → Result (List ℕ)
  sync_locator genesis (ok locator) = ok locator
  sync_locator genesis (err Error.no_block_headers) = genesis >>= λ hash. ok (hash ∷ [])
  sync_locator genesis (err e) = err e

  -- A round of `monitorBlockHeaders`: the store, and the header to ask a filter for where there is a
  -- peer.
  unfoldable pub monitor_block_header : ℕ → Header → S → S × Option (ℕ × ℕ)
  monitor_block_header peers new_header store =
      let (result, store') = db.write_headers (new_header ∷ []) store in
      (
        store',
        elim result [
          | err e ↦ none
          | ok _ ↦
              if ltb 0 peers
              then elim new_header.hash [ none ↦ none | some hash ↦ some (new_header.height, hash) ]
              else none
        ],
      )

-- A round of `monitorCFilters`. NewFilterEntry serializes the filter: it is a parameter.
unfoldable pub monitor_cfilter : {F : Type 0} → FilterRepository F → ℕ → ℕ → Result (List ℕ) → F → F
monitor_cfilter filters_db filter_type block_hash n_bytes filters = elim n_bytes [
  | err e ↦ filters
  | ok bytes ↦
      (filters_db.put_filter
        (record {
          key = record { block_hash = block_hash; filter_type = filter_type };
          n_bytes = bytes;
        })
        filters).1
]
