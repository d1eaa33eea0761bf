-- ===== src/Node/Serving.antt =====
-- pkg/node/cmd_getcfilters.go: the heights that a request for filters is answered for.
pub mod Heights
use neutrino_elements.Prelude.{
  ℕ, zero, suc, ◌-◌, Bool, true, false, List, [], ◌∷◌, Result, ok, err, Error, ltb, leb, ◌==◌, not,
  if◌then◌else◌, ◌>>=◌,
}
use neutrino_elements.Ledger.{Header, hash_of_bytes}
use neutrino_elements.Store.Interface.{BlockHeaderRepository, FilterRepository}
use neutrino_elements.Protocol.Network.{Magic}
use neutrino_elements.Protocol.Message.{Message}
use neutrino_elements.Protocol.Payloads.Chain.{MsgGetCFilters}
use neutrino_elements.Protocol.Payloads.Delivery.{new_msg_cfilter}

-- `for height := end; height > start; height--`.
unfoldable pub heights_down : ℕ → ℕ → List ℕ
heights_down zero start = []
heights_down (suc h) start = if ltb start (suc h) then suc h ∷ heights_down h start else []

-- `gcs_filter` is the method GcsFilter on an entry's bytes.
module _ {S F Filter : Type 0} (db : BlockHeaderRepository S) (filters_db : FilterRepository F)
    (gcs_filter : List ℕ → Result Filter) (sha256 : List ℕ → List ℕ) (network : Magic) where
  unfoldable pub answer : S → F → ℕ → Result Message
  answer store filters height = db.get_block_hash_by_height height store >>= λ hash.
      filters_db.get_filter (record { block_hash = hash; filter_type = 0 }) filters >>= λ filter.
      gcs_filter filter.n_bytes >>= λ gcs. new_msg_cfilter sha256 network hash gcs

  -- A height whose answer fails is passed over.
  unfoldable pub answers : S → F → List ℕ → List Message
  answers store filters [] = []
  answers store filters (height ∷ heights) =
      let rest = answers store filters heights in
      elim (answer store filters height) [ ok msg ↦ msg ∷ rest | err e ↦ rest ]

  -- The messages that `handleGetCFilters` hands to `sendMessage`. The subtraction is reached only
  -- where it is exact.
  unfoldable pub handle_get_cfilters : Result MsgGetCFilters → S → F → Result (List Message)
  handle_get_cfilters message store filters = message >>= λ request.
      if not (request.filter_type == 0)
      then err Error.invalid_filter_type
      else (db.get_block_header (hash_of_bytes request.stop_hash) store >>= λ end_block_header.
          if ltb end_block_header.height request.start_height
          then err Error.bad_range
          else if leb 1000 (end_block_header.height - request.start_height)
          then err Error.too_far
          else ok
              (answers store filters (heights_down end_block_header.height request.start_height)))
