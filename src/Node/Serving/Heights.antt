-- ===== src/Node/Serving/Heights.antt =====
-- `handleGetCFilters`: the heights that it goes through, and what it sends.
use neutrino_elements.Prelude.{
  ℕ, zero, suc, ◌-◌, ◌≤◌, ◌<◌, ◌≡◌, refl, ◌⊎◌, inl, inr, List, [], ◌∷◌, All, length, Result, ok,
  err, Error, arith, ltb, leb, ◌==◌, Bool-cases, Result-cases,
}
use neutrino_elements.Ledger.{hash_of_bytes}
use neutrino_elements.Store.Interface.{BlockHeaderRepository, FilterRepository}
use neutrino_elements.Protocol.Network.{Magic}
use neutrino_elements.Protocol.Payloads.Chain.{MsgGetCFilters}
use neutrino_elements.Protocol.Payloads.Delivery.Filters.{new_msg_cfilter_fails}
use neutrino_elements.Node.Serving.{heights_down, answer, answers, handle_get_cfilters}

heights_down_mono :
    (i j start : ℕ) (hs : List ℕ)
    → i ≤ j
    → All (λ h. (start < h) × (h ≤ i)) hs
    → All (λ h. (start < h) × (h ≤ j)) hs
heights_down_mono i j start [] l w = tt
heights_down_mono i j start (h ∷ hs) l ((a, b), w) =
    ((a, omega arith), heights_down_mono i j start hs l w)

-- The loop goes through as many heights as the end lies above the start, each of them above the
-- start and none beyond the end. So the start itself is left out.
pub heights_down_lem :
    (end_height start : ℕ)
    → (length (heights_down end_height start) ≡ end_height - start)
      × All (λ h. (start < h) × (h ≤ end_height)) (heights_down end_height start)
unfolding heights_down
heights_down_lem zero start = (omega arith, tt)
heights_down_lem (suc h) start =
    let (c, w) = heights_down_lem h start in
    elim (Bool-cases (ltb start (suc h))) [
      | inr e ↦ rw e (ground arith, tt)
      | inl e ↦ rw e (
        ground arith,
        ((ground arith, omega arith), heights_down_mono h (suc h) start _ (omega arith) w),
      )
    ]

module _ {S F Filter : Type 0} (db : BlockHeaderRepository S) (filters_db : FilterRepository F)
    (gcs_filter : List ℕ → Result Filter) (sha256 : List ℕ → List ℕ) (network : Magic) where
  answer_fails :
      (store : S) (filters : F) (height : ℕ)
      → (e : Error) × (answer db filters_db gcs_filter sha256 network store filters height ≡ err e)
  unfolding answer
  answer_fails store filters height =
      elim (Result-cases (db.get_block_hash_by_height height store)) [
        | inr (x, e) ↦ (x, rw e)
        | inl (hash, e) ↦
            elim (Result-cases
              (filters_db.get_filter (record { block_hash = hash; filter_type = 0 }) filters)) [
                | inr (x, f) ↦ (x, rw (e, f))
                | inl (filter, f) ↦ elim (Result-cases (gcs_filter filter.n_bytes)) [
                  | inr (x, g) ↦ (x, rw (e, f, g))
                  | inl (gcs, g) ↦ (
                    Error.unsupported_type,
                    rw (e, f, g) (new_msg_cfilter_fails sha256 network hash gcs),
                  )
                ]
              ]
      ]

  answers_nothing :
      (store : S) (filters : F) (heights : List ℕ)
      → answers db filters_db gcs_filter sha256 network store filters heights ≡ []
  unfolding answers
  answers_nothing store filters [] = refl
  answers_nothing store filters (h ∷ hs) =
      let (e, f) = answer_fails store filters h in
      rw (answers, f) (answers_nothing store filters hs)

  -- Whatever the stores hold, the handler rejects a request for filters or answers it with no message
  -- at all.
  pub handle_get_cfilters_silent :
      (message : Result MsgGetCFilters) (store : S) (filters : F)
      → (handle_get_cfilters db filters_db gcs_filter sha256 network message store filters ≡ ok [])
        ⊎ ((e : Error) × (handle_get_cfilters db filters_db gcs_filter sha256 network message store
                filters
              ≡ err e))
  unfolding handle_get_cfilters
  handle_get_cfilters_silent (err e) store filters = inr (e, refl)
  handle_get_cfilters_silent (ok request) store filters =
      elim (Bool-cases (request.filter_type == 0)) [
        | inr e ↦ rw e (inr (Error.invalid_filter_type, refl))
        | inl e ↦
            elim (Result-cases (db.get_block_header (hash_of_bytes request.stop_hash) store)) [
              | inr (x, f) ↦ rw (e, f) (inr (x, refl))
              | inl (h, f) ↦ elim (Bool-cases (ltb h.height request.start_height)) [
                | inl g ↦ rw (e, f, g) (inr (Error.bad_range, refl))
                | inr g ↦ elim (Bool-cases (leb 1000 (h.height - request.start_height))) [
                  | inl k ↦ rw (e, f, g, k) (inr (Error.too_far, refl))
                  | inr k ↦
                      rw
                        (
                          e,
                          f,
                          g,
                          k,
                          answers_nothing store filters
                              (heights_down h.height request.start_height),
                        )
                        (inl refl)
                ]
              ]
            ]
      ]
