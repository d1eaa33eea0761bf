-- ===== src/Scanner/Worker/Progress.antt =====
-- The worker's loop: what its rounds go on with, and the bound on their number.
use neutrino_elements.Prelude.{
  ℕ, ◌+◌, ◌%◌, ◌^◌, ◌≤◌, ◌<◌, ◌≡◌, ◌≢◌, refl, ◌⊎◌, inl, inr, List, [], ◌∷◌, All, none, Result, ok,
  err, arith, leb, length, Bool-cases, Result-cases, Error,
}
use neutrino_elements.Ledger.{Header}
use neutrino_elements.Scanner.Requests.{ScanRequest}
use neutrino_elements.Scanner.Blocks.{ScannerService, Report}
use neutrino_elements.Scanner.Worker.{
  Moment, Round, end_round, worker_round, watch_again, worker_loop, request_worker,
}

-- What the loop makes of a round, before the rest of it.
pub Round-cases :
    (r : Round)
    → ((e : Error) × (q : List ScanRequest) × (rs : List Report) × (r ≡ Round.failed e q rs))
      ⊎ ((b : List ScanRequest) × (q : List ScanRequest) × (rs : List Report) × (t : ℕ) × (r
            ≡ Round.continued b q rs t))
Round-cases (Round.failed e q rs) = inl (e, q, rs, refl)
Round-cases (Round.continued b q rs t) = inr (b, q, rs, t, refl)

module _ {S F G : Type 0} (s : ScannerService S F G) where
  -- A round goes on with what the scan left and with the height of the tip it then read.
  pub end_round-continued :
      (headers : S) (remain b q : List ScanRequest) (rs : List Report) (t : ℕ)
      (r : Result (List Report × List ScanRequest))
      → end_round s headers remain r ≡ Round.continued b q rs t
      → (r ≡ ok (rs, b))
        × (q ≡ watch_again rs remain)
        × ((tip : Header) × (s.header_db.chain_tip headers ≡ ok tip) × (tip.height ≡ t))
  unfolding end_round
  end_round-continued headers remain b q rs t (err e) h = absurd cc
  end_round-continued headers remain b q rs t (ok (reports, next_batch)) h =
      elim (Result-cases (s.header_db.chain_tip headers)) [
        | inl (tip, e) ↦
            let g : end_round s headers remain (ok (reports, next_batch))
                ≡ Round.continued next_batch (watch_again reports remain) reports tip.height =
              rw (end_round, e) in
            (cc, cc, (tip, e, cc))
        | inr (x, e) ↦
            let g : end_round s headers remain (ok (reports, next_batch))
                ≡ Round.failed x (watch_again reports remain) reports =
              rw (end_round, e) in
            absurd cc
      ]

  -- The tip that a store has, if any, is no higher than `bound`.
  abbrev pub TipBelow : ℕ → S → Type 0
  TipBelow bound headers = elim (s.header_db.chain_tip headers) [
    | err e ↦ Unit {0}
    | ok tip ↦ tip.height ≤ bound
  ]

  tip_below :
      (bound : ℕ) (headers : S) (tip : Header)
      → TipBelow bound headers
      → s.header_db.chain_tip headers ≡ ok tip
      → tip.height ≤ bound
  tip_below bound headers tip w e = rw (e, TipBelow) at w

  worker_round-tip :
      (bound : ℕ) (now : Moment S F) (height : ℕ) (batch queue b q : List ScanRequest)
      (rs : List Report) (t : ℕ)
      → TipBelow bound now.headers
      → worker_round s now height batch queue ≡ Round.continued b q rs t
      → t ≤ bound
  unfolding worker_round
  worker_round-tip bound now height batch queue b q rs t w h =
      let (_, _, (tip, e, g)) = end_round-continued now.headers _ b q rs t _ h in
      let l = tip_below bound now.headers tip w e in omega arith

  worker_loop-finishes :
      (bound : ℕ) (moments : List (Moment S F)) (tip height : ℕ) (batch queue : List ScanRequest)
      → bound + 1 < 2 ^ 32
      → tip ≤ bound
      → All (λ now. TipBelow bound now.headers) moments
      → bound < height + length moments
      → (worker_loop s moments tip height batch queue).result ≢ none
  unfolding worker_loop
  worker_loop-finishes bound [] tip height batch queue p l w h = ground arith
  worker_loop-finishes bound (now ∷ later) tip height batch queue p l (w, ws) h =
      elim (Bool-cases (leb height tip)) [
        | inr e ↦ rw e (λ q. cc)
        | inl e ↦ elim (Round-cases (worker_round s now height batch queue)) [
          | inl (x, q, rs, g) ↦ rw (e, g) (λ q. cc)
          | inr (b, q, rs, t, g) ↦
              rw (e, g)
                (worker_loop-finishes bound later t ((height + 1) % 2 ^ 32) b q p
                  (worker_round-tip bound now height batch queue b q rs t w g) ws (ground arith))
        ]
      ]

  -- The worker returns, with an error or without one, where neither the first reading nor a moment
  -- has a tip above `bound`, a round for each height from the first up to `bound` is given, and
  -- `bound` is below the greatest uint32.
  pub request_worker-finishes :
      (bound : ℕ) (first : S) (moments : List (Moment S F)) (start_height : ℕ)
      (queue : List ScanRequest)
      → bound + 1 < 2 ^ 32
      → TipBelow bound first
      → All (λ now. TipBelow bound now.headers) moments
      → bound < start_height + length moments
      → (request_worker s first moments start_height queue).result ≢ none
  unfolding request_worker
  request_worker-finishes bound first moments start_height queue p w ws h =
      elim (Result-cases (s.header_db.chain_tip first)) [
        | inr (x, e) ↦ rw (request_worker, e) (λ q. cc)
        | inl (t, e) ↦
            rw (request_worker, e)
              (worker_loop-finishes bound moments t.height start_height [] queue p
                (tip_below bound first t w e) ws h)
      ]
