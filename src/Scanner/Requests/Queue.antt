-- ===== src/Scanner/Requests/Queue.antt =====
-- What `dequeueAtHeight` takes and what it leaves.
use neutrino_elements.Prelude.{ℕ, ◌≡◌, ◌≢◌, List, [], ◌∷◌, All, arith, Bool-cases, inl, inr, ◌==◌}
use neutrino_elements.Scanner.Requests.{ScanRequest, dequeue_at_height}

-- `zs` is made of `xs` and `ys`, each in its own order.
pub data Interleaves {ℓ} {A : Type ℓ} : List A → List A → List A → Type ℓ where
  nothing : Interleaves [] [] []
  left : {x : A} {xs ys zs : List A} → Interleaves xs ys zs → Interleaves (x ∷ xs) ys (x ∷ zs)
  right : {y : A} {xs ys zs : List A} → Interleaves xs ys zs → Interleaves xs (y ∷ ys) (y ∷ zs)

-- The queue is split in two that keep its order, and neither drops nor repeats a request: those
-- selected start at the height, and those that remain do not.
pub dequeue_at_height_lem :
    (height : ℕ) (requests : List ScanRequest)
    → Interleaves
        (dequeue_at_height height requests).0
        (dequeue_at_height height requests).1
        requests
      × All (λ req. req.start_height ≡ height) (dequeue_at_height height requests).0
      × All (λ req. req.start_height ≢ height) (dequeue_at_height height requests).1
unfolding dequeue_at_height
dequeue_at_height_lem height [] = (nothing, tt, tt)
dequeue_at_height_lem height (req ∷ requests) =
    let (i, s, r) = dequeue_at_height_lem height requests in
    elim (Bool-cases (req.start_height == height)) [
      | inl e ↦ rw e (left i, (ground arith, s), r)
      | inr e ↦ rw e (right i, s, (ground arith, r))
    ]
