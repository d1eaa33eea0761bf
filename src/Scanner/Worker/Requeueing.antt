-- ===== src/Scanner/Worker/Requeueing.antt =====
-- `requestWorker`: what leaves the queue for the batch, and what is queued again.
use neutrino_elements.Prelude.{
  append-nil, append_assoc, keep, map, ℕ, ◌+◌, ◌%◌, ◌^◌, ◌≡◌, sym, ◌∙◌, ◌⊎◌, inl, inr, true, List,
  [], ◌∷◌, ◌++◌, Member, here, there, Member-append_left, ◌==◌, Bool-cases,
}
use neutrino_elements.Scanner.Requests.{ScanRequest, dequeue_at_height}
use neutrino_elements.Scanner.Blocks.{Report}
use neutrino_elements.Scanner.Worker.{watch_again}

pub watch_again-keeps :
    (req : ScanRequest) (reports : List Report) (queue : List ScanRequest)
    → Member req queue
    → Member req (watch_again reports queue)
unfolding watch_again
watch_again-keeps req [] queue m = m
watch_again-keeps req (r ∷ reports) queue m = elim (Bool-cases r.request.is_persistent) [
  | inl e ↦ rw e (watch_again-keeps req reports _ (Member-append_left req queue _ m))
  | inr e ↦ rw e (watch_again-keeps req reports queue m)
]

-- The request that a report of a persistent request makes.
abbrev pub again : Report → ScanRequest
again r = record {
  client_id = r.request.client_id;
  start_height = (r.block_height + 1) % 2 ^ 32;
  item = r.request.item;
  is_persistent = true;
}

-- After a round the queue has, behind what it had, one request for each report of a persistent
-- request, with the same client and item, from the height after the block's.
pub watch_again_lem :
    (reports : List Report) (queue : List ScanRequest)
    → watch_again reports queue ≡ queue ++ map again (keep (λ r. r.request.is_persistent) reports)
unfolding watch_again
watch_again_lem [] queue = sym (append-nil queue)
watch_again_lem (r ∷ reports) queue = elim (Bool-cases r.request.is_persistent) [
  | inl e ↦
      rw e (watch_again_lem reports (queue ++ (again r ∷ [])) ∙ append_assoc queue (again r ∷ []) _)
  | inr e ↦ rw e (watch_again_lem reports queue)
]

pub dequeue_at_height-keeps :
    (req : ScanRequest) (height : ℕ) (queue : List ScanRequest)
    → Member req queue
    → Member req (dequeue_at_height height queue).0 ⊎ Member req (dequeue_at_height height queue).1
unfolding dequeue_at_height
dequeue_at_height-keeps req height [] m = elim m [ ]
dequeue_at_height-keeps req height (x ∷ queue) (here e) =
    elim (Bool-cases (x.start_height == height)) [
      | inl b ↦ rw b (inl (here e))
      | inr b ↦ rw b (inr (here e))
    ]
dequeue_at_height-keeps req height (x ∷ queue) (there m) =
    let rest = dequeue_at_height-keeps req height queue m in
    elim (Bool-cases (x.start_height == height)) [
      | inl b ↦ rw b (elim rest [ inl i ↦ inl (there i) | inr i ↦ inr i ])
      | inr b ↦ rw b (elim rest [ inl i ↦ inl i | inr i ↦ inr (there i) ])
    ]
