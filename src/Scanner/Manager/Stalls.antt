-- ===== src/Scanner/Manager/Stalls.antt =====
-- Histories of the scanner whose requests wait: for the tip, and for a signal.
use neutrino_elements.Prelude.{
  ℕ, ◌<◌, ◌≡◌, refl, sym, ◌∙◌, subst, ap, inl, inr, true, false, List, [], ◌∷◌, ◌++◌, append_assoc,
  append-nil, some, ok, arith, leb, Result-cases,
}
use neutrino_elements.Ledger.{Header}
use neutrino_elements.Scanner.Requests.{ScanRequest, peek}
use neutrino_elements.Scanner.Blocks.{ScannerService, Report}
use neutrino_elements.Scanner.Worker.{Moment, worker_loop, request_worker}
use neutrino_elements.Scanner.Manager.Untouched.{stop_scanner_keeps, poll_keeps}
use neutrino_elements.Scanner.Manager.Orderly.{Orderly}
use neutrino_elements.Scanner.Manager.{
  Point, Manager, System, new_scanner, start_scanner, Signal, work, Label, Step, Reach, stay, step,
}

module _ {S F G : Type 0} (s : ScannerService S F G) where
  -- The tip that the worker reads before its loop is below `height`.
  abbrev pub TipsBelow : ℕ → System → Label s → Type 0
  TipsBelow height t (Label.works first moments) =
      (tip : Header) → s.header_db.chain_tip first ≡ ok tip → tip.height < height
  TipsBelow height t l = Unit {0}

  worker_loop-idle :
      (moments : List (Moment S F)) (tip height : ℕ) (queue : List ScanRequest)
      → tip < height
      → (worker_loop s moments tip height [] queue).reports ≡ []
        × (worker_loop s moments tip height [] queue).queue ≡ queue ++ []
  unfolding worker_loop
  worker_loop-idle [] tip height queue h =
      let e : leb height tip ≡ false = ground arith in rw e (refl, refl)
  worker_loop-idle (now ∷ later) tip height queue h =
      let e : leb height tip ≡ false = ground arith in rw e (refl, refl)

  -- A worker that starts above the tip leaves the queue as it is and reports nothing.
  request_worker-idle :
      (first : S) (moments : List (Moment S F)) (height : ℕ) (queue : List ScanRequest)
      → ((tip : Header) → s.header_db.chain_tip first ≡ ok tip → tip.height < height)
      → ((request_worker s first moments height queue).reports ≡ [])
        × ((request_worker s first moments height queue).queue ≡ queue)
  unfolding request_worker
  request_worker-idle first moments height queue h =
      elim (Result-cases (s.header_db.chain_tip first)) [
        | inr (x, e) ↦ rw (request_worker, e) (refl, refl)
        | inl (tip, e) ↦
            let (a, b) = worker_loop-idle moments tip.height height queue (h tip e) in
            rw (request_worker, e) (a, b ∙ append-nil queue)
      ]

  -- The queue of `t` with requests behind it, and no further reports.
  abbrev Behind : System → List ScanRequest → List Report → Type 0
  Behind t queue reports =
      ((added : List ScanRequest) × (queue ≡ t.queue ++ added)) × (reports ≡ t.reports)

  abbrev Idle : System → System → Type 0
  Idle t u = Behind t u.queue u.reports

  unchanged : (t : System) → Idle t t
  unchanged t = (([], sym (append-nil t.queue)), refl)

  work-Idle :
      (first : S) (moments : List (Moment S F)) (xs ys : List Manager) (m : Manager) (t : System)
      (front : ScanRequest)
      → peek t.queue ≡ some front
      → ((tip : Header) → s.header_db.chain_tip first ≡ ok tip → tip.height < front.start_height)
      → Idle t (work s first moments xs m ys t)
  unfolding work
  work-Idle first moments xs ys m t front e h =
      let (a, b) = request_worker-idle first moments front.start_height t.queue h in
      rw (work, e)
        (([], b ∙ sym (append-nil t.queue)), ap (λ rs. t.reports ++ rs) a ∙ append-nil t.reports)

  Step-Idle :
      {l : Label s} {t u : System} (front : ScanRequest) (rest : List ScanRequest)
      → t.queue ≡ front ∷ rest
      → TipsBelow front.start_height t l
      → Step s l t u
      → Idle t u
  unfolding start_scanner
  Step-Idle {t} front rest q w (Step.starts_again h e) = subst (Idle t) (sym e) (unchanged t)
  Step-Idle {t} front rest q w (Step.starts h e) = subst (Idle t) (sym e) (unchanged t)
  Step-Idle {t} front rest q w (Step.stops h e) =
      subst (Idle t) (sym e) (stop_scanner_keeps (Behind t) t (unchanged t))
  Step-Idle {t} front rest q w (Step.watches_request {ms} {req} g e) =
      subst (Idle t) (sym e) ((req ∷ [], refl), refl)
  Step-Idle {t} front rest q w (Step.begins_loop xs ys m g k e) =
      subst (Idle t) (sym e) (unchanged t)
  Step-Idle {t} front rest q w (Step.tests_queue xs ys m g k e) =
      subst (Idle t) (sym e) (unchanged t)
  Step-Idle {t} front rest q w (Step.falls_asleep xs ys m g k e) =
      subst (Idle t) (sym e) (unchanged t)
  Step-Idle {t} front rest q w (Step.polls_quit xs ys m g k e) =
      subst (Idle t) (sym e) (poll_keeps (Behind t) xs ys m t (unchanged t))
  Step-Idle {t} front rest q w (Step.works_on {first} {moments} xs ys m g k e) =
      subst (Idle t) (sym e) (work-Idle first moments xs ys m t front (rw q refl) w)

  -- While every worker reads a tip below the start of the queue's first request, nothing is reported,
  -- and requests are only added behind those that were queued: none of them is scanned for, whatever
  -- it watches and from whatever height on.
  pub Reach-Idle :
      {t : System} (front : ScanRequest) (rest : List ScanRequest) {u : System}
      → t.queue ≡ front ∷ rest
      → Reach s (TipsBelow front.start_height) t u
      → ((added : List ScanRequest) × (u.queue ≡ t.queue ++ added)) × (u.reports ≡ t.reports)
  Reach-Idle {t} front rest q stay = unchanged t
  Reach-Idle {t} front rest q (step r w x) =
      let ((added, e), f) = Reach-Idle front rest q r in
      let ((more, e'), f') = Step-Idle front (rest ++ added) (e ∙ ap (λ l. l ++ added) q) w x in
      ((added ++ more, e' ∙ ap (λ l. l ++ more) e ∙ append_assoc t.queue added more), f' ∙ f)

  -- A step that a caller of the scanner takes.
  abbrev pub IsCallers : Label s → Type 0
  IsCallers Label.start_fails = Unit {0}
  IsCallers Label.start_works = Unit {0}
  IsCallers Label.stop = Unit {0}
  IsCallers (Label.watches req) = Unit {0}
  IsCallers l = ⊥

  alone : (xs ys : List Manager) (m m' : Manager) → m ∷ [] ≡ xs ++ (m' ∷ ys) → m' ≡ m
  alone [] ys m m' e = cc
  alone (x ∷ []) ys m m' e = absurd cc
  alone (x ∷ y ∷ xs) ys m m' e = absurd cc

  -- The only manager is at the point that it takes a step from.
  at_point :
      (t : System) (xs ys : List Manager) (m m' : Manager)
      → t.managers ≡ m ∷ []
      → t.managers ≡ xs ++ (m' ∷ ys)
      → m'.point ≡ m.point
  at_point t xs ys m m' e g = ap (λ (n : Manager). n.point) (alone xs ys m m' (sym e ∙ g))

  waits :
      {l : Label s} {t u : System} (m : Manager)
      → t.managers ≡ m ∷ []
      → m.point ≡ Point.waiting
      → Step s l t u
      → IsCallers l
  waits m e k (Step.starts_again h g) = tt
  waits m e k (Step.starts h g) = tt
  waits m e k (Step.stops h g) = tt
  waits m e k (Step.watches_request h g) = tt
  waits {t} m e k (Step.begins_loop xs ys m' g h f) = absurd (cc (at_point t xs ys m m' e g))
  waits {t} m e k (Step.tests_queue xs ys m' g h f) = absurd (cc (at_point t xs ys m m' e g))
  waits {t} m e k (Step.falls_asleep xs ys m' g h f) = absurd (cc (at_point t xs ys m m' e g))
  waits {t} m e k (Step.polls_quit xs ys m' g h f) = absurd (cc (at_point t xs ys m m' e g))
  waits {t} m e k (Step.works_on xs ys m' g h f) = absurd (cc (at_point t xs ys m m' e g))

  -- Any request can be queued while the scanner's only manager sleeps and does not learn of it: the
  -- signal of `Watch` came between its test and its `Wait`. Then only a caller's step is possible.
  pub lost_wakeup :
      (req : ScanRequest)
      → (t : System) × Reach s Orderly new_scanner t
        × (t.queue ≡ req ∷ [])
        × (t.started ≡ true)
        × ((u : System) (l : Label s) → Step s l t u → IsCallers l)
  unfolding start_scanner
  lost_wakeup req =
      let entered : System = start_scanner new_scanner in
      let at : Point → Manager = λ p. record { deferred = some 1; point = p } in
      let began : System = record entered { managers = at Point.testing ∷ [] } in
      let tested : System = record entered { managers = at Point.falling_asleep ∷ [] } in
      let watched : System = record tested { queue = req ∷ [] } in
      let asleep : System = record watched { managers = at Point.waiting ∷ [] } in
      (
        asleep,
        step
            (step
              (step
                (step (step stay refl (Step.starts refl refl)) tt
                  (Step.begins_loop [] [] _ refl refl refl))
                tt (Step.tests_queue [] [] (at Point.testing) refl refl refl))
              tt (Step.watches_request (Signal.nobody ((λ e. cc), tt) refl) refl))
            tt (Step.falls_asleep [] [] (at Point.falling_asleep) refl refl refl),
        refl,
        refl,
        λ u l x. waits (at Point.waiting) refl refl x,
      )
