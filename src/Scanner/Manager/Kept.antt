-- ===== src/Scanner/Manager/Kept.antt =====
-- What becomes of requests over a history of the scanner.
use neutrino_elements.Prelude.{
  ◌≡◌, refl, sym, subst, ◌⊎◌, inl, inr, List, [], ◌∷◌, ◌++◌, Option, All_at, Member,
  Member-append_left, Member-append_right, none, some, ok,
}
use neutrino_elements.Scanner.Requests.{ScanRequest, peek}
use neutrino_elements.Scanner.Blocks.{ScannerService, Report}
use neutrino_elements.Scanner.Blocks.Matches.{IsReported}
use neutrino_elements.Scanner.Worker.{Moment, request_worker}
use neutrino_elements.Scanner.Worker.Reports.{request_worker-Kept}
use neutrino_elements.Scanner.Manager.Untouched.{stop_scanner_keeps, poll_keeps}
use neutrino_elements.Scanner.Manager.{
  Manager, System, start_scanner, work, Label, Step, Reach, stay, step,
}

-- A request is queued, or there is a report for it.
abbrev Holds : ScanRequest → List ScanRequest → List Report → Type 0
Holds req queue reports = Member req queue ⊎ IsReported req reports

abbrev Kept : ScanRequest → System → Type 0
Kept req t = Holds req t.queue t.reports

module _ {S F G : Type 0} (s : ScannerService S F G) where
  -- The worker returns without an error.
  abbrev pub Succeeds : System → Label s → Type 0
  Succeeds t (Label.works first moments) =
      (front : ScanRequest)
      → peek t.queue ≡ some front
      → (request_worker s first moments front.start_height t.queue).result ≡ some (ok tt)
  Succeeds t l = Unit {0}

  IsReported-before :
      (req : ScanRequest) (before after : List Report)
      → IsReported req before
      → IsReported req (before ++ after)
  IsReported-before req before after (r, i, e) = (r, Member-append_left r before after i, e)

  work-Kept :
      (first : S) (moments : List (Moment S F)) (req : ScanRequest) (xs ys : List Manager)
      (m : Manager) (t : System) (front : Option ScanRequest)
      → peek t.queue ≡ front
      → Succeeds t (Label.works first moments)
      → Kept req t
      → Kept req (work s first moments xs m ys t)
  unfolding work
  work-Kept first moments req xs ys m t none e w k = rw (work, e) k
  work-Kept first moments req xs ys m t (some front) e w (inr k) =
      rw (work, e) (inr (IsReported-before req t.reports _ k))
  work-Kept first moments req xs ys m t (some front) e w (inl k) =
      elim (All_at _ req t.queue
        (request_worker-Kept s first moments front.start_height t.queue (w front e)) k) [
          | inl i ↦ rw (work, e) (inl i)
          | inr (r, i, q) ↦ rw (work, e) (inr (r, Member-append_right r t.reports _ i, q))
        ]

  Step-Kept :
      {l : Label s} {t u : System} (req : ScanRequest)
      → Succeeds t l
      → Step s l t u
      → Kept req t
      → Kept req u
  unfolding start_scanner
  Step-Kept {t} req w (Step.starts_again h e) k = subst (Kept req) (sym e) k
  Step-Kept {t} req w (Step.starts h e) k = subst (Kept req) (sym e) k
  Step-Kept {t} req w (Step.stops h e) k =
      subst (Kept req) (sym e) (stop_scanner_keeps (Holds req) t k)
  Step-Kept {t} req w (Step.watches_request {ms} {req = new} g e) (inl k) =
      subst (Kept req) (sym e) (inl (Member-append_left req t.queue (new ∷ []) k))
  Step-Kept {t} req w (Step.watches_request g e) (inr k) = subst (Kept req) (sym e) (inr k)
  Step-Kept {t} req w (Step.begins_loop xs ys m g h e) k = subst (Kept req) (sym e) k
  Step-Kept {t} req w (Step.tests_queue xs ys m g h e) k = subst (Kept req) (sym e) k
  Step-Kept {t} req w (Step.falls_asleep xs ys m g h e) k = subst (Kept req) (sym e) k
  Step-Kept {t} req w (Step.polls_quit xs ys m g h e) k =
      subst (Kept req) (sym e) (poll_keeps (Holds req) xs ys m t k)
  Step-Kept {t} req w (Step.works_on {first} {moments} xs ys m g h e) k =
      subst (Kept req) (sym e) (work-Kept first moments req xs ys m t (peek t.queue) refl w k)

  -- While every worker returns without an error, no request is lost, whatever callers and managers
  -- do: one that is queued stays queued or is reported.
  pub Reach-Kept :
      {t : System} (req : ScanRequest) {u : System}
      → Member req t.queue
      → Reach s Succeeds t u
      → Member req u.queue ⊎ IsReported req u.reports
  Reach-Kept req m stay = inl m
  Reach-Kept req m (step r w x) = Step-Kept req w x (Reach-Kept req m r)
