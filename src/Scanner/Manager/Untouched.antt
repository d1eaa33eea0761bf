-- ===== src/Scanner/Manager/Untouched.antt =====
-- `Stop` and the selects of the managers, which leave the queue and the reports as they are.
use neutrino_elements.Prelude.{ℕ, inl, inr, List, Option, none, some, Bool-cases}
use neutrino_elements.Scanner.Requests.{ScanRequest}
use neutrino_elements.Scanner.Blocks.{Report}
use neutrino_elements.Scanner.Manager.{Manager, System, stop_scanner, close_deferred, ready, poll}

module _ (P : List ScanRequest → List Report → Type 0) where
  pub stop_scanner_keeps :
      (t : System) → P t.queue t.reports → P (stop_scanner t).queue (stop_scanner t).reports
  unfolding stop_scanner
  stop_scanner_keeps t k = elim (Bool-cases (t.channels t.quit_ch).closed) [
    | inl e ↦ rw (stop_scanner, e) k
    | inr e ↦ rw (stop_scanner, e) k
  ]

  close_deferred_keeps :
      (c : Option ℕ) (t : System)
      → P t.queue t.reports
      → P (close_deferred c t).queue (close_deferred c t).reports
  unfolding close_deferred
  close_deferred_keeps none t k = k
  close_deferred_keeps (some c) t k = elim (Bool-cases (t.channels c).closed) [
    | inl e ↦ rw (close_deferred, e) k
    | inr e ↦ rw (close_deferred, e) k
  ]

  pub poll_keeps :
      (xs ys : List Manager) (m : Manager) (t : System)
      → P t.queue t.reports
      → P (poll xs m ys t).queue (poll xs m ys t).reports
  unfolding poll
  poll_keeps xs ys m t k = elim (Bool-cases (ready (t.channels t.quit_ch))) [
    | inl e ↦ rw (poll, e) (close_deferred_keeps m.deferred _ k)
    | inr e ↦ rw (poll, e) k
  ]
