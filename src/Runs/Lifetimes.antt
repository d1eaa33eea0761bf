-- ===== src/Runs/Lifetimes.antt =====
-- Runs of the node's `Start` and `Stop`.
use neutrino_elements.Prelude.{
  ◌≡◌, refl, false, List, [], ◌∷◌, All, Member, none, some, ok, err, Error, lookup,
}
use neutrino_elements.Ledger.{Header}
use neutrino_elements.Store.Headers.{
  Headers, header_inmemory, chain_tip, has_all_ancestors, ancestors_loop,
}
use neutrino_elements.Node.Sync.{synced}
use neutrino_elements.Node.Lifetime.{
  Call, starts, stops, run_calls, not_running, Second, check_synced_initial,
}
use neutrino_elements.Node.Lifetime.Quitting.{run_calls_unheard}
use neutrino_elements.Node.Lifetime.Waiting.{IsSynced, check_synced_initial-IsSynced}

abbrev calls : List Call
calls = starts (err Error.external) ∷ starts (ok tt) ∷ stops ∷ []

run_calls_unheard_example :
    All (λ k. (run_calls calls not_running).closed k ≡ false) (run_calls calls not_running).monitors
run_calls_unheard_example = run_calls_unheard calls

abbrev first : Header
first = record { height = 1; prev = none; hash = some 101 }

-- The store is empty, and a second later it has the peer's tip.
abbrev seconds : List (Second Headers)
seconds =
    record { headers = []; peers_tip = 1 }
    ∷ record { headers = (101, first) ∷ []; peers_tip = 1 }
    ∷ []

check_synced_initial-IsSynced_example :
    (now : Second Headers) × Member now seconds × IsSynced (header_inmemory 10 10) now
unfolding check_synced_initial synced chain_tip has_all_ancestors ancestors_loop lookup
check_synced_initial-IsSynced_example =
    check_synced_initial-IsSynced (header_inmemory 10 10) seconds refl
