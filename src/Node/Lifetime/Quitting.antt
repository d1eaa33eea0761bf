-- ===== src/Node/Lifetime/Quitting.antt =====
-- Which goroutines `Stop` ends.
use neutrino_elements.Prelude.{
  ℕ, ◌<◌, ◌≡◌, refl, inl, inr, Bool, true, false, List, [], ◌∷◌, All, Result, ok, err, arith, ◌==◌,
  ◌||◌, if◌then◌else◌, Bool-cases,
}
use neutrino_elements.Node.Lifetime.{
  Running, not_running, start_node, stop_pool, close_quit, stop_node, Call, starts, stops,
  run_calls,
}

-- The owner's channel is the first, which no goroutine reads, and no other is closed.
abbrev Inv : Running → Type 0
Inv n =
    (n.quit ≡ 0)
    × (0 < n.made)
    × ((k : ℕ) → 0 < k → n.closed k ≡ false)
    × All (λ k. 0 < k) n.monitors

start_node-Inv : (r : Result (Unit {0})) (n : Running) → Inv n → Inv (start_node r n).1
unfolding start_node
start_node-Inv (err e) n (q, m, o, f) = (q, omega arith, o, f)
start_node-Inv (ok _) n (q, m, o, f) = (q, omega arith, o, (m, (m, (m, f))))

stop_pool-Inv : (n : Running) → Inv n → Inv (stop_pool n)
unfolding stop_pool
stop_pool-Inv n v = elim (Bool-cases n.pool_closed) [
  | inl e ↦ rw (stop_pool, e) v
  | inr e ↦ rw (stop_pool, e) v
]

close_quit-Inv : (n : Running) → Inv n → Inv (close_quit n)
unfolding close_quit
close_quit-Inv n (q, m, o, f) = elim (Bool-cases (n.closed n.quit)) [
  | inl e ↦ rw (close_quit, e) (q, m, o, f)
  | inr e ↦ rw (close_quit, e) (q, m, (λ k h. still_open k h), f)
]
  where
    still_open : (k : ℕ) → 0 < k → ((k == n.quit) || n.closed k) ≡ false
    still_open k h = ground (arith, o k h)

stop_node-Inv : (n : Running) → Inv n → Inv (stop_node n)
unfolding stop_node
stop_node-Inv n v =
    let w = stop_pool-Inv n v in
    elim (stop_pool n).panicked
      as (λ b. Inv (if b then stop_pool n else close_quit (stop_pool n))) [
        | true ↦ w
        | false ↦ close_quit-Inv (stop_pool n) w
      ]

run_calls-Inv : (calls : List Call) (n : Running) → Inv n → Inv (run_calls calls n)
unfolding run_calls
run_calls-Inv [] n v = v
run_calls-Inv (starts r ∷ calls) n v = run_calls-Inv calls _ (start_node-Inv r n v)
run_calls-Inv (stops ∷ calls) n v = run_calls-Inv calls _ (stop_node-Inv n v)

every_open :
    (closed : ℕ → Bool) (ks : List ℕ)
    → ((k : ℕ) → 0 < k → closed k ≡ false)
    → All (λ k. 0 < k) ks
    → All (λ k. closed k ≡ false) ks
every_open closed [] o f = tt
every_open closed (k ∷ ks) o (l, f) = (o k l, every_open closed ks o f)

-- Whatever the owner calls, in any order and with any results, no goroutine of `monitorPeers`,
-- `monitorBlockHeaders` or `monitorCFilters` is ever told to end: the channel that it reads stays
-- open, also after `Stop`.
pub run_calls_unheard :
    (calls : List Call)
    → All
        (λ k. (run_calls calls not_running).closed k ≡ false)
        (run_calls calls not_running).monitors
run_calls_unheard calls =
    let (q, m, o, f) = run_calls-Inv calls not_running (refl, omega arith, (λ k h. refl), tt) in
    every_open _ _ o f

stop_pool_closes : (n : Running) → (stop_pool n).pool_closed ≡ true
unfolding stop_pool
stop_pool_closes n = elim (Bool-cases n.pool_closed) [
  | inl e ↦ rw (stop_pool, e) refl
  | inr e ↦ rw (stop_pool, e) refl
]

stop_node_closes : (n : Running) → (stop_node n).pool_closed ≡ true
unfolding stop_node close_quit
stop_node_closes n = ground (arith, stop_pool_closes n)

-- The second of two calls of `Stop` panics, whatever was called before them.
pub stop_node_twice : (n : Running) → (stop_node (stop_node n)).panicked ≡ true
unfolding stop_node stop_pool
stop_node_twice n = let e = stop_node_closes n in rw (stop_node, stop_pool, e) refl
