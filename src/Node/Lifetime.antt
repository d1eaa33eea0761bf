-- ===== src/Node/Lifetime.antt =====
-- pkg/node/node.go: `Start` and `Stop`; mempool.go: `Start` and `Stop`; and chainsync.go: `sync`,
-- `checkSyncedInitial` and `notifySynced`. A goroutine is the channel that ends it. Channels have
-- numbers.
pub mod Quitting
pub mod Waiting
use neutrino_elements.Prelude.{
  ℕ, ◌+◌, Bool, true, false, List, [], ◌∷◌, ◌++◌, Option, none, some, Result, ok, err, Error, ◌==◌,
  ◌||◌, if◌then◌else◌,
}
use neutrino_elements.Store.Interface.{BlockHeaderRepository}
use neutrino_elements.Node.Sync.{synced}

-- The struct `node` that its owner has, with the goroutines that run for it.
pub record Running : Type 0 where
  -- the owner's `quit`
  pub quit : ℕ
  -- the channels made so far
  pub made : ℕ
  pub closed : ℕ → Bool
  -- the `quit` of each goroutine of `monitorPeers`, `monitorBlockHeaders` and `monitorCFilters`
  pub monitors : List ℕ
  -- the listeners of the mempool, until its channel is closed
  pub listeners : ℕ
  pub pool_closed : Bool
  pub panicked : Bool

-- `New` makes the first channel.
abbrev pub not_running : Running
not_running = record {
  quit = 0;
  made = 1;
  closed = λ k. false;
  monitors = [];
  listeners = 0;
  pool_closed = false;
  panicked = false;
}

-- `Start` up to its wait for `syncedChan`, with what NewElementsPeer and AddOutboundPeer return. The
-- receiver is a copy of the struct: the new channel is the copy's, which the goroutines read, and the
-- owner's field stays. A listener of a mempool that is closed ends at once.
unfoldable pub start_node : Result (Unit {0}) → Running → Result (Unit {0}) × Running
start_node (err e) n = (err e, record n { made = n.made + 1 })
start_node (ok _) n = (
  ok tt,
  record n {
    made = n.made + 1;
    monitors = n.made ∷ n.made ∷ n.made ∷ n.monitors;
    listeners = if n.pool_closed then n.listeners else n.listeners + 1;
  },
)

-- `MemPool.Stop` without the subscribers' channels: closing a channel twice panics.
unfoldable pub stop_pool : Running → Running
stop_pool n =
    if n.pool_closed
    then record n { panicked = true }
    else record n { pool_closed = true; listeners = 0 }

unfoldable pub close_quit : Running → Running
close_quit n =
    if n.closed n.quit
    then record n { panicked = true }
    else record n { closed = λ k. (k == n.quit) || n.closed k }

-- `Stop`, with a pointer receiver.
unfoldable pub stop_node : Running → Running
stop_node n = let stopped = stop_pool n in if stopped.panicked then stopped else close_quit stopped

-- A call of the owner.
pub data Call : Type 0 where
  starts : Result (Unit {0}) → Call
  stops : Call

unfoldable pub run_calls : List Call → Running → Running
run_calls [] n = n
run_calls (starts r ∷ calls) n = run_calls calls (start_node r n).1
run_calls (stops ∷ calls) n = run_calls calls (stop_node n)

-- `getBestPeerForSync`: the first peer of the map in its iteration order, or nil.
unfoldable pub get_best_peer_for_sync : List (ℕ × ℕ) → Option ℕ
get_best_peer_for_sync [] = none
get_best_peer_for_sync ((id, tip) ∷ peers) = some id

-- `sync`: the peer that `syncWithPeer` is called with. No peer at all is a nil dereference.
unfoldable pub sync_peer : Option ℕ → List (ℕ × ℕ) → Result ℕ
sync_peer (some p) peers = ok p
sync_peer none [] = err Error.panic
sync_peer none ((id, tip) ∷ peers) = ok id

-- A second of `checkSyncedInitial`: the header store, and the tip of the initial peer.
pub record Second (S : Type 0) : Type 0 where
  pub headers : S
  pub peers_tip : ℕ

-- The loop of `checkSyncedInitial`, with the messages to `syncedChan`: whether `notifySynced` has sent
-- before is `once`. An error of `synced` counts as not synced.
unfoldable pub check_synced_initial :
    {S : Type 0} → BlockHeaderRepository S → Bool → List (Second S) → ℕ
check_synced_initial db once [] = 0
check_synced_initial db once (now ∷ later) =
    let rest = check_synced_initial db once later in
    elim (synced db now.peers_tip now.headers) [
      | err e ↦ rest
      | ok true ↦ if once then 0 else 1
      | ok false ↦ rest
    ]
