-- ===== src/Runs/Nodes.antt =====
-- Runs of pkg/node.
use neutrino_elements.Prelude.{
  ℕ, ◌≤◌, ◌<◌, ◌≡◌, refl, ◌⊎◌, All, List, [], ◌∷◌, none, some, ok, err, Error, arith, lookup,
  if◌then◌else◌,
}
use neutrino_elements.Ledger.{Header, Transaction, Block, hash_bytes}
use neutrino_elements.Protocol.Network.{magic_regtest}
use neutrino_elements.Protocol.Payloads.Chain.{MsgGetCFilters}
use neutrino_elements.Store.Headers.{Headers, header_inmemory, chain_tip}
use neutrino_elements.Store.Filters.{filter_inmemory}
use neutrino_elements.Node.Sync.{forward_headers, new_headers, check_headers_in_sequence}
use neutrino_elements.Node.Sync.Advance.{write_all, write_all-forward_headers}
use neutrino_elements.Node.Sync.Forwarding.{forwarded, Continues, forward_headers-Continues}
use neutrino_elements.Node.Serving.{handle_get_cfilters}
use neutrino_elements.Node.Serving.Heights.{handle_get_cfilters_silent}
use neutrino_elements.Node.Peers.{PeersState, PeerEvent, monitor_run}
use neutrino_elements.Node.Peers.Sent.{IsAnswer, monitor_run-IsSent}
use neutrino_elements.Node.Peers.Pongs.{pings_of, delivered, monitor_run-Answers}
use neutrino_elements.Node.Mempool.{check_tx_confirmed}
use neutrino_elements.Node.Mempool.Confirmed.{has_tx, check_tx_confirmed_lem}

abbrev header_at : ℕ → Header
header_at n = record { height = n; prev = none; hash = some n }

forward_headers-Continues_example :
    (forwarded (forward_headers (header_at 4) (header_at 3) (header_at 4 ∷ header_at 5 ∷ [])) ≡ [])
    ⊎ Continues 4 5
        (forwarded (forward_headers (header_at 4) (header_at 3) (header_at 4 ∷ header_at 5 ∷ [])))
forward_headers-Continues_example =
    forward_headers-Continues (header_at 4) (header_at 3) (header_at 4 ∷ header_at 5 ∷ [])
      (omega arith) (omega arith, (omega arith, tt)) (omega arith)

abbrev stored : Headers
stored = (7, header_at 7) ∷ []

abbrev asked : MsgGetCFilters
asked = record { filter_type = 0; start_height = 6; stop_hash = hash_bytes 7 }

abbrev zeros : List ℕ → List ℕ
zeros bs = []

handle_get_cfilters_silent_example :
    (handle_get_cfilters {Filter = List ℕ}
        (header_inmemory 10 10)
        (filter_inmemory (λ k. k.block_hash))
        (λ bs. ok bs)
        zeros
        magic_regtest
        (ok asked)
        stored
        ((7, 1 ∷ []) ∷ [])
      ≡ ok [])
    ⊎ ((e : Error) × (handle_get_cfilters {Filter = List ℕ}
            (header_inmemory 10 10)
            (filter_inmemory (λ k. k.block_hash))
            (λ bs. ok bs)
            zeros
            magic_regtest
            (ok asked)
            stored
            ((7, 1 ∷ []) ∷ [])
          ≡ err e))
handle_get_cfilters_silent_example =
    handle_get_cfilters_silent {Filter = List ℕ} (header_inmemory 10 10)
      (filter_inmemory (λ k. k.block_hash)) (λ bs. ok bs) zeros magic_regtest (ok asked) stored
      ((7, 1 ∷ []) ∷ [])

abbrev two_peers : PeersState
two_peers = record { peers = (1, 10) ∷ (2, 20) ∷ []; peers_pong_ch = [] }

abbrev events : List PeerEvent
events = PeerEvent.ping 55 1 ∷ PeerEvent.pong 55 ∷ PeerEvent.pong 55 ∷ []

monitor_run-Answers_example :
    delivered 55 (monitor_run events (record { peer_pings = []; state = two_peers })).1
    ≤ pings_of 55 events
monitor_run-Answers_example = monitor_run-Answers 55 events two_peers

monitor_run-IsSent_example :
    All (IsAnswer events) (monitor_run events (record { peer_pings = []; state = two_peers })).1
monitor_run-IsSent_example = monitor_run-IsSent events two_peers

abbrev tx_of : ℕ → Transaction
tx_of n = record { tx_id = n; inputs = []; outputs = [] }

abbrev pool : List (ℕ × Transaction)
pool = (5, tx_of 5) ∷ (6, tx_of 6) ∷ []

abbrev mined : Block
mined = record { header = header_at 9; transactions = tx_of 6 ∷ [] }

check_tx_confirmed_lem_example :
    lookup 6 (check_tx_confirmed mined pool).0
    ≡ (if has_tx 6 mined.transactions then none else lookup 6 pool)
check_tx_confirmed_lem_example = check_tx_confirmed_lem 6 mined pool (refl, (refl, tt))

abbrev held : Headers
held = (3, header_at 3) ∷ (4, header_at 4) ∷ []

write_all-forward_headers_example :
    (u : Header) × (chain_tip (
        write_all 1
          (forwarded (forward_headers (header_at 4) (header_at 3) (header_at 4 ∷ header_at 5 ∷ [])))
          held)
      ≡ ok u)
    × (((forwarded (forward_headers (header_at 4) (header_at 3) (header_at 4 ∷ header_at 5 ∷ []))
            ≡ [])
          × (u.height ≡ 4))
        ⊎ ((4 < u.height) × (u.height ≡ 5)))
unfolding chain_tip forward_headers new_headers check_headers_in_sequence
write_all-forward_headers_example =
    write_all-forward_headers 1 held (header_at 4) (header_at 3) (header_at 4 ∷ header_at 5 ∷ [])
      refl (omega arith) (omega arith, (omega arith, tt)) (omega arith) ((5, refl), tt)
