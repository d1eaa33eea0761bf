-- ===== src/Node/Service/Monitoring.antt =====
-- `monitorPeer` of pkg/node/handle_ping.go, and the peers that do not answer.
use neutrino_elements.Prelude.{ℕ, List, [], ◌∷◌, ◌++◌, if◌then◌else◌}
use neutrino_elements.Node.Peers.{PeerEvent}
use neutrino_elements.Node.Service.{Tick, Deed}

-- What a tick does before its answer.
abbrev ping_deeds : ℕ → Tick → List Deed
ping_deeds id t =
    (if t.written then [] else Deed.lost id ∷ []) ++ (Deed.event (PeerEvent.ping t.nonce id) ∷ [])
