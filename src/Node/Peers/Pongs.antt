-- ===== src/Node/Peers/Pongs.antt =====
-- `monitorPeers`: how many pongs are delivered, by their nonces.
use neutrino_elements.Prelude.{
  ℕ, ◌+◌, ◌≤◌, ◌≡◌, refl, subst, inl, inr, List, [], ◌∷◌, Option, none, some, arith, ◌==◌, lookup,
  insert, delete, lookup-insert, lookup-delete, Bool-cases, Option-cases, if◌then◌else◌,
}
use neutrino_elements.Node.Peers.{
  PeersState, disconnect_peer, delete_ping_of, PeerEvent, Monitor, take_pong, monitor_step,
  monitor_run,
}

-- A peer that is disconnected is no longer known, and the others are as before.
pub disconnect_peer_lem :
    (j id : ℕ) (n : PeersState)
    → lookup j (disconnect_peer id n).peers ≡ (if id == j then none else lookup j n.peers)
unfolding disconnect_peer
disconnect_peer_lem j id n = elim (Option-cases (lookup id n.peers)) [
  | inl e ↦ rw (disconnect_peer, e) (ground arith)
  | inr (p, e) ↦ rw (disconnect_peer, e) (lookup-delete j id n.peers)
]

-- How many pings with the nonce were sent, and how many pongs with it were delivered.
abbrev pub pings_of : ℕ → List PeerEvent → ℕ
pings_of j [] = 0
pings_of j (PeerEvent.ping nonce peer ∷ es) = (if nonce == j then 1 else 0) + pings_of j es
pings_of j (PeerEvent.pong nonce ∷ es) = pings_of j es
pings_of j (PeerEvent.disconnected peer ∷ es) = pings_of j es

abbrev pub delivered : ℕ → List (ℕ × ℕ) → ℕ
delivered j [] = 0
delivered j ((peer, nonce) ∷ ds) = (if nonce == j then 1 else 0) + delivered j ds

-- 1 where a ping with the nonce is out.
abbrev waiting : ℕ → List (ℕ × ℕ) → ℕ
waiting j pings = elim (lookup j pings) [ none ↦ 0 | some p ↦ 1 ]

delete_ping_of-waiting :
    (j id : ℕ) (pings : List (ℕ × ℕ)) → waiting j (delete_ping_of id pings) ≤ waiting j pings
unfolding delete_ping_of lookup
delete_ping_of-waiting j id [] = omega arith
delete_ping_of-waiting j id ((nonce, peer) ∷ pings) =
    ground (arith, delete_ping_of-waiting j id pings)

insert-waiting :
    (j nonce peer : ℕ) (pings : List (ℕ × ℕ))
    → waiting j (insert nonce peer pings) ≤ (if nonce == j then 1 else 0) + waiting j pings
insert-waiting j nonce peer pings =
    rw (waiting, lookup-insert j nonce peer pings)
      (elim (Bool-cases (nonce == j)) [ inl e ↦ rw e (omega arith) | inr e ↦ rw e (omega arith) ])

delete-waiting :
    (j nonce : ℕ) (pings : List (ℕ × ℕ))
    → waiting j (delete nonce pings) ≡ (if nonce == j then 0 else waiting j pings)
delete-waiting j nonce pings =
    rw (waiting, lookup-delete j nonce pings)
      (elim (Bool-cases (nonce == j)) [ inl e ↦ rw e refl | inr e ↦ rw e refl ])

-- 1 where a pong with the nonce was delivered.
abbrev handed : ℕ → Option (ℕ × ℕ) → ℕ
handed j none = 0
handed j (some (peer, nonce)) = if nonce == j then 1 else 0

take_pong-waiting :
    (j nonce peer : ℕ) (m : Monitor)
    → lookup nonce m.peer_pings ≡ some peer
    → handed j (take_pong nonce peer m).1 + waiting j (take_pong nonce peer m).0.peer_pings
      ≤ waiting j m.peer_pings
unfolding take_pong
take_pong-waiting j nonce peer m e = elim (Bool-cases (peer == 0)) [
  | inl z ↦ rw z (omega arith)
  | inr z ↦ elim (Option-cases (lookup peer m.state.peers)) [
    | inl f ↦ rw (z, f) (omega arith)
    | inr (p, f) ↦
        rw (z, f, delete-waiting j nonce m.peer_pings)
          (elim (Bool-cases (nonce == j)) [
            | inr g ↦ rw g (omega arith)
            | inl g ↦
                let h : lookup j m.peer_pings ≡ some peer =
                  subst (λ i. lookup i m.peer_pings ≡ some peer) (ground arith) e in
                let c : waiting j m.peer_pings ≡ 1 = rw (waiting, h) in rw g (omega arith)
          ])
  ]
]

monitor_step-waiting :
    (j : ℕ) (e : PeerEvent) (m : Monitor)
    → handed j (monitor_step e m).1 + waiting j (monitor_step e m).0.peer_pings
      ≤ pings_of j (e ∷ []) + waiting j m.peer_pings
unfolding monitor_step
monitor_step-waiting j (PeerEvent.pong nonce) m = elim (Option-cases (lookup nonce m.peer_pings)) [
  | inl e ↦ rw (monitor_step, e) (omega arith)
  | inr (peer, e) ↦ rw (monitor_step, e) (omega (arith, take_pong-waiting j nonce peer m e))
]
monitor_step-waiting j (PeerEvent.ping nonce peer) m =
    omega (arith, insert-waiting j nonce peer m.peer_pings)
monitor_step-waiting j (PeerEvent.disconnected peer) m =
    omega (arith, delete_ping_of-waiting j peer m.peer_pings)

pings_of-cons :
    (j : ℕ) (e : PeerEvent) (es : List PeerEvent)
    → pings_of j (e ∷ es) ≡ pings_of j (e ∷ []) + pings_of j es
pings_of-cons j (PeerEvent.ping nonce peer) es = omega arith
pings_of-cons j (PeerEvent.pong nonce) es = omega arith
pings_of-cons j (PeerEvent.disconnected peer) es = omega arith

delivered-handed :
    (j : ℕ) (out : Option (ℕ × ℕ)) (later : List (ℕ × ℕ))
    → delivered j (elim out [ none ↦ later | some d ↦ d ∷ later ])
      ≡ handed j out + delivered j later
delivered-handed j none later = omega arith
delivered-handed j (some (peer, nonce)) later = omega arith

monitor_run-waiting :
    (j : ℕ) (es : List PeerEvent) (m : Monitor)
    → delivered j (monitor_run es m).1 ≤ pings_of j es + waiting j m.peer_pings
unfolding monitor_run
monitor_run-waiting j [] m = omega arith
monitor_run-waiting j (e ∷ es) m = omega (
  arith,
  pings_of-cons j e es,
  monitor_step-waiting j e m,
  delivered-handed j (monitor_step e m).1 (monitor_run es (monitor_step e m).0).1,
  monitor_run-waiting j es (monitor_step e m).0,
)

-- Whatever comes in, and in whatever order: the pongs delivered with a nonce are no more than the
-- pings that were sent with it.
pub monitor_run-Answers :
    (j : ℕ) (es : List PeerEvent) (state : PeersState)
    → delivered j (monitor_run es (record { peer_pings = []; state = state })).1 ≤ pings_of j es
unfolding lookup
monitor_run-Answers j es state =
    let h = monitor_run-waiting j es (record { peer_pings = []; state = state }) in omega arith
