-- ===== src/Node/Peers/Sent.antt =====
-- `monitorPeers`: where the pongs go.
use neutrino_elements.Prelude.{
  ℕ, ◌≡◌, subst, inl, inr, List, [], ◌∷◌, Option, none, some, All, Member, All-of_members, arith,
  ◌==◌, lookup, insert, delete, Bool-cases, Option-cases,
}
use neutrino_elements.Node.Peers.{
  PeersState, delete_ping_of, PeerEvent, Monitor, take_pong, monitor_step, monitor_run,
}

module _ (es : List PeerEvent) where
  -- The ping was sent to the peer.
  abbrev pub IsSent : ℕ × ℕ → Type 0
  IsSent (nonce, peer) = Member (PeerEvent.ping nonce peer) es

  abbrev AllSent : List (ℕ × ℕ) → Type 0
  AllSent pings = All IsSent pings

  insert-AllSent :
      (nonce peer : ℕ) (pings : List (ℕ × ℕ))
      → IsSent (nonce, peer)
      → AllSent pings
      → AllSent (insert nonce peer pings)
  unfolding insert
  insert-AllSent nonce peer [] i h = (i, tt)
  insert-AllSent nonce peer ((k, p) ∷ pings) i (j, h) = elim (Bool-cases (k == nonce)) [
    | inl e ↦ rw e (i, h)
    | inr e ↦ rw e (j, insert-AllSent nonce peer pings i h)
  ]

  delete-AllSent : (nonce : ℕ) (pings : List (ℕ × ℕ)) → AllSent pings → AllSent (delete nonce pings)
  unfolding delete
  delete-AllSent nonce [] h = tt
  delete-AllSent nonce ((k, p) ∷ pings) (j, h) = elim (Bool-cases (k == nonce)) [
    | inl e ↦ rw e (delete-AllSent nonce pings h)
    | inr e ↦ rw e (j, delete-AllSent nonce pings h)
  ]

  delete_ping_of-AllSent :
      (id : ℕ) (pings : List (ℕ × ℕ)) → AllSent pings → AllSent (delete_ping_of id pings)
  unfolding delete_ping_of
  delete_ping_of-AllSent id [] h = tt
  delete_ping_of-AllSent id ((k, p) ∷ pings) (j, h) = elim (Bool-cases (p == id)) [
    | inl e ↦ rw e h
    | inr e ↦ rw e (j, delete_ping_of-AllSent id pings h)
  ]

  lookup-IsSent :
      (nonce peer : ℕ) (pings : List (ℕ × ℕ))
      → AllSent pings
      → lookup nonce pings ≡ some peer
      → IsSent (nonce, peer)
  unfolding lookup
  lookup-IsSent nonce peer [] h e = cc
  lookup-IsSent nonce peer ((k, p) ∷ pings) (j, h) e = elim (Bool-cases (k == nonce)) [
    | inl b ↦
        let k' : k ≡ nonce = ground arith in
        let p' : p ≡ peer = ground arith in
        subst (λ n. IsSent (n, peer)) k' (subst (λ q. IsSent (k, q)) p' j)
    | inr b ↦ lookup-IsSent nonce peer pings h (ground arith)
  ]

  -- What a pong brings to a peer's channel.
  abbrev OutSent : Option (ℕ × ℕ) → Type 0
  OutSent none = Unit {0}
  OutSent (some (peer, nonce)) = IsSent (nonce, peer)

  abbrev Kept : Monitor × Option (ℕ × ℕ) → Type 0
  Kept (m, out) = AllSent m.peer_pings × OutSent out

  take_pong-Kept :
      (nonce peer : ℕ) (m : Monitor)
      → IsSent (nonce, peer)
      → AllSent m.peer_pings
      → Kept (take_pong nonce peer m)
  unfolding take_pong
  take_pong-Kept nonce peer m i h = elim (Bool-cases (peer == 0)) [
    | inl z ↦ rw z (h, tt)
    | inr z ↦ elim (Option-cases (lookup peer m.state.peers)) [
      | inl f ↦ rw (z, f) (h, tt)
      | inr (p, f) ↦ rw (z, f) (delete-AllSent nonce m.peer_pings h, i)
    ]
  ]

  monitor_step-Kept :
      (e : PeerEvent) (m : Monitor) → Member e es → AllSent m.peer_pings → Kept (monitor_step e m)
  unfolding monitor_step
  monitor_step-Kept (PeerEvent.pong nonce) m i h = elim (Option-cases (lookup nonce m.peer_pings)) [
    | inl e ↦ rw (monitor_step, e) (h, tt)
    | inr (peer, e) ↦
        rw (monitor_step, e)
          (take_pong-Kept nonce peer m (lookup-IsSent nonce peer m.peer_pings h e) h)
  ]
  monitor_step-Kept (PeerEvent.ping nonce peer) m i h =
      (insert-AllSent nonce peer m.peer_pings i h, tt)
  monitor_step-Kept (PeerEvent.disconnected peer) m i h =
      (delete_ping_of-AllSent peer m.peer_pings h, tt)

  -- A pong that was delivered, as a peer and a nonce.
  abbrev pub IsAnswer : ℕ × ℕ → Type 0
  IsAnswer (peer, nonce) = IsSent (nonce, peer)

  monitor_run-IsAnswer :
      (later : List PeerEvent) (m : Monitor)
      → All (λ e. Member e es) later
      → AllSent m.peer_pings
      → All IsAnswer (monitor_run later m).1
  unfolding monitor_run
  monitor_run-IsAnswer [] m w h = tt
  monitor_run-IsAnswer (e ∷ later) m (i, w) h =
      let (k, o) = monitor_step-Kept e m i h in
      delivered (monitor_step e m).1 o (monitor_run-IsAnswer later (monitor_step e m).0 w k)
    where
      delivered :
          (out : Option (ℕ × ℕ))
          → OutSent out
          → All IsAnswer (monitor_run later (monitor_step e m).0).1
          → All IsAnswer (elim out [
            | none ↦ (monitor_run later (monitor_step e m).0).1
            | some d ↦ d ∷ (monitor_run later (monitor_step e m).0).1
          ])
      delivered none o r = r
      delivered (some d) o r = (o, r)

-- Whatever comes in, and in whatever order: a pong reaches a peer's channel only if a ping with its
-- nonce was sent to that peer.
pub monitor_run-IsSent :
    (es : List PeerEvent) (state : PeersState)
    → All (IsAnswer es) (monitor_run es (record { peer_pings = []; state = state })).1
monitor_run-IsSent es state = monitor_run-IsAnswer es es _ (All-of_members _ es (λ e m. m)) tt
