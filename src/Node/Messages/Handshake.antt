-- ===== src/Node/Messages/Handshake.antt =====
-- `handleVersion`: how a peer becomes one of the node's peers.
pub mod Joining
pub mod Answer
use neutrino_elements.Prelude.{
  ℕ, zero, suc, ◌≡◌, refl, sym, ap, ◌∙◌, ◌⊎◌, inl, inr, Bool, true, false, not, List, [], ◌∷◌, ◌++◌,
  map, length, ◌==◌, Option, none, some, Result, ok, err, Error, arith, Bool-cases, Result-cases,
  codes, bytes_eq, lookup, insert, ◌>>=◌ as and_then, if◌then◌else◌,
}
use neutrino_elements.Ledger.{Header, Block}
use neutrino_elements.Binary.Marshaler.{Value, marshal}
use neutrino_elements.Binary.Reader.{Reader, limit}
use neutrino_elements.Store.Interface.{BlockHeaderRepository, FilterRepository}
use neutrino_elements.Protocol.Network.{Magic, has_service, sf_node_cf}
use neutrino_elements.Protocol.Message.{
  Message, MessageHeader, message_value, command_string, validate, decode_header, new_message,
  lookup_command, is_command,
}
use neutrino_elements.Protocol.Payloads.Version.{MsgVersion, decode_version}
use neutrino_elements.Protocol.Payloads.Delivery.{unmarshal_block}
use neutrino_elements.Protocol.Payloads.Chain.{unmarshal_headers}
use neutrino_elements.Node.Peers.{PeersState, add_peer}
use neutrino_elements.Node.Sync.{Effect, tip_or_zero, handle_headers, handle_block}
use neutrino_elements.Node.Messages.{
  Action, Session, Outcome, set_peers_tip, failed, done, preceded, then_do, receive, send_message,
  send_new,
}
use neutrino_elements.Node.Messages.Handlers.{
  Externals, new_verack_msg, new_send_headers_message, after_effects, with_effects, join,
  answer_version, handle_version, handle_verack, answer_ping, handle_ping, handle_pong, answer_inv,
  handle_inv, handle_tx, handle_cfilter, handle_send_cmpct, handle_get_headers, skip_message,
  answer_headers, answer_block, answer_get_cfilters,
}
use neutrino_elements.Node.Messages.Loop.{dispatch, handle_message}

-- The peer is not in the node's map behind the outcome.
abbrev pub Outside : {Filter : Type 0} → ℕ → Outcome Filter → Type 0
Outside id o = lookup id o.session.node.peers ≡ none

after_effects_outside :
    (id : ℕ) (es : List Effect) (s : Session)
    → lookup id s.node.peers ≡ none
    → lookup id (after_effects id es s).node.peers ≡ none
unfolding after_effects set_peers_tip
after_effects_outside id [] s h = h
after_effects_outside id (Effect.set_peers_tip tip ∷ es) s h =
    after_effects_outside id es (set_peers_tip id tip s) (ground arith)
after_effects_outside id (Effect.forward x ∷ es) s h = after_effects_outside id es s h
after_effects_outside id (Effect.sync ∷ es) s h = after_effects_outside id es s h
after_effects_outside id (Effect.check_tx_confirmed b ∷ es) s h = after_effects_outside id es s h

-- What holds of every outcome of a handler that reads its payload.
pub receive-All :
    {Filter A : Type 0} (P : Outcome Filter → Type 0) (m : Reader A)
    (handle : A → Session → Outcome Filter) (h : MessageHeader) (s : Session) (bs : List ℕ)
    → ((e : Error) → P (failed e s))
    → ((a : A) → (limit h.size m bs).0 ≡ ok a → P (handle a s))
    → P (receive m handle h s bs).0
unfolding receive
receive-All {Filter = Filter} {A = A} P m handle h s bs f g = go (limit h.size m bs).0 refl
  where
    go :
        (r : Result A)
        → (limit h.size m bs).0 ≡ r
        → P (elim r [ err e ↦ failed e s | ok a ↦ handle a s ])
    go (ok a) q = g a q
    go (err e) q = f e

-- A message goes out, or nothing happens.
send_new-cases :
    {Filter : Type 0} (write : List ℕ → Result (Unit {0})) (message : Result Message) (s : Session)
    → ((bytes : List ℕ) × (send_new {Filter = Filter} write message s
          ≡ done (Action.send bytes ∷ []) s))
      ⊎ ((e : Error) × (send_new {Filter = Filter} write message s ≡ failed e s))
unfolding send_new send_message
send_new-cases write (err e) s = inr (e, refl)
send_new-cases write (ok m) s = elim (Result-cases (marshal (message_value m))) [
  | inr (e, f) ↦ inr (e, ground arith)
  | inl (bytes, f) ↦ elim (Result-cases (write bytes)) [
    | inr (e, g) ↦ inr (e, ground arith)
    | inl (u, g) ↦ inl (bytes, ground arith)
  ]
]

module _ {Filter : Type 0} (lib : Externals Filter) (network : Magic) (id : ℕ) where
  pub send_new-Outside :
      (message : Result Message) (s : Session)
      → lookup id s.node.peers ≡ none
      → Outside {Filter = Filter} id (send_new lib.write message s)
  send_new-Outside message s h = elim (send_new-cases {Filter = Filter} lib.write message s) [
    | inl (bytes, e) ↦ rw e h
    | inr (x, e) ↦ rw e h
  ]

  pub with_effects-Outside :
      (effects : Result (List Effect)) (s : Session)
      → lookup id s.node.peers ≡ none
      → Outside id (with_effects lib network id effects s)
  unfolding with_effects
  with_effects-Outside (ok es) s h = after_effects_outside id es s h
  with_effects-Outside (err e) s h = h

  -- The peer has the service, and two messages went out before anything else.
  abbrev pub Greeted : MsgVersion → Outcome Filter → Type 0
  Greeted v o =
      (has_service v.services sf_node_cf ≡ true)
      × (verack send_headers : List ℕ) × (later : List (Action Filter)) × (o.actions
          ≡ Action.send verack ∷ Action.send send_headers ∷ later)

  pub answer_version_joins :
      (v : MsgVersion) (s : Session)
      → lookup id s.node.peers ≡ none
      → Outside id (answer_version lib network id v s)
        ⊎ Greeted v (answer_version lib network id v s)
  unfolding answer_version then_do
  answer_version_joins v s h = elim (Bool-cases (has_service v.services sf_node_cf)) [
    | inr e ↦ inl (ground arith)
    | inl e ↦
        elim (send_new-cases {Filter = Filter} lib.write (new_verack_msg lib.sha256 network) s) [
          | inr (x, f) ↦ inl (ground arith)
          | inl (a, f) ↦
              elim (send_new-cases {Filter = Filter} lib.write
                (new_send_headers_message lib.sha256 network) s) [
                  | inr (x, g) ↦ inl (ground arith)
                  | inl (b, g) ↦ inr (
                    e,
                    a,
                    b,
                    (join lib network id (set_peers_tip id v.start_height s)).actions,
                    ground arith,
                  )
                ]
        ]
  ]
