-- ===== src/Node/Messages/Inventories.antt =====
-- `handleInv`: inventories, and the requests for what they name.
use neutrino_elements.Prelude.{
  ℕ, ◌<◌, ◌≡◌, refl, sym, subst, ◌∙◌, List, [], ◌∷◌, append-nil, length, All, ok, arith, codes,
  bytes_eq,
}
use neutrino_elements.Binary.Marshaler.{Value, marshal}
use neutrino_elements.Protocol.Network.{Magic}
use neutrino_elements.Protocol.Message.{
  Message, message_value, new_message, lookup_command, is_command,
}
use neutrino_elements.Protocol.Payloads.Inventory.{
  MsgInv, IsInvVector, unmarshal_inv, marshal_get_data, read-marshal_get_data,
}
use neutrino_elements.Node.Messages.{Action, Session, send_message, send_new, done}
use neutrino_elements.Node.Messages.Handlers.{Externals, answer_inv}

module _ {Filter : Type 0} (lib : Externals Filter) (network : Magic) (id : ℕ) where
  get_data_made :
      (payload : List ℕ)
      → (m : Message) × (bytes : List ℕ) × (new_message lib.sha256
            (codes "getdata")
            network
            (Value.marshaler (ok payload))
          ≡ ok m)
        × (m.payload ≡ payload)
        × (marshal (message_value m) ≡ ok bytes)
  unfolding new_message marshal lookup_command is_command bytes_eq
  get_data_made payload = (_, _, refl, refl, refl)

  answer_inv_lem :
      (inv : MsgInv) (s : Session) (m : Message) (bytes : List ℕ)
      → new_message lib.sha256 (codes "getdata") network (Value.marshaler (marshal_get_data inv))
        ≡ ok m
      → marshal (message_value m) ≡ ok bytes
      → lib.write bytes ≡ ok tt
      → answer_inv {Filter = Filter} lib network id inv s ≡ done (Action.send bytes ∷ []) s
  unfolding answer_inv send_new send_message
  answer_inv_lem inv s m bytes made enc w = ground arith

  -- While the connection takes what is written: an inv message of fewer than 256 entries in range,
  -- once it is decoded, is answered with one getdata message and nothing else, and what
  -- UnmarshalBinary reads from that message's payload are the entries of the inv message.
  pub answer_inv-requests :
      ((bytes : List ℕ) → lib.write bytes ≡ ok tt)
      → (inv : MsgInv) → inv.count ≡ length inv.inventory
      → inv.count < 256
      → All IsInvVector inv.inventory
      → (s : Session)
      → (m : Message) × (bytes : List ℕ) × (new_message lib.sha256
            (codes "getdata")
            network
            (Value.marshaler (marshal_get_data inv))
          ≡ ok m)
        × (marshal (message_value m) ≡ ok bytes)
        × (answer_inv {Filter = Filter} lib network id inv s ≡ done (Action.send bytes ∷ []) s)
        × (unmarshal_inv m.payload ≡ (ok inv, []))
  answer_inv-requests w inv c l v s =
      let (payload, f, d) = read-marshal_get_data inv [] c l v in
      let (m, bytes, made, same, enc) = get_data_made payload in
      let made' : new_message lib.sha256 (codes "getdata") network
            (Value.marshaler (marshal_get_data inv))
          ≡ ok m =
        rw f made in
      (
        m,
        bytes,
        made',
        enc,
        answer_inv_lem inv s m bytes made' enc (w bytes),
        subst (λ x. unmarshal_inv x ≡ (ok inv, [])) (append-nil payload ∙ sym same) d,
      )
