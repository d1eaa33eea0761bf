-- ===== src/Node/Messages/Arrivals.antt =====
-- A message of `NewMessage` at the other end of a connection, in `handlePeerMessages`.
use neutrino_elements.Prelude.{
  ℕ, suc, ◌≡◌, subst, true, List, [], ◌∷◌, ◌++◌, append-nil, length, ok, arith,
}
use neutrino_elements.Binary.Marshaler.{Value, marshal}
use neutrino_elements.Binary.Reader.{read, read-prefix}
use neutrino_elements.Store.Interface.{BlockHeaderRepository, FilterRepository}
use neutrino_elements.Protocol.Network.{Magic, has_valid_magic}
use neutrino_elements.Protocol.Message.{
  Message, MessageHeader, message_value, command_string, validate, decode_header, new_message,
}
use neutrino_elements.Protocol.Message.Header.{new_message_lem, decode_header-marshal}
use neutrino_elements.Node.Messages.{Session}
use neutrino_elements.Node.Messages.Handlers.{Externals}
use neutrino_elements.Node.Messages.Loop.{dispatch, handle_message}

read_all :
    (xs rest : List ℕ) {n : ℕ} → length xs ≡ suc n → read (suc n) (xs ++ rest) ≡ (ok xs, rest)
read_all [] rest e = absurd (omega arith)
read_all (x ∷ xs) rest e = read-prefix x xs rest e

module _ {Filter S F : Type 0} (lib : Externals Filter)
    (sha256_length : (bs : List ℕ) → length (lib.sha256 bs) ≡ 32) (network : Magic) (id : ℕ)
    (db : BlockHeaderRepository S) (filters_db : FilterRepository F) (headers_at : ℕ → S)
    (filters_at : ℕ → F) (valid : has_valid_magic network ≡ true) where
  round_lem :
      (header cmd : List ℕ) (mh : MessageHeader) (s : Session) (rest : List ℕ)
      → decode_header header ≡ (ok mh, [])
      → validate mh ≡ ok tt
      → command_string mh ≡ cmd
      → handle_message lib network id db filters_db headers_at filters_at header s rest
        ≡ dispatch lib network id db filters_db headers_at filters_at cmd mh s rest
  unfolding handle_message
  round_lem header cmd mh s rest d v c = ground arith

  -- The encoding is a header of 24 bytes and the payload, and the round that reads the header hands
  -- the payload to the handler of the command.
  abbrev pub Arrives : List ℕ → Message → Type 0
  Arrives cmd m =
      (header : List ℕ) × (length header ≡ 24)
      × (marshal (message_value m) ≡ ok (header ++ m.payload))
      × ((rest : List ℕ) → read 24 (header ++ rest) ≡ (ok header, rest))
      × ((s : Session) (rest : List ℕ)
          → handle_message lib network id db filters_db headers_at filters_at header s rest
            ≡ dispatch lib network id db filters_db headers_at filters_at cmd m.header s rest)

  pub new_message-Arrives :
      (cmd : List ℕ) (v : Value) (m : Message)
      → new_message lib.sha256 cmd network v ≡ ok m
      → Arrives cmd m
  new_message-Arrives cmd v m made =
      let (is, accepted, named, payload, sum) =
        new_message_lem lib.sha256 sha256_length cmd network v made valid in
      let (header, e, l, d) = decode_header-marshal m [] is in
      let d' : decode_header header ≡ (ok m.header, []) =
        subst (λ bs. decode_header bs ≡ (ok m.header, [])) (append-nil header) d in
      (
        header,
        l,
        e,
        λ rest. read_all header rest l,
        λ s rest. round_lem header cmd m.header s rest d' accepted named,
      )
