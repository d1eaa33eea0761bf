-- ===== src/Protocol/Message.antt =====
-- pkg/protocol/msg.go and cmd.go: the 24 bytes of a message header, the commands, and messages.
pub mod Header
use neutrino_elements.Prelude.{
  ℕ, zero, suc, ◌+◌, ◌-◌, ◌%◌, ◌^◌, Bool, true, false, List, [], ◌∷◌, ◌++◌, Result, ok, err, Error,
  ltb, ◌==◌, replicate, length, take, codes, bytes_eq, some_of, not, if◌then◌else◌,
  ◌>>=◌ as and_then,
}
use neutrino_elements.Binary.Marshaler.{Value, Fields, marshal}
use neutrino_elements.Binary.Reader.{Reader, pure, lift, ◌>>=◌, then_read}
use neutrino_elements.Binary.Unmarshaler.{Shape, Shapes, decode_struct}
use neutrino_elements.Protocol.Network.{Magic, has_valid_magic}

-- The keys of the map `commands`.
unfoldable pub commands : List (List ℕ)
commands =
    codes "block"
    ∷ codes "getdata"
    ∷ codes "inv"
    ∷ codes "ping"
    ∷ codes "pong"
    ∷ codes "tx"
    ∷ codes "verack"
    ∷ codes "version"
    ∷ codes "addr"
    ∷ codes "notfound"
    ∷ codes "getblocks"
    ∷ codes "getheaders"
    ∷ codes "headers"
    ∷ codes "getaddr"
    ∷ codes "mempool"
    ∷ codes "checkorder"
    ∷ codes "submitorder"
    ∷ codes "reply"
    ∷ codes "reject"
    ∷ codes "filterload"
    ∷ codes "filteradd"
    ∷ codes "filterclear"
    ∷ codes "merkleblock"
    ∷ codes "alert"
    ∷ codes "sendheaders"
    ∷ codes "feefilter"
    ∷ codes "sendcmpct"
    ∷ codes "cmpctblock"
    ∷ codes "getblocktxn"
    ∷ codes "blocktxn"
    ∷ codes "getcfilters"
    ∷ codes "cfilter"
    ∷ codes "wtxidrelay"
    ∷ codes "sendaddrv2"
    ∷ []

-- Whether the map `commands` has the key.
unfoldable pub is_command : List ℕ → Bool
unfolding commands
is_command c = some_of (bytes_eq c) commands

-- `newCommand`; the fatal exit on more than 12 bytes is an error here.
unfoldable pub new_command : List ℕ → Result (List ℕ)
new_command c = if ltb 12 (length c) then err Error.panic else ok (c ++ replicate (12 - length c) 0)

-- The entry of the map `commands` under `c`.
unfoldable pub lookup_command : List ℕ → Result (List ℕ)
unfolding new_command
lookup_command c = if is_command c then new_command c else err Error.unsupported_command

pub record MessageHeader : Type 0 where
  pub magic : List ℕ
  pub command : List ℕ
  pub size : ℕ  -- Length
  pub checksum : List ℕ

pub record Message : Type 0 where
  pub header : MessageHeader
  pub payload : List ℕ

unfoldable pub trim_left : List ℕ → List ℕ
trim_left [] = []
trim_left (b ∷ bs) = if b == 0 then trim_left bs else b ∷ bs

unfoldable pub trim_right : List ℕ → List ℕ
trim_right [] = []
trim_right (b ∷ bs) = elim (trim_right bs) [
  | [] ↦ if b == 0 then [] else b ∷ []
  | c ∷ cs ↦ b ∷ (c ∷ cs)
]

-- `CommandString`: zero bytes are trimmed at both ends.
unfoldable pub command_string : MessageHeader → List ℕ
unfolding trim_left trim_right
command_string mh = trim_right (trim_left mh.command)

-- `HasValidCommand`.
unfoldable pub has_valid_command : MessageHeader → Bool
has_valid_command mh = is_command (command_string mh)

unfoldable pub validate : MessageHeader → Result (Unit {0})
validate mh =
    if not (has_valid_magic mh.magic)
    then err Error.invalid_magic
    else if not (has_valid_command mh)
    then err Error.invalid_command
    else ok tt

-- The structs as `Marshal` and `Decode` see them.
abbrev pub header_fields : MessageHeader → Fields
header_fields mh = Fields.field (Value.array 4 mh.magic) (
    Fields.field (Value.array 12 mh.command)
      (Fields.field (Value.uint32 mh.size) (Fields.field (Value.array 4 mh.checksum) Fields.end)))

abbrev pub header_shapes : Shapes
header_shapes = Shapes.field (Shape.array 4) (
    Shapes.field (Shape.array 12)
      (Shapes.field Shape.uint32 (Shapes.field (Shape.array 4) Shapes.end)))

abbrev pub message_value : Message → Value
message_value m = Value.struct (
    Fields.field (Value.struct (header_fields m.header))
      (Fields.field (Value.bytes m.payload) Fields.end))

-- What the fields of a decoded header hold. No other list of fields comes out of `header_shapes`.
unfoldable pub header_of : Fields → Result MessageHeader
header_of
      (Fields.field (Value.array _ m) (
        Fields.field
          (Value.array _ c)
          (Fields.field (Value.uint32 n) (Fields.field (Value.array _ s) Fields.end)))) =
    ok (record { magic = m; command = c; size = n; checksum = s })
header_of _ = err Error.unsupported_type

unfoldable pub decode_header : Reader MessageHeader
unfolding header_of
decode_header = decode_struct header_shapes >>= λ fs. lift (header_of fs)

-- SHA-256 is a parameter.
module _ (sha256 : List ℕ → List ℕ) where
  unfoldable pub checksum : List ℕ → List ℕ
  checksum bs = take 4 (sha256 (sha256 bs))

  -- The message around an encoded payload.
  unfoldable pub build : Magic → List ℕ → List ℕ → Message
  unfolding checksum
  build magic command bs = record {
    header = record {
      magic = magic;
      command = command;
      size = length bs % 2 ^ 32;
      checksum = checksum bs;
    };
    payload = bs;
  }

  unfoldable pub new_message : List ℕ → Magic → Value → Result Message
  unfolding build lookup_command
  new_message cmd magic payload =
      and_then (marshal payload)
        λ bs. and_then (lookup_command cmd) λ command. ok (build magic command bs)
