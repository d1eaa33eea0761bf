-- ===== src/Runs/Wire.antt =====
-- Runs of pkg/binary and pkg/protocol.
use neutrino_elements.Prelude.{
  ℕ, ◌≡◌, refl, true, List, [], ◌∷◌, ◌++◌, none, some, ok, arith, bytes_eq, codes, length, take,
  replicate,
}
use neutrino_elements.Ledger.{Header}
use neutrino_elements.Binary.Words.{le_bytes}
use neutrino_elements.Binary.Marshaler.{Value, Fields, marshal}
use neutrino_elements.Binary.Unmarshaler.{Shape, Shapes, decode}
use neutrino_elements.Binary.RoundTrip.{Fits, FitAll, ReadsBack, decode-marshal}
use neutrino_elements.Protocol.Network.{magic_regtest, has_valid_magic, protocol_version}
use neutrino_elements.Protocol.VarInt.{pos, new_from_int, int_of, marshal_binary, unmarshal_binary}
use neutrino_elements.Protocol.VarInt.RoundTrip.{read-new_from_int}
use neutrino_elements.Protocol.Message.{
  Message, lookup_command, is_command, build, new_message, validate, command_string, message_value,
  decode_header,
}
use neutrino_elements.Protocol.Message.Header.{IsMessage, new_message_lem, decode_header-marshal}
use neutrino_elements.Protocol.Payloads.Inventory.{MsgInv}
use neutrino_elements.Protocol.Payloads.Version.{
  VersionNetAddr, MsgVersion, version_value, decode_version,
}
use neutrino_elements.Protocol.Payloads.Version.RoundTrip.{read-version, without_ip}

abbrev nested_shape : Shape
nested_shape = Shape.struct (
    Shapes.field Shape.uint32
      (Shapes.field (Shape.struct (Shapes.field Shape.bool Shapes.end)) Shapes.end))

abbrev nested_value : Value
nested_value = Value.struct (
    Fields.field (Value.uint32 7)
      (Fields.field (Value.struct (Fields.field (Value.bool true) Fields.end)) Fields.end))

decode-marshal_example :
    ReadsBack (marshal nested_value) (decode nested_shape) nested_value (9 ∷ [])
decode-marshal_example = decode-marshal nested_shape nested_value (9 ∷ []) (
    Fits.fits_struct (
      FitAll.fit_field (Fits.fits_uint32 (omega arith)) (
        FitAll.fit_field (Fits.fits_struct (FitAll.fit_field Fits.fits_bool FitAll.fit_end))
          FitAll.fit_end)))

read-new_from_int_example :
    ReadsBack
      (marshal_binary (new_from_int (pos 70000)))
      unmarshal_binary
      (new_from_int (pos 70000))
      (1 ∷ [])
    × (int_of (new_from_int (pos 70000)) ≡ ok 70000)
read-new_from_int_example = read-new_from_int 70000 (1 ∷ []) (omega arith)

abbrev zeros : List ℕ → List ℕ
zeros bs = replicate 32 0

abbrev ping_message : Message
ping_message = build zeros magic_regtest (codes "ping" ++ replicate 8 0) (le_bytes 8 5)

new_message_lem_example :
    IsMessage ping_message
    × (validate ping_message.header ≡ ok tt)
    × (command_string ping_message.header ≡ codes "ping")
    × (marshal (Value.uint64 5) ≡ ok ping_message.payload)
    × (ping_message.header.checksum ≡ take 4 (zeros (zeros ping_message.payload)))
unfolding new_message marshal lookup_command is_command bytes_eq
new_message_lem_example =
    new_message_lem zeros (λ bs. refl) (codes "ping") magic_regtest (Value.uint64 5)
      {m = ping_message} refl (unfold has_valid_magic in refl)

decode_header-marshal_example :
    (bs : List ℕ) × (marshal (message_value ping_message) ≡ ok (bs ++ ping_message.payload))
    × (length bs ≡ 24)
    × (decode_header (bs ++ (1 ∷ [])) ≡ (ok ping_message.header, 1 ∷ []))
unfolding build
decode_header-marshal_example =
    decode_header-marshal ping_message (1 ∷ []) (record {
      magic_length = refl;
      command_length = refl;
      checksum_length = refl;
      size_eq = refl;
    })

abbrev announced : MsgInv
announced = record { count = 1; inventory = record { kind = 2; hash = replicate 32 7 } ∷ [] }

abbrev local_address : VersionNetAddr
local_address = record { services = 0; ip = 127 ∷ 0 ∷ 0 ∷ 1 ∷ []; port = 18444 }

abbrev greeting : MsgVersion
greeting = record {
  version = protocol_version;
  services = 64;
  timestamp = 1600000000;
  addr_recv = local_address;
  addr_from = local_address;
  nonce = 11;
  user_agent = record { size = 2; string = codes "go" };
  start_height = 5;
  relay = true;
}

read-version_example :
    ReadsBack
      (marshal (version_value greeting))
      decode_version
      (record greeting {
        addr_recv = without_ip local_address;
        addr_from = without_ip local_address;
      })
      (8 ∷ [])
read-version_example = read-version greeting (8 ∷ []) (record {
  version_range = omega arith;
  services_range = omega arith;
  timestamp_range = omega arith;
  recv_services_range = omega arith;
  recv_ip_length = refl;
  recv_port_range = omega arith;
  from_services_range = omega arith;
  from_ip_length = refl;
  from_port_range = omega arith;
  nonce_range = omega arith;
  agent_size = refl;
  agent_range = omega arith;
  start_height_range = omega arith;
})

abbrev header_at : ℕ → Header
header_at n = record { height = n; prev = none; hash = some n }
