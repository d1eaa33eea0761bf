-- ===== src/Protocol/Payloads/Version.antt =====
-- netaddr.go, msg_version.go and the VarStr of msg.go.
pub mod RoundTrip
use neutrino_elements.Prelude.{
  ℕ, zero, suc, ◌+◌, ◌-◌, ◌%◌, ◌≤◌, ◌<◌, ◌^◌, ◌≡◌, ◌≢◌, refl, sym, ap, ◌∙◌, List, [], ◌∷◌, ◌++◌,
  append-nil, append_assoc, length, length-append, length-take, length-drop, take, drop,
  take-append-drop, Bool, true, Result, ok, err, Error, arith, replicate, ◌>>=◌ as and_then,
}
use Prim.Native.Nat.{bit_or}
use neutrino_elements.Binary.Words.{le_bytes, be_bytes16}
use neutrino_elements.Binary.Marshaler.{Value, Fields, marshal}
use neutrino_elements.Binary.Reader.{Reader, pure, lift, ◌>>=◌, then_read, read, read-prefix}
use neutrino_elements.Binary.Unmarshaler.{
  decode_uint8, decode_uint16, decode_uint64, decode_int32, decode_int64, decode_bool, decode_array,
}
use neutrino_elements.Binary.RoundTrip.{ReadsBack}
use neutrino_elements.Protocol.Network.{Magic, protocol_version, sf_node_network}

pub record VarStr : Type 0 where
  pub size : ℕ  -- Length
  pub string : List ℕ

-- `newVarStr`: the length is cut to a byte, the string is not.
unfoldable pub new_var_str : List ℕ → VarStr
new_var_str s = record { size = length s % 256; string = s }

abbrev pub var_str_value : VarStr → Value
var_str_value v =
    Value.struct
      (Fields.field (Value.uint8 v.size) (Fields.field (Value.string v.string) Fields.end))

-- One Read into a zeroed buffer of `n` bytes, whose count is not looked at.
unfoldable pub read_into : ℕ → Reader (List ℕ)
read_into n = read n >>= λ bs. pure (bs ++ drop (length bs) (replicate n 0))

unfoldable pub head_byte : List ℕ → ℕ
head_byte [] = 0
head_byte (b ∷ bs) = b

unfoldable pub unmarshal_var_str : Reader VarStr
unfolding head_byte
unmarshal_var_str = do
  length_buf ← read_into 1
  string_buf ← read_into (head_byte length_buf)
  pure (record { size = head_byte length_buf; string = string_buf })

-- `IPv4.MarshalBinary`: an IPv4 address in the IPv6 form.
unfoldable pub marshal_ipv4 : List ℕ → Result (List ℕ)
marshal_ipv4 ip = ok (replicate 10 0 ++ (0xff ∷ 0xff ∷ ip))

-- `IPv4.UnmarshalBinary` reads 16 bytes and copies the last four into its receiver, which it has by
-- value: what was decoded into keeps `old`.
unfoldable pub unmarshal_ipv4 : List ℕ → Reader (List ℕ)
unmarshal_ipv4 old = read_into 16 >>= λ _. pure old

pub record VersionNetAddr : Type 0 where
  pub services : ℕ
  pub ip : List ℕ
  pub port : ℕ

pub record MsgVersion : Type 0 where
  pub version : ℕ
  pub services : ℕ
  pub timestamp : ℕ
  pub addr_recv : VersionNetAddr
  pub addr_from : VersionNetAddr
  pub nonce : ℕ
  pub user_agent : VarStr
  pub start_height : ℕ
  pub relay : Bool

abbrev pub net_addr_value : VersionNetAddr → Value
net_addr_value a = Value.struct (
    Fields.field (Value.uint64 a.services) (
      Fields.field (Value.marshaler (marshal_ipv4 a.ip))
        (Fields.field (Value.uint16 a.port) Fields.end)))

abbrev pub version_value : MsgVersion → Value
version_value v = Value.struct (
    Fields.field (Value.int32 v.version) (
      Fields.field (Value.uint64 v.services) (
        Fields.field (Value.int64 v.timestamp) (
          Fields.field (net_addr_value v.addr_recv) (
            Fields.field (net_addr_value v.addr_from) (
              Fields.field (Value.uint64 v.nonce) (
                Fields.field (var_str_value v.user_agent) (
                  Fields.field (Value.int32 v.start_height)
                    (Fields.field (Value.bool v.relay) Fields.end)))))))))

-- The payload of `NewVersionMsg`; the clock and the random nonce are arguments. The start height is
-- -1, as a pattern of 32 bits.
unfoldable pub new_version : ℕ → ℕ → List ℕ → List ℕ → ℕ → ℕ → MsgVersion
unfolding new_var_str
new_version now nonce user_agent ip port services = record {
  version = protocol_version;
  services = services;
  timestamp = now;
  addr_recv = record { services = bit_or services sf_node_network; ip = ip; port = port };
  addr_from = record { services = services; ip = 127 ∷ 0 ∷ 0 ∷ 1 ∷ []; port = 9334 };
  nonce = nonce;
  user_agent = new_var_str user_agent;
  start_height = 2 ^ 32 - 1;
  relay = true;
}

unfoldable pub decode_net_addr : Reader VersionNetAddr
decode_net_addr = do
  services ← decode_uint64
  ip ← unmarshal_ipv4 (replicate 4 0)
  port ← decode_uint16
  pure (record { services = services; ip = ip; port = port })

-- The struct is decoded field by field.
unfoldable pub decode_version : Reader MsgVersion
decode_version = do
  version ← decode_int32
  services ← decode_uint64
  timestamp ← decode_int64
  addr_recv ← decode_net_addr
  addr_from ← decode_net_addr
  nonce ← decode_uint64
  user_agent ← unmarshal_var_str
  start_height ← decode_int32
  relay ← decode_bool
  pure (record {
    version = version;
    services = services;
    timestamp = timestamp;
    addr_recv = addr_recv;
    addr_from = addr_from;
    nonce = nonce;
    user_agent = user_agent;
    start_height = start_height;
    relay = relay;
  })
