-- ===== src/Protocol/Payloads/Version/RoundTrip.antt =====
-- The version message and its user agent, written and read back.
use neutrino_elements.Prelude.{
  ℕ, subst, ◌%◌, ◌≤◌, ◌<◌, ◌^◌, ◌≡◌, refl, sym, ap, ◌∙◌, List, [], ◌∷◌, ◌++◌, append-nil,
  append_assoc, length, length-append, length-take, length-replicate, take, drop, drop_all,
  take_all, take-append-drop, ok, arith, replicate,
}
use neutrino_elements.Binary.Words.{le_bytes, be_bytes16, length-le_bytes}
use neutrino_elements.Binary.Marshaler.{marshal, bool_byte}
use neutrino_elements.Binary.Reader.{read, take-prefix, drop-prefix}
use neutrino_elements.Binary.Unmarshaler.{decode_uint64, decode_int32, decode_int64}
use neutrino_elements.Binary.RoundTrip.{
  decode_le-le_bytes, decode_uint16-be_bytes16, decode_bool-bool_byte, ReadsBack,
}
use neutrino_elements.Protocol.Payloads.Version.{
  VarStr, new_var_str, var_str_value, read_into, head_byte, unmarshal_var_str, marshal_ipv4,
  unmarshal_ipv4, VersionNetAddr, MsgVersion, version_value, decode_net_addr, decode_version,
}

read_nonempty : (n : ℕ) (bs : List ℕ) → 0 < length bs → read n bs ≡ (ok (take n bs), drop n bs)
unfolding read
read_nonempty n [] h = absurd (omega arith)
read_nonempty n (b ∷ bs) h = refl

-- A Read of exactly the bytes in front, where the reader is not at its end.
read_into-prefix :
    (s rest : List ℕ) {n : ℕ}
    → length s ≡ n
    → 0 < length (s ++ rest)
    → read_into n (s ++ rest) ≡ (ok s, rest)
unfolding read_into
read_into-prefix s rest {n} e h =
    rw (read_nonempty n (s ++ rest) h, take-prefix s rest e, drop-prefix s rest e)
      (rw (
        drop_all {A = ℕ} (length s) (replicate n 0) (omega (arith, length-replicate {A = ℕ} n 0)),
        append-nil s,
      ))

head_byte-le_bytes : (k : ℕ) → k < 256 → head_byte (le_bytes 1 k) ≡ k
unfolding head_byte le_bytes
head_byte-le_bytes k h = omega arith

split_string :
    (s rest : List ℕ) (k : ℕ)
    → k ≤ length s
    → 0 < length (s ++ rest)
    → read_into k (s ++ rest) ≡ (ok (take k s), drop k s ++ rest)
split_string s rest k h p =
    subst (λ t. read_into k t ≡ (ok (take k s), drop k s ++ rest)) (sym same)
      (read_into-prefix (take k s) (drop k s ++ rest) (omega (arith, length-take k s))
        (omega (arith, ap length same)))
  where
    same : s ++ rest ≡ take k s ++ (drop k s ++ rest)
    same =
        ap (λ t. t ++ rest) (sym (take-append-drop k s)) ∙ append_assoc (take k s) (drop k s) rest

unmarshal_var_str_lem :
    (s rest : List ℕ) (k : ℕ)
    → k < 256
    → k ≤ length s
    → 0 < length (s ++ rest)
    → unmarshal_var_str (le_bytes 1 k ++ (s ++ rest))
      ≡ (ok (record { size = k; string = take k s }), drop k s ++ rest)
unfolding unmarshal_var_str
unmarshal_var_str_lem s rest k c h p =
    rw
      (read_into-prefix (le_bytes 1 k) (s ++ rest) (length-le_bytes 1 k)
        (omega (arith, length-append (le_bytes 1 k) (s ++ rest))))
      (rw (head_byte-le_bytes k c) (rw (split_string s rest k h p)))

-- Where something follows the length byte, the decoder takes as many bytes as that says, which is
-- the string's length modulo 256, and the rest of the string stays in the reader.
pub read-var_str :
    (s rest : List ℕ)
    → 0 < length (s ++ rest)
    → let k = length s % 256 in
      (marshal (var_str_value (new_var_str s)) ≡ ok (le_bytes 1 k ++ s))
      × (unmarshal_var_str (le_bytes 1 k ++ (s ++ rest))
          ≡ (ok (record { size = k; string = take k s }), drop k s ++ rest))
unfolding marshal new_var_str
read-var_str s rest h =
    (simp append-nil, unmarshal_var_str_lem s rest (length s % 256) (omega arith) (omega arith) h)

-- The fields of a version message are in range, and its user agent fits its length byte.
pub record IsVersion (v : MsgVersion) : Type 0 where
  pub version_range : v.version < 256 ^ 4
  pub services_range : v.services < 256 ^ 8
  pub timestamp_range : v.timestamp < 256 ^ 8
  pub recv_services_range : v.addr_recv.services < 256 ^ 8
  pub recv_ip_length : length v.addr_recv.ip ≡ 4
  pub recv_port_range : v.addr_recv.port < 65536
  pub from_services_range : v.addr_from.services < 256 ^ 8
  pub from_ip_length : length v.addr_from.ip ≡ 4
  pub from_port_range : v.addr_from.port < 65536
  pub nonce_range : v.nonce < 256 ^ 8
  pub agent_size : v.user_agent.size ≡ length v.user_agent.string
  pub agent_range : v.user_agent.size < 256
  pub start_height_range : v.start_height < 256 ^ 4

addr_bytes : VersionNetAddr → List ℕ
addr_bytes a =
    le_bytes 8 a.services ++ ((replicate 10 0 ++ (0xff ∷ 0xff ∷ a.ip)) ++ be_bytes16 a.port)

-- What the decoder keeps of an address: not the IP.
abbrev pub without_ip : VersionNetAddr → VersionNetAddr
without_ip a = record a { ip = replicate 4 0 }

read-net_addr :
    (a : VersionNetAddr) (rest : List ℕ)
    → a.services < 256 ^ 8
    → length a.ip ≡ 4
    → a.port < 65536
    → decode_net_addr (addr_bytes a ++ rest) ≡ (ok (without_ip a), rest)
unfolding decode_net_addr addr_bytes decode_uint64 unmarshal_ipv4
read-net_addr a rest s i p = simp append_assoc (
    rw (decode_le-le_bytes 8 a.services (ipv6 ++ (be_bytes16 a.port ++ rest)) s) (
      rw (read_into-prefix ipv6 (be_bytes16 a.port ++ rest) {n = 16} (omega arith) (omega arith))
        (rw (decode_uint16-be_bytes16 a.port rest p))))
  where
    ipv6 : List ℕ
    ipv6 = replicate 10 0 ++ (0xff ∷ 0xff ∷ a.ip)

version_bytes : MsgVersion → List ℕ
version_bytes v =
    le_bytes 4 v.version
    ++ (le_bytes 8 v.services
        ++ (le_bytes 8 v.timestamp
            ++ (addr_bytes v.addr_recv
                ++ (addr_bytes v.addr_from
                    ++ (le_bytes 8 v.nonce
                        ++ (le_bytes 1 v.user_agent.size
                            ++ (v.user_agent.string
                                ++ (le_bytes 4 v.start_height ++ (bool_byte v.relay ∷ [])))))))))

marshal-version : (v : MsgVersion) → marshal (version_value v) ≡ ok (version_bytes v)
unfolding marshal marshal_ipv4 version_bytes addr_bytes
marshal-version v = simp (append-nil, append_assoc)

-- The user agent of a version message stands before the start height, so its reader is not at the
-- end even where it is empty.
read-agent :
    (v : VarStr) (height : ℕ) (rest : List ℕ)
    → v.size ≡ length v.string
    → v.size < 256
    → unmarshal_var_str (le_bytes 1 v.size ++ (v.string ++ (le_bytes 4 height ++ rest)))
      ≡ (ok v, le_bytes 4 height ++ rest)
read-agent v height rest e h =
    unmarshal_var_str_lem v.string (le_bytes 4 height ++ rest) v.size h (omega arith) (
      omega (
        arith,
        length-append v.string (le_bytes 4 height ++ rest),
        length-append (le_bytes 4 height) rest,
        length-le_bytes 4 height,
      ))
    ∙ rw (take_all v.size v.string (omega arith), drop_all v.size v.string (omega arith))

decode_version-version_bytes :
    (v : MsgVersion) (rest : List ℕ)
    → IsVersion v
    → decode_version (version_bytes v ++ rest) ≡ (
      ok (record v { addr_recv = without_ip v.addr_recv; addr_from = without_ip v.addr_from }),
      rest,
    )
unfolding decode_version version_bytes decode_int32 decode_int64 decode_uint64
decode_version-version_bytes v rest h = simp append_assoc (
    rw (
      decode_le-le_bytes 4 v.version _ h.version_range,
      decode_le-le_bytes 8 v.services _ h.services_range,
      decode_le-le_bytes 8 v.timestamp _ h.timestamp_range,
      read-net_addr v.addr_recv _ h.recv_services_range h.recv_ip_length h.recv_port_range,
      read-net_addr v.addr_from _ h.from_services_range h.from_ip_length h.from_port_range,
      decode_le-le_bytes 8 v.nonce _ h.nonce_range,
      read-agent v.user_agent v.start_height _ h.agent_size h.agent_range,
      decode_le-le_bytes 4 v.start_height _ h.start_height_range,
      decode_bool-bool_byte v.relay rest,
    ))

-- The node reads back every field of a version message but the two IP addresses, which come out as
-- 0.0.0.0.
pub read-version :
    (v : MsgVersion) (rest : List ℕ)
    → IsVersion v
    → ReadsBack
        (marshal (version_value v))
        decode_version
        (record v { addr_recv = without_ip v.addr_recv; addr_from = without_ip v.addr_from })
        rest
read-version v rest h = (version_bytes v, marshal-version v, decode_version-version_bytes v rest h)
