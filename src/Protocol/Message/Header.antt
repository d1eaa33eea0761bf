-- ===== src/Protocol/Message/Header.antt =====
-- The headers that `NewMessage` makes, and their encoding.
use neutrino_elements.Prelude.{
  ℕ, zero, suc, ◌-◌, ◌%◌, ◌^◌, ◌≡◌, refl, sym, subst, ◌∙◌, inl, inr, Bool, true, false, not, List,
  [], ◌∷◌, ◌++◌, append-nil, append_assoc, length, length-append, length-replicate, length-take,
  replicate, take, all_of, some_of, ok, arith, leb, ◌==◌, bytes_eq, bytes_eq→eq, ==_iff, Bool-cases,
  Result-cases, ok-injective, if◌then◌else◌,
}
use neutrino_elements.Binary.Words.{le_bytes, length-le_bytes}
use neutrino_elements.Binary.Marshaler.{Value, marshal, marshal_struct}
use neutrino_elements.Binary.Unmarshaler.{decode_struct}
use neutrino_elements.Binary.RoundTrip.{
  FitAll, fit_end, fit_field, fits_uint32, Fits-filled_array, decode_struct-marshal_struct,
}
use neutrino_elements.Protocol.Network.{
  Magic, has_valid_magic, magic_liquid, magic_liquid_testnet, magic_regtest,
}
use neutrino_elements.Protocol.Message.{
  commands, is_command, new_command, lookup_command, MessageHeader, Message, trim_left, trim_right,
  command_string, has_valid_command, validate, header_fields, header_shapes, message_value,
  decode_header, build, new_message,
}

-- No zero byte, so that trimming takes only the padding.
abbrev is_plain : List ℕ → Bool
is_plain c = if leb (length c) 12 then all_of (λ b. not (b == 0)) c else false

trim_right-replicate : (n : ℕ) → trim_right (replicate n 0) ≡ []
unfolding trim_right
trim_right-replicate zero = refl
trim_right-replicate (suc n) = rw (trim_right-replicate n, trim_right)

trim_right_padded :
    (c : List ℕ) (n : ℕ) → all_of (λ b. not (b == 0)) c ≡ true → trim_right (c ++ replicate n 0) ≡ c
unfolding trim_right
trim_right_padded [] n h = trim_right-replicate n
trim_right_padded (b ∷ []) n h = rw (trim_right-replicate n, trim_right) (ground arith)
trim_right_padded (b ∷ (d ∷ ds)) n h = rw (trim_right_padded (d ∷ ds) n (ground arith), trim_right)

trim_left-replicate : (n : ℕ) → trim_left (replicate n 0) ≡ []
unfolding trim_left
trim_left-replicate zero = refl
trim_left-replicate (suc n) = trim_left-replicate n

trim_padded :
    (c : List ℕ) (n : ℕ)
    → all_of (λ b. not (b == 0)) c ≡ true
    → trim_right (trim_left (c ++ replicate n 0)) ≡ c
unfolding trim_left
trim_padded [] n h = rw (trim_left-replicate n) (unfold trim_right in refl)
trim_padded (b ∷ c) n h = elim (Bool-cases (b == 0)) [
  | inl z ↦ absurd (ground arith)
  | inr z ↦ rw z (trim_right_padded (b ∷ c) n h)
]

named :
    (p : List ℕ → Bool) (c : List ℕ) (l : List (List ℕ))
    → all_of p l ≡ true
    → some_of (bytes_eq c) l ≡ true
    → p c ≡ true
named p c [] a h = cc
named p c (x ∷ l) a h = elim (Bool-cases (bytes_eq c x)) [
  | inl e ↦ rw (bytes_eq→eq c x e) (ground arith)
  | inr e ↦ named p c l (ground arith) (ground arith)
]

commands_plain : all_of is_plain commands ≡ true
unfolding commands
commands_plain = refl

is_command_plain : (c : List ℕ) → is_command c ≡ true → is_plain c ≡ true
unfolding is_command
is_command_plain c h = named is_plain c commands commands_plain h

-- A message as `NewMessage` makes it, with fields of the right sizes.
pub record IsMessage (m : Message) : Type 0 where
  pub magic_length : length m.header.magic ≡ 4
  pub command_length : length m.header.command ≡ 12
  pub checksum_length : length m.header.checksum ≡ 4
  pub size_eq : m.header.size ≡ length m.payload % 2 ^ 32

-- The command of a header is found again in its 12 bytes.
lookup_command_lem :
    (c k : List ℕ)
    → lookup_command c ≡ ok k
    → (length k ≡ 12) × (trim_right (trim_left k) ≡ c) × (is_command c ≡ true)
unfolding lookup_command new_command
lookup_command_lem c k h = elim (Bool-cases (is_command c)) [
  | inl e ↦ ground (
    arith,
    is_command_plain c e,
    trim_padded c (12 - length c),
    length-append c (replicate (12 - length c) 0),
    length-replicate {A = ℕ} (12 - length c) 0,
  )
  | inr e ↦ absurd (ground arith)
]

has_valid_magic-length : (m : Magic) → has_valid_magic m ≡ true → length m ≡ 4
unfolding has_valid_magic
has_valid_magic-length m h =
    (==_iff (length m) 4).0 (
      named (λ c. length c == 4) m (magic_liquid ∷ magic_liquid_testnet ∷ magic_regtest ∷ []) refl
        h)

accepted :
    (mh : MessageHeader) (cmd : List ℕ)
    → has_valid_magic mh.magic ≡ true
    → command_string mh ≡ cmd
    → is_command cmd ≡ true
    → validate mh ≡ ok tt
unfolding validate has_valid_command
accepted mh cmd v e c = ground (arith, e)

module _ (sha256 : List ℕ → List ℕ) (sha256_length : (bs : List ℕ) → length (sha256 bs) ≡ 32) where
  built_lem :
      (cmd : List ℕ) (magic : Magic) (payload : Value) (bs k : List ℕ)
      → has_valid_magic magic ≡ true
      → marshal payload ≡ ok bs
      → lookup_command cmd ≡ ok k
      → let m = build sha256 magic k bs in
        IsMessage m
        × (validate m.header ≡ ok tt)
        × (command_string m.header ≡ cmd)
        × (marshal payload ≡ ok m.payload)
        × (m.header.checksum ≡ take 4 (sha256 (sha256 m.payload)))
  unfolding build
  built_lem cmd magic payload bs k v e f =
      let (l, t, c) = lookup_command_lem cmd k f in
      let named_cmd : command_string (build sha256 magic k bs).header ≡ cmd =
        unfold command_string in t in
      (
        record {
          magic_length = has_valid_magic-length magic v;
          command_length = l;
          checksum_length =
              length-take 4 (sha256 (sha256 bs)) ∙ omega (arith, sha256_length (sha256 bs));
          size_eq = refl;
        },
        accepted (build sha256 magic k bs).header cmd v named_cmd c,
        named_cmd,
        e,
        refl,
      )

  -- With a hash of 32 bytes and a magic that the node knows: `NewMessage` makes a message that
  -- `Validate` accepts, whose command is the one asked for, whose payload is the encoded one, and
  -- whose length and checksum are those of that payload.
  pub new_message_lem :
      (cmd : List ℕ) (magic : Magic) (payload : Value) {m : Message}
      → new_message sha256 cmd magic payload ≡ ok m
      → has_valid_magic magic ≡ true
      → IsMessage m
        × (validate m.header ≡ ok tt)
        × (command_string m.header ≡ cmd)
        × (marshal payload ≡ ok m.payload)
        × (m.header.checksum ≡ take 4 (sha256 (sha256 m.payload)))
  unfolding new_message
  new_message_lem cmd magic payload {m} h v = elim (Result-cases (marshal payload)) [
    | inr (x, e) ↦ absurd (ground arith)
    | inl (bs, e) ↦ elim (Result-cases (lookup_command cmd)) [
      | inr (x, f) ↦ absurd (ground arith)
      | inl (k, f) ↦
          subst
            (λ q.
              IsMessage q
              × (validate q.header ≡ ok tt)
              × (command_string q.header ≡ cmd)
              × (marshal payload ≡ ok q.payload)
              × (q.header.checksum ≡ take 4 (sha256 (sha256 q.payload))))
            (ok-injective (rw (e, f) at h)) (built_lem cmd magic payload bs k v e f)
    ]
  ]

-- The 24 bytes of a header.
header_bytes : MessageHeader → List ℕ
header_bytes mh = mh.magic ++ (mh.command ++ (le_bytes 4 mh.size ++ (mh.checksum ++ [])))

marshal_struct-header :
    (mh : MessageHeader) → marshal_struct (header_fields mh) ≡ ok (header_bytes mh)
unfolding marshal_struct header_bytes
marshal_struct-header mh = refl

length-header_bytes : (m : Message) → IsMessage m → length (header_bytes m.header) ≡ 24
unfolding header_bytes
length-header_bytes m v = omega (
  arith,
  length-append m.header.magic
      (m.header.command ++ (le_bytes 4 m.header.size ++ (m.header.checksum ++ []))),
  length-append m.header.command (le_bytes 4 m.header.size ++ (m.header.checksum ++ [])),
  length-append (le_bytes 4 m.header.size) (m.header.checksum ++ []),
  length-le_bytes 4 m.header.size,
  length-append m.header.checksum [],
  v.magic_length,
  v.command_length,
  v.checksum_length,
)

header-FitAll : (m : Message) → IsMessage m → FitAll header_shapes (header_fields m.header)
header-FitAll m v = fit_field (Fits-filled_array _ refl v.magic_length) (
    fit_field (Fits-filled_array _ refl v.command_length) (
      fit_field (fits_uint32 (omega (arith, v.size_eq)))
        (fit_field (Fits-filled_array _ refl v.checksum_length) fit_end)))

marshal-message_value :
    (m : Message) → marshal (message_value m) ≡ ok (header_bytes m.header ++ m.payload)
unfolding marshal header_bytes
marshal-message_value m = simp (append-nil, append_assoc)

decode_header-header_bytes :
    (m : Message) (rest : List ℕ)
    → IsMessage m
    → decode_header (header_bytes m.header ++ rest) ≡ (ok m.header, rest)
unfolding decode_header
decode_header-header_bytes m rest v =
    let (bs, e, d) =
      decode_struct-marshal_struct header_shapes (header_fields m.header) rest
        (header-FitAll m v) in
    let same : bs ≡ header_bytes m.header = ok-injective (sym e ∙ marshal_struct-header m.header) in
    rw
      (subst (λ b. decode_struct header_shapes (b ++ rest) ≡ (ok (header_fields m.header), rest))
        same d)
      refl

-- A message whose header fields have the right sizes is encoded as 24 bytes and its payload; a
-- reader that begins with the 24 bytes gives the header, and then holds what follows.
pub decode_header-marshal :
    (m : Message) (rest : List ℕ)
    → IsMessage m
    → (bs : List ℕ) × (marshal (message_value m) ≡ ok (bs ++ m.payload))
      × (length bs ≡ 24)
      × (decode_header (bs ++ rest) ≡ (ok m.header, rest))
decode_header-marshal m rest v = (
  header_bytes m.header,
  marshal-message_value m,
  length-header_bytes m v,
  decode_header-header_bytes m rest v,
)
