-- ===== src/Protocol/Payloads/Chain/Limits.antt =====
-- The limits of getheaders and getcfilters, and a headers message read back.
use neutrino_elements.Prelude.{
  ℕ, ◌+◌, ◌≤◌, ◌<◌, ◌^◌, ◌≡◌, refl, sym, ◌∙◌, List, [], ◌∷◌, ◌++◌, append-nil, append_assoc, length,
  length-append, map, ok, err, Error, arith, ltb, leb, leb→le, ltb→lt, Bool-cases, inl, inr, subst,
  ok-injective, is_ok, some, ◌&&◌, if◌then◌else◌,
}
use neutrino_elements.Ledger.{Header, hash_bytes}
use neutrino_elements.Binary.Reader.{Reader}
use neutrino_elements.Binary.Unmarshaler.{read_until_eof}
use neutrino_elements.Protocol.VarInt.{pos, VarInt, new_from_int, marshal_binary, unmarshal_binary}
use neutrino_elements.Protocol.VarInt.RoundTrip.{
  counted, unmarshal-marshal_binary, new_from_int-IsWellFormed, int_of-new_from_int,
}
use neutrino_elements.Protocol.Payloads.Chain.{
  MsgGetHeaders, add_block_locator_hash, add_block_locator_hashes, get_headers_payload,
  get_cfilters_payload, read_headers, unmarshal_headers,
}
use neutrino_elements.Protocol.Network.{protocol_version}

abbrev pushed : ℕ → MsgGetHeaders → MsgGetHeaders
pushed x msg = record msg { block_locator_hashes = msg.block_locator_hashes ++ (hash_bytes x ∷ []) }

added :
    (x : ℕ) (msg : MsgGetHeaders)
    → length msg.block_locator_hashes < 500
    → add_block_locator_hash x msg ≡ ok (pushed x msg)
unfolding add_block_locator_hash
added x msg h = ground arith

refused :
    (x : ℕ) (msg : MsgGetHeaders)
    → 500 ≤ length msg.block_locator_hashes
    → add_block_locator_hash x msg ≡ err Error.too_many_locators
unfolding add_block_locator_hash
refused x msg h = ground arith

abbrev start_payload : List ℕ → MsgGetHeaders
start_payload stop = record {
  version = protocol_version;
  block_locator_hashes = [];
  hash_stop = stop;
}

add_block_locator_hashes_lem :
    (hs : List ℕ) (msg : MsgGetHeaders)
    → length msg.block_locator_hashes + length hs ≤ 500
    → add_block_locator_hashes hs msg
      ≡ ok (record msg { block_locator_hashes = msg.block_locator_hashes ++ map hash_bytes hs })
unfolding add_block_locator_hashes
add_block_locator_hashes_lem [] msg h = simp append-nil
add_block_locator_hashes_lem (x ∷ hs) msg h = rw (added x msg (omega arith)) (
    add_block_locator_hashes_lem hs (pushed x msg)
      (omega (arith, length-append {0} msg.block_locator_hashes (hash_bytes x ∷ [])))
    ∙ rw (append_assoc msg.block_locator_hashes (hash_bytes x ∷ []) (map hash_bytes hs)))

add_block_locator_hashes_over :
    (hs : List ℕ) (msg : MsgGetHeaders)
    → length msg.block_locator_hashes ≤ 500
    → 500 < length msg.block_locator_hashes + length hs
    → add_block_locator_hashes hs msg ≡ err Error.too_many_locators
unfolding add_block_locator_hashes
add_block_locator_hashes_over [] msg l h = absurd (omega arith)
add_block_locator_hashes_over (x ∷ hs) msg l h =
    elim (Bool-cases (ltb (length msg.block_locator_hashes) 500)) [
      | inl e ↦ rw (added x msg (ltb→lt _ _ e)) (
          add_block_locator_hashes_over hs (pushed x msg)
            (omega
              (arith, length-append {0} msg.block_locator_hashes (hash_bytes x ∷ []), ltb→lt _ _ e))
            (omega (arith, length-append {0} msg.block_locator_hashes (hash_bytes x ∷ []))))
      | inr e ↦ rw (refused x msg (ground arith))
    ]

-- A getheaders message carries the whole locator in its order where that has up to 500 hashes, and is
-- refused where it has more.
pub get_headers_payload_limit :
    (stop : List ℕ) (locator : List ℕ)
    → get_headers_payload stop locator ≡ (
        if leb (length locator) 500
        then ok (record {
          version = protocol_version;
          block_locator_hashes = map hash_bytes locator;
          hash_stop = stop;
        })
        else err Error.too_many_locators)
unfolding get_headers_payload
get_headers_payload_limit stop locator = elim (Bool-cases (leb (length locator) 500)) [
  | inl e ↦
      rw e (add_block_locator_hashes_lem locator (start_payload stop) (omega (arith, leb→le _ _ e)))
  | inr e ↦
      rw e (add_block_locator_hashes_over locator (start_payload stop) (omega arith) (ground arith))
]

-- `NewGetCFilters` accepts a range whose stop has a hash exactly when the range does not run
-- backwards and spans less than 1000 heights.
pub get_cfilters_payload_accepts :
    (start stop : Header) (h : ℕ)
    → stop.hash ≡ some h
    → is_ok (get_cfilters_payload start stop)
      ≡ (leb start.height stop.height && ltb stop.height (start.height + 1000))
unfolding get_cfilters_payload
get_cfilters_payload_accepts start stop h e = ground arith

read_until_eof_lem : (bs : List ℕ) → read_until_eof bs ≡ (ok bs, [])
unfolding read_until_eof
read_until_eof_lem [] = refl
read_until_eof_lem (b ∷ bs) = rw (read_until_eof_lem bs)

zero_count : (rest : List ℕ) → unmarshal_binary (0 ∷ rest) ≡ (ok (VarInt.uint8 0), rest)
unfolding marshal_binary
zero_count rest =
    let (bs, e, d) = unmarshal-marshal_binary (VarInt.uint8 0) rest (omega arith) in
    subst (λ b. unmarshal_binary (b ++ rest) ≡ (ok (VarInt.uint8 0), rest)) (sym (ok-injective e)) d

-- The layout of a headers message: the count, and each header with a zero behind it.
module _ (serialize : Header → List ℕ) where
  abbrev pub header_list : List Header → List ℕ
  header_list [] = []
  header_list (h ∷ hs) = serialize h ++ (0 ∷ header_list hs)

module _ (deserialize : Reader Header) (serialize : Header → List ℕ)
    (reads_back : (h : Header) (rest : List ℕ)
      → deserialize (serialize h ++ rest) ≡ (ok h, rest)) where
  read_headers_lem :
      (hs : List Header) (rest : List ℕ)
      → read_headers deserialize (length hs) (header_list serialize hs ++ rest) ≡ (ok hs, rest)
  unfolding read_headers
  read_headers_lem [] rest = refl
  read_headers_lem (h ∷ hs) rest = rw (
    append_assoc (serialize h) (0 ∷ header_list serialize hs) rest,
    reads_back h (0 ∷ (header_list serialize hs ++ rest)),
    zero_count (header_list serialize hs ++ rest),
    read_headers_lem hs rest,
  )

  -- A headers message is decoded to the headers that it lists, however many, provided that the library
  -- reads back each serialized header.
  pub unmarshal_headers_lem :
      (hs : List Header) (count : List ℕ)
      → length hs < 2 ^ 63
      → marshal_binary (new_from_int (pos (length hs))) ≡ ok count
      → unmarshal_headers deserialize (count ++ header_list serialize hs) ≡ (ok hs, [])
  unfolding unmarshal_headers
  unmarshal_headers_lem hs count h e = rw (
    counted (new_from_int (pos (length hs))) count (header_list serialize hs)
        (new_from_int-IsWellFormed (length hs) h) e,
    int_of-new_from_int (length hs) h,
    read_until_eof_lem (header_list serialize hs),
    whole,
  )
    where
      whole : read_headers deserialize (length hs) (header_list serialize hs) ≡ (ok hs, [])
      whole = rw (append-nil (header_list serialize hs)) at (read_headers_lem hs [])
