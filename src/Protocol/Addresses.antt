-- ===== src/Protocol/Addresses.antt =====
-- addr.go: the address of a node. strconv.Atoi and net.ParseIP with `To4` are parameters.
use neutrino_elements.Prelude.{
  ℕ, ◌≡◌, refl, true, false, not, List, [], ◌∷◌, ◌++◌, Option, none, some, Result, ok, err, Error,
  ltb, ◌==◌, replicate, all_of, arith, if◌then◌else◌, ◌>>=◌,
}
use neutrino_elements.Protocol.VarInt.{ℤ}

-- Addr.
pub record Addr : Type 0 where
  pub ip : List ℕ
  pub port : ℕ

-- strings.Split at a byte that is no part of the pieces.
unfoldable pub split : ℕ → List ℕ → List (List ℕ)
split sep [] = [] ∷ []
split sep (b ∷ bs) =
    let rest = split sep bs in
    if b == sep
    then [] ∷ rest
    else elim rest [ [] ↦ (b ∷ []) ∷ [] | piece ∷ pieces ↦ (b ∷ piece) ∷ pieces ]

abbrev pub colon : ℕ
colon = 58

abbrev pub max_uint16 : ℕ
max_uint16 = 65535

module _ (atoi : List ℕ → Result ℤ) (parse_ip : List ℕ → Option (List ℕ)) where
  -- The copy into the zeroed array of four bytes; a nil IP copies nothing.
  unfoldable pub copied_ip : List ℕ → List ℕ
  copied_ip host = elim (parse_ip host) [ none ↦ replicate 4 0 | some ip ↦ ip ]

  unfoldable pub port_in_range : ℤ → Result ℕ
  port_in_range (ℤ.negsuc n) = err Error.malformed_address
  port_in_range (ℤ.pos n) = if ltb max_uint16 n then err Error.malformed_address else ok n

  unfoldable pub parse_parts : List ℕ → List ℕ → Result Addr
  unfolding copied_ip port_in_range
  parse_parts host port =
      if (elim host [ [] ↦ true | b ∷ bs ↦ elim port [ [] ↦ true | c ∷ cs ↦ false ] ])
      then err Error.malformed_address
      else elim (atoi port) [
        | err e ↦ err Error.malformed_address
        | ok n ↦ port_in_range n >>= λ p. ok (record { ip = copied_ip host; port = p })
      ]

  unfoldable pub parse_node_addr : List ℕ → Result Addr
  unfolding split parse_parts
  parse_node_addr node_addr = elim (split colon node_addr) [
    | [] ↦ err Error.malformed_address
    | host ∷ rest ↦ elim rest [
      | [] ↦ err Error.malformed_address
      | port ∷ more ↦ elim more [
        | [] ↦ parse_parts host port
        | x ∷ xs ↦ err Error.malformed_address
      ]
    ]
  ]

  split_plain : (bs : List ℕ) → all_of (λ b. not (b == colon)) bs ≡ true → split colon bs ≡ bs ∷ []
  unfolding split
  split_plain [] h = refl
  split_plain (b ∷ bs) h = ground (arith, split_plain bs)

  split-append :
      (host rest : List ℕ)
      → all_of (λ b. not (b == colon)) host ≡ true
      → split colon (host ++ (colon ∷ rest)) ≡ host ∷ split colon rest
  unfolding split
  split-append [] rest h = refl
  split-append (b ∷ host) rest h = ground (arith, split-append host rest)

  -- A host and a port without colons are parsed, joined by a colon, as the two of them.
  pub parse_node_addr_lem :
      (host port : List ℕ)
      → all_of (λ b. not (b == colon)) host ≡ true
      → all_of (λ b. not (b == colon)) port ≡ true
      → parse_node_addr (host ++ (colon ∷ port)) ≡ parse_parts host port
  unfolding parse_node_addr
  parse_node_addr_lem host port h p =
      rw (parse_node_addr, split-append host port h, split_plain port p) refl
