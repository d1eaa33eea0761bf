-- ===== src/Daemon/Launching.antt =====
-- What the daemon is launched with.
use neutrino_elements.Prelude.{
  ℕ, ◌≡◌, ◌≢◌, sym, ap, subst, ◌∙◌, inl, inr, ◌⊎◌, List, [], ◌∷◌, Result, ok, codes, bytes_eq,
  bytes_eq→eq, arith, >>=-eq-ok, ok-injective, Bool-cases,
}
use neutrino_elements.Protocol.Network.{
  Magic, magic_liquid, magic_liquid_testnet, magic_regtest, network_magic, genesis_checkpoint,
}
use neutrino_elements.Node.Peers.{PeersState}
use neutrino_elements.Node.Service.{new_node}
use neutrino_elements.Daemon.{
  NetworkNames, Environment, get_string, load_config, Migration, new_db_service, db_config, Launch,
  launch,
}

network_magic-cases :
    (name : List ℕ) (m : Magic)
    → network_magic name ≡ ok m
    → name ≢ codes "regtest"
    → (m ≡ magic_liquid) ⊎ (m ≡ magic_liquid_testnet)
unfolding network_magic
network_magic-cases name m h r = elim (Bool-cases (bytes_eq name (codes "liquid"))) [
  | inl e ↦ inl (let h' = rw e at h in cc)
  | inr e ↦ elim (Bool-cases (bytes_eq name (codes "testnet"))) [
    | inl f ↦ inr (let h' = rw (e, f) at h in cc)
    | inr f ↦ elim (Bool-cases (bytes_eq name (codes "regtest"))) [
      | inl g ↦ absurd (r (bytes_eq→eq name (codes "regtest") g))
      | inr g ↦ absurd (let h' = rw (e, f, g) at h in cc)
    ]
  ]
]

abbrev first_code : List ℕ → ℕ
first_code [] = 0
first_code (c ∷ cs) = c

differs :
    (m : Magic)
    → (m ≡ magic_liquid) ⊎ (m ≡ magic_liquid_testnet)
    → genesis_checkpoint magic_regtest ≢ genesis_checkpoint m
unfolding genesis_checkpoint bytes_eq
differs m (inl e) h =
    let k : ◌≡◌ {A = ℕ} 48 49 = ap first_code (h ∙ ap genesis_checkpoint e) in absurd (omega arith)
differs m (inr e) h =
    let k : ◌≡◌ {A = ℕ} 48 97 = ap first_code (h ∙ ap genesis_checkpoint e) in absurd (omega arith)

-- Where the daemon is launched for another network than regtest, the node has that network's magic, and
-- the scanner is given the hash of a first block that is not this network's.
pub launch_genesis :
    {D : Type 0} (names : NetworkNames) (env : Environment) (print_port : List ℕ → List ℕ)
    (connect : List ℕ → Result D) (migration : D → List ℕ → Result Migration) (l : Launch D)
    → launch names env print_port connect migration ≡ ok l
    → get_string names env (codes "NETWORK") ≢ codes "regtest"
    → (network_magic (get_string names env (codes "NETWORK")) ≡ ok l.magic)
      × (l.genesis ≢ genesis_checkpoint l.magic)
unfolding launch new_node
launch_genesis {D} names env print_port connect migration l h r =
    let (u, a, h1) = >>=-eq-ok (load_config names env) _ h in
    let (db, b, h2) =
      >>=-eq-ok (new_db_service connect migration (db_config names env print_port)) _ h1 in
    let (node, c, h3) = >>=-eq-ok (new_node (get_string names env (codes "NETWORK"))) _ h2 in
    let (m, d, h4) = >>=-eq-ok (network_magic (get_string names env (codes "NETWORK"))) _ c in
    let e : m ≡ l.magic =
      ap (λ (p : Magic × PeersState). p.0) (ok-injective h4)
      ∙ ap (λ (x : Launch D). x.magic) (ok-injective h3) in
    let g : genesis_checkpoint magic_regtest ≡ l.genesis =
      ap (λ (x : Launch D). x.genesis) (ok-injective h3) in
    (
      subst (λ x. network_magic (get_string names env (codes "NETWORK")) ≡ ok x) e d,
      λ q. differs m (network_magic-cases _ m d r) (g ∙ q ∙ ap genesis_checkpoint (sym e)),
    )
