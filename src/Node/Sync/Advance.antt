-- ===== src/Node/Sync/Advance.antt =====
-- The headers that are forwarded, and the tip of the in-memory store.
use neutrino_elements.Prelude.{
  ℕ, suc, ◌+◌, ◌^◌, ◌≤◌, ◌<◌, ◌≡◌, refl, ap, ◌⊎◌, inl, inr, List, [], ◌∷◌, All, some, ok, arith,
  length, last_or,
}
use neutrino_elements.Ledger.{Header}
use neutrino_elements.Store.Headers.{Headers, header_inmemory, chain_tip}
use neutrino_elements.Store.Headers.Tip.{chain_tip-write_headers}
use neutrino_elements.Node.Sync.{forward_headers, monitor_block_header}
use neutrino_elements.Node.Sync.Forwarding.{
  HeightsFrom, Bounded, forwarded, forward_headers-Continues,
}

-- The writer takes the headers from its channel one after the other. The two numbers of the store
-- bound its locators and walks, which writing does not use.
abbrev pub write_all : ℕ → List Header → Headers → Headers
write_all peers [] m = m
write_all peers (h ∷ hs) m =
    write_all peers hs (monitor_block_header (header_inmemory 500 0) peers h m).0

-- The header has a hash.
abbrev pub HasHash : Header → Type 0
HasHash h = (k : ℕ) × (h.hash ≡ some k)

write_all-tip :
    (peers n : ℕ) (t : Header) (hs : List Header) (m : Headers)
    → chain_tip m ≡ ok t
    → t.height ≤ n
    → All HasHash hs
    → HeightsFrom n hs
    → (u : Header) × (chain_tip (write_all peers hs m) ≡ ok u)
      × (((hs ≡ []) × (u.height ≡ t.height)) ⊎ (suc u.height ≡ n + length hs))
unfolding monitor_block_header
write_all-tip peers n t [] m e l a w = (t, e, inl (refl, refl))
write_all-tip peers n t (h ∷ hs) m e l ((k, p), a) (q, w) =
    let (u, f, c) = chain_tip-write_headers t h k m e p (omega arith) in
    let (v, g, d) = write_all-tip peers (suc n) u hs _ f (omega arith) a w in
    (v, g, inr (elim d [ inl (z, y) ↦ omega (arith, ap length z) | inr z ↦ omega arith ]))

-- A message of headers handled at the stored tip, where those forwarded have hashes and no height runs
-- over the greatest uint32: once the writer has stored them, the store's tip is as high as before if
-- none was forwarded, and else it is higher and as high as the message's last header.
pub write_all-forward_headers :
    (peers : ℕ) (m : Headers) (t first : Header) (others : List Header)
    → chain_tip m ≡ ok t
    → t.height + 1 < 2 ^ 32
    → Bounded others
    → first.height + length others < 2 ^ 32
    → All HasHash (forwarded (forward_headers t first others))
    → (u : Header) × (chain_tip (write_all peers (forwarded (forward_headers t first others)) m)
        ≡ ok u)
      × (((forwarded (forward_headers t first others) ≡ []) × (u.height ≡ t.height))
          ⊎ ((t.height < u.height) × (u.height ≡ (last_or first others).height)))
write_all-forward_headers peers m t first others e p w l a =
    elim (forward_headers-Continues t first others p w l) [
      | inl z ↦ (t, rw z e, inl (z, refl))
      | inr (n, v, lo, _, up, c) ↦
          let (u, f, d) = write_all-tip peers n t _ m e lo a v in
          (u, f, elim d [ inl y ↦ inl y | inr y ↦ inr (omega arith, omega arith) ])
    ]
