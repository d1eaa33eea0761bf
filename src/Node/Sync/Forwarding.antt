-- ===== src/Node/Sync/Forwarding.antt =====
-- What `handleHeaders` forwards to the writer, and the stored chain.
use neutrino_elements.Prelude.{
  ℕ, suc, ◌+◌, ◌-◌, ◌%◌, ◌^◌, ◌≤◌, ◌<◌, ◌≡◌, refl, sym, ap, subst, ◌⊎◌, inl, inr, true, false, All,
  List, [], ◌∷◌, ◌++◌, ltb, leb, ◌==◌, keep, last_or, map, length, arith, Bool-cases,
}
use neutrino_elements.Ledger.{Header}
use neutrino_elements.Node.Sync.{Effect, check_headers_in_sequence, new_headers, forward_headers}

-- Headers at the heights `n`, `n + 1` and so on.
abbrev pub HeightsFrom : ℕ → List Header → Type 0
HeightsFrom n [] = Unit {0}
HeightsFrom n (h ∷ hs) = (h.height ≡ n) × HeightsFrom (suc n) hs

abbrev pub Bounded : List Header → Type 0
Bounded hs = All (λ h. h.height < 2 ^ 32) hs

-- A sequence that does not run over the greatest uint32 has each height one above the last.
in_sequence-HeightsFrom :
    (h : Header) (hs : List Header)
    → Bounded hs
    → h.height + length hs < 2 ^ 32
    → check_headers_in_sequence (h ∷ hs) ≡ true
    → HeightsFrom h.height (h ∷ hs)
unfolding check_headers_in_sequence
in_sequence-HeightsFrom h [] w l e = (refl, tt)
in_sequence-HeightsFrom h (b ∷ hs) (v, w) l e =
    elim (Bool-cases (h.height == (b.height + (2 ^ 32 - 1)) % 2 ^ 32)) [
      | inr q ↦ absurd (let e' = rw q at e in cc)
      | inl q ↦
          let e' : check_headers_in_sequence (b ∷ hs) ≡ true = rw q at e in
          let p : suc h.height ≡ b.height = ground arith in
          (
            refl,
            subst (λ k. HeightsFrom k (b ∷ hs)) (sym p)
                (in_sequence-HeightsFrom b hs w (omega arith) e'),
          )
    ]

HeightsFrom-last :
    (n : ℕ) (h : Header) (hs : List Header)
    → HeightsFrom n (h ∷ hs)
    → (last_or h hs).height ≡ n + length hs
HeightsFrom-last n h [] (e, w) = omega arith
HeightsFrom-last n h (b ∷ hs) (e, w) = omega (arith, HeightsFrom-last (suc n) b hs w)

keep_above :
    (tip n : ℕ) (hs : List Header)
    → tip < n
    → HeightsFrom n hs
    → keep (λ h. ltb tip h.height) hs ≡ hs
keep_above tip n [] l w = refl
keep_above tip n (h ∷ hs) l (e, w) =
    let f : ltb tip h.height ≡ true = ground arith in
    rw f (ap (◌∷◌ h) (keep_above tip (suc n) hs (omega arith) w))

-- The headers above the tip, of a run that reaches beyond it, are a run from the height after it.
keep_from :
    (tip n : ℕ) (hs : List Header)
    → n ≤ suc tip
    → suc tip ≤ n + length hs
    → HeightsFrom n hs
    → HeightsFrom (suc tip) (keep (λ h. ltb tip h.height) hs)
      × (suc tip + length (keep (λ h. ltb tip h.height) hs) ≡ n + length hs)
keep_from tip n [] l m w = (tt, omega arith)
keep_from tip n (h ∷ hs) l m (e, w) = elim (Bool-cases (n == suc tip)) [
  | inl q ↦
      let p : n ≡ suc tip = ground arith in
      let k = keep_above tip n (h ∷ hs) (omega arith) (e, w) in
      rw k (subst (λ j. HeightsFrom j (h ∷ hs)) p (e, w), omega arith)
  | inr q ↦
      let f : ltb tip h.height ≡ false = ground arith in
      let (v, c) = keep_from tip (suc n) hs (ground arith) (omega arith) w in rw f (v, omega arith)
]

-- The headers that go to the writer.
abbrev pub forwarded : List Effect → List Header
forwarded [] = []
forwarded (Effect.forward h ∷ es) = h ∷ forwarded es
forwarded (Effect.sync ∷ es) = forwarded es
forwarded (Effect.set_peers_tip n ∷ es) = forwarded es
forwarded (Effect.check_tx_confirmed b ∷ es) = forwarded es

forwarded-all : (hs : List Header) → forwarded (map Effect.forward hs ++ (Effect.sync ∷ [])) ≡ hs
forwarded-all [] = refl
forwarded-all (h ∷ hs) = ap (◌∷◌ h) (forwarded-all hs)

-- The forwarded headers continue a chain whose tip is at a height: a run that starts there or one
-- above, and ends at `last`, which is above.
abbrev pub Continues : ℕ → ℕ → List Header → Type 0
Continues tip last hs =
    (n : ℕ) × HeightsFrom n hs
    × (tip ≤ n)
    × (n ≤ suc tip)
    × (tip < last)
    × (n + length hs ≡ suc last)

new_headers-Continues :
    (tip first : Header) (others : List Header)
    → HeightsFrom first.height (first ∷ others)
    → first.height ≤ suc tip.height
    → tip.height < (last_or first others).height
    → Continues tip.height (last_or first others).height (new_headers tip first others)
unfolding new_headers
new_headers-Continues tip first others w l m =
    let z = HeightsFrom-last first.height first others w in
    elim (Bool-cases (ltb first.height tip.height)) [
      | inr e ↦ rw e (first.height, w, ground arith, l, m, omega arith)
      | inl e ↦
          let f : ltb tip.height (last_or first others).height ≡ true = ground arith in
          let (v, c) =
            keep_from tip.height first.height (first ∷ others) (ground arith) (omega arith) w in
          let g : ltb tip.height first.height ≡ false = ground arith in
          rw (e, f)
            (go (keep (λ h. ltb tip.height h.height) (first ∷ others)) v (omega (arith, c, z)))
    ]
  where
    go :
        (hs : List Header)
        → HeightsFrom (suc tip.height) hs
        → suc tip.height + length hs ≡ suc (last_or first others).height
        → Continues tip.height
            (last_or first others).height
            (elim hs [ [] ↦ first ∷ others | x ∷ xs ↦ x ∷ xs ])
    go [] v c = absurd (omega arith)
    go (x ∷ xs) v c = (suc tip.height, v, omega arith, omega arith, m, c)

-- A message of headers forwards nothing, or a run of headers that continues the chain and reaches the
-- height of the message's last header. The heights are uint32, and neither they nor the tip run over
-- the greatest one.
pub forward_headers-Continues :
    (tip first : Header) (others : List Header)
    → tip.height + 1 < 2 ^ 32
    → Bounded others
    → first.height + length others < 2 ^ 32
    → (forwarded (forward_headers tip first others) ≡ [])
      ⊎ Continues tip.height
          (last_or first others).height
          (forwarded (forward_headers tip first others))
unfolding forward_headers
forward_headers-Continues tip first others p w l =
    elim (Bool-cases (check_headers_in_sequence (first ∷ others))) [
      | inr e ↦ rw e (inl refl)
      | inl e ↦ elim (Bool-cases (ltb ((tip.height + 1) % 2 ^ 32) first.height)) [
        | inl f ↦ rw (e, f) (inl refl)
        | inr f ↦ elim (Bool-cases (leb (last_or first others).height tip.height)) [
          | inl g ↦ rw (e, f, g) (inl refl)
          | inr g ↦
              rw (e, f, g, forwarded-all (new_headers tip first others))
                (inr (
                  new_headers-Continues tip first others
                    (in_sequence-HeightsFrom first others w l e) (ground arith) (ground arith)))
        ]
      ]
    ]
