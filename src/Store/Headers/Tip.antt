-- ===== src/Store/Headers/Tip.antt =====
-- The tip of the in-memory store, and what a write leaves in it.
use neutrino_elements.Prelude.{
  ℕ, ◌≤◌, ◌≡◌, refl, ap, sym, ◌∙◌, subst, ok-injective, ◌⊎◌, inl, inr, Bool, false, List, [], ◌∷◌,
  All, none, some, ok, arith, ltb, ◌==◌, lookup, insert, lookup-insert, some_of, last_or,
  Bool-cases, Option-cases, if◌then◌else◌,
}
use neutrino_elements.Ledger.{Header}
use neutrino_elements.Store.Headers.{Headers, tip_loop, chain_tip, write_loop, write_headers}

-- An entry of the map, under some key.
abbrev pub Holds : Header → Headers → Type 0
Holds h [] = ⊥
Holds h ((k, x) ∷ m) = (x ≡ h) ⊎ Holds h m

abbrev pub NoneHigher : Header → Headers → Type 0
NoneHigher t m = All (λ e. e.1.height ≤ t.height) m

NoneHigher-mono :
    (t u : Header) (m : Headers) → t.height ≤ u.height → NoneHigher t m → NoneHigher u m
NoneHigher-mono t u [] h a = tt
NoneHigher-mono t u (e ∷ m) h (x, a) = (omega arith, NoneHigher-mono t u m h a)

tip_loop-some :
    (t : Header) (m : Headers)
    → (b : Header) × (tip_loop (some t) m ≡ some b)
      × (t.height ≤ b.height)
      × NoneHigher b m
      × ((t ≡ b) ⊎ Holds b m)
unfolding tip_loop
tip_loop-some t [] = (t, refl, omega arith, tt, inl refl)
tip_loop-some t ((k, h) ∷ m) = elim (Bool-cases (ltb t.height h.height)) [
  | inl e ↦ let (b, r, l, a, i) = tip_loop-some h m in (b, rw e r, ground arith, (l, a), inr i)
  | inr e ↦
      let (b, r, l, a, i) = tip_loop-some t m in
      (b, rw e r, l, (ground arith, a), elim i [ inl x ↦ inl x | inr y ↦ inr (inr y) ])
]

-- A store with a header has a tip: one of its headers, and none is higher.
pub chain_tip_highest :
    (k : ℕ) (h : Header) (m : Headers)
    → (t : Header) × (chain_tip ((k, h) ∷ m) ≡ ok t)
      × Holds t ((k, h) ∷ m)
      × NoneHigher t ((k, h) ∷ m)
unfolding chain_tip
chain_tip_highest k h m = let (b, r, l, a, i) = tip_loop-some h m in (b, rw r, i, (l, a))

-- Whether the header's hash is `j`.
abbrev pub has_hash : ℕ → Header → Bool
has_hash j h = elim h.hash [ some k ↦ k == j | none ↦ false ]

write_loop_lem :
    (cell : Header) (hs : List Header) (m : Headers) (j : ℕ)
    → lookup j (write_loop cell hs m) ≡ (if some_of (has_hash j) hs then some cell else lookup j m)
unfolding write_loop
write_loop_lem cell [] m j = refl
write_loop_lem cell (h ∷ hs) m j = elim (Option-cases h.hash) [
  | inl e ↦ rw (e, write_loop) (write_loop_lem cell hs m j)
  | inr (k, e) ↦
      rw (e, write_loop)
        (ground (arith, write_loop_lem cell hs (insert k cell m) j, lookup-insert j k cell m))
]

-- After a call of `WriteHeaders` the hash of each header that it was given leads to the last header
-- that it was given, and every other hash to what it led to before.
pub lookup-write_headers :
    (h : Header) (hs : List Header) (m : Headers) (j : ℕ)
    → lookup j (write_headers (h ∷ hs) m).1
      ≡ (if some_of (has_hash j) (h ∷ hs) then some (last_or h hs) else lookup j m)
unfolding write_headers
lookup-write_headers h hs m j = write_loop_lem (last_or h hs) (h ∷ hs) m j

NoneHigher-Holds : (t h : Header) (m : Headers) → NoneHigher t m → Holds h m → h.height ≤ t.height
NoneHigher-Holds t h [] a i = absurd i
NoneHigher-Holds t h ((k, x) ∷ m) (l, a) (inl e) = rw e at l
NoneHigher-Holds t h ((k, x) ∷ m) (l, a) (inr i) = NoneHigher-Holds t h m a i

Holds-insert : (k : ℕ) (h : Header) (m : Headers) → Holds h (insert k h m)
unfolding insert
Holds-insert k h [] = inl refl
Holds-insert k h ((j, x) ∷ m) = elim (Bool-cases (j == k)) [
  | inl e ↦ rw e (inl refl)
  | inr e ↦ rw e (inr (Holds-insert k h m))
]

insert-NoneHigher :
    (k : ℕ) (h : Header) (m : Headers) → NoneHigher h m → NoneHigher h (insert k h m)
unfolding insert
insert-NoneHigher k h [] a = (omega arith, tt)
insert-NoneHigher k h ((j, x) ∷ m) (l, a) = elim (Bool-cases (j == k)) [
  | inl e ↦ rw e (omega arith, a)
  | inr e ↦ rw e (l, insert-NoneHigher k h m a)
]

chain_tip-insert :
    (k : ℕ) (h : Header) (m : Headers)
    → NoneHigher h m
    → (t : Header) × (chain_tip (insert k h m) ≡ ok t) × (t.height ≡ h.height)
chain_tip-insert k h m a = go (insert k h m) (insert-NoneHigher k h m a) (Holds-insert k h m)
  where
    go :
        (m : Headers)
        → NoneHigher h m
        → Holds h m
        → (t : Header) × (chain_tip m ≡ ok t) × (t.height ≡ h.height)
    go [] w i = absurd i
    go ((j, x) ∷ m) w i =
        let (t, e, p, q) = chain_tip_highest j x m in
        (
          t,
          e,
          omega
              (arith, NoneHigher-Holds t h ((j, x) ∷ m) q i, NoneHigher-Holds h t ((j, x) ∷ m) w p),
        )

tip-NoneHigher : (t : Header) (m : Headers) → chain_tip m ≡ ok t → NoneHigher t m
tip-NoneHigher t [] e = tt
tip-NoneHigher t ((k, x) ∷ m) e =
    let (b, f, _, q) = chain_tip_highest k x m in
    subst (λ u. NoneHigher u ((k, x) ∷ m)) (ok-injective (sym f ∙ e)) q

-- What is written of one header with a hash.
pub written :
    (h : Header) (k : ℕ) (m : Headers)
    → h.hash ≡ some k
    → (write_headers (h ∷ []) m).1 ≡ insert k h m
unfolding write_headers write_loop
written h k m f = ap (λ o. elim o [ some j ↦ insert j h m | none ↦ m ]) f

-- Writing one header that has a hash and is no lower than the tip makes a header of its height the
-- tip.
pub chain_tip-write_headers :
    (t h : Header) (k : ℕ) (m : Headers)
    → chain_tip m ≡ ok t
    → h.hash ≡ some k
    → t.height ≤ h.height
    → (u : Header) × (chain_tip (write_headers (h ∷ []) m).1 ≡ ok u) × (u.height ≡ h.height)
chain_tip-write_headers t h k m e f l =
    let w = NoneHigher-mono t h m l (tip-NoneHigher t m e) in
    subst (λ x. (u : Header) × (chain_tip x ≡ ok u) × (u.height ≡ h.height)) (sym (written h k m f))
      (chain_tip-insert k h m w)
