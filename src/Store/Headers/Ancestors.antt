-- ===== src/Store/Headers/Ancestors.antt =====
-- `HasAllAncestors` and the links to previous blocks.
use neutrino_elements.Prelude.{
  ℕ, zero, suc, ◌≤◌, ◌<◌, ◌≡◌, ◌≢◌, inl, inr, true, [], ◌∷◌, some, ok, err, Error, arith, ltb,
  lookup, Bool-cases, Option-cases,
}
use neutrino_elements.Ledger.{Header}
use neutrino_elements.Store.Headers.{Headers, ancestors_loop, has_all_ancestors}

-- A path of stored headers from `h` down to one of height 0 or 1.
pub data Chain (m : Headers) : Header → Type 0 where
  base : {h : Header} → h.height ≤ 1 → Chain m h
  link :
      {h p : Header} (k : ℕ)
      → 1 < h.height
      → h.prev ≡ some k
      → lookup k m ≡ some p
      → Chain m p
      → Chain m h

-- In the store, a link leads to a lower header. Real chains have this by the rules of consensus.
abbrev pub IsDescending : Headers → Type 0
IsDescending m =
    (k j : ℕ) (h p : Header)
    → lookup k m ≡ some h
    → h.prev ≡ some j
    → lookup j m ≡ some p
    → p.height < h.height

ancestors_loop-Chain :
    (fuel : ℕ) (m : Headers) (h : Header) → ancestors_loop fuel m h ≡ ok true → Chain m h
unfolding ancestors_loop
ancestors_loop-Chain zero m h e = base (ground arith)
ancestors_loop-Chain (suc fuel) m h e = elim (Bool-cases (ltb 1 h.height)) [
  | inr low ↦ base (ground arith)
  | inl high ↦ elim (Option-cases h.prev) [
    | inl p ↦ absurd (ground arith)
    | inr (k, p) ↦ elim (Option-cases (lookup k m)) [
      | inl q ↦ absurd (ground arith)
      | inr (par, q) ↦ link k (ground arith) p q (ancestors_loop-Chain fuel m par (ground arith))
    ]
  ]
]

-- An answer `true` is a path of stored headers from the hash down to height 1.
pub has_all_ancestors-Chain :
    (fuel hash : ℕ) (m : Headers)
    → has_all_ancestors fuel hash m ≡ ok true
    → (h : Header) × (lookup hash m ≡ some h) × Chain m h
unfolding has_all_ancestors
has_all_ancestors-Chain fuel hash [] e = absurd (ground arith)
has_all_ancestors-Chain fuel hash (x ∷ m) e = elim (Option-cases (lookup hash (x ∷ m))) [
  | inl q ↦ absurd (ground arith)
  | inr (h, q) ↦ (h, q, ancestors_loop-Chain fuel (x ∷ m) h (ground arith))
]

ancestors_loop_complete :
    (fuel : ℕ) (m : Headers) (hash : ℕ) (h : Header)
    → IsDescending m
    → lookup hash m ≡ some h
    → h.height ≤ fuel
    → Chain m h
    → ancestors_loop fuel m h ≡ ok true
unfolding ancestors_loop
ancestors_loop_complete zero m hash h d s l c = ground arith
ancestors_loop_complete (suc fuel) m hash h d s l (base low) = ground arith
ancestors_loop_complete (suc fuel) m hash h d s l (link {p = q} k high e r c) = ground (
  arith,
  d hash k h q s e r,
  ancestors_loop_complete fuel m k q d r (omega (arith, d hash k h q s e r)) c,
)

-- With as many rounds as the header is high, a header from which a path leads down gets the answer
-- `true`.
pub has_all_ancestors_complete :
    (fuel hash : ℕ) (m : Headers) (h : Header)
    → IsDescending m
    → lookup hash m ≡ some h
    → h.height ≤ fuel
    → Chain m h
    → has_all_ancestors fuel hash m ≡ ok true
unfolding has_all_ancestors lookup
has_all_ancestors_complete fuel hash [] h d s l c = cc
has_all_ancestors_complete fuel hash (x ∷ m) h d s l c =
    rw (s, has_all_ancestors) (ancestors_loop_complete fuel (x ∷ m) hash h d s l c)

ancestors_loop-ne-stuck :
    (fuel : ℕ) (m : Headers) (hash : ℕ) (h : Header)
    → IsDescending m
    → lookup hash m ≡ some h
    → h.height ≤ fuel
    → ancestors_loop fuel m h ≢ err Error.stuck
unfolding ancestors_loop
ancestors_loop-ne-stuck zero m hash h d s l = ground arith
ancestors_loop-ne-stuck (suc fuel) m hash h d s l = elim (Option-cases h.prev) [
  | inl e ↦ ground arith
  | inr (k, e) ↦ elim (Option-cases (lookup k m)) [
    | inl r ↦ ground arith
    | inr (q, r) ↦ ground (
      arith,
      d hash k h q s e r,
      ancestors_loop-ne-stuck fuel m k q d r (omega (arith, d hash k h q s e r)),
    )
  ]
]

-- The walk down from any stored header ends within as many rounds as the header is high.
pub has_all_ancestors-ne-stuck :
    (fuel hash : ℕ) (m : Headers) (h : Header)
    → IsDescending m
    → lookup hash m ≡ some h
    → h.height ≤ fuel
    → has_all_ancestors fuel hash m ≢ err Error.stuck
unfolding has_all_ancestors lookup
has_all_ancestors-ne-stuck fuel hash [] h d s l = λ e. cc
has_all_ancestors-ne-stuck fuel hash (x ∷ m) h d s l =
    rw (s, has_all_ancestors) (ancestors_loop-ne-stuck fuel (x ∷ m) hash h d s l)
