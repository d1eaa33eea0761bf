-- ===== src/Store/Postgres/Headers/Agreement.antt =====
-- The table of pg/header_repository_impl.go beside the in-memory map of header_inmemory.go.
use neutrino_elements.Prelude.{
  ℕ, ◌≤◌, ◌≡◌, ◌≢◌, refl, ap, sym, subst, ◌∙◌, inl, inr, true, false, List, [], ◌∷◌, ◌++◌, All,
  some, Result, ok, err, Error, arith, ◌==◌, lookup, insert, ok-injective, Bool-cases, Option-cases,
  Result-cases,
}
use neutrino_elements.Ledger.{Header}
use neutrino_elements.Store.Headers.{Headers}
use neutrino_elements.Store.Headers as Memory
use neutrino_elements.Store.Headers.Tip.{written, Holds, NoneHigher, chain_tip_highest}
use neutrino_elements.Store.Postgres.Headers.{
  BlockHeader, Rows, find_row, max_height, conflicts, chain_tip, get_block_header,
  get_block_header_by_height, row_of, Attempt, insert_loop, write_headers,
}
use neutrino_elements.Store.Postgres.Headers.Transactions.{
  Differs, IsUnique, conflicts-Differs, write_headers_atomic,
}

module _ (serialize : Header → Result (List ℕ)) (deserialize : List ℕ → Result Header) where
  -- Row by row: the same hashes, and bytes that are read as the header.
  pub data Agrees : Rows → Headers → Type 0 where
    empty : Agrees [] []
    row :
        {r : BlockHeader} {k : ℕ} {h : Header} {t : Rows} {m : Headers}
        → r.hash ≡ k
        → r.height ≡ h.height
        → deserialize r.header_bytes ≡ ok h
        → Agrees t m
        → Agrees (r ∷ t) ((k, h) ∷ m)

  Agrees-get_block_header :
      (hash : ℕ) {t : Rows} {m : Headers}
      → Agrees t m
      → get_block_header serialize deserialize hash t ≡ Memory.get_block_header hash m
  unfolding get_block_header find_row lookup Memory.get_block_header
  Agrees-get_block_header hash empty = refl
  Agrees-get_block_header hash (row {r = r} {k = k} e f d a) = elim (Bool-cases (r.hash == hash)) [
    | inl q ↦ let q' : (k == hash) ≡ true = ground arith in rw (q, q') d
    | inr q ↦
        let q' : (k == hash) ≡ false = ground arith in rw (q, q') (Agrees-get_block_header hash a)
  ]

  -- Where no header has the height, the errors differ.
  abbrev pub missing : Result Header → Result Header
  missing (ok h) = ok h
  missing (err e) = err Error.no_block_headers

  Agrees-by_height :
      (height : ℕ) {t : Rows} {m : Headers}
      → Agrees t m
      → get_block_header_by_height serialize deserialize height t
        ≡ missing (Memory.get_block_header_by_height height m)
  unfolding get_block_header_by_height find_row Memory.get_block_header_by_height
  Agrees-by_height height empty = refl
  Agrees-by_height height (row {r = r} {h = h} e f d a) = elim (Bool-cases (r.height == height)) [
    | inl q ↦ let q' : (h.height == height) ≡ true = ground arith in rw (q, q') d
    | inr q ↦
        let q' : (h.height == height) ≡ false = ground arith in
        rw (q, q') (Agrees-by_height height a)
  ]

  Agrees-apart :
      (r : BlockHeader) (h : Header) {t : Rows} {m : Headers}
      → Agrees t m
      → All (Differs r) t
      → Holds h m
      → r.height ≢ h.height
  Agrees-apart r h empty d i = absurd i
  Agrees-apart r h (row {h = x} e f g a) ((_, p), d) (inl q) =
      λ s. p (f ∙ (ap (λ y. y.height) q ∙ sym s))
  Agrees-apart r h (row e f g a) (_, d) (inr i) = Agrees-apart r h a d i

  Agrees-Holds :
      (h : Header) {t : Rows} {m : Headers}
      → Agrees t m
      → IsUnique t
      → Holds h m
      → get_block_header_by_height serialize deserialize h.height t ≡ ok h
  unfolding get_block_header_by_height find_row
  Agrees-Holds h empty u i = absurd i
  Agrees-Holds h (row {r = r} e f d a) (_, u) (inl q) =
      let g : (r.height == h.height) ≡ true = let s = ap (λ y. y.height) q in ground arith in
      rw g (d ∙ ap ok q)
  Agrees-Holds h (row {r = r} e f d a) (v, u) (inr i) =
      let n = Agrees-apart r h a v i in
      let g : (r.height == h.height) ≡ false = ground arith in rw g (Agrees-Holds h a u i)

  max_height_le :
      (b : Header) {t : Rows} {m : Headers} → Agrees t m → NoneHigher b m → max_height t ≤ b.height
  unfolding max_height
  max_height_le b empty w = omega arith
  max_height_le b (row e f d a) (l, w) = ground (arith, max_height_le b a w)

  le-max_height :
      (b : Header) {t : Rows} {m : Headers} → Agrees t m → Holds b m → b.height ≤ max_height t
  unfolding max_height
  le-max_height b empty i = absurd i
  le-max_height b (row e f d a) (inl q) = let s = ap (λ y. y.height) q in ground arith
  le-max_height b (row e f d a) (inr i) = ground (arith, le-max_height b a i)

  tip_at_max :
      (t : Rows)
      → chain_tip serialize deserialize t
        ≡ get_block_header_by_height serialize deserialize (max_height t) t
  unfolding chain_tip get_block_header_by_height
  tip_at_max t = refl

  Agrees-chain_tip :
      {t : Rows} {m : Headers}
      → Agrees t m
      → IsUnique t
      → chain_tip serialize deserialize t ≡ Memory.chain_tip m
  unfolding chain_tip Memory.chain_tip find_row Memory.tip_loop
  Agrees-chain_tip empty u = refl
  Agrees-chain_tip {t = t} (row {r = r} {k = k} {h = h} {m = m} e f d a) u =
      let (b, g, i, w) = chain_tip_highest k h m in
      let all : Agrees t ((k, h) ∷ m) = row e f d a in
      let q : max_height t ≡ b.height =
        omega (arith, max_height_le b all w, le-max_height b all i) in
      tip_at_max t
      ∙ (subst (λ n. get_block_header_by_height serialize deserialize n t ≡ ok b) (sym q)
            (Agrees-Holds b all u i)
          ∙ sym g)

  -- Where a table with unique hashes and heights and a map hold the same headers, row by row, the
  -- two repositories give the same tip, the same header for every hash, and the same header for every
  -- height that is stored.
  pub Agrees-queries :
      (t : Rows) (m : Headers) (hash height : ℕ)
      → Agrees t m
      → IsUnique t
      → (chain_tip serialize deserialize t ≡ Memory.chain_tip m)
        × (get_block_header serialize deserialize hash t ≡ Memory.get_block_header hash m)
        × (get_block_header_by_height serialize deserialize height t
            ≡ missing (Memory.get_block_header_by_height height m))
  Agrees-queries t m hash height a u =
      (Agrees-chain_tip a u, Agrees-get_block_header hash a, Agrees-by_height height a)

  Agrees-insert :
      (r : BlockHeader) (h : Header) {t : Rows} {m : Headers}
      → Agrees t m
      → All (λ x. Differs x r) t
      → r.height ≡ h.height
      → deserialize r.header_bytes ≡ ok h
      → Agrees (t ++ (r ∷ [])) (insert r.hash h m)
  unfolding insert
  Agrees-insert r h empty w f d = row refl f d empty
  Agrees-insert r h (row {r = x} {k = k} e f d a) ((p, _), w) g c =
      let q : (k == r.hash) ≡ false = ground arith in rw q (row e f d (Agrees-insert r h a w g c))

  row_of_lem :
      (h : Header) (r : BlockHeader)
      → row_of serialize deserialize h ≡ ok r
      → (r.height ≡ h.height) × (h.hash ≡ some r.hash)
  unfolding row_of
  row_of_lem h r e = elim (Result-cases (serialize h)) [
    | inr (x, f) ↦ absurd (let e' = rw (row_of, f) at e in cc)
    | inl (bytes, f) ↦ elim (Option-cases h.hash) [
      | inl g ↦ absurd (let e' = rw (row_of, f, g) at e in cc)
      | inr (k, g) ↦
          let made : row_of serialize deserialize h
              ≡ ok (record { hash = k; height = h.height; header_bytes = bytes }) =
            rw (row_of, f, g) in
          let q = ok-injective (sym made ∙ e) in
          (sym (ap (λ x. x.height) q), g ∙ ap (λ x. some x.hash) q)
    ]
  ]

  write_one :
      (h : Header) (r : BlockHeader) (t : Rows)
      → row_of serialize deserialize h ≡ ok r
      → conflicts r t ≡ false
      → (write_headers serialize deserialize (h ∷ []) t).1 ≡ t ++ (r ∷ [])
  unfolding write_headers insert_loop
  write_one h r t e c =
      let g : insert_loop serialize deserialize (h ∷ []) t ≡ Attempt.complete (t ++ (r ∷ [])) =
        rw (insert_loop, e, c) in
      rw (write_headers, g)

  -- Writing one new header, whose hash and height the table does not have and whose bytes are read
  -- back, keeps the table and the map in agreement and the table's rows unique.
  pub Agrees-write_headers :
      (t : Rows) (m : Headers) (h : Header) (r : BlockHeader)
      → Agrees t m
      → IsUnique t
      → row_of serialize deserialize h ≡ ok r
      → deserialize r.header_bytes ≡ ok h
      → conflicts r t ≡ false
      → Agrees
          (write_headers serialize deserialize (h ∷ []) t).1
          (Memory.write_headers (h ∷ []) m).1
        × IsUnique (write_headers serialize deserialize (h ∷ []) t).1
  Agrees-write_headers t m h r a u e d c =
      let (v, _) = write_headers_atomic serialize deserialize (h ∷ []) t u in
      let w = conflicts-Differs r t c in
      let (f, g) = row_of_lem h r e in
      let mem : (Memory.write_headers (h ∷ []) m).1 ≡ insert r.hash h m = written h r.hash m g in
      (rw (write_one h r t e c, mem) (Agrees-insert r h a w f d), v)
