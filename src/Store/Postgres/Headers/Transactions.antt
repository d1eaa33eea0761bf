-- ===== src/Store/Postgres/Headers/Transactions.antt =====
-- `WriteHeaders` of pg/header_repository_impl.go and the constraints of the table.
use neutrino_elements.Prelude.{
  ℕ, ◌≡◌, ◌≢◌, refl, sym, subst, ◌∙◌, ◌⊎◌, inl, inr, false, List, [], ◌∷◌, ◌++◌, append-nil,
  append_assoc, All, All-append, Result, ok, Error, arith, Bool-cases, Result-cases,
}
use neutrino_elements.Ledger.{Header}
use neutrino_elements.Store.Postgres.Headers.{
  BlockHeader, Rows, conflicts, Attempt, row_of, insert_loop, write_headers,
}

-- Neither the hash nor the height is the same.
abbrev pub Differs : BlockHeader → BlockHeader → Type 0
Differs r x = (x.hash ≢ r.hash) × (x.height ≢ r.height)

-- No two rows have a hash or a height in common.
abbrev pub IsUnique : Rows → Type 0
IsUnique [] = Unit {0}
IsUnique (r ∷ t) = All (Differs r) t × IsUnique t

pub conflicts-Differs :
    (r : BlockHeader) (t : Rows) → conflicts r t ≡ false → All (λ x. Differs x r) t
unfolding conflicts
conflicts-Differs r [] e = tt
conflicts-Differs r (x ∷ t) e =
    let rest = conflicts-Differs r t (ground arith) in
    ((λ q. ground arith, λ q. ground arith), rest)

IsUnique-append :
    (r : BlockHeader) (t : Rows) → IsUnique t → All (λ x. Differs x r) t → IsUnique (t ++ (r ∷ []))
IsUnique-append r [] u a = (tt, tt)
IsUnique-append r (x ∷ t) (d, u) (p, a) =
    (All-append (Differs x) t (r ∷ []) d (p, tt), IsUnique-append r t u a)

Attempt-complete : {t u : Rows} → Attempt.complete t ≡ Attempt.complete u → t ≡ u
Attempt-complete e = cc

Attempt-cases :
    (a : Attempt)
    → ((t : Rows) × (a ≡ Attempt.complete t))
      ⊎ ((a ≡ Attempt.violation) ⊎ ((e : Error) × (a ≡ Attempt.failed e)))
Attempt-cases (Attempt.complete t) = inl (t, refl)
Attempt-cases Attempt.violation = inr (inl refl)
Attempt-cases (Attempt.failed e) = inr (inr (e, refl))

module _ (serialize : Header → Result (List ℕ)) (deserialize : List ℕ → Result Header) where
  -- The rows of headers, in their order.
  abbrev pub AreRows : List Header → Rows → Type 0
  AreRows [] rows = rows ≡ []
  AreRows (h ∷ hs) rows =
      (r : BlockHeader) × (more : Rows) × (row_of serialize deserialize h ≡ ok r)
      × AreRows hs more
      × (rows ≡ r ∷ more)

  insert_loop_lem :
      (hs : List Header) (t after : Rows)
      → IsUnique t
      → insert_loop serialize deserialize hs t ≡ Attempt.complete after
      → IsUnique after × ((rows : Rows) × AreRows hs rows × (after ≡ t ++ rows))
  unfolding insert_loop
  insert_loop_lem [] t after u e = (
    subst IsUnique (Attempt-complete e) u,
    ([], refl, sym (Attempt-complete e) ∙ sym (append-nil t)),
  )
  insert_loop_lem (h ∷ hs) t after u e = elim (Result-cases (row_of serialize deserialize h)) [
    | inr (x, f) ↦ absurd (let e' = rw (insert_loop, f) at e in cc)
    | inl (r, f) ↦ elim (Bool-cases (conflicts r t)) [
      | inl g ↦ absurd (let e' = rw (insert_loop, f, g) at e in cc)
      | inr g ↦
          let e' = rw (insert_loop, f, g) at e in
          let (v, (rows, a, q)) =
            insert_loop_lem hs (t ++ (r ∷ [])) after
              (IsUnique-append r t u (conflicts-Differs r t g)) e' in
          (v, (r ∷ rows, (r, rows, f, a, refl), q ∙ append_assoc t (r ∷ []) rows))
    ]
  ]

  -- The rows of a table stay unique, and a call adds the rows of all the headers that it was given, in
  -- their order behind those that were there, or it changes nothing. It may return no error in the
  -- second case too, but never an error in the first.
  pub write_headers_atomic :
      (hs : List Header) (t : Rows)
      → IsUnique t
      → IsUnique (write_headers serialize deserialize hs t).1
        × (((write_headers serialize deserialize hs t).1 ≡ t)
            ⊎ (((write_headers serialize deserialize hs t).0 ≡ ok tt)
                × ((rows : Rows) × AreRows hs rows
                    × ((write_headers serialize deserialize hs t).1 ≡ t ++ rows))))
  unfolding write_headers
  write_headers_atomic hs t u = elim (Attempt-cases (insert_loop serialize deserialize hs t)) [
    | inl (after, e) ↦
        let (v, w) = insert_loop_lem hs t after u e in rw (write_headers, e) (v, inr (refl, w))
    | inr (inl e) ↦ rw (write_headers, e) (u, inl refl)
    | inr (inr (x, e)) ↦ rw (write_headers, e) (u, inl refl)
  ]
