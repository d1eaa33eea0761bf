-- ===== src/Store/Postgres/Filters.antt =====
-- internal/infrastructure/storage/db/pg/filter_repository_impl.go, over the table `filter`, whose key is
-- the string of a filter's key.
use neutrino_elements.Prelude.{
  ℕ, ◌≡◌, refl, inl, inr, Bool, false, List, none, some, Result, ok, err, Error, arith, ◌==◌, not,
  lookup, insert, lookup-insert, bytes_eq, bytes_eq_refl, ==_refl, Bool-cases, Option-cases, is_ok,
  if◌then◌else◌,
}
use neutrino_elements.Store.Interface.{FilterRepository, FilterKey, FilterEntry}

abbrev pub FilterRows : Type 0
FilterRows = List (ℕ × List ℕ)

module _ (key_string : FilterKey → ℕ) where
  unfoldable pub get_filter : FilterKey → FilterRows → Result FilterEntry
  get_filter key t = elim (lookup (key_string key) t) [
    | none ↦ err Error.filter_not_found
    | some value ↦ ok (record { key = key; n_bytes = value })
  ]

  -- An insertion whose key is there is a unique violation; the value that is there is then compared.
  unfoldable pub put_filter : FilterEntry → FilterRows → Result (Unit {0}) × FilterRows
  unfolding get_filter
  put_filter entry t = elim (lookup (key_string entry.key) t) [
    | none ↦ (ok tt, insert (key_string entry.key) entry.n_bytes t)
    | some value ↦ elim (get_filter entry.key t) [
      | err e ↦ (err e, t)
      | ok f ↦
          if not (bytes_eq f.n_bytes entry.n_bytes)
          then (err Error.different_value, t)
          else (ok tt, t)
    ]
  ]

  abbrev pub filter_postgres : FilterRepository FilterRows
  filter_postgres = record { put_filter = put_filter; get_filter = get_filter }

  get_filter_none :
      (key : FilterKey) (t : FilterRows)
      → lookup (key_string key) t ≡ none
      → get_filter key t ≡ err Error.filter_not_found
  unfolding get_filter
  get_filter_none key t e = rw (get_filter, e)

  get_filter_some :
      (key : FilterKey) (t : FilterRows) (v : List ℕ)
      → lookup (key_string key) t ≡ some v
      → get_filter key t ≡ ok (record { key = key; n_bytes = v })
  unfolding get_filter
  get_filter_some key t v e = rw (get_filter, e)

  put_fresh :
      (entry : FilterEntry) (t : FilterRows)
      → lookup (key_string entry.key) t ≡ none
      → put_filter entry t ≡ (ok tt, insert (key_string entry.key) entry.n_bytes t)
  unfolding put_filter
  put_fresh entry t e = rw (put_filter, e)

  put_stored :
      (entry : FilterEntry) (t : FilterRows) (v : List ℕ)
      → lookup (key_string entry.key) t ≡ some v
      → put_filter entry t
        ≡ (if bytes_eq v entry.n_bytes then ok tt else err Error.different_value, t)
  unfolding put_filter
  put_stored entry t v e = elim (Bool-cases (bytes_eq v entry.n_bytes)) [
    | inl f ↦ rw (put_filter, e, get_filter_some entry.key t v e, f)
    | inr f ↦ rw (put_filter, e, get_filter_some entry.key t v e, f)
  ]

  -- What was read of a key before a put, or else what the entry put gives it.
  abbrev pub or_put : FilterEntry → FilterKey → Result FilterEntry → Result FilterEntry
  or_put entry key (ok old) = ok old
  or_put entry key (err e) =
      if key_string entry.key == key_string key
      then ok (record { key = key; n_bytes = entry.n_bytes })
      else err e

  -- Whether the bytes read are the entry's.
  abbrev pub reads : FilterEntry → Result FilterEntry → Bool
  reads entry (ok f) = bytes_eq f.n_bytes entry.n_bytes
  reads entry (err e) = false

  other_string :
      (entry : FilterEntry) (key : FilterKey) (r : Result FilterEntry)
      → (key_string entry.key == key_string key) ≡ false
      → r ≡ or_put entry key r
  other_string entry key (ok f) s = refl
  other_string entry key (err x) s = rw s

  stored-or_put :
      (entry : FilterEntry) (key : FilterKey) (t : FilterRows) (v : List ℕ)
      → lookup (key_string entry.key) t ≡ some v
      → get_filter key t ≡ or_put entry key (get_filter key t)
  stored-or_put entry key t v e = elim (Bool-cases (key_string entry.key == key_string key)) [
    | inr s ↦ other_string entry key (get_filter key t) s
    | inl s ↦
        let q : key_string entry.key ≡ key_string key = ground arith in
        rw (get_filter_some key t v (rw q at e)) refl
  ]

  fresh-or_put :
      (entry : FilterEntry) (key : FilterKey) (t : FilterRows)
      → lookup (key_string entry.key) t ≡ none
      → get_filter key (insert (key_string entry.key) entry.n_bytes t)
        ≡ or_put entry key (get_filter key t)
  unfolding get_filter
  fresh-or_put entry key t e =
      let l = lookup-insert (key_string key) (key_string entry.key) entry.n_bytes t in
      elim (Bool-cases (key_string entry.key == key_string key)) [
        | inl s ↦
            let q : key_string entry.key ≡ key_string key = ground arith in
            let n : lookup (key_string key) t ≡ none = rw q at e in rw (get_filter, l, n, s)
        | inr s ↦ rw (get_filter, l, s) (other_string entry key (get_filter key t) s)
      ]

  -- After `PutFilter` a key that was stored reads what it read before, whatever was put; a key that
  -- was not reads the bytes put if it shares the string of the entry's key, and is still not found
  -- otherwise. The call succeeds exactly where the entry's key then reads the entry's bytes.
  pub put_filter_lem :
      (entry : FilterEntry) (key : FilterKey) (t : FilterRows)
      → (get_filter key (put_filter entry t).1 ≡ or_put entry key (get_filter key t))
        × (is_ok (put_filter entry t).0 ≡ reads entry (get_filter entry.key (put_filter entry t).1))
  put_filter_lem entry key t = elim (Option-cases (lookup (key_string entry.key) t)) [
    | inl e ↦ rw (put_fresh entry t e) (
      fresh-or_put entry key t e,
      rw (
        fresh-or_put entry entry.key t e,
        get_filter_none entry.key t e,
        ==_refl (key_string entry.key),
        bytes_eq_refl entry.n_bytes,
      ),
    )
    | inr (v, e) ↦ rw (put_stored entry t v e) (
      stored-or_put entry key t v e,
      rw (get_filter_some entry.key t v e)
          (elim (Bool-cases (bytes_eq v entry.n_bytes)) [ inl f ↦ rw f | inr f ↦ rw f ]),
    )
  ]
