-- ===== src/Store/Filters.antt =====
-- internal/infrastructure/storage/db/inmemory/filter_inmemory.go, over the string that a key is stored
-- under.
use neutrino_elements.Prelude.{
  ℕ, ◌≡◌, refl, List, none, some, Result, ok, err, Error, ◌==◌, lookup, insert, lookup-insert,
  Bool-cases, inl, inr, if◌then◌else◌,
}
use neutrino_elements.Store.Interface.{FilterRepository, FilterKey, FilterEntry}

abbrev pub FilterInmemory : Type 0
FilterInmemory = List (ℕ × List ℕ)

-- The method `FilterKey.String` cuts a hash of the key to six bytes: different keys may share a
-- string.
module _ (key_string : FilterKey → ℕ) where
  unfoldable pub put_filter : FilterEntry → FilterInmemory → Result (Unit {0}) × FilterInmemory
  put_filter entry m = (ok tt, insert (key_string entry.key) entry.n_bytes m)

  unfoldable pub get_filter : FilterKey → FilterInmemory → Result FilterEntry
  get_filter key m = elim (lookup (key_string key) m) [
    | none ↦ err Error.filter_not_found
    | some n_bytes ↦ ok (record { key = key; n_bytes = n_bytes })
  ]

  abbrev pub filter_inmemory : FilterRepository FilterInmemory
  filter_inmemory = record { put_filter = put_filter; get_filter = get_filter }

  -- After a write, a key that shares the string of the one written reads the bytes written, under its
  -- own name, and any other key reads what it read before.
  pub get_filter-put_filter :
      (entry : FilterEntry) (key : FilterKey) (m : FilterInmemory)
      → get_filter key (put_filter entry m).1 ≡ (
          if key_string entry.key == key_string key
          then ok (record { key = key; n_bytes = entry.n_bytes })
          else get_filter key m)
  unfolding get_filter put_filter
  get_filter-put_filter entry key m =
      rw (get_filter, lookup-insert (key_string key) (key_string entry.key) entry.n_bytes m)
        (elim (Bool-cases (key_string entry.key == key_string key)) [
          | inl e ↦ rw e refl
          | inr e ↦ rw e refl
        ])
