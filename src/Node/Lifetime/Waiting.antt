-- ===== src/Node/Lifetime/Waiting.antt =====
-- What `Start` has waited for when it returns.
use neutrino_elements.Prelude.{
  ℕ, ◌≤◌, ◌≡◌, refl, inl, inr, true, false, List, [], ◌∷◌, Option, none, some, ok, Error, Member,
  here, there, arith, or_error, >>=-eq-ok, Result-cases,
}
use neutrino_elements.Ledger.{Header}
use neutrino_elements.Store.Interface.{BlockHeaderRepository}
use neutrino_elements.Node.Sync.{synced}
use neutrino_elements.Node.Lifetime.{Second, check_synced_initial}

-- The header store has a tip that is no lower than the peer's, and all the ancestors of it.
abbrev pub IsSynced : {S : Type 0} → BlockHeaderRepository S → Second S → Type 0
IsSynced db now =
    (tip : Header) × (hash : ℕ) × (db.chain_tip now.headers ≡ ok tip)
    × (tip.hash ≡ some hash)
    × (now.peers_tip ≤ tip.height)
    × (db.has_all_ancestors hash now.headers ≡ ok true)

some_of_ok : (o : Option ℕ) (e : Error) {a : ℕ} → or_error e o ≡ ok a → o ≡ some a
some_of_ok none e h = absurd cc
some_of_ok (some x) e h = cc

module _ {S : Type 0} (db : BlockHeaderRepository S) where
  synced-IsSynced :
      (now : Second S) → synced db now.peers_tip now.headers ≡ ok true → IsSynced db now
  unfolding synced
  synced-IsSynced now h =
      let (tip, e, h1) = >>=-eq-ok (db.chain_tip now.headers) _ h in
      let (hash, f, h2) = >>=-eq-ok (or_error Error.external tip.hash) _ h1 in
      let (all, g, h3) = >>=-eq-ok (db.has_all_ancestors hash now.headers) _ h2 in
      let a : all ≡ true = ground arith in
      (tip, hash, e, some_of_ok tip.hash _ f, ground arith, rw a at g)

  -- `Start` goes on only after a second in which the store had a tip no lower than the initial peer's
  -- and all its ancestors.
  pub check_synced_initial-IsSynced :
      (seconds : List (Second S))
      → check_synced_initial db false seconds ≡ 1
      → (now : Second S) × Member now seconds × IsSynced db now
  unfolding check_synced_initial
  check_synced_initial-IsSynced [] h = absurd (omega arith)
  check_synced_initial-IsSynced (now ∷ later) h =
      elim (Result-cases (synced db now.peers_tip now.headers)) [
        | inr (x, e) ↦
            let (n, m, w) =
              check_synced_initial-IsSynced later (rw (check_synced_initial, e) at h) in
            (n, there m, w)
        | inl (true, e) ↦ (now, here refl, synced-IsSynced now e)
        | inl (false, e) ↦
            let (n, m, w) =
              check_synced_initial-IsSynced later (rw (check_synced_initial, e) at h) in
            (n, there m, w)
      ]
