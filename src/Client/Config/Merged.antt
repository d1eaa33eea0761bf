-- ===== src/Client/Config/Merged.antt =====
-- What the state file holds after `setState`.
use neutrino_elements.Prelude.{
  ℕ, ◌≡◌, refl, sym, ap, ◌∙◌, inl, inr, true, false, ◌||◌, not, List, [], ◌∷◌, Option, none, some,
  Result, ok, err, Error, arith, bytes_eq, bytes_eq→eq, bytes_eq_refl, Bool-cases, Option-cases,
  Result-cases, ok-injective, if◌then◌else◌,
}
use neutrino_elements.Client.Config.{
  State, Disk, Faults, get, put, merge_one, merge_loop, merge, get_state, ensure_dir, touch,
  write_file, store, set_state,
}

-- The first value, if there is one, and else the second.
abbrev pub or_else : Option (List ℕ) → Option (List ℕ) → Option (List ℕ)
or_else none o = o
or_else (some v) o = some v

distinct : (i j k : List ℕ) → bytes_eq i k ≡ false → bytes_eq i j ≡ true → bytes_eq k j ≡ false
distinct i j k e f = elim (Bool-cases (bytes_eq k j)) [
  | inr g ↦ g
  | inl g ↦
      let p : i ≡ k = bytes_eq→eq i j f ∙ sym (bytes_eq→eq k j g) in
      absurd (let e' = rw p at e in let r = bytes_eq_refl k in cc)
]

or_else-none : (o : Option (List ℕ)) → or_else o none ≡ o
or_else-none none = refl
or_else-none (some v) = refl

get-put :
    (j k v : List ℕ) (m : State) → get j (put k v m) ≡ (if bytes_eq k j then some v else get j m)
unfolding get put
get-put j k v [] = refl
get-put j k v ((i, w) ∷ m) = elim (Bool-cases (bytes_eq i k)) [
  | inl e ↦ let e' : i ≡ k = bytes_eq→eq i k e in rw e (rw e' (ground arith))
  | inr e ↦ rw e (elim (Bool-cases (bytes_eq i j)) [
    | inl f ↦ rw (f, distinct i j k e f) refl
    | inr f ↦ rw f (get-put j k v m)
  ])
]

get-merge_one :
    (j : List ℕ) (m merged : State) → get j (merge_one m merged) ≡ or_else (get j m) (get j merged)
unfolding get merge_one
get-merge_one j [] merged = refl
get-merge_one j ((k, v) ∷ m) merged =
    get-put j k v (merge_one m merged) ∙ elim (Bool-cases (bytes_eq k j)) [
      | inl e ↦ rw e refl
      | inr e ↦ rw e (get-merge_one j m merged)
    ]

-- What the state file holds for `getState`, and nothing where there is none.
abbrev pub current_state : (List ℕ → State) → Disk → State
current_state unmarshal disk = elim disk.state_file [
  | none ↦ unmarshal []
  | some bytes ↦ unmarshal bytes
]

module _ (marshal : State → Result (List ℕ)) (unmarshal : List ℕ → State) where
  -- What json.Marshal makes of a map is read back as a map with the same values.
  abbrev pub ReadsBack : Type 0
  ReadsBack =
      (m : State) (bytes : List ℕ) (key : List ℕ)
      → marshal m ≡ ok bytes
      → get key (unmarshal bytes) ≡ get key m

  get-merge :
      (key : List ℕ) (current new : State)
      → get key (merge (current ∷ new ∷ [])) ≡ or_else (get key new) (get key current)
  unfolding merge merge_loop get
  get-merge key current new =
      get-merge_one key new (merge_one current [])
      ∙ ap (or_else (get key new)) (get-merge_one key current [] ∙ or_else-none (get key current))

  store-Merged :
      (faults : Faults) (new current : State) (disk disk' : Disk) (key : List ℕ)
      → ReadsBack
      → store marshal unmarshal faults new disk current ≡ (ok tt, disk')
      → (bytes : List ℕ) × (disk'.state_file ≡ some bytes)
        × (get key (unmarshal bytes) ≡ or_else (get key new) (get key current))
  unfolding store write_file
  store-Merged faults new current disk disk' key back h =
      elim (Result-cases (marshal (merge (current ∷ new ∷ [])))) [
        | inr (x, e) ↦ absurd (let h' = rw (store, e) at h in cc)
        | inl (bytes, e) ↦ elim (Option-cases faults.write_leaves) [
          | inr (left, f) ↦
              let p : store marshal unmarshal faults new disk current
                  ≡ (err Error.external, record disk { state_file = some left }) =
                rw (store, e) (rw (write_file, f) refl) in
              absurd cc
          | inl f ↦
              let p : store marshal unmarshal faults new disk current
                  ≡ (ok tt, record disk { state_file = some bytes }) =
                rw (store, e) (rw (write_file, f) refl) in
              (
                bytes,
                ap (λ (r : Result (Unit {0}) × Disk). r.1.state_file) (sym h ∙ p),
                back (merge (current ∷ new ∷ [])) bytes key e ∙ get-merge key current new,
              )
        ]
      ]

  -- `touch` leaves what `getState` reads.
  touch-current :
      (faults : Faults) (disk touched : Disk)
      → touch marshal unmarshal faults disk ≡ ok touched
      → (bytes : List ℕ) × (touched.state_file ≡ some bytes)
        × (unmarshal bytes ≡ current_state unmarshal disk)
  unfolding touch
  touch-current faults disk touched h = elim (Bool-cases (not disk.data_dir || faults.open_fails)) [
    | inl e ↦ absurd (let h' = rw (touch, e) at h in cc)
    | inr e ↦ elim (Bool-cases faults.close_fails) [
      | inl f ↦
          let p : touch marshal unmarshal faults disk ≡ err Error.external =
            rw (touch, e) (rw f refl) in
          absurd cc
      | inr f ↦
          let p : touch marshal unmarshal faults disk
              ≡ ok (record disk {
                state_file = elim disk.state_file [ none ↦ some [] | some bytes ↦ some bytes ];
              }) =
            rw (touch, e) (rw f refl) in
          let q = ap (λ (d : Disk). d.state_file) (ok-injective (sym h ∙ p)) in
          created disk.state_file q
    ]
  ]
    where
      created :
          (file : Option (List ℕ))
          → touched.state_file ≡ (elim file [ none ↦ some [] | some bytes ↦ some bytes ])
          → (bytes : List ℕ) × (touched.state_file ≡ some bytes)
            × (unmarshal bytes ≡ (elim file [ none ↦ unmarshal [] | some bytes ↦ unmarshal bytes ]))
      created none q = ([], q, refl)
      created (some bytes) q = (bytes, q, refl)

  get_state-current :
      (faults : Faults) (disk : Disk) (bytes : List ℕ) (state : State)
      → disk.state_file ≡ some bytes
      → get_state marshal unmarshal faults disk ≡ ok state
      → state ≡ unmarshal bytes
  unfolding get_state
  get_state-current faults disk bytes state e h = elim (Bool-cases faults.read_fails) [
    | inl f ↦ absurd (let h' = rw (get_state, e, f) at h in cc)
    | inr f ↦ let h' = rw (get_state, e, f) at h in cc
  ]

  -- After a `setState` that returns without an error, and where json reads back what it writes, a
  -- `getState` that can read the file gives, for each key, the new value if there is one, and else the
  -- value that the file held before.
  pub set_state-get_state :
      (faults reading : Faults) (new : State) (disk disk' : Disk) (key : List ℕ)
      → ReadsBack
      → reading.read_fails ≡ false
      → set_state marshal unmarshal faults new disk ≡ (ok tt, disk')
      → (state : State) × (get_state marshal unmarshal reading disk' ≡ ok state)
        × (get key state ≡ or_else (get key new) (get key (current_state unmarshal disk)))
  unfolding set_state get_state ensure_dir
  set_state-get_state faults reading new disk disk' key back r h =
      elim (Result-cases
        (touch marshal unmarshal faults (ensure_dir marshal unmarshal faults disk))) [
          | inr (x, e) ↦ absurd (let h' = rw (set_state, e) at h in cc)
          | inl (touched, e) ↦ elim (Result-cases (get_state marshal unmarshal faults touched)) [
            | inr (x, f) ↦ absurd (let h' = rw (set_state, e, f) at h in cc)
            | inl (current, f) ↦
                let (bytes, g, same) = touch-current faults _ touched e in
                let h' = rw (set_state, e, f) at h in
                let (bytes', k, v) = store-Merged faults new current touched disk' key back h' in
                (
                  unmarshal bytes',
                  rw (get_state, k, r) refl,
                  v
                      ∙ ap (λ st. or_else (get key new) (get key st))
                          (get_state-current faults touched bytes current g f ∙ same),
                )
          ]
        ]
