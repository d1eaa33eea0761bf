-- ===== src/Client/Config.antt =====
-- cmd/neutrino/main.go and config.go: the state file and the commands that read and write it. A map is
-- an association list. json.Marshal and what json.Unmarshal leaves in an empty map, whose error the
-- code ignores, are parameters.
pub mod Merged
use neutrino_elements.Prelude.{
  ℕ, Bool, true, false, ◌||◌, not, List, [], ◌∷◌, ◌++◌, Option, none, some, Result, ok, err, Error,
  codes, bytes_eq, if◌then◌else◌, ◌>>=◌,
}

abbrev pub State : Type 0
State = List (List ℕ × List ℕ)

unfoldable pub get : List ℕ → State → Option (List ℕ)
get key [] = none
get key ((k, v) ∷ m) = if bytes_eq k key then some v else get key m

-- What indexing a map gives: no text for a key that is not there.
unfoldable pub text_at : List ℕ → State → List ℕ
text_at key state = elim (get key state) [ none ↦ [] | some v ↦ v ]

unfoldable pub put : List ℕ → List ℕ → State → State
put key value [] = (key, value) ∷ []
put key value ((k, v) ∷ m) = if bytes_eq k key then (key, value) ∷ m else (k, v) ∷ put key value m

-- The inner loop of `merge`, over a map from the end of its list: Go leaves the order open.
unfoldable pub merge_one : State → State → State
unfolding put
merge_one [] merged = merged
merge_one ((k, v) ∷ m) merged = put k v (merge_one m merged)

unfoldable pub merge_loop : List State → State → State
unfolding merge_one
merge_loop [] merged = merged
merge_loop (m ∷ maps) merged = merge_loop maps (merge_one m merged)

unfoldable pub merge : List State → State
unfolding merge_loop
merge maps = merge_loop maps []

-- The directory `neutrinoDataDir` and the file `statePath`, which is in it.
pub record Disk : Type 0 where
  pub data_dir : Bool
  pub state_file : Option (List ℕ)

-- Which calls of the operating system fail; a failed write leaves bytes in the file.
pub record Faults : Type 0 where
  pub mkdir_fails : Bool
  pub open_fails : Bool
  pub close_fails : Bool
  pub read_fails : Bool
  pub write_leaves : Option (List ℕ)

module _ (marshal : State → Result (List ℕ)) (unmarshal : List ℕ → State) where
  unfoldable pub get_state : Faults → Disk → Result State
  get_state faults disk = elim disk.state_file [
    | none ↦ err Error.no_match
    | some bytes ↦ if faults.read_fails then err Error.external else ok (unmarshal bytes)
  ]

  -- `os.Stat` and `os.Mkdir`, whose error is ignored.
  unfoldable pub ensure_dir : Faults → Disk → Disk
  ensure_dir faults disk = record disk { data_dir = disk.data_dir || not faults.mkdir_fails }

  -- `os.OpenFile` with O_CREATE, and `Close`.
  unfoldable pub touch : Faults → Disk → Result Disk
  touch faults disk =
      if not disk.data_dir || faults.open_fails
      then err Error.external
      else if faults.close_fails
      then err Error.external
      else ok (record disk {
        state_file = elim disk.state_file [ none ↦ some [] | some bytes ↦ some bytes ];
      })

  unfoldable pub write_file : Faults → List ℕ → Disk → Result (Unit {0}) × Disk
  write_file faults bytes disk = elim faults.write_leaves [
    | none ↦ (ok tt, record disk { state_file = some bytes })
    | some left ↦ (err Error.external, record disk { state_file = some left })
  ]

  -- Behind the first three calls, with the state that was read and the disk.
  unfoldable pub store : Faults → State → Disk → State → Result (Unit {0}) × Disk
  store faults new disk current = elim (marshal (merge (current ∷ new ∷ []))) [
    | err e ↦ (err e, disk)
    | ok bytes ↦ write_file faults bytes disk
  ]

  unfoldable pub set_state : Faults → State → Disk → Result (Unit {0}) × Disk
  set_state faults new disk =
      let disk' = ensure_dir faults disk in
      elim (touch faults disk') [
        | err e ↦ (err e, disk')
        | ok touched ↦ elim (get_state faults touched) [
          | err e ↦ (err e, touched)
          | ok current ↦ store faults new touched current
        ]
      ]

  -- The command `config`, with its flags.
  unfoldable pub configure : Faults → (url path : List ℕ) → Disk → Result (Unit {0}) × Disk
  configure faults url path disk =
      set_state faults ((codes "url", url) ∷ (codes "path", path) ∷ []) disk

  -- The command `config set`.
  unfoldable pub config_set_action : Faults → List (List ℕ) → Disk → Result (Unit {0}) × Disk
  config_set_action faults (key ∷ value ∷ args) disk = set_state faults ((key, value) ∷ []) disk
  config_set_action faults args disk = (err Error.invalid, disk)

  -- The command `config print`: the lines that it prints.
  unfoldable pub config_lines : State → List (List ℕ)
  config_lines [] = []
  config_lines ((key, value) ∷ state) = (key ++ codes ": " ++ value) ∷ config_lines state

  unfoldable pub config_list : Faults → Disk → Result (List (List ℕ))
  config_list faults disk = get_state faults disk >>= λ state. ok (config_lines state)

  -- `getNeutrinodConnection`: host and path of the URL that is dialled.
  unfoldable pub neutrinod_address : Faults → Disk → Result (List ℕ × List ℕ)
  neutrinod_address faults disk = get_state faults disk >>= λ state.
      ok (text_at (codes "url") state, text_at (codes "path") state)
