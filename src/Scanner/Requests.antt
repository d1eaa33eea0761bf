-- ===== src/Scanner/Requests.antt =====
-- pkg/scanner/request.go, requestqueue.go and watchitem.go. Each operation of the queue holds its
-- lock, so it is one step; pointers to requests are the requests themselves, which nothing changes.
pub mod Queue
use neutrino_elements.Prelude.{
  ℕ, Bool, true, false, ◌&&◌, List, [], ◌∷◌, ◌++◌, Option, none, some, Result, ok, err, Error, ◌==◌,
  bytes_eq, some_of, or_error, if◌then◌else◌, ◌>>=◌,
}
use neutrino_elements.Ledger.{TxInput, Transaction}

pub data EventType : Type 0 where
  unspent_utxo spent_utxo : EventType

-- The two implementations of the interface.
pub data WatchItem : Type 0 where
  spent_watch_item : (hash index : ℕ) → (output_script : List ℕ) → WatchItem
  unspent_watch_item : (output_script : List ℕ) → WatchItem

abbrev pub new_spent_watch_item_from_input : TxInput → List ℕ → Result WatchItem
new_spent_watch_item_from_input input prevout_script =
    or_error Error.external input.hash >>= λ h. ok (spent_watch_item h input.index prevout_script)

-- address.ToOutputScript is a parameter.
abbrev pub new_unspent_watch_item_from_address :
    (List ℕ → Result (List ℕ)) → List ℕ → Result WatchItem
new_unspent_watch_item_from_address to_output_script addr =
    to_output_script addr >>= λ script. ok (unspent_watch_item script)

abbrev pub item_bytes : WatchItem → List ℕ
item_bytes (spent_watch_item hash index output_script) = output_script
item_bytes (unspent_watch_item output_script) = output_script

abbrev pub event_type : WatchItem → EventType
event_type (spent_watch_item hash index output_script) = EventType.spent_utxo
event_type (unspent_watch_item output_script) = EventType.unspent_utxo

-- An input whose hash is no hash is passed over.
unfoldable pub spends : ℕ → ℕ → TxInput → Bool
spends hash index input = elim input.hash [
  | none ↦ false
  | some h ↦ (h == hash) && (index == input.index)
]

unfoldable pub item_match : WatchItem → Transaction → Bool
unfolding spends
item_match (spent_watch_item hash index output_script) tx = some_of (spends hash index) tx.inputs
item_match (unspent_watch_item output_script) tx = some_of (bytes_eq output_script) tx.outputs

-- `none` is the nil item of a request that no option gave one.
pub record ScanRequest : Type 0 where
  pub client_id : ℕ
  pub start_height : ℕ
  pub item : Option WatchItem
  pub is_persistent : Bool

abbrev pub ScanRequestOption : Type 0
ScanRequestOption = ScanRequest → ScanRequest

abbrev pub with_watch_item : Option WatchItem → ScanRequestOption
with_watch_item item req = record {
  client_id = req.client_id;
  start_height = req.start_height;
  item = item;
  is_persistent = req.is_persistent;
}

abbrev pub with_start_block : ℕ → ScanRequestOption
with_start_block block_height req = record {
  client_id = req.client_id;
  start_height = block_height;
  item = req.item;
  is_persistent = req.is_persistent;
}

abbrev pub with_persistent_watch : ScanRequestOption
with_persistent_watch req = record {
  client_id = req.client_id;
  start_height = req.start_height;
  item = req.item;
  is_persistent = true;
}

abbrev pub with_request_id : ℕ → ScanRequestOption
with_request_id id req = record {
  client_id = id;
  start_height = req.start_height;
  item = req.item;
  is_persistent = req.is_persistent;
}

abbrev pub apply_options : List ScanRequestOption → ScanRequest → ScanRequest
apply_options [] req = req
apply_options (option ∷ options) req = apply_options options (option req)

abbrev pub new_scan_request : List ScanRequestOption → ScanRequest
new_scan_request options =
    apply_options options
      (record { client_id = 0; start_height = 0; item = none; is_persistent = false })

-- The requests selected at a height, and those that remain.
unfoldable pub dequeue_at_height : ℕ → List ScanRequest → List ScanRequest × List ScanRequest
dequeue_at_height height [] = ([], [])
dequeue_at_height height (req ∷ requests) =
    let (selected, remain) = dequeue_at_height height requests in
    if req.start_height == height then (req ∷ selected, remain) else (selected, req ∷ remain)

abbrev pub enqueue : ScanRequest → List ScanRequest → List ScanRequest
enqueue req requests = requests ++ (req ∷ [])

abbrev pub peek : List ScanRequest → Option ScanRequest
peek [] = none
peek (req ∷ requests) = some req

abbrev pub is_empty : List ScanRequest → Bool
is_empty [] = true
is_empty (req ∷ requests) = false

-- The method `Watch`.
abbrev pub watch : List ScanRequestOption → List ScanRequest → List ScanRequest
watch opts requests = enqueue (new_scan_request opts) requests
