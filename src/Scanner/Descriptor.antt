-- ===== src/Scanner/Descriptor.antt =====
-- pkg/scanner/scanner.go: `WatchDescriptorWallet`, over the parser of wallet descriptors.
use neutrino_elements.Prelude.{
  ℕ, ◌%◌, ◌^◌, ◌≡◌, refl, sym, ◌∙◌, ap, Bool, true, false, List, [], ◌∷◌, ◌++◌, append-nil,
  append_assoc, All, All-append, some, Result, ok, err, Error, Result-cases, inl, inr,
}
use neutrino_elements.Scanner.Requests.{
  EventType, WatchItem, ScanRequest, watch, with_request_id, with_start_block, with_watch_item,
  with_persistent_watch,
}

-- The call of `Watch` for one script. The start is an int that becomes a uint32.
unfoldable pub watch_script : ℕ → ℕ → List ℕ → List ScanRequest → List ScanRequest
watch_script request_id block_start script queue =
    watch
      (with_request_id request_id
        ∷ with_start_block (block_start % 2 ^ 32)
        ∷ with_watch_item (some (WatchItem.unspent_watch_item script))
        ∷ with_persistent_watch
        ∷ [])
      queue

unfoldable pub watch_scripts : ℕ → ℕ → List (List ℕ) → List ScanRequest → List ScanRequest
unfolding watch_script
watch_scripts request_id block_start [] queue = queue
watch_scripts request_id block_start (script ∷ scripts) queue =
    watch_scripts request_id block_start scripts (watch_script request_id block_start script queue)

-- The package descriptor is a parameter: `parse`, and of a wallet `is_range` and `scripts`, which is
-- given whether the call has the range of numOsScripts.
module _ {Wallet : Type 0} (parse : List ℕ → Result Wallet) (is_range : Wallet → Bool)
    (scripts : Bool → Wallet → Result (List (List ℕ))) where
  -- Without a range only the first script is watched, and the lack of one is a panic.
  unfoldable pub watch_wallet :
      ℕ
      → ℕ
      → Bool
      → Result (List (List ℕ))
      → List ScanRequest
      → Result (Unit {0}) × List ScanRequest
  unfolding watch_scripts watch_script
  watch_wallet request_id block_start ranged (err e) queue = (err e, queue)
  watch_wallet request_id block_start true (ok ss) queue =
      (ok tt, watch_scripts request_id block_start ss queue)
  watch_wallet request_id block_start false (ok []) queue = (err Error.panic, queue)
  watch_wallet request_id block_start false (ok (s ∷ ss)) queue =
      (ok tt, watch_script request_id block_start s queue)

  unfoldable pub watch_unspent :
      ℕ → Result Wallet → ℕ → List ScanRequest → Result (Unit {0}) × List ScanRequest
  unfolding watch_wallet
  watch_unspent request_id (err e) block_start queue = (err e, queue)
  watch_unspent request_id (ok w) block_start queue =
      watch_wallet request_id block_start (is_range w) (scripts (is_range w) w) queue

  -- Only unspent outputs are watched; an error ends the loop and keeps what was queued.
  unfoldable pub watch_descriptor_wallet :
      ℕ → List ℕ → List EventType → ℕ → List ScanRequest → Result (Unit {0}) × List ScanRequest
  unfolding watch_unspent
  watch_descriptor_wallet request_id desc [] block_start queue = (ok tt, queue)
  watch_descriptor_wallet request_id desc (EventType.spent_utxo ∷ events) block_start queue =
      watch_descriptor_wallet request_id desc events block_start queue
  watch_descriptor_wallet request_id desc (EventType.unspent_utxo ∷ events) block_start queue =
      let step = watch_unspent request_id (parse desc) block_start queue in
      let rest = watch_descriptor_wallet request_id desc events block_start step.1 in
      elim step.0 [ err e ↦ (err e, step.1) | ok _ ↦ rest ]

-- A request of the client for a script's unspent outputs, from the block on and for good.
abbrev pub Watches : ℕ → ℕ → ScanRequest → Type 0
Watches request_id block_start r =
    (script : List ℕ) × (r ≡ record {
      client_id = request_id;
      start_height = block_start % 2 ^ 32;
      item = some (WatchItem.unspent_watch_item script);
      is_persistent = true;
    })

-- A queue that grew by such requests.
abbrev pub Grows : ℕ → ℕ → List ScanRequest → List ScanRequest → Type 0
Grows request_id block_start before after =
    (added : List ScanRequest) × (after ≡ before ++ added)
    × All (Watches request_id block_start) added

Grows-same : (i b : ℕ) (q : List ScanRequest) → Grows i b q q
Grows-same i b q = ([], sym (append-nil q), tt)

Grows-trans : (i b : ℕ) (p q r : List ScanRequest) → Grows i b p q → Grows i b q r → Grows i b p r
Grows-trans i b p q r (xs, e, v) (ys, f, w) =
    (xs ++ ys, f ∙ (ap (λ z. z ++ ys) e ∙ append_assoc p xs ys), All-append (Watches i b) xs ys v w)

watch_script-Grows :
    (i b : ℕ) (s : List ℕ) (q : List ScanRequest) → Grows i b q (watch_script i b s q)
unfolding watch_script
watch_script-Grows i b s q = (_, refl, ((s, refl), tt))

watch_scripts-Grows :
    (i b : ℕ) (ss : List (List ℕ)) (q : List ScanRequest) → Grows i b q (watch_scripts i b ss q)
unfolding watch_scripts
watch_scripts-Grows i b [] q = Grows-same i b q
watch_scripts-Grows i b (s ∷ ss) q =
    Grows-trans i b q _ _ (watch_script-Grows i b s q)
      (watch_scripts-Grows i b ss (watch_script i b s q))

module _ {Wallet : Type 0} (parse : List ℕ → Result Wallet) (is_range : Wallet → Bool)
    (scripts : Bool → Wallet → Result (List (List ℕ))) where
  watch_wallet-Grows :
      (i b : ℕ) (ranged : Bool) (ss : Result (List (List ℕ))) (q : List ScanRequest)
      → Grows i b q (watch_wallet parse is_range scripts i b ranged ss q).1
  unfolding watch_wallet
  watch_wallet-Grows i b ranged (err e) q = Grows-same i b q
  watch_wallet-Grows i b true (ok ss) q = watch_scripts-Grows i b ss q
  watch_wallet-Grows i b false (ok []) q = Grows-same i b q
  watch_wallet-Grows i b false (ok (s ∷ ss)) q = watch_script-Grows i b s q

  watch_unspent-Grows :
      (i b : ℕ) (w : Result Wallet) (q : List ScanRequest)
      → Grows i b q (watch_unspent parse is_range scripts i w b q).1
  unfolding watch_unspent
  watch_unspent-Grows i b (err e) q = Grows-same i b q
  watch_unspent-Grows i b (ok w) q = watch_wallet-Grows i b (is_range w) (scripts (is_range w) w) q

  -- Whether the call succeeds or fails on the way, the queue keeps what it had and grows by requests
  -- of the client for unspent outputs of scripts, persistent and from the given block on.
  pub watch_descriptor_wallet-Grows :
      (i : ℕ) (desc : List ℕ) (events : List EventType) (b : ℕ) (q : List ScanRequest)
      → Grows i b q (watch_descriptor_wallet parse is_range scripts i desc events b q).1
  unfolding watch_descriptor_wallet
  watch_descriptor_wallet-Grows i desc [] b q = Grows-same i b q
  watch_descriptor_wallet-Grows i desc (EventType.spent_utxo ∷ events) b q =
      watch_descriptor_wallet-Grows i desc events b q
  watch_descriptor_wallet-Grows i desc (EventType.unspent_utxo ∷ events) b q =
      let g = watch_unspent-Grows i b (parse desc) q in
      elim (Result-cases (watch_unspent parse is_range scripts i (parse desc) b q).0) [
        | inr (x, e) ↦ rw (watch_descriptor_wallet, e) g
        | inl (x, e) ↦
            rw (watch_descriptor_wallet, e)
              (Grows-trans i b q _ _ g (watch_descriptor_wallet-Grows i desc events b _))
      ]
