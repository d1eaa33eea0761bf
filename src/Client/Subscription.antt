-- ===== src/Client/Subscription.antt =====
-- cmd/neutrino/subscribe.go: `subscribeAction`, the request that it sends and what it makes of the
-- daemon's messages. json and the connection are parameters.
pub mod Agreement
use neutrino_elements.Prelude.{
  ℕ, Bool, true, false, ◌&&◌, not, List, [], ◌∷◌, ◌++◌, map, Option, none, some, Result, ok, err,
  Error, codes, bytes_eq, if◌then◌else◌, ◌>>=◌,
}
use neutrino_elements.Protocol.VarInt.{ℤ}
use neutrino_elements.Notifier.{SubscriptionRequest}

-- What the three calls of json.Unmarshal make of one message: OnChainEventResponse,
-- GeneralMessageResponse and MessageErrorResponse. A field that the message does not have is no text.
pub record Decoded : Type 0 where
  pub event_type : List ℕ
  pub tx_id : List ℕ
  pub message : List ℕ
  pub error_message : List ℕ

pub data LogLine : Type 0 where
  tx_info : (tx_id : List ℕ) → LogLine
  info : (message : List ℕ) → LogLine
  failure : (error_message : List ℕ) → LogLine

abbrev pub is_text : List ℕ → Bool
is_text [] = false
is_text (c ∷ cs) = true

-- A round of the loop on a message that is decoded.
unfoldable pub log_message : Decoded → List LogLine
log_message d =
    (if is_text d.tx_id then tx_info d.tx_id ∷ [] else [])
    ++ ((if is_text d.message then info d.message ∷ [] else [])
        ++ (if is_text d.error_message then failure d.error_message ∷ [] else []))

-- The flags; the event types are the names as they are given.
unfoldable pub subscription_request :
    (descriptor : List ℕ) → (block_height : ℤ) → (events : List (List ℕ)) → SubscriptionRequest
subscription_request descriptor block_height events = record {
  action_type = codes "register";
  event_types = events;
  descriptor_wallet = descriptor;
  start_block_height = block_height;
}

module _ (decode : List ℕ → Result Decoded) where
  -- The loop over what ReadMessage returns; it ends only with an error. `none` is a message that has
  -- not come yet.
  unfoldable pub read_loop : List (Result (List ℕ)) → List LogLine × Option Error
  unfolding log_message
  read_loop [] = ([], none)
  read_loop (message ∷ messages) =
      let rest = read_loop messages in
      elim (message >>= decode) [ err e ↦ ([], some e) | ok d ↦ (log_message d ++ rest.0, rest.1) ]

  -- `subscribeAction` behind the connection: the bytes written, the log and the error that ends it.
  unfoldable pub subscribe_action :
      (SubscriptionRequest → Result (List ℕ))
      → (List ℕ → Result (Unit {0}))
      → SubscriptionRequest
      → List (Result (List ℕ))
      → Option (List ℕ) × List LogLine × Option Error
  unfolding read_loop
  subscribe_action marshal write req messages = elim (marshal req) [
    | err e ↦ (none, [], some e)
    | ok bytes ↦ elim (write bytes) [
      | err e ↦ (none, [], some e)
      | ok _ ↦ (let (logs, e) = read_loop messages in (some bytes, logs, e))
    ]
  ]
