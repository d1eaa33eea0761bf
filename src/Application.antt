-- ===== src/Application.antt =====
-- internal/core/application: the notification service, which registers subscribers with the scanner
-- and turns its reports into events.
pub mod Registration
use neutrino_elements.Prelude.{
  ℕ, ◌+◌, ◌-◌, ◌^◌, is_ok, Bool, true, false, List, [], ◌∷◌, ◌++◌, Option, none, some, Result, ok,
  err, Error, lookup, insert, delete, if◌then◌else◌, ◌>>=◌,
}
use neutrino_elements.Ledger.{Transaction}
use neutrino_elements.Protocol.VarInt.{ℤ}
use neutrino_elements.Scanner.Requests.{EventType, event_type, ScanRequest}
use neutrino_elements.Scanner.Blocks.{Report}
use neutrino_elements.Scanner.Descriptor.{watch_descriptor_wallet}

pub record Subscriber : Type 0 where
  pub id : ℕ
  pub block_height : ℤ
  pub events : List EventType
  pub wallet_descriptor : List ℕ

-- The rules Required and Min of ozzo-validation, at the types that they are used with.
pub record Rules : Type 0 where
  pub required_id : ℕ → Result (Unit {0})
  pub min : ℤ → ℤ → Result (Unit {0})
  pub required_events : List EventType → Result (Unit {0})
  pub required_string : List ℕ → Result (Unit {0})

-- `validate`.
unfoldable pub validate : Rules → Subscriber → Result (Unit {0})
validate rules s = rules.required_id s.id >>= λ _. rules.min (ℤ.pos 1) s.block_height >>= λ _.
    rules.required_events s.events >>= λ _. rules.required_string s.wallet_descriptor

pub record SubscriberEventReport : Type 0 where
  pub subscriber_id : ℕ
  pub event_type : EventType
  pub block_height : ℕ
  pub block_hash : ℕ
  pub transaction : Transaction

-- What `handleSubscribers` receives.
pub data SubscriberMessage : Type 0 where
  register : Subscriber → SubscriberMessage
  unregister : Subscriber → SubscriberMessage
  quit : SubscriberMessage

-- `queue` is the scanner's; `receiving` is whether the loop of `handleSubscribers` still runs.
pub record NotificationService : Type 0 where
  pub subscribers : List (ℕ × Subscriber)
  pub queue : List ScanRequest
  pub receiving : Bool

abbrev pub is_panic : Error → Bool
is_panic Error.panic = true
is_panic _ = false

-- An int as the pattern of its 64 bits.
abbrev pub int_bits : ℤ → ℕ
int_bits (ℤ.pos n) = n
int_bits (ℤ.negsuc n) = 2 ^ 64 - (n + 1)

-- `Subscribe`: the subscriber that is sent to `registerSubs`.
unfoldable pub subscribe : Rules → Subscriber → Result SubscriberMessage
unfolding validate
subscribe rules s = validate rules s >>= λ _. ok (SubscriberMessage.register s)

-- `UnSubscribe`.
unfoldable pub un_subscribe : Subscriber → NotificationService → Result SubscriberMessage
un_subscribe s n = elim (lookup s.id n.subscribers) [
  | none ↦ err Error.not_subscribed
  | some old ↦ ok (SubscriberMessage.unregister s)
]

-- The package descriptor is a parameter, as in Scanner.Descriptor.
module _ {Wallet : Type 0} (parse : List ℕ → Result Wallet) (is_range : Wallet → Bool)
    (scripts : Bool → Wallet → Result (List (List ℕ))) where
  abbrev pub watch_subscriber : Subscriber → List ScanRequest → Result (Unit {0}) × List ScanRequest
  watch_subscriber s queue =
      watch_descriptor_wallet parse is_range scripts s.id s.wallet_descriptor s.events
        (int_bits s.block_height) queue

  -- A round of `handleSubscribers`, and what goes to `subsErrorReport`. A panic is recovered: it ends
  -- the loop without a report.
  unfoldable pub handle_subscriber :
      SubscriberMessage → NotificationService → NotificationService × List (ℕ × Error)
  handle_subscriber (register s) n =
      let (result, queue) = watch_subscriber s n.queue in
      (
        record {
          subscribers = insert s.id s n.subscribers;
          queue = queue;
          receiving = is_ok result;
        },
        elim result [ ok _ ↦ [] | err e ↦ if is_panic e then [] else (s.id, e) ∷ [] ],
      )
  handle_subscriber (unregister s) n =
      (record { subscribers = delete s.id n.subscribers; queue = n.queue; receiving = true }, [])
  handle_subscriber quit n =
      (record { subscribers = n.subscribers; queue = n.queue; receiving = false }, [])

  -- `handleSubscribers` on the messages that are sent to it; behind its end none is received.
  unfoldable pub handle_subscribers :
      List SubscriberMessage → NotificationService → NotificationService × List (ℕ × Error)
  unfolding handle_subscriber
  handle_subscribers [] n = (n, [])
  handle_subscribers (msg ∷ msgs) n =
      let (n', reports) = handle_subscriber msg n in
      let (n'', later) = handle_subscribers msgs n' in
      if n.receiving then (n'', reports ++ later) else (n, [])

-- `handleOnChainEvents` on the scanner's reports. A request without an item is a panic, which ends it.
unfoldable pub handle_on_chain_events : List Report → List SubscriberEventReport
handle_on_chain_events [] = []
handle_on_chain_events (r ∷ rs) =
    let later = handle_on_chain_events rs in
    elim r.request.item [
      | none ↦ []
      | some item ↦
          record {
            subscriber_id = r.request.client_id;
            event_type = event_type item;
            block_height = r.block_height;
            block_hash = r.block_hash;
            transaction = r.transaction;
          }
          ∷ later
    ]
