-- ===== src/Client/Subscription/Agreement.antt =====
-- The client's request at the daemon's web socket.
use neutrino_elements.Prelude.{ℕ, ◌≡◌, refl, List, [], ◌∷◌, map, Result, ok, bytes_eq, lookup, some}
use neutrino_elements.Protocol.VarInt.{ℤ}
use neutrino_elements.Scanner.Requests.{EventType}
use neutrino_elements.Application.{
  Rules, Subscriber, SubscriberMessage, NotificationService, validate, subscribe,
}
use neutrino_elements.Notifier
use neutrino_elements.Notifier.{
  Response, SubscriptionRequest, from_scanner_event_type, from_neutrinod_type, scanner_event_types,
  act, respond, handle_ws_message,
}
use neutrino_elements.Notifier.Connection.{Arrival, call, answer, replace_newlines, answer_message}
use neutrino_elements.Client.Subscription.{Decoded, subscription_request, subscribe_action}

from_neutrinod_type-from_scanner :
    (e : EventType) → from_neutrinod_type (from_scanner_event_type e) ≡ ok e
unfolding from_neutrinod_type from_scanner_event_type bytes_eq
from_neutrinod_type-from_scanner EventType.unspent_utxo = refl
from_neutrinod_type-from_scanner EventType.spent_utxo = refl

scanner_event_types-map :
    (events : List EventType) → scanner_event_types (map from_scanner_event_type events) ≡ ok events
unfolding scanner_event_types
scanner_event_types-map [] = refl
scanner_event_types-map (e ∷ events) =
    rw (from_neutrinod_type-from_scanner e, scanner_event_types-map events) refl

module _ (rules : Rules) (id : ℕ) (descriptor : List ℕ) (block_height : ℤ)
    (events : List EventType) where
  abbrev subscriber : Subscriber
  subscriber = record {
    id = id;
    block_height = block_height;
    events = events;
    wallet_descriptor = descriptor;
  }

  abbrev request : SubscriptionRequest
  request = subscription_request descriptor block_height (map from_scanner_event_type events)

  handle_ws_message-request :
      (svc : NotificationService)
      → validate rules subscriber ≡ ok tt
      → handle_ws_message rules id request svc
        ≡ (SubscriberMessage.register subscriber ∷ [], Response.successful ∷ [])
  unfolding handle_ws_message subscription_request act respond subscribe bytes_eq
  handle_ws_message-request svc v =
      rw (handle_ws_message, scanner_event_types-map events) (rw (act, respond, subscribe, v) refl)

  -- Where json carries the client's request to the daemon, both use the connection without an error,
  -- the map has the connection's subscriber, and the subscription is valid: the client writes the
  -- request, and the daemon registers with the notification service a subscriber with the connection's
  -- id and the descriptor, height and event types that the client was given, and answers with success.
  pub subscribe_action-answer_message :
      (marshal : SubscriptionRequest → Result (List ℕ))
      (unmarshal : List ℕ → Result SubscriptionRequest) (decode : List ℕ → Result Decoded)
      (write : List ℕ → Result (Unit {0})) (bytes : List ℕ) (messages : List (Result (List ℕ)))
      (a : Arrival) (sub : Notifier.Subscriber)
      → marshal request ≡ ok bytes
      → write bytes ≡ ok tt
      → unmarshal (replace_newlines bytes) ≡ ok request
      → lookup id a.subscribers ≡ some sub
      → validate rules subscriber ≡ ok tt
      → ((subscribe_action decode marshal write request messages).0 ≡ some bytes)
        × (answer_message rules unmarshal id bytes a
            ≡ some (call (SubscriberMessage.register subscriber) ∷ answer Response.successful ∷ []))
  unfolding subscribe_action answer_message
  subscribe_action-answer_message marshal unmarshal decode write bytes messages a sub e w u l v = (
    rw (subscribe_action, e) (rw w refl),
    rw (answer_message, u, l) (rw (handle_ws_message-request a.service v) refl),
  )
