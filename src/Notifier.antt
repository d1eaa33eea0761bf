-- ===== src/Notifier.antt =====
-- internal/interface/web-socket/handler and pkg/neutrinod-types/types_ws.go: subscribers over a web
-- socket or HTTP, their requests, and what is sent to them. JSON and the connections are left out: a
-- response is a value, and sending it succeeds.
pub mod Delivery
pub mod Alerts
pub mod Connection
use neutrino_elements.Prelude.{
  ℕ, Bool, true, false, List, [], ◌∷◌, ◌++◌, Option, none, some, Result, ok, err, Error, codes,
  bytes_eq, lookup, insert, delete, if◌then◌else◌, ◌>>=◌,
}
use neutrino_elements.Protocol.VarInt.{ℤ}
use neutrino_elements.Scanner.Requests.{EventType}
use neutrino_elements.Application.{
  Rules, SubscriberMessage, SubscriberEventReport, NotificationService, subscribe, un_subscribe,
}

-- `FromScannerEventTypeToNeutrinodType`; the scanner has no other event types.
unfoldable pub from_scanner_event_type : EventType → List ℕ
from_scanner_event_type EventType.unspent_utxo = codes "unspentUtxo"
from_scanner_event_type EventType.spent_utxo = codes "spentUtxo"

-- `FromNeutrinodTypeToScannerEventType`.
unfoldable pub from_neutrinod_type : List ℕ → Result EventType
from_neutrinod_type name =
    if bytes_eq name (codes "unspentUtxo")
    then ok EventType.unspent_utxo
    else if bytes_eq name (codes "spentUtxo")
    then ok EventType.spent_utxo
    else err Error.invalid

-- The implementations of the interface Subscriber, with the connection's or the endpoint's name.
pub data Subscriber : Type 0 where
  ws_subscriber : (id : ℕ) → (ws_connection : ℕ) → Subscriber
  http_subscriber : (id : ℕ) → (endpoint_url : List ℕ) → Subscriber

abbrev pub subscriber_id : Subscriber → ℕ
subscriber_id (ws_subscriber id conn) = id
subscriber_id (http_subscriber id url) = id

pub data Response : Type 0 where
  error_message : Error → Response
  irregular_event_type : Response
  bad_request : Response
  -- the fixed text of an error over HTTP
  unsuccessful : Response
  -- a GeneralMessageResponse
  successful : Response
  on_chain_event : (event_type : List ℕ) → (tx_id : ℕ) → Response

-- What `handleSubscribers` receives.
pub data SubscriberEvent : Type 0 where
  register : Subscriber → SubscriberEvent
  unregister : Subscriber → SubscriberEvent

-- A round of `handleSubscribers`: the map, and what UnSubscribe makes of the notification service.
unfoldable pub handle_subscriber_event :
    SubscriberEvent
    → NotificationService
    → List (ℕ × Subscriber)
    → List (ℕ × Subscriber) × Option (Result SubscriberMessage)
handle_subscriber_event (register sub) svc subs = (insert (subscriber_id sub) sub subs, none)
handle_subscriber_event (unregister sub) svc subs = (
  delete (subscriber_id sub) subs,
  some (
      un_subscribe
        (record {
          id = subscriber_id sub;
          block_height = ℤ.pos 0;
          events = [];
          wallet_descriptor = [];
        })
        svc),
)

-- What `handleOnChainNotifications` receives.
pub data Notification : Type 0 where
  event : SubscriberEventReport → Notification
  error : (id : ℕ) → Error → Notification

abbrev pub addressee : Notification → ℕ
addressee (event r) = r.subscriber_id
addressee (error id e) = id

abbrev pub response : Notification → Response
response (event r) =
    Response.on_chain_event (from_scanner_event_type r.event_type) r.transaction.tx_id
response (error id e) = Response.error_message e

-- What the loop of `handleOnChainNotifications` hands out: what it writes to web sockets, in this order,
-- and the posts over HTTP. Each post is a goroutine, started here: the posts end in any order, and
-- after what is written later.
pub record Handed : Type 0 where
  pub written : List (Subscriber × Response)
  pub posted : List (Subscriber × Response)

-- The switch over the subscriber's type.
unfoldable pub hand_over : Subscriber → Response → Handed → Handed
hand_over (ws_subscriber id conn) r later = record {
  written = (ws_subscriber id conn, r) ∷ later.written;
  posted = later.posted;
}
hand_over (http_subscriber id url) r later = record {
  written = later.written;
  posted = (http_subscriber id url, r) ∷ later.posted;
}

-- The loop of `handleOnChainNotifications`. An id that the map does not have gives a nil subscriber,
-- whose method panics: that ends the loop.
unfoldable pub handle_on_chain_notifications : List (ℕ × Subscriber) → List Notification → Handed
unfolding hand_over
handle_on_chain_notifications subs [] = record { written = []; posted = [] }
handle_on_chain_notifications subs (n ∷ ns) =
    let later = handle_on_chain_notifications subs ns in
    elim (lookup (addressee n) subs) [
      | none ↦ record { written = []; posted = [] }
      | some sub ↦ hand_over sub (response n) later
    ]

-- SubscriptionRequestWs and SubscriptionRequestHttp.
pub record SubscriptionRequest : Type 0 where
  pub action_type : List ℕ
  pub event_types : List (List ℕ)
  pub descriptor_wallet : List ℕ
  pub start_block_height : ℤ

unfoldable pub scanner_event_types : List (List ℕ) → Result (List EventType)
unfolding from_neutrinod_type
scanner_event_types [] = ok []
scanner_event_types (v ∷ vs) =
    from_neutrinod_type v >>= λ e. scanner_event_types vs >>= λ es. ok (e ∷ es)

-- The responses to a call of the notification service: an error is answered, and then success.
unfoldable pub respond :
    (Error → Response) → Result SubscriberMessage → List SubscriberMessage × List Response
respond failure (ok msg) = (msg ∷ [], Response.successful ∷ [])
respond failure (err e) = ([], failure e ∷ Response.successful ∷ [])

-- The switch over the action of a request, with the responses of its default.
unfoldable pub act :
    Rules
    → (Error → Response)
    → List Response
    → ℕ
    → SubscriptionRequest
    → List EventType
    → NotificationService
    → List SubscriberMessage × List Response
unfolding respond
act rules failure default id req events svc =
    if bytes_eq req.action_type (codes "register")
    then respond failure (
        subscribe rules (record {
          id = id;
          block_height = req.start_block_height;
          events = events;
          wallet_descriptor = req.descriptor_wallet;
        }))
    else if bytes_eq req.action_type (codes "unregister")
    then respond failure (
        un_subscribe
          (record { id = id; block_height = ℤ.pos 0; events = []; wallet_descriptor = [] }) svc)
    else ([], default)

-- A round of `msgloop` in `handleRequest`, for the subscriber of the connection.
unfoldable pub handle_ws_message :
    Rules → ℕ → SubscriptionRequest → NotificationService → List SubscriberMessage × List Response
unfolding act scanner_event_types
handle_ws_message rules id req svc = elim (scanner_event_types req.event_types) [
  | err e ↦ ([], Response.irregular_event_type ∷ [])
  | ok events ↦ act rules (λ e. Response.error_message e) [] id req events svc
]

-- `HandleSubscriptionRequestHttp` behind the decoding, whose event types are the
-- scanner's: `id` is
-- the id that uuid.New gives.
unfoldable pub handle_http_request :
    Rules
    → ℕ
    → SubscriptionRequest
    → List EventType
    → NotificationService
    → List SubscriberMessage × List Response
unfolding act
handle_http_request rules id req events svc =
    act rules (λ e. Response.unsuccessful) (Response.bad_request ∷ []) id req events svc
