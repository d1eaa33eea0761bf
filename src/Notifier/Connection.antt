-- ===== src/Notifier/Connection.antt =====
-- internal/interface/web-socket/handler/ws_handler.go: `handleRequest` over the messages of a
-- connection. What `bytes.TrimSpace` and json.Unmarshal make of a message is a parameter, and sending a
-- response succeeds.
pub mod Leaving
use neutrino_elements.Prelude.{
  ℕ, Bool, true, false, List, [], ◌∷◌, ◌++◌, map, Option, none, some, Result, ok, err, lookup, ◌==◌,
  if◌then◌else◌,
}
use neutrino_elements.Application.{Rules, SubscriberMessage, NotificationService}
use neutrino_elements.Notifier.{
  Subscriber, SubscriberEvent, Response, SubscriptionRequest, handle_ws_message,
  handle_subscriber_event,
}

-- What ReadMessage returns, and what a round reads of the program's state: the map of subscribers and
-- the notification service.
pub record Arrival : Type 0 where
  -- `none` is an error of the connection
  pub message : Option (List ℕ)
  pub subscribers : List (ℕ × Subscriber)
  pub service : NotificationService

-- What `handleRequest` does: to `registerSubs` or `unregisterSubs`, to the notification service, to
-- the peer, and to the connection itself.
pub data Act : Type 0 where
  announce : SubscriberEvent → Act
  call : SubscriberMessage → Act
  answer : Response → Act
  close : Act

-- `bytes.Replace` of each newline by a space.
unfoldable pub replace_newlines : List ℕ → List ℕ
replace_newlines [] = []
replace_newlines (c ∷ cs) = (if c == 10 then 32 else c) ∷ replace_newlines cs

module _ (rules : Rules) (unmarshal : List ℕ → Result SubscriptionRequest) (id : ℕ) where
  -- A round on a message; `none` where it ends the loop without more. Where the map does not have the
  -- subscriber, the type assertion panics, and the deferred function closes the connection.
  unfoldable pub answer_message : List ℕ → Arrival → Option (List Act)
  unfolding replace_newlines
  answer_message message a = elim (unmarshal (replace_newlines message)) [
    | err e ↦ none
    | ok req ↦ elim (lookup id a.subscribers) [
      | none ↦ none
      | some subscriber ↦
          let (calls, responses) = handle_ws_message rules id req a.service in
          some (map (λ m. call m) calls ++ map (λ r. answer r) responses)
    ]
  ]

  -- The loop `msgloop`. It goes on for as long as the connection is read without an error.
  unfoldable pub msg_loop : List Arrival → List Act
  unfolding answer_message
  msg_loop [] = []
  msg_loop (a ∷ later) =
      let rest = msg_loop later in
      elim a.message [
        | none ↦
            -- the subscriber has an id and no connection
            announce (SubscriberEvent.unregister (Subscriber.ws_subscriber id 0)) ∷ close ∷ []
        | some message ↦ elim (answer_message message a) [
          | none ↦ close ∷ []
          | some acts ↦ acts ++ rest
        ]
      ]

  -- `handleRequest`, with the id that uuid.New gives.
  unfoldable pub handle_request : ℕ → List Arrival → List Act
  unfolding msg_loop
  handle_request conn arrivals =
      announce (SubscriberEvent.register (Subscriber.ws_subscriber id conn)) ∷ msg_loop arrivals

-- `handleSubscribers` on what a connection announces.
unfoldable pub apply_acts :
    NotificationService → List Act → List (ℕ × Subscriber) → List (ℕ × Subscriber)
apply_acts svc [] subs = subs
apply_acts svc (announce e ∷ acts) subs = apply_acts svc acts (handle_subscriber_event e svc subs).0
apply_acts svc (call m ∷ acts) subs = apply_acts svc acts subs
apply_acts svc (answer r ∷ acts) subs = apply_acts svc acts subs
apply_acts svc (close ∷ acts) subs = apply_acts svc acts subs
