-- ===== src/Runs/Connections.antt =====
-- Runs of the web socket handler: a connection that registers, and then sends what is no request.
use neutrino_elements.Prelude.{
  ℕ, ◌≡◌, refl, true, List, [], ◌∷◌, some, Result, ok, err, Error, codes, lookup, if◌then◌else◌,
  bytes_eq,
}
use neutrino_elements.Protocol.VarInt.{ℤ}
use neutrino_elements.Application.{Rules, NotificationService}
use neutrino_elements.Notifier.{Subscriber, SubscriptionRequest}
use neutrino_elements.Notifier.Connection.{
  Arrival, answer_message, handle_request, apply_acts, replace_newlines,
}
use neutrino_elements.Notifier.Connection.Leaving.{Ends, IsAnswered, handle_request_left}

abbrev rules : Rules
rules = record {
  required_id = λ id. ok tt;
  min = λ bound n. ok tt;
  required_events = λ es. ok tt;
  required_string = λ s. ok tt;
}

abbrev service : NotificationService
service = record { subscribers = []; queue = []; receiving = true }

abbrev registration : SubscriptionRequest
registration = record {
  action_type = codes "register";
  event_types = codes "unspentUtxo" ∷ [];
  descriptor_wallet = 5 ∷ [];
  start_block_height = ℤ.pos 4;
}

-- The message `7 newline` stands for the request.
abbrev unmarshal : List ℕ → Result SubscriptionRequest
unmarshal message = if bytes_eq message (7 ∷ 32 ∷ []) then ok registration else err Error.external

abbrev member : List (ℕ × Subscriber)
member = (9, Subscriber.ws_subscriber 9 50) ∷ []

abbrev good : Arrival
good = record { message = some (7 ∷ 10 ∷ []); subscribers = member; service = service }

abbrev bad : Arrival
bad = record { message = some (8 ∷ []); subscribers = member; service = service }

good-IsAnswered : IsAnswered service rules unmarshal 9 good
unfolding answer_message replace_newlines bytes_eq lookup
good-IsAnswered = (_, refl, (_, refl))

bad-Ends : Ends service rules unmarshal 9 50 bad (some (Subscriber.ws_subscriber 9 50))
unfolding answer_message replace_newlines bytes_eq
bad-Ends = Ends.breaks _ refl refl refl

handle_request_left_example :
    lookup 9 (apply_acts service (handle_request rules unmarshal 9 50 (good ∷ bad ∷ [])) [])
    ≡ some (Subscriber.ws_subscriber 9 50)
handle_request_left_example =
    handle_request_left service rules unmarshal 9 50 (good ∷ []) [] bad
      (some (Subscriber.ws_subscriber 9 50)) [] 9 (good-IsAnswered, tt) bad-Ends
