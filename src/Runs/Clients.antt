-- ===== src/Runs/Clients.antt =====
-- Runs of cmd/neutrino: a state file with one key, and a subscription.
use neutrino_elements.Prelude.{
  ℕ, ◌≡◌, refl, inl, inr, true, false, List, [], ◌∷◌, map, none, some, Result, ok, err, Error,
  codes, lookup, bytes_eq, bytes_eq→eq, if◌then◌else◌, Bool-cases, ok-injective,
}
use neutrino_elements.Protocol.VarInt.{ℤ}
use neutrino_elements.Scanner.Requests.{EventType}
use neutrino_elements.Application.{Rules, Subscriber, SubscriberMessage, validate}
use neutrino_elements.Notifier
use neutrino_elements.Notifier.{Response, SubscriptionRequest, from_scanner_event_type}
use neutrino_elements.Notifier.Connection.{Arrival, call, answer, answer_message}
use neutrino_elements.Client.Config.{
  State, Disk, Faults, get, put, merge, merge_loop, merge_one, get_state, set_state, ensure_dir,
  touch, store, write_file,
}
use neutrino_elements.Client.Config.Merged.{ReadsBack, current_state, or_else, set_state-get_state}
use neutrino_elements.Client.Subscription.{subscription_request, subscribe_action}
use neutrino_elements.Client.Subscription.Agreement.{subscribe_action-answer_message}

-- A codec of maps with the key `url` only.
abbrev encode : State → Result (List ℕ)
encode [] = ok []
encode ((k, v) ∷ []) = if bytes_eq k (codes "url") then ok (1 ∷ v) else err Error.external
encode (x ∷ y ∷ m) = err Error.external

abbrev decode_state : List ℕ → State
decode_state [] = []
decode_state (c ∷ v) = (codes "url", v) ∷ []

encode-ReadsBack : ReadsBack encode decode_state
unfolding get
encode-ReadsBack [] bytes key h = rw (← ok-injective h) refl
encode-ReadsBack ((k, v) ∷ []) bytes key h = elim (Bool-cases (bytes_eq k (codes "url"))) [
  | inl e ↦
      let b : 1 ∷ v ≡ bytes = ok-injective (rw e at h) in
      rw (← b, bytes_eq→eq k (codes "url") e) refl
  | inr e ↦ absurd (let h' = rw e at h in cc)
]
encode-ReadsBack (x ∷ y ∷ m) bytes key h = absurd cc

abbrev no_faults : Faults
no_faults = record {
  mkdir_fails = false;
  open_fails = false;
  close_fails = false;
  read_fails = false;
  write_leaves = none;
}

abbrev disk : Disk
disk = record { data_dir = true; state_file = some (1 ∷ 7 ∷ []) }

set_state-get_state_example :
    (state : State) × (get_state encode decode_state no_faults
        (record { data_dir = true; state_file = some (1 ∷ 8 ∷ []) })
      ≡ ok state)
    × (get (codes "url") state
        ≡ or_else
            (get (codes "url") ((codes "url", 8 ∷ []) ∷ []))
            (get (codes "url") (current_state decode_state disk)))
unfolding set_state ensure_dir touch get_state store write_file merge merge_loop merge_one put
    bytes_eq
set_state-get_state_example =
    set_state-get_state encode decode_state no_faults no_faults ((codes "url", 8 ∷ []) ∷ []) disk
      (record { data_dir = true; state_file = some (1 ∷ 8 ∷ []) }) (codes "url") encode-ReadsBack
      refl refl

abbrev lenient : Rules
lenient = record {
  required_id = λ id. ok tt;
  min = λ bound n. ok tt;
  required_events = λ es. ok tt;
  required_string = λ s. ok tt;
}

abbrev events : List EventType
events = EventType.unspent_utxo ∷ []

abbrev sent : SubscriptionRequest
sent = subscription_request (5 ∷ []) (ℤ.pos 4) (map from_scanner_event_type events)

abbrev arrival : Arrival
arrival = record {
  message = some (7 ∷ []);
  subscribers = (9, Notifier.Subscriber.ws_subscriber 9 50) ∷ [];
  service = record { subscribers = []; queue = []; receiving = true };
}

abbrev registered : Subscriber
registered = record { id = 9; block_height = ℤ.pos 4; events = events; wallet_descriptor = 5 ∷ [] }

subscribe_action-answer_message_example :
    ((subscribe_action (λ m. err Error.external) (λ r. ok (7 ∷ [])) (λ bs. ok tt) sent []).0
      ≡ some (7 ∷ []))
    × (answer_message lenient (λ bs. ok sent) 9 (7 ∷ []) arrival
        ≡ some (call (SubscriberMessage.register registered) ∷ answer Response.successful ∷ []))
unfolding lookup validate
subscribe_action-answer_message_example =
    subscribe_action-answer_message lenient 9 (5 ∷ []) (ℤ.pos 4) events (λ r. ok (7 ∷ []))
      (λ bs. ok sent) (λ m. err Error.external) (λ bs. ok tt) (7 ∷ []) [] arrival
      (Notifier.Subscriber.ws_subscriber 9 50) refl refl refl refl refl
