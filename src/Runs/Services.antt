-- ===== src/Runs/Services.antt =====
-- Runs of the notification service and of its interface.
use neutrino_elements.Prelude.{
  ℕ, ◌≡◌, refl, ◌⊎◌, Bool, true, false, List, [], ◌∷◌, ◌++◌, some, codes, Result, ok, err, Error,
  Member, here, lookup,
}
use neutrino_elements.Protocol.VarInt.{ℤ}
use neutrino_elements.Scanner.Requests.{EventType, ScanRequest, WatchItem}
use neutrino_elements.Scanner.Descriptor.{Watches, watch_descriptor_wallet}
use neutrino_elements.Application.{
  Subscriber, SubscriberMessage, NotificationService, int_bits, handle_subscribers,
}
use neutrino_elements.Application.Registration.{handle_subscribers-Watches}
use neutrino_elements.Notifier.{
  Notification, Response, addressee, response, handle_on_chain_notifications,
}
use neutrino_elements.Notifier as Notifier
use neutrino_elements.Notifier.Delivery.{
  written_to, responses_for, handle_on_chain_notifications-written_to,
}

-- A wallet is its one script, and the empty descriptor is not one.
abbrev parsed : List ℕ → Result (List ℕ)
parsed [] = err Error.external
parsed (b ∷ bs) = ok (b ∷ bs)

abbrev ranged : List ℕ → Bool
ranged w = false

abbrev scripts : Bool → List ℕ → Result (List (List ℕ))
scripts r w = ok (w ∷ [])

abbrev subscriber : ℕ → List ℕ → Subscriber
subscriber id wallet = record {
  id = id;
  block_height = ℤ.pos 8;
  events = EventType.unspent_utxo ∷ [];
  wallet_descriptor = wallet;
}

abbrev service : NotificationService
service = record { subscribers = []; queue = []; receiving = true }

abbrev request : ScanRequest
request = record {
  client_id = 2;
  start_height = 8;
  item = some (WatchItem.unspent_watch_item (5 ∷ []));
  is_persistent = true;
}

handle_subscribers-Watches_example :
    Member request []
    ⊎ ((s : Subscriber) × Member
          (SubscriberMessage.register s)
          (SubscriberMessage.register (subscriber 2 (5 ∷ [])) ∷ [])
        × Watches s.id (int_bits s.block_height) request)
handle_subscribers-Watches_example =
    handle_subscribers-Watches parsed ranged scripts
      (SubscriberMessage.register (subscriber 2 (5 ∷ [])) ∷ []) service request
      (unfold handle_subscribers watch_descriptor_wallet in here refl)

abbrev subscribers : List (ℕ × Notifier.Subscriber)
subscribers =
    (2, Notifier.Subscriber.ws_subscriber 2 30)
    ∷ (3, Notifier.Subscriber.http_subscriber 3 (codes "url"))
    ∷ []

abbrev told : Notification
told = Notification.event (record {
  subscriber_id = 2;
  event_type = EventType.unspent_utxo;
  block_height = 9;
  block_hash = 90;
  transaction = record { tx_id = 6; inputs = []; outputs = [] };
})

handle_on_chain_notifications-written_to_example :
    written_to 2 (
      handle_on_chain_notifications subscribers
        ((told ∷ []) ++ (Notification.error 4 Error.external ∷ told ∷ [])))
    ≡ responses_for 2 (told ∷ [])
handle_on_chain_notifications-written_to_example =
    handle_on_chain_notifications-written_to subscribers 2 30 (told ∷ []) (told ∷ [])
      (Notification.error 4 Error.external) (refl, (refl, tt)) (unfold lookup in refl)
      ((Notifier.Subscriber.ws_subscriber 2 30, unfold lookup in refl), tt) (unfold lookup in refl)
