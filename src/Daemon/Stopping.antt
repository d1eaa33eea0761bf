-- ===== src/Daemon/Stopping.antt =====
-- How the daemon's shutdown depends on its goroutines.
use neutrino_elements.Prelude.{
  ℕ, ◌≡◌, ◌≢◌, ◌∙◌, ap, Bool, true, false, List, [], ◌∷◌, All, Result, err, Error,
}
use neutrino_elements.Scanner.Requests.{ScanRequest}
use neutrino_elements.Application.{
  Subscriber, SubscriberMessage, NotificationService, watch_subscriber, handle_subscribers,
}
use neutrino_elements.Application.Registration.{handle_subscribers-failed}
use neutrino_elements.Daemon.{
  Goroutines, Stopped, send_quit, stop_notification_service, stop_handler, shutdown,
  scanner_stopped, node_stopped,
}

-- The goroutine of `handleSubscribers` runs as long as it receives.
abbrev pub Belongs : NotificationService → Goroutines → Type 0
Belongs n g = g.service_subscribers ≡ n.receiving

-- Neither the scanner nor the node.
abbrev pub IsBefore : Stopped → Type 0
IsBefore x = (x ≢ scanner_stopped) × (x ≢ node_stopped)

send_quit-All :
    (runs : Bool) (stopped : Stopped) (later : List Stopped)
    → IsBefore stopped
    → All IsBefore later
    → All IsBefore (send_quit runs stopped later)
unfolding send_quit
send_quit-All true stopped later p w = (p, w)
send_quit-All false stopped later p w = tt

shutdown-All : (g : Goroutines) → g.service_subscribers ≡ false → All IsBefore (shutdown g)
unfolding shutdown stop_handler stop_notification_service send_quit
shutdown-All g e =
    send_quit-All g.ws_subscribers _ _ ((λ h. cc), (λ h. cc))
      (send_quit-All g.ws_notifications _ _ ((λ h. cc), (λ h. cc))
        (send_quit-All g.on_chain_events _ _ ((λ h. cc), (λ h. cc))
          (ended g.service_subscribers e)))
  where
    ended :
        (runs : Bool)
        → runs ≡ false
        → All IsBefore (
            send_quit runs Stopped.service_subscribers_stopped
              (scanner_stopped ∷ node_stopped ∷ Stopped.error_channel_closed ∷ []))
    ended true e = absurd cc
    ended false e = tt

-- Where the notification service receives a registration whose descriptor cannot be watched, the
-- shutdown of the daemon stops neither the scanner nor the node, whatever is sent after it and
-- whichever of the other goroutines still run: it waits for ever, at the latest for the goroutine that
-- the registration ended.
pub shutdown-failed :
    {Wallet : Type 0} (parse : List ℕ → Result Wallet) (is_range : Wallet → Bool)
    (scripts : Bool → Wallet → Result (List (List ℕ))) (s : Subscriber)
    (msgs : List SubscriberMessage) (n : NotificationService) (e : Error) (queue : List ScanRequest)
    (g : Goroutines)
    → n.receiving ≡ true
    → watch_subscriber parse is_range scripts s n.queue ≡ (err e, queue)
    → Belongs
        (handle_subscribers parse is_range scripts (SubscriberMessage.register s ∷ msgs) n).0
        g
    → All IsBefore (shutdown g)
shutdown-failed parse is_range scripts s msgs n e queue g r h b =
    let f = handle_subscribers-failed parse is_range scripts s msgs n e queue r h in
    shutdown-All g (b ∙ ap (λ (p : NotificationService × List (ℕ × Error)). p.0.receiving) f)
