-- ===== src/Application/Registration.antt =====
-- `handleSubscribers`: what is registered with the scanner, and what a failure does.
use neutrino_elements.Prelude.{
  ℕ, ◌≡◌, refl, subst, inl, inr, ◌⊎◌, Bool, true, false, List, [], ◌∷◌, append-nil, Result, err,
  Error, Member, here, there, Member-append_split, arith, Bool-cases, insert, if◌then◌else◌, All_at,
}
use neutrino_elements.Scanner.Requests.{ScanRequest}
use neutrino_elements.Scanner.Descriptor.{Watches, watch_descriptor_wallet-Grows}
use neutrino_elements.Application.{
  Subscriber, SubscriberMessage, NotificationService, int_bits, is_panic, watch_subscriber,
  handle_subscriber, handle_subscribers,
}

module _ {Wallet : Type 0} (parse : List ℕ → Result Wallet) (is_range : Wallet → Bool)
    (scripts : Bool → Wallet → Result (List (List ℕ))) where
  stopped :
      (msgs : List SubscriberMessage) (n : NotificationService)
      → n.receiving ≡ false
      → handle_subscribers parse is_range scripts msgs n ≡ (n, [])
  unfolding handle_subscribers
  stopped [] n h = refl
  stopped (msg ∷ msgs) n h = ground arith

  continues :
      (msg : SubscriberMessage) (msgs : List SubscriberMessage) (n : NotificationService)
      → n.receiving ≡ true
      → (handle_subscribers parse is_range scripts (msg ∷ msgs) n).0
        ≡ (handle_subscribers parse is_range scripts msgs
            (handle_subscriber parse is_range scripts msg n).0).0
  unfolding handle_subscribers
  continues msg msgs n h = ground arith

  last_received :
      (msg : SubscriberMessage) (msgs : List SubscriberMessage) (n n' : NotificationService)
      (reports : List (ℕ × Error))
      → n.receiving ≡ true
      → handle_subscriber parse is_range scripts msg n ≡ (n', reports)
      → n'.receiving ≡ false
      → handle_subscribers parse is_range scripts (msg ∷ msgs) n ≡ (n', reports)
  unfolding handle_subscribers
  last_received msg msgs n n' reports r h f = ground (arith, stopped msgs n' f, append-nil reports)

  failed_lem :
      (s : Subscriber) (n : NotificationService) (e : Error) (queue : List ScanRequest)
      → watch_subscriber parse is_range scripts s n.queue ≡ (err e, queue)
      → handle_subscriber parse is_range scripts (SubscriberMessage.register s) n ≡ (
        record { subscribers = insert s.id s n.subscribers; queue = queue; receiving = false },
        if is_panic e then [] else (s.id, e) ∷ [],
      )
  unfolding handle_subscriber
  failed_lem s n e queue h = rw (handle_subscriber, h) refl

  added_by_subscriber :
      (msg : SubscriberMessage) (n : NotificationService) (r : ScanRequest)
      → Member r (handle_subscriber parse is_range scripts msg n).0.queue
      → Member r n.queue
        ⊎ ((s : Subscriber) × (msg ≡ SubscriberMessage.register s)
            × Watches s.id (int_bits s.block_height) r)
  unfolding handle_subscriber
  added_by_subscriber (SubscriberMessage.unregister s) n r m = inl m
  added_by_subscriber SubscriberMessage.quit n r m = inl m
  added_by_subscriber (SubscriberMessage.register s) n r m =
      let (added, e, w) =
        watch_descriptor_wallet-Grows parse is_range scripts s.id s.wallet_descriptor s.events
          (int_bits s.block_height) n.queue in
      elim (Member-append_split r n.queue added (subst (Member r) e m)) [
        | inl i ↦ inl i
        | inr i ↦ inr (s, refl, All_at (Watches s.id (int_bits s.block_height)) r added w i)
      ]

  -- The end of the loop, for the shutdown of the daemon.
  pub handle_subscribers-failed :
      (s : Subscriber) (msgs : List SubscriberMessage) (n : NotificationService) (e : Error)
      (queue : List ScanRequest)
      → n.receiving ≡ true
      → watch_subscriber parse is_range scripts s n.queue ≡ (err e, queue)
      → handle_subscribers parse is_range scripts (SubscriberMessage.register s ∷ msgs) n ≡ (
        record { subscribers = insert s.id s n.subscribers; queue = queue; receiving = false },
        if is_panic e then [] else (s.id, e) ∷ [],
      )
  unfolding handle_subscribers handle_subscriber
  handle_subscribers-failed s msgs n e queue r h =
      last_received (SubscriberMessage.register s) msgs n _ _ r (failed_lem s n e queue h) refl

  -- Every request that the messages add to the scanner's queue is one of a registered subscriber: it
  -- has the subscriber's id, and watches a script for good, from the height on that a conversion of the
  -- subscriber's height to uint32 gives: the height itself only from 0 to 2^32 - 1.
  pub handle_subscribers-Watches :
      (msgs : List SubscriberMessage) (n : NotificationService) (r : ScanRequest)
      → Member r (handle_subscribers parse is_range scripts msgs n).0.queue
      → Member r n.queue
        ⊎ ((s : Subscriber) × Member (SubscriberMessage.register s) msgs
            × Watches s.id (int_bits s.block_height) r)
  unfolding handle_subscribers
  handle_subscribers-Watches [] n r m = inl m
  handle_subscribers-Watches (msg ∷ msgs) n r m = elim (Bool-cases n.receiving) [
    | inr f ↦ inl (subst (λ q. Member r q.0.queue) (stopped (msg ∷ msgs) n f) m)
    | inl f ↦
        elim (handle_subscribers-Watches msgs (handle_subscriber parse is_range scripts msg n).0 r
          (subst (λ q. Member r q.queue) (continues msg msgs n f) m)) [
            | inr (s, i, w) ↦ inr (s, there i, w)
            | inl i ↦ elim (added_by_subscriber msg n r i) [
              | inl j ↦ inl j
              | inr (s, e, w) ↦ inr (s, here e, w)
            ]
          ]
  ]
