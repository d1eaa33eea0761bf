-- ===== src/Notifier/Delivery.antt =====
-- `handleOnChainNotifications`: who is told of what.
use neutrino_elements.Prelude.{
  ℕ, ◌≡◌, refl, sym, ap, ◌∙◌, subst, inl, inr, true, false, List, [], ◌∷◌, ◌++◌, All, map, keep,
  none, some, arith, ◌==◌, lookup, codes, bytes_eq, bytes_eq→eq, Bool-cases, if◌then◌else◌,
}
use neutrino_elements.Application.{Rules, NotificationService, un_subscribe}
use neutrino_elements.Notifier.{
  Subscriber, subscriber_id, Notification, Response, Handed, hand_over, addressee, response,
  handle_on_chain_notifications, SubscriptionRequest, handle_http_request, act, respond,
}

some-injective : {A : Type 0} {a b : A} → some a ≡ some b → a ≡ b
some-injective h = cc

-- Each subscriber is in the map under its own id, as `addSubscriberSafe` puts it there.
abbrev pub IsKeyed : List (ℕ × Subscriber) → Type 0
IsKeyed subs = All (λ e. subscriber_id e.1 ≡ e.0) subs

abbrev pub HasSubscriber : List (ℕ × Subscriber) → Notification → Type 0
HasSubscriber subs n = (sub : Subscriber) × (lookup (addressee n) subs ≡ some sub)

-- The responses that were written for one subscriber.
abbrev pub written_to : ℕ → Handed → List Response
written_to id h =
    map (λ (d : Subscriber × Response). d.1)
      (keep (λ (d : Subscriber × Response). subscriber_id d.0 == id) h.written)

-- The responses to the notifications for one subscriber.
abbrev pub responses_for : ℕ → List Notification → List Response
responses_for id ns = map response (keep (λ n. addressee n == id) ns)

lookup-IsKeyed :
    (id : ℕ) (subs : List (ℕ × Subscriber)) (sub : Subscriber)
    → IsKeyed subs
    → lookup id subs ≡ some sub
    → subscriber_id sub ≡ id
unfolding lookup
lookup-IsKeyed id [] sub k h = cc
lookup-IsKeyed id ((j, x) ∷ subs) sub (k, ks) h = elim (Bool-cases (j == id)) [
  | inl e ↦
      let same_id : j ≡ id = ground arith in
      let same : x ≡ sub = ground arith in subst (λ y. subscriber_id y ≡ id) same (k ∙ same_id)
  | inr e ↦ lookup-IsKeyed id subs sub ks (ground arith)
]

-- A notification that is handed over to its subscriber.
hand_over-written_to :
    (id conn : ℕ) (sub : Subscriber) (n : Notification) (h : Handed)
    → subscriber_id sub ≡ addressee n
    → (addressee n ≡ id → sub ≡ Subscriber.ws_subscriber id conn)
    → written_to id (hand_over sub (response n) h)
      ≡ (if addressee n == id then response n ∷ written_to id h else written_to id h)
unfolding hand_over
hand_over-written_to id conn (Subscriber.ws_subscriber i c) n h k w =
    elim (Bool-cases (addressee n == id)) [
      | inl e ↦ let t : (i == id) ≡ true = ground arith in rw (t, e) refl
      | inr e ↦ let t : (i == id) ≡ false = ground arith in rw (t, e) refl
    ]
hand_over-written_to id conn (Subscriber.http_subscriber i u) n h k w =
    elim (Bool-cases (addressee n == id)) [
      | inl e ↦ let a : addressee n ≡ id = ground arith in absurd (cc (w a))
      | inr e ↦ rw e refl
    ]

-- Where each subscriber is in the map under its own id: a subscriber with a web socket is written, in
-- their order and once each, the responses to the notifications that are for its id, up to the first
-- notification for an id that the map does not have, and nothing behind that one.
pub handle_on_chain_notifications-written_to :
    (subs : List (ℕ × Subscriber)) (id conn : ℕ) (before after : List Notification)
    (lost : Notification)
    → IsKeyed subs
    → lookup id subs ≡ some (Subscriber.ws_subscriber id conn)
    → All (HasSubscriber subs) before
    → lookup (addressee lost) subs ≡ none
    → written_to id (handle_on_chain_notifications subs (before ++ (lost ∷ after)))
      ≡ responses_for id before
unfolding handle_on_chain_notifications
handle_on_chain_notifications-written_to subs id conn [] after lost k w a h =
    rw (handle_on_chain_notifications, h) refl
handle_on_chain_notifications-written_to subs id conn (n ∷ ns) after lost k w ((sub, e), a) h =
    let ih = handle_on_chain_notifications-written_to subs id conn ns after lost k w a h in
    let one =
      hand_over-written_to id conn sub n (handle_on_chain_notifications subs (ns ++ (lost ∷ after)))
        (lookup-IsKeyed (addressee n) subs sub k e)
        (λ q. some-injective (sym e ∙ ap (λ (j : ℕ). lookup j subs) q ∙ w)) in
    rw (handle_on_chain_notifications, e)
      (one ∙ elim (Bool-cases (addressee n == id)) [
        | inl t ↦ rw (t, ih) refl
        | inr t ↦ rw (t, ih) refl
      ])

-- A request over HTTP to unregister, whose fresh id the notification service does not have, sends
-- nothing to the service, and is answered with an error and then with success.
pub handle_http_request-unregister :
    (rules : Rules) (id : ℕ) (req : SubscriptionRequest) (svc : NotificationService)
    → bytes_eq req.action_type (codes "unregister") ≡ true
    → lookup id svc.subscribers ≡ none
    → handle_http_request rules id req [] svc
      ≡ ([], Response.unsuccessful ∷ Response.successful ∷ [])
unfolding handle_http_request act respond un_subscribe bytes_eq
handle_http_request-unregister rules id req svc u h =
    let a : req.action_type ≡ codes "unregister" =
      bytes_eq→eq req.action_type (codes "unregister") u in
    let n : bytes_eq req.action_type (codes "register") ≡ false = rw a refl in ground arith
