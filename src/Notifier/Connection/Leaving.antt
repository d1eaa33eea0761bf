-- ===== src/Notifier/Connection/Leaving.antt =====
-- What a connection leaves in the map of subscribers.
use neutrino_elements.Prelude.{
  ℕ, ◌≡◌, refl, ap, ◌∙◌, inl, inr, List, [], ◌∷◌, ◌++◌, map, Option, none, some, Result, All, arith,
  lookup, insert, lookup-insert, lookup-delete, ◌==◌, if◌then◌else◌, Bool-cases, Option-cases,
  Result-cases,
}
use neutrino_elements.Application.{Rules, SubscriberMessage, NotificationService}
use neutrino_elements.Notifier.{
  Subscriber, Response, SubscriptionRequest, handle_ws_message, handle_subscriber_event,
}
use neutrino_elements.Notifier.Connection.{
  Arrival, Act, call, answer, replace_newlines, answer_message, msg_loop, handle_request,
  apply_acts,
}

module _ (svc : NotificationService) where
  apply_acts_quiet :
      (calls : List SubscriberMessage) (responses : List Response) (rest : List Act)
      (subs : List (ℕ × Subscriber))
      → apply_acts svc ((map (λ m. call m) calls ++ map (λ r. answer r) responses) ++ rest) subs
        ≡ apply_acts svc rest subs
  unfolding apply_acts
  apply_acts_quiet [] [] rest subs = refl
  apply_acts_quiet [] (r ∷ responses) rest subs = apply_acts_quiet [] responses rest subs
  apply_acts_quiet (m ∷ calls) responses rest subs = apply_acts_quiet calls responses rest subs

  module _ (rules : Rules) (unmarshal : List ℕ → Result SubscriptionRequest) (id : ℕ) where
    -- A message that the loop answers.
    abbrev pub IsAnswered : Arrival → Type 0
    IsAnswered a =
        (message : List ℕ) × (a.message ≡ some message)
        × ((acts : List Act) × (answer_message rules unmarshal id message a ≡ some acts))

    -- The end of the connection, and what it leaves in the map under its id: nothing where reading
    -- fails, and its subscriber where a message cannot be answered.
    pub data Ends (conn : ℕ) (a : Arrival) (left : Option Subscriber) : Type 0 where
      fails : a.message ≡ none → left ≡ none → Ends conn a left
      breaks :
          (message : List ℕ)
          → a.message ≡ some message
          → answer_message rules unmarshal id message a ≡ none
          → left ≡ some (Subscriber.ws_subscriber id conn)
          → Ends conn a left

    quiet :
        (message : List ℕ) (a : Arrival) (acts rest : List Act) (subs : List (ℕ × Subscriber))
        → answer_message rules unmarshal id message a ≡ some acts
        → apply_acts svc (acts ++ rest) subs ≡ apply_acts svc rest subs
    unfolding answer_message
    quiet message a acts rest subs h = elim (Result-cases (unmarshal (replace_newlines message))) [
      | inr (x, e) ↦ absurd (let h' = rw (answer_message, e) at h in cc)
      | inl (req, e) ↦ elim (Option-cases (lookup id a.subscribers)) [
        | inl f ↦ absurd (let h' = rw (answer_message, e, f) at h in cc)
        | inr (sub, f) ↦
            let h' = rw (answer_message, e, f) at h in
            let (calls, responses) = handle_ws_message rules id req a.service in
            let g : map (λ m. call m) calls ++ map (λ r. answer r) responses ≡ acts = cc in
            rw (← g) (apply_acts_quiet calls responses rest subs)
      ]
    ]

    msg_loop_left :
        (conn : ℕ) (before after : List Arrival) (last : Arrival) (left : Option Subscriber)
        (subs : List (ℕ × Subscriber)) (j : ℕ)
        → All IsAnswered before
        → Ends conn last left
        → lookup id subs ≡ some (Subscriber.ws_subscriber id conn)
        → lookup j (apply_acts svc (msg_loop rules unmarshal id (before ++ (last ∷ after))) subs)
          ≡ (if id == j then left else lookup j subs)
    unfolding msg_loop apply_acts handle_subscriber_event
    msg_loop_left conn [] after last left subs j w (Ends.fails e g) h =
        rw (msg_loop, e, g) (lookup-delete j id subs)
    msg_loop_left conn [] after last left subs j w (Ends.breaks message e b g) h =
        rw (msg_loop, e, b, g)
          (elim (Bool-cases (id == j)) [
            | inl k ↦ let k' : j ≡ id = ground arith in rw k (rw k' h)
            | inr k ↦ rw k refl
          ])
    msg_loop_left conn (a ∷ before) after last left subs j ((message, e, (acts, q)), w) x h =
        rw (msg_loop, e, q)
          (ap (lookup j) (quiet message a acts _ subs q)
            ∙ msg_loop_left conn before after last left subs j w x h)

    -- Where every message before the end is answered: after the end of the connection the map of
    -- subscribers is as it was before, but that it has nothing under the connection's id if reading
    -- failed, and still the subscriber with its closed connection if a message could not be answered.
    pub handle_request_left :
        (conn : ℕ) (before after : List Arrival) (last : Arrival) (left : Option Subscriber)
        (subs : List (ℕ × Subscriber)) (j : ℕ)
        → All IsAnswered before
        → Ends conn last left
        → lookup j (
            apply_acts svc (handle_request rules unmarshal id conn (before ++ (last ∷ after))) subs)
          ≡ (if id == j then left else lookup j subs)
    unfolding handle_request apply_acts handle_subscriber_event
    handle_request_left conn before after last left subs j w x =
        let sub : Subscriber = Subscriber.ws_subscriber id conn in
        let i : lookup id (insert id sub subs) ≡ some sub =
          lookup-insert id id sub subs ∙ ground arith in
        msg_loop_left conn before after last left (insert id sub subs) j w x i
        ∙ ground (arith, lookup-insert j id sub subs)
