-- ===== src/Notifier/Alerts.antt =====
-- From the scanner's reports to what subscribers are sent: `handleOnChainEvents` of the notification
-- service and `handleOnChainNotifications`.
use neutrino_elements.Prelude.{
  ℕ, ◌≤◌, ◌≡◌, refl, sym, ◌∙◌, inl, inr, true, List, [], ◌∷◌, map, none, some, Option, ok, All,
  Member, here, there, arith, lookup,
}
use neutrino_elements.Ledger.{Header, Transaction, Block}
use neutrino_elements.Scanner.Requests.{ScanRequest, WatchItem, event_type}
use neutrino_elements.Scanner.Blocks.{ScannerService, Report, request_match}
use neutrino_elements.Scanner.Worker.{Moment, request_worker}
use neutrino_elements.Scanner.Worker.Watching.{HasBlocks}
use neutrino_elements.Scanner.Blocks.Matches.{IsReport}
use neutrino_elements.Scanner.Worker.Reports.{request_worker-IsReport}
use neutrino_elements.Scanner.Worker.Complete.{Sees, request_worker-Found}
use neutrino_elements.Application.{handle_on_chain_events}
use neutrino_elements.Notifier.{
  Subscriber, Notification, Response, Handed, hand_over, from_scanner_event_type,
  handle_on_chain_notifications,
}

-- The responses to the events that the notification service makes of reports.
abbrev pub alerts : List (ℕ × Subscriber) → List Report → Handed
alerts subs reports =
    handle_on_chain_notifications subs
      (map (λ e. Notification.event e) (handle_on_chain_events reports))

-- The response is written to the subscriber's web socket, or posted to its endpoint.
abbrev pub Gets : Subscriber → Response → Handed → Type 0
Gets (Subscriber.ws_subscriber id conn) r h = Member (Subscriber.ws_subscriber id conn, r) h.written
Gets (Subscriber.http_subscriber id url) r h =
    Member (Subscriber.http_subscriber id url, r) h.posted

hand_over-Gets : (sub : Subscriber) (r : Response) (h : Handed) → Gets sub r (hand_over sub r h)
unfolding hand_over
hand_over-Gets (Subscriber.ws_subscriber id conn) r h = here refl
hand_over-Gets (Subscriber.http_subscriber id url) r h = here refl

hand_over-keeps :
    (sub other : Subscriber) (r x : Response) (h : Handed)
    → Gets sub r h
    → Gets sub r (hand_over other x h)
unfolding hand_over
hand_over-keeps (Subscriber.ws_subscriber id conn) (Subscriber.ws_subscriber i c) r x h m = there m
hand_over-keeps (Subscriber.ws_subscriber id conn) (Subscriber.http_subscriber i u) r x h m = m
hand_over-keeps (Subscriber.http_subscriber id url) (Subscriber.ws_subscriber i c) r x h m = m
hand_over-keeps (Subscriber.http_subscriber id url) (Subscriber.http_subscriber i u) r x h m =
    there m

abbrev pub alert : WatchItem → Transaction → Response
alert item tx = Response.on_chain_event (from_scanner_event_type (event_type item)) tx.tx_id

-- The report's request has an item, and its client is a subscriber.
abbrev pub Addressed : List (ℕ × Subscriber) → Report → Type 0
Addressed subs r =
    ((item : WatchItem) × (r.request.item ≡ some item))
    × ((sub : Subscriber) × (lookup r.request.client_id subs ≡ some sub))

alerts_cons :
    (subs : List (ℕ × Subscriber)) (r : Report) (reports : List Report) (sub : Subscriber)
    (item : WatchItem)
    → r.request.item ≡ some item
    → lookup r.request.client_id subs ≡ some sub
    → alerts subs (r ∷ reports) ≡ hand_over sub (alert item r.transaction) (alerts subs reports)
unfolding handle_on_chain_events handle_on_chain_notifications
alerts_cons subs r reports sub item e h =
    rw (handle_on_chain_events, e) (rw (handle_on_chain_notifications, h) refl)

-- Where each report is addressed, all are answered.
alerts_each :
    (subs : List (ℕ × Subscriber)) (r : Report) (reports : List Report) (sub : Subscriber)
    (item : WatchItem)
    → All (Addressed subs) reports
    → Member r reports
    → lookup r.request.client_id subs ≡ some sub
    → r.request.item ≡ some item
    → Gets sub (alert item r.transaction) (alerts subs reports)
alerts_each subs r [] sub item w m e f = elim m [ ]
alerts_each subs r (x ∷ reports) sub item (((i, g), (y, h)), w) (here q) e f =
    let e' : lookup x.request.client_id subs ≡ some sub = rw q e in
    let f' : x.request.item ≡ some item = rw q f in
    rw (alerts_cons subs x reports sub item f' e')
      (rw q (hand_over-Gets sub (alert item r.transaction) (alerts subs reports)))
alerts_each subs r (x ∷ reports) sub item (((i, g), (y, h)), w) (there m) e f =
    rw (alerts_cons subs x reports y i g h) (
      hand_over-keeps sub y (alert item r.transaction) (alert i x.transaction) (alerts subs reports)
        (alerts_each subs r reports sub item w m e f))

-- The client of the report's request is a subscriber.
abbrev pub Known : List (ℕ × Subscriber) → Report → Type 0
Known subs r = (sub : Subscriber) × (lookup r.request.client_id subs ≡ some sub)

module _ {S F G : Type 0} (s : ScannerService S F G) where
  -- A request that matches a transaction has an item.
  addressed :
      (subs : List (ℕ × Subscriber)) (reports : List Report)
      → All (IsReport s) reports
      → All (Known subs) reports
      → All (Addressed subs) reports
  addressed subs [] w k = tt
  addressed subs (r ∷ reports) ((b, g, h, i, e), w) (k, ks) =
      ((item_of r.request.item refl, k), addressed subs reports w ks)
    where
      item_of :
          (o : Option WatchItem)
          → r.request.item ≡ o
          → (item : WatchItem) × (r.request.item ≡ some item)
      item_of none q = absurd (unfold request_match in ground arith)
      item_of (some item) q = (item, q)

module _ {S F G : Type 0} (s : ScannerService S F G) (hash_of : ℕ → ℕ) (block_of : ℕ → Block)
    (world : HasBlocks s hash_of block_of) (req : ScanRequest) (item : WatchItem)
    (has_item : req.item ≡ some item) (height : ℕ) (tx : Transaction)
    (in_block : Member tx (block_of height).transactions) (matches : request_match req tx ≡ true)
    (bound : ℕ) (reached : height ≤ bound) where
  -- A subscriber with a persistent request is sent the event, over its web socket or by a post that
  -- is started, of each transaction that the request
  -- matches, in the block of a height between the request's start and all tips that the worker read.
  -- This is under the conditions that the worker starts no later than the request and returns without
  -- an error, that every report's client is a subscriber, that no block is replaced meanwhile, that
  -- the block service has every block, and that the filter of that block is stored and matches the
  -- item's bytes.
  pub request_worker-alerts :
      (subs : List (ℕ × Subscriber)) (sub : Subscriber) (first : S) (moments : List (Moment S F))
      (start_height : ℕ) (queue : List ScanRequest)
      → ((t : Header) → s.header_db.chain_tip first ≡ ok t → bound ≤ t.height)
      → All
          (Sees s hash_of block_of world req item has_item height tx in_block matches bound reached)
          moments
      → Member req queue
      → start_height ≤ req.start_height
      → req.start_height ≤ height
      → (request_worker s first moments start_height queue).result ≡ some (ok tt)
      → req.is_persistent ≡ true
      → lookup req.client_id subs ≡ some sub
      → All (Known subs) (request_worker s first moments start_height queue).reports
      → Gets sub
          (alert item tx)
          (alerts subs (request_worker s first moments start_height queue).reports)
  request_worker-alerts subs sub first moments start_height queue l a m k k' h p e known =
      let (r, i, (c, d, f), found) =
        request_worker-Found s hash_of block_of world req item has_item height tx in_block matches
          bound reached first moments start_height queue l a m k k' h in
      let sent =
        alerts_each subs r _ sub item
          (addressed s subs _ (request_worker-IsReport s first moments start_height queue) known) i
          (rw c at e) (sym d ∙ has_item) in
      elim found [ inl (q, g) ↦ rw g at sent | inr g ↦ absurd cc ]
