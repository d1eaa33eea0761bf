-- ===== src/Scanner/Manager/Orderly.antt =====
-- The managers of a scanner whose callers stop it only while it is started, and start it again only
-- when its manager has returned, and with callers that give each request an item.
use neutrino_elements.Prelude.{
  ℕ, ◌-◌, ◌≤◌, ◌≡◌, ◌≢◌, refl, sym, subst, ◌⊎◌, inl, inr, Bool, true, false, List, [], ◌∷◌, ◌++◌,
  none, some, Option, Result, ok, err, Error, All, All-append, Option-cases, arith, length,
  if◌then◌else◌, Bool-cases,
}
use neutrino_elements.Scanner.Requests.{ScanRequest, is_empty, peek}
use neutrino_elements.Scanner.Blocks.{ScannerService}
use neutrino_elements.Scanner.Worker.{Moment}
use neutrino_elements.Scanner.Worker.Items.{HasItem, NoPanics}
use neutrino_elements.Scanner.Worker.Surviving.{ItemsArrive, request_worker-Survived}
use neutrino_elements.Scanner.Manager.Untouched.{stop_scanner_keeps, poll_keeps}
use neutrino_elements.Scanner.Manager.{
  Channel, Point, Manager, System, put, new_scanner, start_scanner, stop_scanner, Signal,
  close_deferred, ready, poll, has_panicked, work, Label, Step, Reach, stay, step,
}

-- The channel of a manager that runs: it is open, and holds the message of `Stop`, if there was one.
abbrev Pending : Bool → Channel → Type 0
Pending started c =
    (c.closed ≡ false) × (c.capacity ≡ 1) × (c.buffered ≡ (if started then 0 else 1))

abbrev Runs : System → Manager → Type 0
Runs t m =
    Pending t.started (t.channels t.quit_ch)
    × (m.point ≡ Point.entering ⊎ (m.deferred ≡ some t.quit_ch))
    × (m.point ≡ Point.peeking → t.queue ≢ [])

-- No manager runs and the scanner is not started, or one does.
abbrev ManagerShape : System → List Manager → Type 0
ManagerShape t [] = t.started ≡ false
ManagerShape t (m ∷ []) = Runs t m
ManagerShape t (m ∷ n ∷ ms) = ⊥

abbrev Inv : System → Type 0
Inv t = (t.panicked ≡ false) × ManagerShape t t.managers

abbrev pub Orderly : {S F G : Type 0} → {s : ScannerService S F G} → System → Label s → Type 0
Orderly t Label.start_works = t.managers ≡ []
Orderly t Label.stop = t.started ≡ true
Orderly t l = Unit {0}

-- No call of `Watch` without an item.
abbrev pub ItemsOnly : {S F G : Type 0} → {s : ScannerService S F G} → Label s → Type 0
ItemsOnly (Label.watches req) = HasItem req
ItemsOnly (Label.works first moments) = ItemsArrive moments
ItemsOnly l = Unit {0}

abbrev pub Careful : {S F G : Type 0} → {s : ScannerService S F G} → System → Label s → Type 0
Careful t l = Orderly t l × ItemsOnly l

abbrev Filled : System → Type 0
Filled t = All HasItem t.queue

-- With one manager there are none beside it.
only :
    (t : System) (xs ys : List Manager) (m : Manager)
    → ManagerShape t (xs ++ (m ∷ ys))
    → (xs ≡ []) × (ys ≡ []) × Runs t m
only t [] [] m h = (refl, refl, h)
only t [] (y ∷ ys) m h = absurd h
only t (x ∷ []) ys m h = absurd h
only t (x ∷ y ∷ xs) ys m h = absurd h

at_one :
    (t : System) (xs ys : List Manager) (m : Manager)
    → Inv t
    → t.managers ≡ xs ++ (m ∷ ys)
    → (xs ≡ []) × (ys ≡ []) × Runs t m
at_one t xs ys m (p, h) e = only t xs ys m (subst (ManagerShape t) e h)

start_scanner-Inv : (t : System) → Inv t → t.managers ≡ [] → Inv (start_scanner t)
unfolding start_scanner
start_scanner-Inv t (p, h) e =
    rw e (p, ((ground arith, ground arith, ground arith), inl refl, λ h. cc))

stop_scanner-Inv :
    (t : System) (ms : List Manager)
    → t.panicked ≡ false
    → ManagerShape t ms
    → t.managers ≡ ms
    → t.started ≡ true
    → Inv (stop_scanner t)
unfolding stop_scanner
stop_scanner-Inv t [] p h e b = absurd cc
stop_scanner-Inv t (m ∷ []) p ((o, c, n), d, q) e b =
    rw (stop_scanner, o, e) (p, ((ground arith, ground arith, ground arith), d, q))
stop_scanner-Inv t (m ∷ n ∷ ms) p h e b = absurd h

watched-ManagerShape :
    (t : System) (req : ScanRequest) (ms : List Manager)
    → ManagerShape t ms
    → ManagerShape (record t { queue = t.queue ++ (req ∷ []) }) ms
watched-ManagerShape t req [] h = h
watched-ManagerShape t req (m ∷ []) (c, d, q) = (c, d, λ k e. nonempty t.queue e)
  where
    nonempty : (l : List ScanRequest) → l ++ (req ∷ []) ≡ [] → ⊥
    nonempty [] e = cc
    nonempty (x ∷ l) e = cc
watched-ManagerShape t req (m ∷ n ∷ ms) h = absurd h

Signal-Inv :
    (t : System) (req : ScanRequest) (ms : List Manager)
    → Inv t
    → Signal t.managers ms
    → Inv (record t { queue = t.queue ++ (req ∷ []); managers = ms })
Signal-Inv t req ms (p, h) (Signal.nobody a e) = (p, rw e (watched-ManagerShape t req t.managers h))
Signal-Inv t req ms (p, h) (Signal.wakes xs ys m k e e') =
    let (a, b, (c, d, q)) = at_one t xs ys m (p, h) e in
    rw (e', a, b) (p, (c, inr (elim d [ inl x ↦ absurd cc | inr x ↦ x ]), λ x. cc))

close_deferred-Inv :
    (k : ℕ) (t : System)
    → (t.channels k).closed ≡ false
    → t.panicked ≡ false
    → t.started ≡ false
    → t.managers ≡ []
    → Inv (close_deferred (some k) t)
unfolding close_deferred
close_deferred-Inv k t o p f e = rw (close_deferred, o, e) (p, f)

poll-Inv :
    (t : System) (xs ys : List Manager) (m : Manager)
    → Inv t
    → t.managers ≡ xs ++ (m ∷ ys)
    → m.point ≡ Point.polling
    → Inv (poll xs m ys t)
unfolding poll
poll-Inv t xs ys m (p, h) e k =
    let (a, b, ((o, c, n), d, q)) = at_one t xs ys m (p, h) e in
    let d' : m.deferred ≡ some t.quit_ch = elim d [ inl x ↦ absurd cc | inr x ↦ x ] in
    elim (Bool-cases t.started) [
      | inl f ↦
          let r : ready (t.channels t.quit_ch) ≡ false = ground arith in
          rw (poll, r, a, b) (p, ((o, c, n), inr d', λ x. cc))
      | inr f ↦
          let r : ready (t.channels t.quit_ch) ≡ true = ground arith in
          let taken : Channel = record (t.channels t.quit_ch) {
            buffered = (t.channels t.quit_ch).buffered - 1;
          } in
          let t' : System = record t { channels = put t.quit_ch taken t.channels; managers = [] } in
          rw (poll, r, a, b, d') (close_deferred-Inv t.quit_ch t' (ground arith) p f refl)
    ]

no_panic : (r : Option (Result (Unit {0}))) → r ≢ some (err Error.panic) → has_panicked r ≡ false
unfolding has_panicked
no_panic (some (err Error.panic)) h = absurd (h refl)
no_panic (some (err e)) h = refl
no_panic (some (ok u)) h = refl
no_panic none h = refl

module _ {S F G : Type 0} (s : ScannerService S F G) (calm : NoPanics s) where
  work-Inv :
      (first : S) (moments : List (Moment S F)) (t : System) (xs ys : List Manager) (m : Manager)
      → Inv t
      → t.managers ≡ xs ++ (m ∷ ys)
      → m.point ≡ Point.peeking
      → ItemsArrive moments
      → Filled t
      → Inv (work s first moments xs m ys t)
  unfolding work
  work-Inv first moments t xs ys m (p, h) e k w i =
      let (a, b, (c, d, q)) = at_one t xs ys m (p, h) e in
      rw (a, b) (worked t.queue refl c (elim d [ inl x ↦ absurd cc | inr x ↦ x ]) (q k))
    where
      worked :
          (l : List ScanRequest)
          → t.queue ≡ l
          → Pending t.started (t.channels t.quit_ch)
          → m.deferred ≡ some t.quit_ch
          → t.queue ≢ []
          → Inv (work s first moments [] m [] t)
      worked [] g c d q = absurd (q g)
      worked (x ∷ l) g c d q =
          let survived = request_worker-Survived s calm first moments x.start_height t.queue w i in
          rw (work, g) (rw (p, no_panic _ survived.0) refl, (c, inr d, λ x. cc))

  work-Filled :
      (first : S) (moments : List (Moment S F)) (t : System) (xs ys : List Manager) (m : Manager)
      → ItemsArrive moments
      → Filled t
      → Filled (work s first moments xs m ys t)
  unfolding work
  work-Filled first moments t xs ys m w i = elim (Option-cases (peek t.queue)) [
    | inl e ↦ rw (work, e) i
    | inr (x, e) ↦
        rw (work, e) (request_worker-Survived s calm first moments x.start_height t.queue w i).1
  ]

  Step-Filled : {l : Label s} {t u : System} → ItemsOnly l → Step s l t u → Filled t → Filled u
  unfolding start_scanner
  Step-Filled w (Step.starts_again h e) i = subst Filled (sym e) i
  Step-Filled w (Step.starts h e) i = subst Filled (sym e) i
  Step-Filled {t} w (Step.stops h e) i =
      subst Filled (sym e) (stop_scanner_keeps (λ q _. All HasItem q) t i)
  Step-Filled {t} w (Step.watches_request g e) i =
      subst Filled (sym e) (All-append HasItem t.queue _ i (w, tt))
  Step-Filled w (Step.begins_loop xs ys m g k e) i = subst Filled (sym e) i
  Step-Filled w (Step.tests_queue xs ys m g k e) i = subst Filled (sym e) i
  Step-Filled w (Step.falls_asleep xs ys m g k e) i = subst Filled (sym e) i
  Step-Filled {t} w (Step.polls_quit xs ys m g k e) i =
      subst Filled (sym e) (poll_keeps (λ q _. All HasItem q) xs ys m t i)
  Step-Filled {t} w (Step.works_on {first} {moments} xs ys m g k e) i =
      subst Filled (sym e) (work-Filled first moments t xs ys m w i)

  Step-Inv : {l : Label s} {t u : System} → Careful t l → Step s l t u → Inv t → Filled t → Inv u
  Step-Inv {t} (w, _) (Step.starts_again h e) v i = subst Inv (sym e) v
  Step-Inv {t} (w, _) (Step.starts h e) v i = subst Inv (sym e) (start_scanner-Inv t v w)
  Step-Inv {t} (w, _) (Step.stops h e) v i =
      subst Inv (sym e) (stop_scanner-Inv t t.managers v.0 v.1 refl w)
  Step-Inv {t} (w, _) (Step.watches_request {ms} {req} g e) v i =
      subst Inv (sym e) (Signal-Inv t req ms v g)
  Step-Inv {t} (w, _) (Step.begins_loop xs ys m g k e) v i =
      subst Inv (sym e)
        (let (a, b, (c, d, q)) = at_one t xs ys m v g in rw (a, b) (v.0, (c, inr refl, λ x. cc)))
  Step-Inv {t} (w, _) (Step.tests_queue xs ys m g k e) v i = subst Inv (sym e) (
      let (a, b, (c, d, q)) = at_one t xs ys m v g in
      rw (a, b) (v.0, (c, inr (elim d [ inl x ↦ absurd cc | inr x ↦ x ]), tested t.queue)))
    where
      tested :
          (l : List ScanRequest)
          → (if is_empty l then Point.falling_asleep else Point.peeking) ≡ Point.peeking
          → l ≢ []
      tested [] x = absurd cc
      tested (x ∷ l) h = λ y. cc
  Step-Inv {t} (w, _) (Step.falls_asleep xs ys m g k e) v i = subst Inv (sym e) (
      let (a, b, (c, d, q)) = at_one t xs ys m v g in
      rw (a, b) (v.0, (c, inr (elim d [ inl x ↦ absurd cc | inr x ↦ x ]), λ x. cc)))
  Step-Inv {t} (w, _) (Step.polls_quit xs ys m g k e) v i =
      subst Inv (sym e) (poll-Inv t xs ys m v g k)
  Step-Inv {t} (_, w) (Step.works_on {first} {moments} xs ys m g k e) v i =
      subst Inv (sym e) (work-Inv first moments t xs ys m v g k w i)

  Reach-Inv : {t u : System} → Reach s Careful t u → Inv t → Filled t → Inv u × Filled u
  Reach-Inv stay v i = (v, i)
  Reach-Inv (step r w x) v i =
      let (v', i') = Reach-Inv r v i in (Step-Inv w x v' i', Step-Filled w.1 x i')

  count : (t : System) (ms : List Manager) → ManagerShape t ms → length ms ≤ 1
  count t [] h = omega arith
  count t (m ∷ []) h = omega arith
  count t (m ∷ n ∷ ms) h = absurd h

  -- From a new scanner, where the stores, the block service and the filters do not panic: with callers
  -- that stop it only while it is started, start it again only when its manager has returned, and
  -- give each request an item, nothing panics, the worker included, at most one manager runs, and one
  -- does while the scanner is started.
  pub Reach-Orderly :
      {t : System}
      → Reach s Careful new_scanner t
      → (t.panicked ≡ false) × (length t.managers ≤ 1) × (t.started ≡ true → length t.managers ≡ 1)
  Reach-Orderly {t} r =
      let (v, _) = Reach-Inv r (refl, refl) tt in
      (v.0, count t t.managers v.1, running t.managers v.1)
    where
      running : (ms : List Manager) → ManagerShape t ms → t.started ≡ true → length ms ≡ 1
      running [] h e = absurd cc
      running (m ∷ []) h e = refl
      running (m ∷ n ∷ ms) h e = absurd h
