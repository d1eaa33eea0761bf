-- ===== src/Scanner/Manager.antt =====
-- pkg/scanner/scanner.go: `New`, `Start`, `Stop`, `Watch` and the goroutine `requestsManager`, as steps
-- on the state that they share. A run of the worker is one step, with what is watched meanwhile in its
-- moments, and each report is received at once. Steps behind a panic are more than the program has.
-- `cond.L` is left out: only managers hold it, so that without it two managers have more
-- interleavings, and one has the same.
pub mod Orderly
pub mod Untouched
pub mod Stalls
pub mod Kept
use neutrino_elements.Prelude.{
  ℕ, ◌+◌, ◌-◌, ◌<◌, ◌≡◌, ◌≢◌, Bool, true, false, ◌||◌, List, [], ◌∷◌, ◌++◌, All, Option, none, some,
  Result, err, Error, ltb, ◌==◌, if◌then◌else◌,
}
use neutrino_elements.Scanner.Requests.{ScanRequest, ScanRequestOption, watch, peek, is_empty}
use neutrino_elements.Scanner.Blocks.{ScannerService, Report}
use neutrino_elements.Scanner.Worker.{Moment, Outcome, request_worker}

-- A Go channel of empty structs.
pub record Channel : Type 0 where
  pub capacity : ℕ
  pub buffered : ℕ
  pub closed : Bool

-- The point that a goroutine of `requestsManager` has reached: before `defer`, before `isEmpty`, before
-- `Wait`, in `Wait`, at one of the two selects, or before `peek`.
pub data Point : Type 0 where
  entering testing falling_asleep waiting polling peeking : Point

-- `deferred` is the channel that the deferred call closes: Go evaluates it with the `defer`.
pub record Manager : Type 0 where
  pub deferred : Option ℕ
  pub point : Point

-- The struct `scannerService` with the goroutines that it has started. Channels have numbers, and
-- `quit_ch` is the one that the field holds: the newest. `panicked` is the end of the process.
pub record System : Type 0 where
  pub started : Bool
  pub quit_ch : ℕ
  pub channels : ℕ → Channel
  pub queue : List ScanRequest
  pub managers : List Manager
  pub reports : List Report
  pub panicked : Bool

-- `make(chan struct{}, capacity)`.
abbrev pub make_chan : ℕ → Channel
make_chan capacity = record { capacity = capacity; buffered = 0; closed = false }

abbrev pub put : ℕ → Channel → (ℕ → Channel) → ℕ → Channel
put k c channels j = if j == k then c else channels j

-- `New`: the first channel is not buffered.
abbrev pub new_scanner : System
new_scanner = record {
  started = false;
  quit_ch = 0;
  channels = λ k. make_chan 0;
  queue = [];
  managers = [];
  reports = [];
  panicked = false;
}

-- `Start` where the scanner is not started.
unfoldable pub start_scanner : System → System
start_scanner t = record t {
  started = true;
  quit_ch = t.quit_ch + 1;
  channels = put (t.quit_ch + 1) (make_chan 1) t.channels;
  managers = t.managers ++ (record { deferred = none; point = Point.entering } ∷ []);
}

-- `Stop` where the send does not wait: a send to a closed channel panics.
unfoldable pub stop_scanner : System → System
stop_scanner t =
    let c = t.channels t.quit_ch in
    if c.closed then record t { panicked = true } else record t {
      started = false;
      channels = put t.quit_ch (record c { buffered = c.buffered + 1 }) t.channels;
    }

-- `cond.Signal`: one of the goroutines that wait, if there is any, goes on to its select.
pub data Signal (ms ms' : List Manager) : Type 0 where
  nobody : All (λ m. m.point ≢ Point.waiting) ms → ms' ≡ ms → Signal ms ms'
  wakes :
      (xs ys : List Manager) (m : Manager)
      → m.point ≡ Point.waiting
      → ms ≡ xs ++ (m ∷ ys)
      → ms' ≡ xs ++ (record m { point = Point.polling } ∷ ys)
      → Signal ms ms'

-- The deferred `close`: closing a channel twice panics.
unfoldable pub close_deferred : Option ℕ → System → System
close_deferred none t = t
close_deferred (some k) t =
    let c = t.channels k in
    if c.closed
    then record t { panicked = true }
    else record t { channels = put k (record c { closed = true }) t.channels }

-- Whether the select receives.
abbrev pub ready : Channel → Bool
ready c = ltb 0 c.buffered || c.closed

-- The select of a manager between `xs` and `ys`: it receives from the channel that the field holds
-- now, and returns, or goes on to the test.
unfoldable pub poll : List Manager → Manager → List Manager → System → System
unfolding close_deferred
poll xs m ys t =
    let c = t.channels t.quit_ch in
    if ready c
    then close_deferred m.deferred (record t {
      channels = put t.quit_ch (record c { buffered = c.buffered - 1 }) t.channels;
      managers = xs ++ ys;
    })
    else record t { managers = xs ++ (record m { point = Point.testing } ∷ ys) }

-- Whether the worker has ended with a panic.
unfoldable pub has_panicked : Option (Result (Unit {0})) → Bool
has_panicked (some (err Error.panic)) = true
has_panicked r = false

module _ {S F G : Type 0} (s : ScannerService S F G) where
  -- From `peek` to the end of the worker, whose error is logged. A nil request panics, and nothing
  -- recovers from a panic of the worker, as with a nil item: it ends the process.
  unfoldable pub work :
      S → List (Moment S F) → List Manager → Manager → List Manager → System → System
  unfolding has_panicked
  work first moments xs m ys t = elim (peek t.queue) [
    | none ↦ record t { panicked = true }
    | some next_request ↦
        let o = request_worker s first moments next_request.start_height t.queue in
        record t {
          queue = o.queue;
          managers = xs ++ (record m { point = Point.polling } ∷ ys);
          reports = t.reports ++ o.reports;
          panicked = t.panicked || has_panicked o.result;
        }
  ]

  pub data Label : Type 0 where
    start_fails start_works stop : Label
    watches : ScanRequest → Label
    begins tests sleeps polls : Label
    works : S → List (Moment S F) → Label

  -- A step of a caller or of one of the managers. A send to a channel that is full waits.
  -- Moments that run out before the worker ends leave it between two rounds: such a step is one more
  -- than the program has.
  pub data Step : Label → System → System → Type 0 where
    starts_again : {t u : System} → t.started ≡ true → u ≡ t → Step start_fails t u
    starts : {t u : System} → t.started ≡ false → u ≡ start_scanner t → Step start_works t u
    stops :
        {t u : System}
        → ((t.channels t.quit_ch).closed
            || ltb (t.channels t.quit_ch).buffered (t.channels t.quit_ch).capacity)
          ≡ true
        → u ≡ stop_scanner t
        → Step stop t u
    watches_request :
        {t u : System} {ms : List Manager} {req : ScanRequest}
        → Signal t.managers ms
        → u ≡ record t { queue = t.queue ++ (req ∷ []); managers = ms }
        → Step (watches req) t u
    begins_loop :
        {t u : System} (xs ys : List Manager) (m : Manager)
        → t.managers ≡ xs ++ (m ∷ ys)
        → m.point ≡ Point.entering
        → u ≡ record t {
          managers = xs ++ (record { deferred = some t.quit_ch; point = Point.testing } ∷ ys);
        }
        → Step begins t u
    tests_queue :
        {t u : System} (xs ys : List Manager) (m : Manager)
        → t.managers ≡ xs ++ (m ∷ ys)
        → m.point ≡ Point.testing
        → u ≡ record t {
          managers =
              xs
              ++ (record m {
                point = if is_empty t.queue then Point.falling_asleep else Point.peeking;
              }
                  ∷ ys);
        }
        → Step tests t u
    falls_asleep :
        {t u : System} (xs ys : List Manager) (m : Manager)
        → t.managers ≡ xs ++ (m ∷ ys)
        → m.point ≡ Point.falling_asleep
        → u ≡ record t { managers = xs ++ (record m { point = Point.waiting } ∷ ys) }
        → Step sleeps t u
    polls_quit :
        {t u : System} (xs ys : List Manager) (m : Manager)
        → t.managers ≡ xs ++ (m ∷ ys)
        → m.point ≡ Point.polling
        → u ≡ poll xs m ys t
        → Step polls t u
    works_on :
        {t u : System} {first : S} {moments : List (Moment S F)} (xs ys : List Manager)
        (m : Manager)
        → t.managers ≡ xs ++ (m ∷ ys)
        → m.point ≡ Point.peeking
        → u ≡ work first moments xs m ys t
        → Step (works first moments) t u

  -- A history of steps, each with a label that `May` admits in the state before it.
  pub data Reach (May : System → Label → Type 0) (t : System) : System → Type 0 where
    stay : Reach May t t
    step : {u v : System} {l : Label} → Reach May t u → May u l → Step l u v → Reach May t v
