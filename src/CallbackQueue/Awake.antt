-- ===== src/CallbackQueue/Awake.antt =====
-- Where the worker may stand beside the callbacks, and how many turns it needs to the next one.
use co_bridge.Base.{ℕ, ◌≤◌, ◌≡◌, List, [], ◌∷◌, false, length, arith}
use co_bridge.CallbackQueue.{
  Worker, at_head, acquiring, testing, tested, asleep, woken, past_wait, running, stopped, Callback,
  CallbackQueue, Event, work, spurious_wakeup, admit, push, set_quit, notify_all, wake, holds_lock,
}

-- Where the worker may stand while the queue is not stopped: it sleeps, or is about to, only beside
-- an empty queue.
abbrev pub AwakeAt : Worker → List Callback → Type 0
AwakeAt at_head cbs = Unit
AwakeAt acquiring cbs = Unit
AwakeAt testing cbs = Unit
AwakeAt tested cbs = length cbs ≡ 0
AwakeAt asleep cbs = length cbs ≡ 0
AwakeAt woken cbs = Unit
AwakeAt past_wait cbs = Unit
AwakeAt (running cb) cbs = Unit
AwakeAt stopped cbs = ⊥

pub record IsAwake (q : CallbackQueue) : Type 0 where
  pub going : q.quit ≡ false
  pub awake : AwakeAt q.worker q.callback_queue

abbrev pub Unstopped : List Event → Type 0
Unstopped [] = Unit
Unstopped (work ∷ es) = Unstopped es
Unstopped (spurious_wakeup ∷ es) = Unstopped es
Unstopped (admit cb ∷ es) = Unstopped es
Unstopped (push n ∷ es) = Unstopped es
Unstopped (set_quit ∷ es) = ⊥
Unstopped (notify_all ∷ es) = Unstopped es

-- How many turns the worker needs until it takes the next callback that waits.
abbrev pub need : Worker → ℕ
need at_head = 4
need acquiring = 3
need testing = 2
need tested = 0
need asleep = 0
need woken = 3
need past_wait = 1
need (running cb) = 5
need stopped = 0

-- A woken worker may find any queue; only a holder of the lock stands in the way of a push.
pub AwakeAt-wake :
    (w : Worker) (cbs ds : List Callback)
    → holds_lock w ≡ false
    → AwakeAt w cbs
    → AwakeAt (wake w) ds
AwakeAt-wake at_head cbs ds f h = tt
AwakeAt-wake acquiring cbs ds f h = tt
AwakeAt-wake testing cbs ds f h = tt
AwakeAt-wake tested cbs ds f h = cc
AwakeAt-wake asleep cbs ds f h = tt
AwakeAt-wake woken cbs ds f h = tt
AwakeAt-wake past_wait cbs ds f h = tt
AwakeAt-wake (running cb) cbs ds f h = tt
AwakeAt-wake stopped cbs ds f h = h

pub AwakeAt-wake_same : (w : Worker) (cbs : List Callback) → AwakeAt w cbs → AwakeAt (wake w) cbs
AwakeAt-wake_same at_head cbs h = tt
AwakeAt-wake_same acquiring cbs h = tt
AwakeAt-wake_same testing cbs h = tt
AwakeAt-wake_same tested cbs h = h
AwakeAt-wake_same asleep cbs h = tt
AwakeAt-wake_same woken cbs h = tt
AwakeAt-wake_same past_wait cbs h = tt
AwakeAt-wake_same (running cb) cbs h = tt
AwakeAt-wake_same stopped cbs h = h

pub need-wake :
    (w : Worker) (cbs : List Callback) → 1 ≤ length cbs → AwakeAt w cbs → need (wake w) ≤ need w
need-wake at_head cbs n h = omega arith
need-wake acquiring cbs n h = omega arith
need-wake testing cbs n h = omega arith
need-wake tested cbs n h = omega arith
need-wake asleep cbs n h = absurd (omega arith)
need-wake woken cbs n h = omega arith
need-wake past_wait cbs n h = omega arith
need-wake (running cb) cbs n h = omega arith
need-wake stopped cbs n h = elim h [ ]
